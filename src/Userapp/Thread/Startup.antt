-- ===== src/Userapp/Thread/Startup.antt =====
-- The start of the thread of src/userapp/thread.cc: an application is loaded from flash or from the buffer.
use ledfw_lib.Common.{◌≡◌, true, Status, is_success}
use ledfw_lib.Userapp.Upload.{user_app_loaded}
use ledfw_lib.Userapp.Flash.{Fds, Storage, Outcome, returned}
use ledfw_lib.Userapp.Flash.Laws.{FdsLaws, VerifyLaws}
use ledfw_lib.Userapp.Thread.{Thread}

module _ {Flash Desc : Type 0} {fds : Fds Flash Desc}
    {verify_success2 : Status → (next fail : Outcome Flash) → Outcome Flash} (laws : FdsLaws fds)
    (verify : VerifyLaws verify_success2) where
  -- A load returns, and where it reports success the application is marked as loaded.
  pub record Ends (o : Outcome Flash) : Type 0 where
    pub ret : Status
    pub state : Storage Flash
    pub returns : o ≡ returned ret state
    pub loaded : is_success ret ≡ true → state.app.app_state ≡ user_app_loaded
