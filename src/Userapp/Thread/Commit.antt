-- ===== src/Userapp/Thread/Commit.antt =====
-- The actions `commit` and the start of the thread of src/userapp/thread.cc.
use ledfw_lib.Common.{
  ℕ, ◌+◌, ◌≤◌, ◌<◌, ◌≡◌, refl, true, false, some, List, [], ◌∷◌, ◌++◌, ◌==◌, length, Status,
  is_success, is_success-ne,
}
use native.Mathlib.Omega.{arith}
use ledfw_lib.Userapp.Upload.{usercode_size, crc_tempbuf, load_from_tempbuf}
use ledfw_lib.Userapp.Flash.{
  Fds, Storage, Outcome, user_app_stored, size_words, with_flash, save_tempbuf_to_flash,
}
use ledfw_lib.Userapp.Flash.Laws.{FdsLaws, VerifyLaws, Completes}
use ledfw_lib.Userapp.Flash.Save.{IsWellStored, Holds, SaveResult, stored, failed, save-SaveResult}
use ledfw_lib.Userapp.Thread.{
  Thread, save_failed, after, check_ret, queue_state, load_to_ram, serve_commit,
}

module _ {Flash Desc : Type 0} {fds : Fds Flash Desc}
    {verify_success2 : Status → (next fail : Outcome Flash) → Outcome Flash} (laws : FdsLaws fds)
    (verify : VerifyLaws verify_success2) (completes : Completes fds) where
  -- After the save of a commit: flash holds the buffer, or the clients were told that the save failed.
  pub data Committed (crc : ℕ) (t : Thread Flash) : Thread Flash → Type 0 where
    all_stored :
        (t' : Thread Flash)
        → t'.storage.app ≡ t.storage.app
        → t'.storage.storage_state ≡ user_app_stored
        → Holds (laws.lookup t'.storage.flash) t.storage.app.temp_buf crc
        → t'.messages ≡ t.messages
        → t'.states_queued ≡ t.states_queued + 1
        → Committed crc t t'
    not_stored :
        (t' : Thread Flash)
        → t'.storage.app ≡ t.storage.app
        → t'.storage.storage_state ≡ t.storage.storage_state
        → IsWellStored (laws.lookup t'.storage.flash)
        → t'.messages ≡ t.messages ++ (save_failed ∷ [])
        → t'.states_queued ≡ t.states_queued + 1
        → Committed crc t t'

  -- What the thread makes of the result of `save_tempbuf_to_flash`
  after-SaveResult :
      (crc : ℕ) (t : Thread Flash) (o : Outcome Flash)
      → SaveResult laws crc t.storage o
      → (t' : Thread Flash) × (after o (λ ret s. some (
            check_ret ret save_failed
              (record (queue_state t) { storage = s; gc_scheduled = t.gc_scheduled + 1 })
              (record (queue_state t) { storage = s })))
          ≡ some t')
        × Committed crc t t'
  after-SaveResult crc t o (stored f h) = (_, refl, all_stored _ refl refl h refl refl)
  after-SaveResult crc t o (failed f e ne w) =
      let n : is_success e ≡ false = is_success-ne e ne in
      let s : Storage Flash = with_flash f t.storage in
      (
        record (queue_state t) { storage = s; messages = t.messages ++ (save_failed ∷ []) },
        rw (n) refl,
        not_stored _ refl refl w refl refl,
      )

  -- `commit` with the CRC of a full buffer, from a chain that fits, is always served: the code in RAM is the
  -- buffer, marked as loaded, and either flash holds the buffer and its CRC or the clients are told that the
  -- save failed and flash holds a chain that fits.
  pub serve_commit-Committed :
      (crc16 : List ℕ → ℕ) (max_words fuel crc : ℕ) (t : Thread Flash)
      → 1 ≤ max_words
      → size_words < fuel
      → length t.storage.app.temp_buf ≡ usercode_size
      → IsWellStored (laws.lookup t.storage.flash)
      → crc16 t.storage.app.temp_buf ≡ crc
      → (t' : Thread Flash) × (serve_commit fds verify_success2 crc16 max_words fuel crc t
          ≡ some t')
        × Committed crc (load_to_ram fds verify_success2 crc16 max_words fuel t) t'
  unfolding serve_commit crc_tempbuf load_from_tempbuf
  serve_commit-Committed crc16 max_words fuel crc t some_words enough size well e =
      let c : (crc == crc) ≡ true = ground arith in
      let t1 : Thread Flash = load_to_ram fds verify_success2 crc16 max_words fuel t in
      let (t', f, r) =
        after-SaveResult crc t1
          (save_tempbuf_to_flash fds verify_success2 max_words fuel crc t1.storage)
          (save-SaveResult laws verify completes max_words fuel crc t1.storage some_words enough
            size well) in
      (t', rw (serve_commit, e, c) f, r)
