-- ===== src/Userapp/Flash/Restart.antt =====
-- A restart after `save_tempbuf_to_flash`: `init` and `load_from_flash` of src/core/userapp.cc.
use ledfw_lib.Common.{
  ℕ, ◌+◌, ◌≤◌, ◌<◌, ◌^◌, ◌≡◌, refl, ap, ◌∙◌, true, ◌==◌, List, length, length-replicate, replicate,
  some, Status, success,
}
use native.Mathlib.Omega.{arith}
use mathlib.Core.Path.{subst}
use ledfw_lib.Userapp.Upload.{App, user_app_loaded, usercode_size}
use ledfw_lib.Userapp.Flash.{
  Fds, Storage, Outcome, StorageState, user_app_stored, returned, overrun, unfinished, code_crc,
  size_words, save_tempbuf_to_flash, load_from_flash, init,
}
use ledfw_lib.Userapp.Flash.Laws.{FdsLaws, VerifyLaws, Completes}
use ledfw_lib.Userapp.Flash.Save.{
  IsWellStored, Holds, SaveResult, stored, failed, crc_record, save-SaveResult,
}
use ledfw_lib.Userapp.Flash.Load.{load-Holds}

abbrev flash_of : {Flash : Type 0} → Flash → Outcome Flash → Flash
flash_of f (returned ret s) = s.flash
flash_of f overrun = f
flash_of f unfinished = f

abbrev ret_of : {Flash : Type 0} → Outcome Flash → Status
ret_of (returned ret s) = ret
ret_of overrun = success
ret_of unfinished = success

module _ {Flash Desc : Type 0} {fds : Fds Flash Desc}
    {verify_success2 : Status → (next fail : Outcome Flash) → Outcome Flash} (laws : FdsLaws fds)
    (verify : VerifyLaws verify_success2) (completes : Completes fds) where
  -- A save that succeeds leaves the buffer in flash.
  pub saved-Holds :
      (crc : ℕ) (s s' : Storage Flash) (o : Outcome Flash)
      → SaveResult laws crc s o
      → o ≡ returned success s'
      → Holds (laws.lookup s'.flash) s.app.temp_buf crc
  saved-Holds crc s s' o (stored f h) e =
      subst (λ t. Holds (laws.lookup t) s.app.temp_buf crc) (ap (flash_of f) e) h
  saved-Holds crc s s' o (failed f st ne w) e = absurd (ne (ap ret_of e))

  init-found :
      (app : App) (st : StorageState) (f : Flash) (k : ℕ) (crc : ℕ)
      → laws.lookup f k ≡ some (crc_record crc)
      → (init fds success success success (record { app = app; storage_state = st; flash = f })).1
        ≡ record {
          app = record app { user_code = replicate usercode_size 0 };
          storage_state = user_app_stored;
          flash = f;
        }
  unfolding init
  init-found app st f k crc e =
      let g : fds.find_in_file f ≡ success = laws.file_found f k (crc_record crc) e in
      rw (init, g) refl

  -- If `save_tempbuf_to_flash` with the CRC of a buffer of full size reports success, from a chain that fits,
  -- and each operation that it queued was completed with success, then after a restart, with RAM in any state
  -- and an `init` without errors, `load_from_flash` reports success and the code in RAM is that buffer,
  -- marked as loaded.
  pub load-save :
      (crc16 : List ℕ → ℕ) (max_words fuel : ℕ) (s s' : Storage Flash) (app : App)
      (st : StorageState)
      → 1 ≤ max_words
      → size_words < fuel
      → length s.app.temp_buf ≡ usercode_size
      → IsWellStored (laws.lookup s.flash)
      → crc16 s.app.temp_buf < 2 ^ 16
      → save_tempbuf_to_flash fds verify_success2 max_words fuel (crc16 s.app.temp_buf) s
        ≡ returned success s'
      → let started =
          init fds success success success
            (record { app = app; storage_state = st; flash = s'.flash }) in
        load_from_flash fds verify_success2 crc16 fuel started.1
        ≡ returned success (record {
          app = record app {
            app_state = user_app_loaded;
            user_code = s.app.temp_buf;
            led_resets = app.led_resets + 1;
          };
          storage_state = user_app_stored;
          flash = s'.flash;
        })
  load-save crc16 max_words fuel s s' app st some_words enough size well small saved =
      let crc : ℕ = crc16 s.app.temp_buf in
      let h : Holds (laws.lookup s'.flash) s.app.temp_buf crc =
        saved-Holds crc s s' (save_tempbuf_to_flash fds verify_success2 max_words fuel crc s)
          (save-SaveResult laws verify completes max_words fuel crc s some_words enough size well)
          saved in
      let fresh : Storage Flash = record {
        app = record app { user_code = replicate usercode_size 0 };
        storage_state = user_app_stored;
        flash = s'.flash;
      } in
      let same : (crc == crc) ≡ true = ground arith in
      ap (load_from_flash fds verify_success2 crc16 fuel)
        (init-found app st s'.flash code_crc crc h.crc_found)
      ∙ load-Holds laws verify crc16 fuel s.app.temp_buf crc fresh refl
          (length-replicate {A = ℕ} usercode_size 0) h (omega arith) enough
      ∙ rw (same) refl
