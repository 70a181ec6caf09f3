-- ===== src/Tests/Flash.antt =====
-- The application in flash: a store in memory, a save, a restart, the start of the thread and a client's
-- session over Bluetooth.
use ledfw_lib.Common.{
  ℕ, ◌≡◌, ◌≢◌, refl, ap, Option, none, some, List, [], ◌∷◌, ℕ_discrete, get_or, replicate,
  length-replicate, Status, success, no_mem, fds_not_found, verify_success,
}
use native.Mathlib.Omega.{arith}
use ledfw_lib.Userapp.Upload.{App, user_app_loaded, usercode_size}
use ledfw_lib.Userapp.Flash.{
  FlashRecord, Fds, Storage, Outcome, returned, empty, user_app_stored, save_tempbuf_to_flash,
  update_loop, write_loop, save_crc, load_from_flash, init,
}
use ledfw_lib.Userapp.Flash.Laws.{FdsLaws, VerifyLaws, Completes}
use ledfw_lib.Userapp.Flash.Chain.{Seg, End}
use ledfw_lib.Userapp.Flash.Save.{IsWellStored, SaveResult, save-SaveResult}
use ledfw_lib.Userapp.Flash.Restart.{load-save}

-- Records by key, the newest first
abbrev pub Flash : Type 0
Flash = List (ℕ × FlashRecord)

abbrev pub Found : Type 0
Found = Option FlashRecord

abbrev pub lookup : Flash → ℕ → Option FlashRecord
lookup [] k = none
lookup ((j, r) ∷ rest) k = elim (ℕ_discrete k j) [ yes e ↦ some r | no n ↦ lookup rest k ]

abbrev pub no_record : FlashRecord
no_record = record { length_words = 0; data_bytes = [] }

abbrev pub status_of : Option FlashRecord → Status
status_of none = fds_not_found
status_of (some r) = success

abbrev pub record_of : Option FlashRecord → FlashRecord
record_of none = no_record
record_of (some r) = r

abbrev pub file_status : Flash → Status
file_status [] = fds_not_found
file_status (x ∷ rest) = success

abbrev pub memory : Fds Flash Found
memory = record {
  find_in_file = file_status;
  find = λ f k. (status_of (lookup f k), lookup f k);
  open_record = λ f d. (success, record_of d);
  close_record = λ f d. success;
  write_record = λ f k r. (success, (k, r) ∷ f);
  update_record = λ f d k r. (success, (k, r) ∷ f);
  write_result = λ f k r. success;
  update_result = λ f d k r. success;
  delete_file = λ f. (success, []);
}

pub lookup_self : (f : Flash) (k : ℕ) (r : FlashRecord) → lookup ((k, r) ∷ f) k ≡ some r
lookup_self f k r =
    elim (ℕ_discrete k k)
      as (λ d.
        (elim d as (λ _. Option FlashRecord) [ yes e ↦ some r | no n ↦ lookup f k ]) ≡ some r) [
          | yes e ↦ refl
          | no n ↦ absurd (n refl)
        ]

pub lookup-other :
    (f : Flash) (k j : ℕ) (r : FlashRecord) → j ≢ k → lookup ((k, r) ∷ f) j ≡ lookup f j
lookup-other f k j r ne =
    elim (ℕ_discrete j k)
      as (λ d.
        (elim d as (λ _. Option FlashRecord) [ yes e ↦ some r | no n ↦ lookup f j ]) ≡ lookup f j) [
          | yes e ↦ absurd (ne e)
          | no n ↦ refl
        ]

pub file_found_lem :
    (f : Flash) (k : ℕ) (r : FlashRecord) → lookup f k ≡ some r → file_status f ≡ success
file_found_lem [] k r e = cc
file_found_lem (x ∷ rest) k r e = refl

abbrev pub memory_laws : FdsLaws memory
memory_laws = record {
  lookup = lookup;
  found = λ f k r e. (ap status_of e, ap (λ (d : Found). (success, record_of d)) e, refl);
  missing = λ f k e. ap status_of e;
  file_found = file_found_lem;
  written = λ f k r e s c. lookup_self f k r;
  write_failed = λ f k r ne. absurd (ne refl);
  write_others = λ f k j r ne. lookup-other f k j r ne;
  updated = λ f k old r e s c. lookup_self f k r;
  update_failed = λ f k r ne. absurd (ne refl);
  update_others = λ f k j old r e ne. lookup-other f k j r ne;
}

abbrev pub memory_completes : Completes memory
memory_completes = record {
  write_completes = λ f k r e. refl;
  update_completes = λ f d k r e. refl;
}

-- `VERIFY_SUCCESS2` with the meaning that it needs
abbrev pub verify : Status → Outcome Flash → Outcome Flash → Outcome Flash
verify s next fail = verify_success s next (λ e. fail)

pub verify_failed :
    (s : Status) (next fail : Outcome Flash) → s ≢ success → verify s next fail ≡ fail
verify_failed success next fail ne = absurd (ne refl)
verify_failed no_mem next fail ne = refl
verify_failed s next fail ne = refl

abbrev pub verify_laws : VerifyLaws verify
verify_laws = record { on_success = λ next fail. refl; on_failure = verify_failed }

pub empty-IsWellStored : IsWellStored (lookup [])
unfolding Seg End
empty-IsWellStored = record {
  records = [];
  chain = record { seg = record {}; end_of = λ j a b. refl };
  fits = omega arith;
}

abbrev pub app : App
app = record {
  app_state = user_app_loaded;
  temp_buf = replicate usercode_size 7;
  user_code = replicate usercode_size 0;
  led_resets = 0;
}

abbrev pub start : Storage Flash
start = record { app = app; storage_state = empty; flash = [] }

abbrev pub first_byte : List ℕ → ℕ
first_byte bytes = get_or bytes 0 0

save-SaveResult_example :
    SaveResult memory_laws 7 start (save_tempbuf_to_flash memory verify 1016 1025 7 start)
save-SaveResult_example =
    save-SaveResult memory_laws verify_laws memory_completes 1016 1025 7 start (omega arith)
      (omega arith) (length-replicate {A = ℕ} usercode_size 7) empty-IsWellStored

-- Two records and the CRC
abbrev pub saved : Storage Flash
saved = record {
  app = app;
  storage_state = user_app_stored;
  flash =
      (0xa000, record { length_words = 1; data_bytes = 7 ∷ 0 ∷ 0 ∷ 0 ∷ [] })
      ∷ (0x9801, record { length_words = 8; data_bytes = replicate 32 7 })
      ∷ (0x9800, record { length_words = 1016; data_bytes = replicate 4064 7 })
      ∷ [];
}

save-start : save_tempbuf_to_flash memory verify 1016 1025 7 start ≡ returned success saved
unfolding save_tempbuf_to_flash update_loop write_loop save_crc ℕ_discrete
save-start = refl

load-save_example :
    load_from_flash memory verify first_byte 1025
      (init memory success success success
        (record { app = app; storage_state = empty; flash = saved.flash })).1
    ≡ returned success (record {
      app = record {
        app_state = user_app_loaded;
        temp_buf = app.temp_buf;
        user_code = app.temp_buf;
        led_resets = 1;
      };
      storage_state = user_app_stored;
      flash = saved.flash;
    })
load-save_example =
    load-save memory_laws verify_laws memory_completes first_byte 1016 1025 start saved app empty
      (omega arith) (omega arith) (length-replicate {A = ℕ} usercode_size 7) empty-IsWellStored
      (omega arith) save-start
