-- ===== src/Userapp/Flash.antt =====
-- The user application in flash: `init`, `load_from_flash`, `save_tempbuf_to_flash`, `erase` and
-- `fds_callback` of src/core/userapp.cc.
--
-- FDS of the SDK is the parameter `fds`. A write or update is its call, with the status that says whether the
-- operation was queued, and the wait for its event, with the flash as it is then. The event carries the
-- result of the operation, which is `write_result` or `update_result`: the source does not look at it, so the
-- functions here do not use it; what they leave in flash depends on it in the laws. `VERIFY_SUCCESS2` is
-- defined outside the repository: it is the parameter `verify_success2`, given the status, the way on and the
-- early return with its block. The calls are made by one thread and under the lock, so each is one step; the
-- status that Bluetooth clients are sent meanwhile is not kept.
pub mod Laws
pub mod Chain
pub mod Steps
pub mod Update
pub mod Create
pub mod Save
pub mod Load
pub mod Restart
use ledfw_lib.Common.{
  ℕ, zero, suc, ◌+◌, ◌-◌, ◌*◌, ◌/◌, ◌%◌, ◌^◌, min, Bool, true, false, not, Option, none, some, List,
  [], ◌∷◌, ltb, leb, ◌==◌, if◌then◌else◌, length, get_or, take, drop, replicate, write_cells,
  Status, success, invalid_state, is_not_found, is_success, usercode_missing_crc,
  usercode_invalid_crc, verify_success,
}
use ledfw_lib.Userapp.Upload.{
  AppState, App, loading_user_app, user_app_loaded, usercode_size, word_at, load_from_tempbuf,
}

pub data StorageState : Type 0 where
  uninitialized empty storing_user_app user_app_stored : StorageState

abbrev pub is_stored : StorageState → Bool
is_stored user_app_stored = true
is_stored uninitialized = false
is_stored empty = false
is_stored storing_user_app = false

-- The length and the bytes of a record, for `fds_record_t` and `fds_flash_record_t`.
pub record FlashRecord : Type 0 where
  pub length_words : ℕ
  pub data_bytes : List ℕ

-- The calls of FDS, with `FDS_FILE_ID`
pub record Fds (Flash Desc : Type 0) : Type 0 where
  pub find_in_file : Flash → Status
  pub find : Flash → ℕ → Status × Desc
  pub open_record : Flash → Desc → Status × FlashRecord
  pub close_record : Flash → Desc → Status
  pub write_record : Flash → ℕ → FlashRecord → Status × Flash
  pub update_record : Flash → Desc → ℕ → FlashRecord → Status × Flash
  pub write_result : Flash → ℕ → FlashRecord → Status
  pub update_result : Flash → Desc → ℕ → FlashRecord → Status
  pub delete_file : Flash → Status × Flash

abbrev pub code_base : ℕ
code_base = 0x9800

abbrev pub code_crc : ℕ
code_crc = 0xa000

-- `USERCODE_SIZE_WORDS`
abbrev pub size_words : ℕ
size_words = 1024

-- The bytes of a 32-bit word
abbrev pub word_bytes : ℕ → List ℕ
word_bytes w = w % 256 ∷ w / 256 % 256 ∷ w / 0x10000 % 256 ∷ w / 0x1000000 % 256 ∷ []

-- `record_id += 1`
abbrev pub next_id : ℕ → ℕ
next_id id = (id + 1) % 2 ^ 16

-- The variables of the file and the contents of the flash
pub record Storage (Flash : Type 0) : Type 0 where
  pub app : App
  pub storage_state : StorageState
  pub flash : Flash

-- A call returns, or accesses memory outside the application's 4096 bytes, or needs more passes of a loop
-- than the fuel allows.
pub data Outcome (Flash : Type 0) : Type 0 where
  returned : (ret : Status) → (s : Storage Flash) → Outcome Flash
  overrun : Outcome Flash
  unfinished : Outcome Flash

module _ {Flash : Type 0} where
  abbrev pub with_flash : Flash → Storage Flash → Storage Flash
  with_flash f s = record s { flash = f }

  abbrev pub with_storage_state : StorageState → Storage Flash → Storage Flash
  with_storage_state st s = record s { storage_state = st }

  abbrev pub with_app_state : AppState → Storage Flash → Storage Flash
  with_app_state st s = record s { app = record s.app { app_state = st } }

  abbrev pub with_user_code : List ℕ → Storage Flash → Storage Flash
  with_user_code code s = record s { app = record s.app { user_code = code } }

  -- `length_words` words of the temporary buffer from `write_offset` on
  abbrev pub slice : ℕ → ℕ → Storage Flash → FlashRecord
  slice write_offset length_words s = record {
    length_words = length_words;
    data_bytes = take (4 * length_words) (drop (4 * write_offset) s.app.temp_buf);
  }

  -- The early returns of `save_tempbuf_to_flash` and of `load_from_flash`
  abbrev pub save_fail : StorageState → Storage Flash → Status → Outcome Flash
  save_fail old_state s ret = returned ret (with_storage_state old_state s)

  abbrev pub load_fail : AppState → Storage Flash → Status → Outcome Flash
  load_fail old_app_state s ret = returned ret (with_app_state old_app_state s)

module _ {Flash Desc : Type 0} (fds : Fds Flash Desc)
    (verify_success2 : Status → (next fail : Outcome Flash) → Outcome Flash) where
  -- The loop over the records that exist; `next` is the code behind it.
  unfoldable pub update_loop :
      (fuel : ℕ) (old : StorageState) (record_id write_offset : ℕ)
      → Storage Flash
      → (next : ℕ → ℕ → Storage Flash → Outcome Flash) → Outcome Flash
  update_loop zero old record_id write_offset s next = unfinished
  update_loop (suc fuel) old record_id write_offset s next =
      let rest = update_loop fuel old in
      let found = fds.find s.flash record_id in
      let opened = fds.open_record s.flash found.1 in
      let length_words = opened.1.length_words in
      let updated =
        fds.update_record s.flash found.1 record_id (slice write_offset length_words s) in
      if not (ltb write_offset size_words)
      then next record_id write_offset s
      else (if is_not_found found.0
          then next record_id write_offset s
          else verify_success2 found.0
              (verify_success2 opened.0
                (verify_success2 (fds.close_record s.flash found.1)
                  (if ltb size_words (write_offset + length_words)
                    then overrun
                    else verify_success2 updated.0
                        (rest (next_id record_id) (write_offset + length_words)
                          (with_flash updated.1 s) next)
                        (save_fail old (with_flash updated.1 s) updated.0))
                  (save_fail old s (fds.close_record s.flash found.1)))
                (save_fail old s opened.0))
              (save_fail old s found.0))

  -- The loop that creates records; `max_words` is MAX_RECORD_WORDS.
  unfoldable pub write_loop :
      (max_words fuel : ℕ) (old : StorageState) (record_id write_offset : ℕ)
      → Storage Flash
      → (next : Storage Flash → Outcome Flash) → Outcome Flash
  write_loop max_words zero old record_id write_offset s next = unfinished
  write_loop max_words (suc fuel) old record_id write_offset s next =
      let rest = write_loop max_words fuel old in
      let length_words = min max_words (size_words - write_offset) in
      let written = fds.write_record s.flash record_id (slice write_offset length_words s) in
      if not (ltb write_offset size_words)
      then next s
      else verify_success2 written.0
          (rest (next_id record_id) (write_offset + length_words) (with_flash written.1 s) next)
          (save_fail old (with_flash written.1 s) written.0)

  -- The record of the CRC, and the end of the call
  unfoldable pub save_crc : (old : StorageState) (crc : ℕ) → Storage Flash → Outcome Flash
  save_crc old crc s =
      let wrecord : FlashRecord = record { length_words = 1; data_bytes = word_bytes crc } in
      let found = fds.find s.flash code_crc in
      let written = fds.write_record s.flash code_crc wrecord in
      let updated = fds.update_record s.flash found.1 code_crc wrecord in
      let saved = if is_not_found found.0 then written else updated in
      verify_success2 saved.0
        (returned success (with_storage_state user_app_stored (with_flash saved.1 s)))
        (save_fail old (with_flash saved.1 s) saved.0)

  unfoldable pub save_tempbuf_to_flash : (max_words fuel crc : ℕ) → Storage Flash → Outcome Flash
  save_tempbuf_to_flash max_words fuel crc s =
      let old = s.storage_state in
      update_loop fuel old code_base 0 (with_storage_state storing_user_app s)
        (λ record_id write_offset s'.
          write_loop max_words fuel old record_id write_offset s' (save_crc old crc))

  -- The loop over the records of `load_from_flash`; `next` gets the status that ended it.
  unfoldable pub load_loop :
      (fuel : ℕ) (old : AppState) (record_id read_offset : ℕ)
      → Storage Flash
      → (next : Status → Storage Flash → Outcome Flash) → Outcome Flash
  load_loop zero old record_id read_offset s next = unfinished
  load_loop (suc fuel) old record_id read_offset s next =
      let rest = load_loop fuel old in
      let found = fds.find s.flash record_id in
      let opened = fds.open_record s.flash found.1 in
      let n = opened.1.length_words in
      let code =
        write_cells s.app.user_code (λ i. get_or opened.1.data_bytes i 0) (4 * n)
          (4 * read_offset) in
      if is_not_found found.0
      then next found.0 s
      else verify_success2 found.0
          (verify_success2 opened.0
            (if ltb size_words (read_offset + n)
              then overrun
              else verify_success2 (fds.close_record s.flash found.1)
                  (rest (next_id record_id) (read_offset + n) (with_user_code code s) next)
                  (load_fail old (with_user_code code s) (fds.close_record s.flash found.1)))
            (load_fail old s opened.0))
          (load_fail old s found.0)

  -- Behind the loop: the CRC is read and compared.
  unfoldable pub check_crc : (crc16 : List ℕ → ℕ) (old : AppState) → Storage Flash → Outcome Flash
  check_crc crc16 old s =
      let found = fds.find s.flash code_crc in
      let opened = fds.open_record s.flash found.1 in
      let closed = fds.close_record s.flash found.1 in
      let expect_crc = word_at opened.1.data_bytes 0 in
      let loaded : App = record s.app {
        app_state = user_app_loaded;
        led_resets = s.app.led_resets + 1;
      } in
      if is_not_found found.0
      then load_fail old s usercode_missing_crc
      else verify_success2 opened.0
          (verify_success2 closed
            (if expect_crc == crc16 s.app.user_code
              then returned success (record s { app = loaded })
              else load_fail old s usercode_invalid_crc)
            (load_fail old s closed))
          (load_fail old s opened.0)

  unfoldable pub load_from_flash : (crc16 : List ℕ → ℕ) (fuel : ℕ) → Storage Flash → Outcome Flash
  load_from_flash crc16 fuel s =
      let old = s.app.app_state in
      let code = write_cells s.app.user_code (λ i. 0) 4 0 in
      let s' = with_user_code code (with_app_state loading_user_app s) in
      if not (is_stored s.storage_state)
      then returned invalid_state s
      else load_loop fuel old code_base 0 s'
          (λ ret t. if is_not_found ret then check_crc crc16 old t else load_fail old t ret)

module _ {Flash Desc : Type 0} (fds : Fds Flash Desc) where
  -- `registered`, `started` and `lock_init` are the statuses of `fds_register`, `fds_init` and the lock's
  -- `init`; the wait for FDS is over.
  unfoldable pub init :
      (registered started lock_init : Status) → Storage Flash → Status × Storage Flash
  init registered started lock_init s =
      let s' = with_user_code (replicate usercode_size 0) s in
      let found = fds.find_in_file s.flash in
      let none_found = with_storage_state empty s' in
      let one_found = with_storage_state user_app_stored s' in
      let searched : Status × Storage Flash =
        if is_not_found found
        then (success, none_found)
        else (if is_success found then (success, one_found) else (found, s')) in
      verify_success registered
        (verify_success started (verify_success lock_init searched (λ e. (e, s'))) (λ e. (e, s')))
        (λ e. (e, s'))

  unfoldable pub erase : Storage Flash → Status × Storage Flash
  erase s = let deleted = fds.delete_file s.flash in (deleted.0, with_flash deleted.1 s)

-- The events of FDS that the callback tells apart; `result` is that of the operation.
pub data FdsEvent : Type 0 where
  initialized : (result : Status) → FdsEvent
  file_deleted record_updated record_written : (file_id : ℕ) (result : Status) → FdsEvent
  further_event : FdsEvent

-- `m_fds_initialized`, `m_storage_state`, the notification that is pending for the thread, and the number of
-- `send_state` actions that were queued.
pub record Events : Type 0 where
  pub fds_initialized : Bool
  pub storage : StorageState
  pub notified : Option ℕ
  pub states_queued : ℕ

abbrev pub file_id_of_app : ℕ
file_id_of_app = 0x4110

unfoldable pub fds_callback : FdsEvent → Events → Events
fds_callback (initialized result) s = record s { fds_initialized = true }
fds_callback (file_deleted file_id result) s =
    if file_id == file_id_of_app
    then (if is_success result
        then record s { storage = empty; states_queued = s.states_queued + 1 }
        else s)
    else s
fds_callback (record_updated file_id result) s =
    if file_id == file_id_of_app then record s { notified = some 0x1234 } else s
fds_callback (record_written file_id result) s =
    if file_id == file_id_of_app then record s { notified = some 0x4567 } else s
fds_callback further_event s = s
