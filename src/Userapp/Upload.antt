-- ===== src/Userapp/Upload.antt =====
-- Loading an application into RAM: the temporary buffer of src/core/userapp.cc, and the actions of
-- src/userapp/thread.cc that fill it and run what it holds.
--
-- `m_temp_buf` and `USERCODE_BUFFER` are the lists of their bytes. `crc16_compute` of the SDK is a
-- parameter. The lock makes each callback one step.
pub mod Chunks
use ledfw_lib.Common.{
  ℕ, ◌+◌, ◌*◌, Bool, true, false, Option, none, some, List, [], ◌∷◌, ltb, ◌==◌, if◌then◌else◌,
  add_size, length, get_or, replicate, write_cells, Status, success, invalid_length,
  usercode_not_available, verify_success,
}
use ledfw_lib.Userapp.Desc.{Words, DescTbl, full_desc}

pub data AppState : Type 0 where
  uninitialized loading_user_app user_app_loaded : AppState

-- `m_app_state`, `m_temp_buf`, `USERCODE_BUFFER`, and the number of calls of `led::reset_all`.
pub record App : Type 0 where
  pub app_state : AppState
  pub temp_buf : List ℕ
  pub user_code : List ℕ
  pub led_resets : ℕ

abbrev pub usercode_size : ℕ
usercode_size = 0x1000

unfoldable pub clear_tempbuf : App → Status × App
clear_tempbuf s = (success, record s { temp_buf = replicate usercode_size 0 })

-- `offset + length` is a `size_t`.
unfoldable pub write_tempbuf : (offset : ℕ) → (buffer : List ℕ) → App → Status × App
write_tempbuf offset buffer s =
    if ltb usercode_size (add_size offset (length buffer)) then (invalid_length, s) else (
      success,
      record s {
        temp_buf = write_cells s.temp_buf (λ i. get_or buffer i 0) (length buffer) offset;
      },
    )

-- What a reader without the lock can see in between is `loading_user_app`.
unfoldable pub load_from_tempbuf : App → Status × App
load_from_tempbuf s =
    let s' : App = record s { app_state = loading_user_app } in
    (
      success,
      record s' {
        user_code = s'.temp_buf;
        app_state = user_app_loaded;
        led_resets = s'.led_resets + 1;
      },
    )

abbrev pub is_loaded : AppState → Bool
is_loaded user_app_loaded = true
is_loaded uninitialized = false
is_loaded loading_user_app = false

-- A 32-bit word of memory, as the little-endian processor reads it.
abbrev pub word_at : List ℕ → Words
word_at bytes i =
    get_or bytes (4 * i) 0
    + 0x100 * get_or bytes (4 * i + 1) 0
    + 0x10000 * get_or bytes (4 * i + 2) 0
    + 0x1000000 * get_or bytes (4 * i + 3) 0

abbrev pub empty_tbl : DescTbl
empty_tbl = record {
  magic = 0;
  version = 0;
  init = 0;
  refresh = 0;
  provider_name = 0;
  app_name = 0;
  app_id = 0;
}

-- `userapp::with`: `func` gets the addresses of the application's two functions.
unfoldable pub with_app : (func : ℕ → ℕ → Status) → App → Status
with_app func s =
    let found = full_desc (word_at s.user_code) empty_tbl in
    if is_loaded s.app_state
    then verify_success found.0 (func found.1.init found.1.refresh) (λ e. e)
    else usercode_not_available

-- The actions of the thread that this part serves.
pub data Action : Type 0 where
  begin_write : Action
  write : (offset : ℕ) → (buffer : List ℕ) → Action
  run : (crc : ℕ) → Action

module _ (crc16 : List ℕ → ℕ) where
  unfoldable pub crc_tempbuf : App → ℕ
  crc_tempbuf s = crc16 s.temp_buf

  -- One pass of the loop of `userapp_thread`
  unfoldable pub serve : Action → App → App
  serve begin_write s = (clear_tempbuf s).1
  serve (write offset buffer) s = (write_tempbuf offset buffer s).1
  serve (run crc) s = if crc_tempbuf s == crc then (load_from_tempbuf s).1 else s

  unfoldable pub serve_all : List Action → App → App
  serve_all [] s = s
  serve_all (a ∷ rest) s = serve_all rest (serve a s)
