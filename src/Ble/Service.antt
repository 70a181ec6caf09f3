-- ===== src/Ble/Service.antt =====
-- Characteristics: src/ble/service.cc and include/ble/service.hh.
--
-- Handles are numbers; `none` is a null pointer. The calls and the constants of the SoftDevice are parameters:
-- `invalid_handle` is BLE_GATT_HANDLE_INVALID, `invalid_conn` the code BLE_ERROR_INVALID_CONN_HANDLE.
use ledfw_lib.Common.{
  ℕ, ◌≤◌, ◌≡◌, ap, ◌∙◌, Bool, true, false, not, ◌&&◌, ◌||◌, Bool-cases, inl, inr, Option, none,
  some, List, ltb, ◌==◌, if◌then◌else◌, length, get_or, drop, ◌++◌, write_cells, write_cells-start,
  Status, success, invalid_length, invalid_state, other, is_success,
}
use native.Mathlib.Omega.{arith}

-- The parts of `ble::characteristic` that change or that decide; `value_handle` is `none` where
-- `char_handles_ptr` is null.
pub record Characteristic : Type 0 where
  pub value_handle : Option ℕ
  pub buffer : Option (List ℕ)
  pub buffer_max_len : ℕ

-- `ble::notification`
pub record Notification : Type 0 where
  pub conn_handle : ℕ
  pub data_bytes : List ℕ
  pub length_of : ℕ
  pub offset : ℕ

abbrev pub uint16_max : ℕ
uint16_max = 0xffff

-- The errors for which `send` reports success
abbrev pub is_unsent : (invalid_conn : ℕ) → Status → Bool
is_unsent invalid_conn invalid_state = true
is_unsent invalid_conn (other code) = code == invalid_conn
is_unsent invalid_conn success = false
is_unsent invalid_conn _ = false

module _ (invalid_handle : ℕ) where
  -- `handles && handles->value_handle != BLE_GATT_HANDLE_INVALID`
  unfoldable pub is_initialized : Characteristic → Bool
  is_initialized cha = elim cha.value_handle [ none ↦ false | some h ↦ not (h == invalid_handle) ]

  abbrev pub handle_of : Characteristic → ℕ
  handle_of cha = elim cha.value_handle [ none ↦ invalid_handle | some h ↦ h ]

  unfoldable pub matches : Characteristic → (event_handle : ℕ) → Bool
  matches cha event_handle = is_initialized cha && handle_of cha == event_handle

  -- `send` with its number of bytes sent: `hvx` is `sd_ble_gatts_hvx`, which answers with a status and the
  -- number of bytes that it took.
  unfoldable pub send :
      (invalid_conn : ℕ)
      → (hvx : (conn value_handle offset len : ℕ) → List ℕ → Status × ℕ) → Characteristic
      → Notification
      → (n_sent : Option ℕ) → Status × Option ℕ
  send invalid_conn hvx cha n n_sent =
      let answer = hvx n.conn_handle (handle_of cha) n.offset n.length_of n.data_bytes in
      let sent = if is_success answer.0 then answer.1 else 0 in
      let n_sent' : Option ℕ = elim n_sent [ none ↦ none | some old ↦ some sent ] in
      if ltb uint16_max n.length_of || ltb uint16_max n.offset
      then (invalid_length, n_sent)
      else (if is_initialized cha
          then (if is_unsent invalid_conn answer.0 then success else answer.0, n_sent')
          else (invalid_state, n_sent))

  -- `set_value`: the status, and the characteristic with its buffer. `value_set` is `sd_ble_gatts_value_set`
  -- with the handle, the pointer of the value and its length.
  unfoldable pub set_value :
      (value_set : ℕ → Option (List ℕ) → ℕ → Status)
      → (data_bytes : Option (List ℕ)) → (len : ℕ) → Characteristic
      → Status × Characteristic
  set_value value_set data_bytes len cha =
      let copied : List ℕ → List ℕ = λ old. elim data_bytes [
        | none ↦ old
        | some bytes ↦ write_cells old (λ i. get_or bytes i 0) len 0
      ] in
      let value : Option (List ℕ) = elim cha.buffer [ none ↦ data_bytes | some old ↦ none ] in
      let buffer' : Option (List ℕ) = elim cha.buffer [
        | none ↦ none
        | some old ↦ some (copied old)
      ] in
      if ltb cha.buffer_max_len len || ltb uint16_max len
      then (invalid_length, cha)
      else (if is_initialized cha
          then (value_set (handle_of cha) value len, record cha { buffer = buffer' })
          else (invalid_state, cha))

  -- `set_value` of at most `buffer_max_len` bytes on an initialised characteristic with a buffer of that size puts
  -- the bytes at the start of the buffer and keeps what is behind them; with more bytes it changes nothing.
  pub set_value-buffer :
      (value_set : ℕ → Option (List ℕ) → ℕ → Status) (bytes old : List ℕ) (cha : Characteristic)
      → is_initialized cha ≡ true
      → cha.buffer ≡ some old
      → length old ≡ cha.buffer_max_len
      → cha.buffer_max_len ≤ uint16_max
      → (set_value value_set (some bytes) (length bytes) cha).1.buffer ≡ (
          if ltb (length old) (length bytes)
          then some old
          else some (bytes ++ drop (length bytes) old))
  unfolding set_value
  set_value-buffer value_set bytes old cha ready e size small =
      elim (Bool-cases (ltb cha.buffer_max_len (length bytes))) [
        | inl over ↦ let g : ltb (length old) (length bytes) ≡ true = ground arith in rw (over, g) e
        | inr fits ↦
            let g : ltb (length old) (length bytes) ≡ false = ground arith in
            let h : ltb uint16_max (length bytes) ≡ false = ground arith in
            rw (fits, g, h, ready)
              (ap
                  (λ (b : Option (List ℕ)). elim b [
                    | none ↦ none
                    | some o ↦ some (write_cells o (λ i. get_or bytes i 0) (length bytes) 0)
                  ])
                  e
                ∙ ap (λ l. some l) (write_cells-start bytes old 0 (ground arith)))
      ]
