-- ===== src/Ble/Info.antt =====
-- What the user application service tells clients of the application: `update_app_info`, `set_app_name`,
-- `set_provider_name`, `send_state` and `send_partial_state` of src/ble/userapp.cc.
--
-- A characteristic is set and its value is sent by the operations of Ble/Service, whose SDK calls and constants are
-- parameters. The record of attempts has each `set_value` and `send` that was called, with its bytes.
pub mod Published
use ledfw_lib.Common.{
  ℕ, ◌+◌, ◌%◌, Bool, true, false, Option, none, some, List, [], ◌∷◌, ◌++◌, ltb, ◌==◌, if◌then◌else◌,
  length, tabulate, Status, success, verify_success,
}
use ledfw_lib.Ble.Service.{Characteristic, Notification, set_value, send}
use ledfw_lib.Ble.Chars.{UserappChar, info, app_name, app_provider, dmx_info}
use ledfw_lib.Dmx.{DmxConfig}
use ledfw_lib.Userapp.Desc.{Words, full_desc, n_dmx_pers, n_dmx_slots}
use ledfw_lib.Userapp.Upload.{AppState, empty_tbl}
use ledfw_lib.Userapp.Flash.{StorageState}
use ledfw_lib.Userapp.Explorer.{Ram, text_at, strnlen, descriptor, personality_words}

-- The numbers of the states
abbrev pub app_state_code : AppState → ℕ
app_state_code AppState.uninitialized = 0
app_state_code AppState.loading_user_app = 1
app_state_code AppState.user_app_loaded = 2

abbrev pub storage_state_code : StorageState → ℕ
storage_state_code StorageState.uninitialized = 0
storage_state_code StorageState.empty = 1
storage_state_code StorageState.storing_user_app = 2
storage_state_code StorageState.user_app_stored = 3

-- A call of `set_value` or `send`, with its pointer, `none` for null, and its length
pub data Attempt : Type 0 where
  set_to sent : UserappChar → Option (List ℕ) → (len : ℕ) → Attempt

abbrev pub Attempts : Type 0
Attempts = Status × List Attempt

-- The calls after VERIFY_SUCCESS of those before
unfoldable pub and_then : Attempts → Attempts → Attempts
and_then r next = verify_success r.0 (next.0, r.1 ++ next.1) (λ e. (e, r.1))

-- What the SDK and the registration provide
pub record Sdk : Type 0 where
  pub invalid_handle : ℕ
  pub invalid_conn : ℕ
  pub conn_handle : ℕ
  pub value_set : ℕ → Option (List ℕ) → ℕ → Status
  pub hvx : ℕ → ℕ → ℕ → ℕ → List ℕ → Status × ℕ
  pub chars : UserappChar → Characteristic
  pub uint16_encode : ℕ → ℕ × ℕ

abbrev pub pointer : ℕ → Option ℕ
pointer address = if address == 0 then none else some address

module _ (sdk : Sdk) (ram : Ram) where
  -- `set_value` and `send` of a characteristic, each with VERIFY_SUCCESS
  unfoldable pub publish : UserappChar → Option (List ℕ) → (len : ℕ) → Attempts
  publish c value len =
      let set = set_value sdk.invalid_handle sdk.value_set value len (sdk.chars c) in
      let n : Notification = record {
        conn_handle = sdk.conn_handle;
        data_bytes = elim value [ none ↦ [] | some bytes ↦ bytes ];
        length_of = len;
        offset = 0;
      } in
      let notified = send sdk.invalid_handle sdk.invalid_conn sdk.hvx (sdk.chars c) n none in
      and_then (set.0, set_to c value len ∷ []) (notified.0, sent c value len ∷ [])

  unfoldable pub send_partial_state : AppState → StorageState → Attempts
  send_partial_state appst storst =
      let mask = sdk.uint16_encode 0xfffe in
      let required = sdk.uint16_encode 0 in
      let value : List ℕ =
        1
        ∷ app_state_code appst
        ∷ storage_state_code storst
        ∷ 4
        ∷ mask.0
        ∷ mask.1
        ∷ required.0
        ∷ required.1
        ∷ [] in
      publish info (some value) 8

  -- `set_app_name` and `set_provider_name`
  unfoldable pub set_name : UserappChar → (max_len : ℕ) → (text : Option ℕ) → Attempts
  set_name c max_len none = publish c none 0
  set_name c max_len (some p) =
      let len = strnlen (text_at ram p) max_len in
      publish c (some (tabulate len (text_at ram p))) len

  module _ (name_len provider_len max_pers max_slots : ℕ) where
    unfoldable pub n_slots_of : DmxConfig → ℕ
    n_slots_of config =
        if ltb config.personality (n_dmx_pers max_pers (descriptor ram))
        then n_dmx_slots max_slots (personality_words ram config.personality)
        else 0

    unfoldable pub send_dmx_info : DmxConfig → Attempts
    send_dmx_info config =
        let value : List ℕ =
          1
          ∷ (n_dmx_pers max_pers (descriptor ram) % 256)
          ∷ config.personality
          ∷ (n_slots_of config % 256)
          ∷ [] in
        publish dmx_info (some value) 4

    unfoldable pub update_app_info : DmxConfig → AppState → StorageState → Attempts
    update_app_info config appst storst =
        let found = full_desc (descriptor ram) empty_tbl in
        and_then (send_partial_state appst storst) (
          and_then (found.0, [])
            (and_then (set_name app_name name_len (pointer found.1.app_name)) (
              and_then (set_name app_provider provider_len (pointer found.1.provider_name))
                (send_dmx_info config))))

    -- `got` is what reading the DMX configuration gives.
    unfoldable pub send_state : (got : Status × DmxConfig) → AppState → StorageState → Attempts
    send_state got appst storst = and_then (got.0, []) (update_app_info got.1 appst storst)
