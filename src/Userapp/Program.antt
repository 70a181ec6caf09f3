-- ===== src/Userapp/Program.antt =====
-- Writes to the Bluetooth characteristics of the user application service: `on_program_write` and
-- `on_dmx_explorer_write` of src/ble/userapp.cc.
--
-- An event is its length and its data, `none` for a null pointer. `uint16_decode` of the SDK is a parameter,
-- of the two bytes that it reads. A byte past the data is 0; each is behind a test of the length.
pub mod Session
use ledfw_lib.Common.{
  ℕ, ◌-◌, Bool, true, false, ◌&&◌, Option, none, some, List, [], ◌∷◌, ltb, ◌==◌, if◌then◌else◌,
  length, get_or, drop,
}
use ledfw_lib.Userapp.Thread.{
  ExplorerCmd, get_personality_info, get_slot_info, get_personality_and_slot_info, Inbox, erase_app,
  begin_write, commit, run, send_state, dmx_explorer, queue_action, queue_write,
}

-- `ble_gatts_evt_write_t`
pub record WriteEvent : Type 0 where
  pub len : ℕ
  pub data_bytes : Option (List ℕ)

-- The tests and calls on the data of an event
unfoldable pub on_program_data :
    (uint16_decode : ℕ → ℕ → ℕ) (allocated sent : Bool) (len : ℕ) (bytes : List ℕ) → Inbox → Inbox
on_program_data uint16_decode allocated sent len bytes q =
    let command = get_or bytes 0 0 in
    let number = uint16_decode (get_or bytes 1 0) (get_or bytes 2 0) in
    if len == 1 && command == 0
    then (queue_action sent send_state q).1
    else (if len == 1 && command == 1
        then (queue_action sent erase_app q).1
        else (if len == 1 && command == 2
            then (queue_action sent begin_write q).1
            else (if ltb 3 len && command == 3
                then (queue_write allocated sent number (some (drop 3 bytes)) (len - 3) q).1
                else (if len == 3 && command == 4
                    then (queue_action sent (commit number) q).1
                    else (if len == 3 && command == 5
                        then (queue_action sent (run number) q).1
                        else q)))))

unfoldable pub on_program_write :
    (uint16_decode : ℕ → ℕ → ℕ) (allocated sent : Bool) → WriteEvent → Inbox → Inbox
on_program_write uint16_decode allocated sent event q = elim event.data_bytes [
  | none ↦ q
  | some bytes ↦ on_program_data uint16_decode allocated sent event.len bytes q
]

unfoldable pub on_dmx_explorer_write : (sent : Bool) → WriteEvent → Inbox → Inbox
on_dmx_explorer_write sent event q = elim event.data_bytes [
  | none ↦ q
  | some bytes ↦
      let command = get_or bytes 0 0 in
      let explore : ExplorerCmd → ℕ → Inbox =
        λ c slot. (queue_action sent (dmx_explorer c (get_or bytes 1 0) slot) q).1 in
      if event.len == 2 && command == 1
      then explore get_personality_info 0
      else (if event.len == 3 && command == 2
          then explore get_slot_info (get_or bytes 2 0)
          else (if event.len == 2 && command == 3
              then explore get_personality_and_slot_info 0
              else q))
]

-- The events of a sequence of writes, each with as many bytes as it says and none refused.
abbrev pub packet : List ℕ → WriteEvent
packet bytes = record { len = length bytes; data_bytes = some bytes }

abbrev pub deliver : (uint16_decode : ℕ → ℕ → ℕ) → List (List ℕ) → Inbox → Inbox
deliver uint16_decode [] q = q
deliver uint16_decode (p ∷ ps) q =
    deliver uint16_decode ps (on_program_write uint16_decode true true (packet p) q)
