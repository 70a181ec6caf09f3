-- ===== src/Userapp/Explorer.antt =====
-- What the explorer sends to Bluetooth clients: `send_personality_info` and `send_slot_info` of
-- src/ble/userapp.cc, `dmx_pers` and `dmx_slot` of include/userapp/desc.hh over the memory, and the action
-- `dmx_explorer` of src/userapp/thread.cc.
--
-- The memory is its bytes by address. A message is the bytes that are handed to `send` of the explorer's
-- characteristic, whose status the thread ignores; `stack` is what its buffer of DMX_EXPLORER_LEN bytes held
-- before. `uint16_encode` of the SDK is a parameter, as the two bytes that it writes.
pub mod Read
pub mod Client
use ledfw_lib.Common.{
  ℕ, zero, suc, ◌+◌, ◌-◌, ◌*◌, ◌%◌, min, Bool, true, false, not, ◌&&◌, Option, none, some, List, [],
  ◌∷◌, ltb, ◌==◌, if◌then◌else◌, set, take, write_cells,
}
use ledfw_lib.Userapp.Desc.{
  Words, usercode_start_addr, name, slot_type, slot_id, slot_value, n_dmx_slots, n_dmx_pers,
}
use ledfw_lib.Userapp.Upload.{AppState, is_loaded}
use ledfw_lib.Userapp.Thread.{
  ExplorerCmd, get_personality_info, get_slot_info, get_personality_and_slot_info, Message,
  no_personality, no_slot,
}

abbrev pub explorer_len : ℕ
explorer_len = 48

abbrev pub dmx_string_max : ℕ
dmx_string_max = 32

abbrev pub personality_info_code : ℕ
personality_info_code = 1

abbrev pub slot_info_code : ℕ
slot_info_code = 2

abbrev pub Ram : Type 0
Ram = ℕ → ℕ

-- The 32-bit words from an address on, and the bytes of a text
abbrev pub words_at : Ram → ℕ → Words
words_at ram addr i =
    ram (addr + 4 * i)
    + 0x100 * ram (addr + 4 * i + 1)
    + 0x10000 * ram (addr + 4 * i + 2)
    + 0x1000000 * ram (addr + 4 * i + 3)

abbrev pub text_at : Ram → ℕ → ℕ → ℕ
text_at ram addr i = ram (addr + i)

-- `strnlen`
unfoldable pub strnlen : (text : ℕ → ℕ) → (max_len : ℕ) → ℕ
strnlen text zero = 0
strnlen text (suc n) =
    let rest = suc (strnlen (λ i. text (suc i)) n) in if text 0 == 0 then 0 else rest

-- The name at the end of a message: the copy of at most DMX_STRING_MAX bytes behind `header` bytes, and what is
-- sent of the buffer.
unfoldable pub with_name : Ram → (header : ℕ) → (addr : Option ℕ) → (buf : List ℕ) → List ℕ
with_name ram header none buf = take header buf
with_name ram header (some p) buf =
    let name_len = strnlen (text_at ram p) (min (explorer_len - header) dmx_string_max) in
    take (header + name_len) (write_cells buf (text_at ram p) name_len header)

unfoldable pub send_personality_info :
    Ram → (stack : List ℕ) → (index n_slots : ℕ) → (pers : Words) → List ℕ
send_personality_info ram stack index n_slots pers =
    with_name ram 3 (name pers) (set (set (set stack 0 personality_info_code) 1 index) 2 n_slots)

unfoldable pub send_slot_info :
    (uint16_encode : ℕ → ℕ × ℕ)
    → Ram
    → (stack : List ℕ) → (pers index : ℕ) → (slot : Words) → List ℕ
send_slot_info uint16_encode ram stack pers index slot =
    let id = uint16_encode (slot_id slot) in
    let head = set (set (set (set stack 0 slot_info_code) 1 pers) 2 index) 3 (slot_type slot) in
    with_name ram 7 (name slot) (set (set (set head 4 id.0) 5 id.1) 6 (slot_value slot))

-- `dmx_pers(d.dmx_pers_tbl()[personality])` and `dmx_slot(pers.dmx_slots_tbl()[slot])`
abbrev pub descriptor : Ram → Words
descriptor ram = words_at ram usercode_start_addr

abbrev pub personality_words : Ram → (personality : ℕ) → Words
personality_words ram personality = words_at ram (descriptor ram (personality + 8))

abbrev pub slot_words : Ram → (pers : Words) → (slot : ℕ) → Words
slot_words ram pers slot = words_at ram (pers (slot + 1))

module _ (uint16_encode : ℕ → ℕ × ℕ) (max_pers max_slots : ℕ) (ram : Ram) (stack : List ℕ) where
  -- The loop over all slots, from slot `i` on; an index is cut to a byte where it is passed.
  unfoldable pub send_slots : (personality : ℕ) → Words → (rounds i : ℕ) → List (List ℕ)
  send_slots personality pers zero i = []
  send_slots personality pers (suc rounds) i =
      send_slot_info uint16_encode ram stack personality (i % 256) (slot_words ram pers i)
      ∷ send_slots personality pers rounds (suc i)

  -- The commands for a personality that exists: the messages, and the text that is printed
  unfoldable pub explore_personality :
      ExplorerCmd → (personality slot : ℕ) → List (List ℕ) × Option Message
  explore_personality command personality slot =
      let pers = personality_words ram personality in
      let n_slots = n_dmx_slots max_slots pers in
      let info = send_personality_info ram stack personality (n_slots % 256) pers in
      elim command [
        | get_personality_info ↦ (info ∷ [], none)
        | get_slot_info ↦
            if ltb slot n_slots
            then (
              send_slot_info uint16_encode ram stack personality slot (slot_words ram pers slot)
                  ∷ [],
              none,
            )
            else ([], some no_slot)
        | get_personality_and_slot_info ↦ (info ∷ send_slots personality pers n_slots 0, none)
      ]

  -- The action `dmx_explorer`
  unfoldable pub explore :
      AppState
      → (connected : Bool) → ExplorerCmd
      → (personality slot : ℕ) → List (List ℕ) × Option Message
  explore state connected command personality slot =
      if not (is_loaded state && connected)
      then ([], none)
      else if ltb personality (n_dmx_pers max_pers (descriptor ram))
      then explore_personality command personality slot
      else ([], some no_personality)
