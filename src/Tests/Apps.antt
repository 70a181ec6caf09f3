-- ===== src/Tests/Apps.antt =====
-- Descriptors of user applications, and the default application.
use ledfw_lib.Common.{zero, suc, ◌≡◌, refl, [], ◌∷◌, get_or}
use ledfw_lib.Userapp.Desc.{Words, DescTbl, slot_type, slot_id, slot_value}
use ledfw_lib.Userapp.Default.{LedChan, pick_mode, paint, default_refresh}

-- A table of two entries
abbrev words : Words
words i = elim i [ zero ↦ 100 | suc i' ↦ elim i' [ zero ↦ 0x05000302 | _ ↦ 0 ] ]

slot-words : (slot_type words ≡ 2) × (slot_id words ≡ 3) × (slot_value words ≡ 5)
unfolding slot_type slot_id slot_value
slot-words = (refl, refl, refl)

-- A descriptor of version 1.2 with flag 1
abbrev app : Words
app i = get_or (0x00041198 ∷ 0x00010002 ∷ 300 ∷ 400 ∷ 500 ∷ 600 ∷ 700 ∷ 0x00010004 ∷ []) i 0

abbrev no_table : DescTbl
no_table = record {
  magic = 0;
  version = 0;
  init = 0;
  refresh = 0;
  provider_name = 0;
  app_name = 0;
  app_id = 0;
}

abbrev chan : LedChan
chan = record {
  buffer = 0 ∷ 0 ∷ 0 ∷ 0 ∷ 0 ∷ 0 ∷ 9 ∷ [];
  dmx_vals = 5 ∷ 6 ∷ 7 ∷ 1 ∷ [];
  color_mode = 0;
  n_leds = 2;
  dmx_vals_len = 4;
}

default_refresh-chan : (default_refresh chan).buffer ≡ 5 ∷ 6 ∷ 7 ∷ 5 ∷ 6 ∷ 7 ∷ 9 ∷ []
unfolding default_refresh pick_mode paint
default_refresh-chan = refl
