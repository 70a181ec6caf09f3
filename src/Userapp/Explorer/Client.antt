-- ===== src/Userapp/Explorer/Client.antt =====
-- What a client reads in the explorer's messages: the tables of the application, by an independent
-- description of them.
use ledfw_lib.Common.{
  ℕ, zero, suc, ◌+◌, ◌%◌, ◌^◌, ◌<◌, ◌≡◌, refl, ap, ◌∙◌, arith, Bool, ◌&&◌, Bool-cases, inl, inr,
  Option, some, List, [], ◌∷◌, ltb, if◌then◌else◌, drop, length, length-drop, tabulate,
  tabulate_ext, cong,
}
use mathlib.Core.List.{map}
use mathlib.Core.Path.{ap₂}
use ledfw_lib.Userapp.Desc.{Words, name, slot_type, slot_id, slot_value, n_dmx_slots, n_dmx_pers}
use ledfw_lib.Userapp.Upload.{AppState, is_loaded}
use ledfw_lib.Userapp.Thread.{
  ExplorerCmd, get_personality_info, get_slot_info, get_personality_and_slot_info,
}
use ledfw_lib.Userapp.Explorer.{
  explorer_len, Ram, with_name, send_personality_info, send_slot_info, descriptor,
  personality_words, slot_words, send_slots, explore_personality, explore,
}
use ledfw_lib.Userapp.Explorer.Read.{
  Info, n_dmx_slots-le, name_text, personality_info, personality_row, read_message, seven_set,
  slot_info, slot_row, three_set, with_name_lem,
}

module _ (ram : Ram) (stack : List ℕ) (sized : length stack ≡ explorer_len) where
  -- A message about a personality is read as its row.
  read-send_personality_info :
      (uint16_decode : ℕ → ℕ → ℕ) (max_slots index : ℕ) (pers : Words)
      → max_slots < 256
      → read_message uint16_decode
          (send_personality_info ram stack index (n_dmx_slots max_slots pers % 256) pers)
        ≡ some (personality_row ram max_slots index pers)
  unfolding send_personality_info personality_row read_message
  read-send_personality_info uint16_decode max_slots index pers small =
      let n : ℕ = n_dmx_slots max_slots pers in
      let fits : n % 256 ≡ n = omega (arith, n_dmx_slots-le max_slots pers) in
      ap (λ l. read_message uint16_decode l)
        (ap (λ l. with_name ram 3 (name pers) l) (three_set stack 1 index (n % 256) (omega arith))
          ∙ with_name_lem ram pers (1 ∷ index ∷ (n % 256) ∷ []) (drop 3 stack) 3 refl
              (omega (arith, length-drop 3 stack)))
      ∙ ap (λ k. some (personality_info index k (name_text ram 3 pers))) fits

  -- A message about a slot is read as its row.
  read-send_slot_info :
      (uint16_encode : ℕ → ℕ × ℕ) (uint16_decode : ℕ → ℕ → ℕ) (personality index : ℕ) (slot : Words)
      → ((n : ℕ) → n < 2 ^ 16 → uint16_decode (uint16_encode n).0 (uint16_encode n).1 ≡ n)
      → read_message uint16_decode (send_slot_info uint16_encode ram stack personality index slot)
        ≡ some (slot_row ram personality index slot)
  unfolding send_slot_info slot_row read_message slot_id
  read-send_slot_info uint16_encode uint16_decode personality index slot decodes =
      let id = uint16_encode (slot_id slot) in
      ap (λ l. read_message uint16_decode l)
        (ap (λ l. with_name ram 7 (name slot) l)
            (seven_set stack 2 personality index (slot_type slot) id.0 id.1 (slot_value slot)
              (omega arith))
          ∙ with_name_lem ram slot
              (2 ∷ personality ∷ index ∷ slot_type slot ∷ id.0 ∷ id.1 ∷ slot_value slot ∷ [])
              (drop 7 stack) 7 refl (omega (arith, length-drop 7 stack)))
      ∙ ap
          (λ k. some (
            slot_info personality index (slot_type slot) k (slot_value slot)
              (name_text ram 7 slot)))
          (decodes (slot_id slot) (omega arith))

  module _ (uint16_encode : ℕ → ℕ × ℕ) (uint16_decode : ℕ → ℕ → ℕ)
      (decodes : (n : ℕ) → n < 2 ^ 16 → uint16_decode (uint16_encode n).0 (uint16_encode n).1 ≡ n)
      (max_pers max_slots : ℕ) (small : max_slots < 256) where
    abbrev pers_of : ℕ → Words
    pers_of personality = personality_words ram personality

    abbrev slot_of : ℕ → ℕ → Words
    slot_of personality i = slot_words ram (pers_of personality) i

    abbrev row_at : ℕ → ℕ → Info
    row_at personality i = slot_row ram personality i (slot_of personality i)

    -- The rows of the tables that a command asks for
    unfoldable pub requested : ExplorerCmd → (personality slot : ℕ) → List Info
    requested get_personality_info personality slot =
        personality_row ram max_slots personality (pers_of personality) ∷ []
    requested get_slot_info personality slot =
        if ltb slot (n_dmx_slots max_slots (pers_of personality))
        then row_at personality slot ∷ []
        else []
    requested get_personality_and_slot_info personality slot =
        personality_row ram max_slots personality (pers_of personality)
        ∷ tabulate (n_dmx_slots max_slots (pers_of personality)) (row_at personality)

    abbrev read : List ℕ → Option Info
    read m = read_message uint16_decode m

    read-send_slots :
        (personality rounds i : ℕ)
        → i + rounds < 256
        → map read (
            send_slots uint16_encode max_pers max_slots ram stack personality
              (pers_of personality)
              rounds
              i)
          ≡ map (λ r. some r) (tabulate rounds (λ j. row_at personality (i + j)))
    unfolding send_slots
    read-send_slots personality zero i h = refl
    read-send_slots personality (suc rounds) i h =
        let first : i % 256 ≡ i + 0 = omega arith in
        let next : i ≡ i + 0 = omega arith in
        ap₂ ◌∷◌
          (read-send_slot_info uint16_encode uint16_decode personality (i % 256)
              (slot_of personality i) decodes
            ∙ ap₂ (λ a b. some (slot_row ram personality a (slot_of personality b))) first next)
          (read-send_slots personality rounds (suc i) (omega arith)
            ∙ ap (λ l. map (λ r. some r) l)
                (tabulate_ext rounds rounds (λ j. row_at personality (suc i + j))
                  (λ j. row_at personality (i + suc j)) refl
                  (λ j lt. cong (row_at personality) (omega arith))))

    answer :
        (command : ExplorerCmd) (personality slot : ℕ)
        → map read
            (explore_personality uint16_encode max_pers max_slots ram stack command personality
              slot).0
          ≡ map (λ r. some r) (requested command personality slot)
    unfolding explore_personality requested
    answer get_personality_info personality slot =
        ap (λ r. r ∷ [])
          (read-send_personality_info uint16_decode max_slots personality (pers_of personality)
            small)
    answer get_slot_info personality slot =
        elim (Bool-cases (ltb slot (n_dmx_slots max_slots (pers_of personality)))) [
          | inl there ↦ rw there (
              ap (λ r. r ∷ [])
                (read-send_slot_info uint16_encode uint16_decode personality slot
                  (slot_of personality slot) decodes))
          | inr missing ↦ rw missing refl
        ]
    answer get_personality_and_slot_info personality slot =
        ap₂ ◌∷◌
          (read-send_personality_info uint16_decode max_slots personality (pers_of personality)
            small)
          (read-send_slots personality (n_dmx_slots max_slots (pers_of personality)) 0
              (omega (arith, n_dmx_slots-le max_slots (pers_of personality)))
            ∙ ap (λ l. map (λ r. some r) l)
                (tabulate_ext (n_dmx_slots max_slots (pers_of personality))
                  (n_dmx_slots max_slots (pers_of personality)) (λ j. row_at personality (0 + j))
                  (row_at personality) refl (λ j lt. cong (row_at personality) (omega arith))))

    -- While an application is loaded and a client is connected, the messages that answer a command about a
    -- personality that exists are read, in their order, as the rows of the application's tables that it asks
    -- for: that of the personality, that of one slot if there is it, or that of the personality and those of all
    -- its slots; without an application, a client or the personality nothing is sent. The maximal number of slots
    -- is below 256, and the decoder of 16-bit numbers undoes the encoder.
    pub explore-requested :
        (state : AppState) (connected : Bool) (command : ExplorerCmd) (personality slot : ℕ)
        → map read
            (explore uint16_encode max_pers max_slots ram stack state connected command personality
              slot).0
          ≡ map
              (λ r. some r)
              (if (is_loaded state && connected)
                  && ltb personality (n_dmx_pers max_pers (descriptor ram))
                then requested command personality slot
                else [])
    unfolding explore explore_personality requested
    explore-requested state connected command personality slot =
        elim (Bool-cases (is_loaded state && connected)) [
          | inl ready ↦ elim (Bool-cases (ltb personality (n_dmx_pers max_pers (descriptor ram)))) [
            | inl there ↦ rw (ready, there) (answer command personality slot)
            | inr missing ↦ rw (ready, missing) refl
          ]
          | inr away ↦ rw (away) refl
        ]
