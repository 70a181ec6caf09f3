-- ===== src/Userapp/Explorer/Read.antt =====
-- How a client reads a message of the explorer, and what it reads of a name.
use ledfw_lib.Common.{
  ℕ, zero, suc, ◌+◌, ◌-◌, ◌≤◌, min, ◌≡◌, refl, ap, ◌∙◌, arith, Bool-cases, inl, inr, Option, none,
  some, Option-cases, List, [], ◌∷◌, ◌++◌, ◌==◌, if◌then◌else◌, set, take, drop, length, tabulate,
  write_cells, write_cells_tail, write_cells-append, cong,
}
use ledfw_lib.Userapp.Desc.{Words, name, slot_type, slot_id, slot_value, n_dmx_slots}
use ledfw_lib.Userapp.Desc.Table.{count_entries_sound}
use ledfw_lib.Userapp.Explorer.{explorer_len, dmx_string_max, Ram, text_at, strnlen, with_name}

-- A message as a client reads it
pub data Info : Type 0 where
  personality_info : (index n_slots : ℕ) → (text : List ℕ) → Info
  slot_info : (personality index kind id value : ℕ) → (text : List ℕ) → Info

pub read_personality : List ℕ → Option Info
read_personality (index ∷ n_slots ∷ text) = some (personality_info index n_slots text)
read_personality _ = none

pub read_slot : (uint16_decode : ℕ → ℕ → ℕ) → List ℕ → Option Info
read_slot uint16_decode (personality ∷ index ∷ kind ∷ low ∷ high ∷ value ∷ text) =
    some (slot_info personality index kind (uint16_decode low high) value text)
read_slot uint16_decode _ = none

unfoldable pub read_message : (uint16_decode : ℕ → ℕ → ℕ) → List ℕ → Option Info
unfolding read_personality read_slot
read_message uint16_decode [] = none
read_message uint16_decode (code ∷ rest) =
    if code == 1
    then read_personality rest
    else if code == 2
    then read_slot uint16_decode rest
    else none

-- The bytes of a text before its end, at most `n` of them
unfoldable pub text_of : (text : ℕ → ℕ) → (n : ℕ) → List ℕ
text_of text zero = []
text_of text (suc n) =
    let rest = text 0 ∷ text_of (λ i. text (suc i)) n in if text 0 == 0 then [] else rest

pub tabulate-strnlen : (text : ℕ → ℕ) (n : ℕ) → tabulate (strnlen text n) text ≡ text_of text n
unfolding strnlen text_of
tabulate-strnlen text zero = refl
tabulate-strnlen text (suc n) = elim (Bool-cases (text 0 == 0)) [
  | inl e ↦ rw e refl
  | inr e ↦ rw e (ap (λ l. text 0 ∷ l) (tabulate-strnlen (λ i. text (suc i)) n))
]

strnlen-le : (text : ℕ → ℕ) (n : ℕ) → strnlen text n ≤ n
unfolding strnlen
strnlen-le text zero = omega arith
strnlen-le text (suc n) = ground (arith, strnlen-le (λ i. text (suc i)) n)

module _ {A : Type 0} where
  -- What is sent after `n` cells were written behind the header: the header and these cells.
  take-write_cells :
      (xs : List A) (p : ℕ → A) (n : ℕ)
      → n ≤ length xs
      → take n (write_cells xs p n 0) ≡ tabulate n p
  unfolding write_cells
  take-write_cells xs p zero h = refl
  take-write_cells [] p (suc n) h = absurd (omega arith)
  take-write_cells (x ∷ xs) p (suc n) h =
      rw (write_cells_tail (p 0) xs (λ i. p (suc i)) n 0)
        (ap (λ l. p 0 ∷ l) (take-write_cells xs (λ i. p (suc i)) n (omega arith)))

  take_behind : (hd xs : List A) (n k : ℕ) → k ≡ length hd + n → take k (hd ++ xs) ≡ hd ++ take n xs
  take_behind [] xs n k e = cong (λ j. take j xs) {i = k} {j = n} (omega arith)
  take_behind (x ∷ hd) xs n zero e = absurd (omega arith)
  take_behind (x ∷ hd) xs n (suc k) e = ap (λ l. x ∷ l) (take_behind hd xs n k (omega arith))

-- The name of a personality or a slot, as far as it goes into a message with a header of `header` bytes
unfoldable pub name_text : Ram → (header : ℕ) → Words → List ℕ
name_text ram header entry = elim (name entry) [
  | none ↦ []
  | some p ↦ text_of (text_at ram p) (min (explorer_len - header) dmx_string_max)
]

-- The fixed part of a message is written over whatever its buffer held; with the name behind it, it is sent.
pub with_name_lem :
    (ram : Ram) (entry : Words) (hd tl : List ℕ) (header : ℕ)
    → length hd ≡ header
    → min (explorer_len - header) dmx_string_max ≤ length tl
    → with_name ram header (name entry) (hd ++ tl) ≡ hd ++ name_text ram header entry
unfolding with_name name_text
with_name_lem ram entry hd tl header e room = elim (Option-cases (name entry)) [
  | inl q ↦ rw (name_text, q) (take_behind hd tl 0 header (omega arith))
  | inr (p, q) ↦
      let m : ℕ = min (explorer_len - header) dmx_string_max in
      let n : ℕ = strnlen (text_at ram p) m in
      rw (name_text, q)
        (ap (λ l. take (header + n) l)
            (write_cells-append hd tl (text_at ram p) n header (omega arith))
          ∙ take_behind hd (write_cells tl (text_at ram p) n 0) n (header + n) (omega arith)
          ∙ ap (λ l. hd ++ l)
              (take-write_cells tl (text_at ram p) n (omega (arith, strnlen-le (text_at ram p) m))
                ∙ tabulate-strnlen (text_at ram p) m))
]

-- The tables of the application, as a client should see them.
unfoldable pub personality_row : Ram → (max_slots index : ℕ) → Words → Info
personality_row ram max_slots index pers =
    personality_info index (n_dmx_slots max_slots pers) (name_text ram 3 pers)

unfoldable pub slot_row : Ram → (personality index : ℕ) → Words → Info
slot_row ram personality index slot =
    slot_info personality index (slot_type slot) (slot_id slot) (slot_value slot)
      (name_text ram 7 slot)

pub three_set :
    (s : List ℕ) (a b c : ℕ)
    → 3 ≤ length s
    → set (set (set s 0 a) 1 b) 2 c ≡ (a ∷ b ∷ c ∷ []) ++ drop 3 s
three_set [] a b c h = absurd (omega arith)
three_set (x ∷ []) a b c h = absurd (omega arith)
three_set (x ∷ y ∷ []) a b c h = absurd (omega arith)
three_set (x ∷ y ∷ z ∷ s) a b c h = refl

pub seven_set :
    (s : List ℕ) (a b c d e f g : ℕ)
    → 7 ≤ length s
    → set (set (set (set (set (set (set s 0 a) 1 b) 2 c) 3 d) 4 e) 5 f) 6 g
      ≡ (a ∷ b ∷ c ∷ d ∷ e ∷ f ∷ g ∷ []) ++ drop 7 s
seven_set (x₀ ∷ x₁ ∷ x₂ ∷ x₃ ∷ x₄ ∷ x₅ ∷ x₆ ∷ s) a b c d e f g h = refl
seven_set s a b c d e f g h = absurd (omega arith)

pub n_dmx_slots-le : (max_slots : ℕ) (pers : Words) → n_dmx_slots max_slots pers ≤ max_slots
unfolding n_dmx_slots
n_dmx_slots-le max_slots pers = (count_entries_sound pers 1 max_slots).0
