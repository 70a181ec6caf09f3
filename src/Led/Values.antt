-- ===== src/Led/Values.antt =====
-- `thread::update` of include/led/thread.hh: the DMX values that the renderer sees.
use ledfw_lib.Common.{
  ℕ, ◌-◌, ◌≤◌, ◌<◌, ◌≡◌, refl, sym, ◌∙◌, true, false, Bool-cases, inl, inr, Option, none, some,
  List, [], ◌∷◌, zero, suc, ltb, leb, if◌then◌else◌, length, get_or, write_cells,
  length-write_cells, get_or-write_cells, get_or-write_cells_below,
}
use native.Mathlib.Omega.{arith}

-- `dmx::dmx_slot_vals` is the list of its values; `none` is the null pointer, also for the configuration.
pub record Values : Type 0 where
  pub dmx_config : ℕ × ℕ × ℕ
  pub dmx_vals : List ℕ

-- The copy of `vals` and the zeros after it. A `memcpy` past the array is `none`.
unfoldable pub copied : List ℕ → List ℕ → List ℕ
copied dmx_vals vals =
    let n = length vals in
    let copy = write_cells dmx_vals (λ i. get_or vals i 0) n 0 in
    if ltb n (length dmx_vals) then write_cells copy (λ i. 0) (length dmx_vals - n) n else copy

unfoldable pub copy_vals : List ℕ → List ℕ → Option (List ℕ)
copy_vals dmx_vals vals =
    if leb (length vals) (length dmx_vals) then some (copied dmx_vals vals) else none

unfoldable pub update : Option (List ℕ) → Option (ℕ × ℕ × ℕ) → Values → Option Values
update vals config t =
    let t' : Values = elim config [ none ↦ t | some c ↦ record t { dmx_config = c } ] in
    elim vals [
      | none ↦ some t'
      | some v ↦ elim (copy_vals t'.dmx_vals v) [
        | none ↦ none
        | some new ↦ some (record t' { dmx_vals = new })
      ]
    ]

-- The values after `update`, where they fit: those given, then zeros.
pub record Updated (vals old new : List ℕ) : Type 0 where
  pub size : length new ≡ length old
  pub value : (i : ℕ) → i < length old → get_or new i 0 ≡ get_or vals i 0

get_or-beyond : (xs : List ℕ) (i : ℕ) → length xs ≤ i → get_or xs i 0 ≡ 0
get_or-beyond [] i h = refl
get_or-beyond (x ∷ xs) zero h = absurd (omega arith)
get_or-beyond (x ∷ xs) (suc i) h = get_or-beyond xs i (omega arith)

copied-Updated : (old vals : List ℕ) → length vals ≤ length old → Updated vals old (copied old vals)
unfolding copied
copied-Updated old vals h = elim (Bool-cases (ltb (length vals) (length old))) [
  | inr e ↦ rw e (record {
    size = length-write_cells old (λ i. get_or vals i 0) (length vals) 0;
    value = λ i lt.
        get_or-write_cells old (λ j. get_or vals j 0) (length vals) 0 i i 0 (ground arith)
          (omega arith) lt;
  })
  | inl e ↦
      let copy = write_cells old (λ i. get_or vals i 0) (length vals) 0 in
      let size : length copy ≡ length old =
        length-write_cells old (λ i. get_or vals i 0) (length vals) 0 in
      let rest : ℕ = length old - length vals in
      rw e (record {
        size = length-write_cells copy (λ i. 0) rest (length vals) ∙ size;
        value = λ i lt. elim (Bool-cases (ltb i (length vals))) [
          | inl f ↦
              get_or-write_cells_below copy (λ j. 0) rest (length vals) i 0 (ground arith)
              ∙ get_or-write_cells old (λ j. get_or vals j 0) (length vals) 0 i i 0 (ground arith)
                  (omega arith) lt
          | inr f ↦
              get_or-write_cells copy (λ j. 0) rest (length vals) (i - length vals) i 0
                (ground arith) (ground arith) (omega (arith, size))
              ∙ sym (get_or-beyond vals i (ground arith))
        ];
      })
]

-- `update` with values and a configuration stores that configuration, copies the values and clears the
-- rest of the array, if there are no more values than the array holds.
pub update-Updated :
    (vals : List ℕ) (c : ℕ × ℕ × ℕ) (t : Values)
    → length vals ≤ length t.dmx_vals
    → (new : Values) × (update (some vals) (some c) t ≡ some new)
      × Updated vals t.dmx_vals new.dmx_vals
      × (new.dmx_config ≡ c)
unfolding update copy_vals
update-Updated vals c t h =
    let e : leb (length vals) (length t.dmx_vals) ≡ true = ground arith in
    (
      record { dmx_config = c; dmx_vals = copied t.dmx_vals vals },
      rw (update, e) refl,
      copied-Updated t.dmx_vals vals h,
      refl,
    )

-- With more values than the array holds, `update` writes past it, whatever the configuration.
pub update-overflow :
    (vals : List ℕ) (config : Option (ℕ × ℕ × ℕ)) (t : Values)
    → length t.dmx_vals < length vals
    → update (some vals) config t ≡ none
unfolding update copy_vals
update-overflow vals none t h =
    let e : leb (length vals) (length t.dmx_vals) ≡ false = ground arith in rw (update, e) refl
update-overflow vals (some c) t h =
    let e : leb (length vals) (length t.dmx_vals) ≡ false = ground arith in rw (update, e) refl
