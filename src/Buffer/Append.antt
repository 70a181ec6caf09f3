-- ===== src/Buffer/Append.antt =====
-- The specification of `buffer` in include/util.hh, and `write` and `fill` against it.
use ledfw_lib.Common.{
  ℕ, zero, suc, ◌+◌, ◌-◌, ◌≤◌, ◌<◌, min, ◌≡◌, refl, ap, sym, ◌∙◌, append-nil, List, ◌++◌, arith,
  ltb, leb, ◌==◌, ◌&&◌, Bool-cases, inl, inr, if◌then◌else◌, length, get_or, set, tabulate,
  tabulate_ext, tabulate-add, length-tabulate, write_cells, length-write_cells, get_or-write_cells,
  get_or-write_cells_below, Status, success, invalid_length, add_size, sub_size, sub_size-eq-sub,
  size_mod, Bool, true, false, [],
}
use mathlib.Core.Path.{ap₂}
use ledfw_lib.Buffer.{Buffer, reset, write, fill_loop, fill}

-- The count of zeros that the source keeps stays 0: `fill` stores its own loop counter there, after
-- the loop has brought that down to 0.
pub record IsValid (b : Buffer) : Type 0 where
  pub storage : length b.mem ≡ b.max_len
  pub small : b.max_len < size_mod
  pub pos_in : b.pos ≤ b.max_len
  pub no_zeros : b.n_leading_zeros ≡ 0

abbrev pub contents : Buffer → List ℕ
contents b = tabulate b.pos (λ i. get_or b.mem i 0)

-- The specification: an array of at most `cap` bytes that only grows.
pub append_spec : ℕ → List ℕ → ℕ → (ℕ → ℕ) → Status × List ℕ
append_spec cap q n f =
    if ltb (cap - length q) n then (invalid_length, q) else (success, q ++ tabulate n f)

-- What a copy of `n` bytes to `pos` leaves in the first `pos + n` cells.
tabulate-write_cells :
    (mem : List ℕ) (f : ℕ → ℕ) (n pos k : ℕ)
    → k ≡ pos + n
    → pos + n ≤ length mem
    → tabulate k (λ i. get_or (write_cells mem f n pos) i 0)
      ≡ tabulate pos (λ i. get_or mem i 0) ++ tabulate n f
tabulate-write_cells mem f n pos k e h =
    tabulate-add pos n k (λ i. get_or (write_cells mem f n pos) i 0) e
    ∙ ap₂ ◌++◌
        (tabulate_ext pos pos (λ i. get_or (write_cells mem f n pos) i 0) (λ i. get_or mem i 0) refl
          (λ i lt. get_or-write_cells_below mem f n pos i 0 lt))
        (tabulate_ext n n (λ i. get_or (write_cells mem f n pos) (pos + i) 0) f refl
          (λ i lt. get_or-write_cells mem f n pos i (pos + i) 0 lt refl (omega arith)))

fill_loop-eq-write_cells :
    (mem : List ℕ) (pos value n : ℕ)
    → pos + n < size_mod
    → fill_loop mem pos value n ≡ (write_cells mem (λ _. value) n pos, pos + n, 0)
unfolding fill_loop write_cells
fill_loop-eq-write_cells mem pos value zero h = ground arith
fill_loop-eq-write_cells mem pos value (suc n) h =
    ap (λ k. fill_loop (set mem pos value) k value n) next
    ∙ fill_loop-eq-write_cells (set mem pos value) (suc pos) value n (omega arith)
    ∙ ap (λ k. (write_cells (set mem pos value) (λ _. value) n (suc pos), k, 0)) sum
  where
    next : add_size pos 1 ≡ suc pos
    next = omega arith

    sum : suc pos + n ≡ pos + suc n
    sum = omega arith

-- A call that refines `append_spec`, keeps the buffer well formed and its capacity as it is.
pub record Appends (b : Buffer) (n : ℕ) (f : ℕ → ℕ) (r : Status × Buffer) : Type 0 where
  pub result :
      ◌≡◌ {A = Status × List ℕ} (r.0, contents r.1) (append_spec b.max_len (contents b) n f)
  pub valid : IsValid r.1
  pub same_cap : r.1.max_len ≡ b.max_len

append_spec_lem :
    (b : Buffer) (n : ℕ) (f : ℕ → ℕ)
    → IsValid b
    → append_spec b.max_len (contents b) n f ≡ (
        if ltb (sub_size b.max_len b.pos) n
        then (invalid_length, contents b)
        else (success, contents b ++ tabulate n f))
unfolding append_spec
append_spec_lem b n f v = rw (
  length-tabulate b.pos (λ i. get_or b.mem i 0),
  sub_size-eq-sub b.max_len b.pos v.pos_in v.small,
)

refused :
    (b : Buffer) (n : ℕ) (f : ℕ → ℕ)
    → IsValid b
    → ltb (sub_size b.max_len b.pos) n ≡ true
    → Appends b n f (invalid_length, b)
refused b n f v e = record { result = rw (append_spec_lem b n f v, e); valid = v; same_cap = refl }

-- The state in which a copy of `n` bytes ends.
abbrev copied : Buffer → ℕ → (ℕ → ℕ) → ℕ → ℕ → Buffer
copied b n f pos filled_to = record b {
  mem = write_cells b.mem f n b.pos;
  pos = pos;
  n_leading_zeros = filled_to;
}

accepted :
    (b : Buffer) (n pos filled_to : ℕ) (f : ℕ → ℕ)
    → IsValid b
    → ltb (sub_size b.max_len b.pos) n ≡ false
    → pos ≡ b.pos + n
    → filled_to ≡ 0
    → Appends b n f (success, copied b n f pos filled_to)
accepted b n pos filled_to f v e p z = record {
  result =
      rw (append_spec_lem b n f v, e)
        (ap (λ l. (success, l)) (tabulate-write_cells b.mem f n b.pos pos p (omega (arith, room))));
  valid = record {
    storage = length-write_cells b.mem f n b.pos ∙ v.storage;
    small = v.small;
    pos_in = omega (arith, room);
    no_zeros = z;
  };
  same_cap = refl;
}
  where
    room : b.pos + n ≤ b.max_len
    room = ground (arith, sub_size-eq-sub b.max_len b.pos v.pos_in v.small)

fits :
    (b : Buffer) (n : ℕ)
    → IsValid b
    → ltb (sub_size b.max_len b.pos) n ≡ false
    → b.pos + n ≤ b.max_len
fits b n v e = ground (arith, sub_size-eq-sub b.max_len b.pos v.pos_in v.small)

no_wrap :
    (b : Buffer) (n : ℕ)
    → IsValid b
    → ltb (sub_size b.max_len b.pos) n ≡ false
    → add_size b.pos n ≡ b.pos + n
no_wrap b n v e = omega (arith, fits b n v e)

-- `write` appends all its bytes if they fit and else changes nothing, and keeps the buffer well formed.
pub write_refines :
    (b : Buffer) (bytes : ℕ → ℕ) (n : ℕ) → IsValid b → Appends b n bytes (write b bytes n)
unfolding write
write_refines b bytes n v = elim (Bool-cases (ltb (sub_size b.max_len b.pos) n)) [
  | inl e ↦ rw e (refused b n bytes v e)
  | inr e ↦ rw e (
      accepted b n (add_size b.pos n) (min b.n_leading_zeros b.pos) bytes v e (no_wrap b n v e)
        (omega (arith, v.no_zeros)))
]

unchanged : (b : Buffer) (n : ℕ) (f : ℕ → ℕ) → IsValid b → n ≡ 0 → Appends b n f (success, b)
unchanged b zero f v z = record {
  result =
      rw (append_spec_lem b 0 f v, never) (ap (λ l. (success, l)) (sym (append-nil (contents b))));
  valid = v;
  same_cap = refl;
}
  where
    never : ltb (sub_size b.max_len b.pos) 0 ≡ false
    never = ground arith
unchanged b (suc n) f v z = absurd (omega arith)

-- `fill` appends `n` copies of its byte if they fit and else changes nothing, and keeps the buffer well
-- formed.
pub fill_refines :
    (b : Buffer) (value n : ℕ) → IsValid b → Appends b n (λ _. value) (fill b value n)
unfolding fill
fill_refines b value n v = elim (Bool-cases (ltb (sub_size b.max_len b.pos) n)) [
  | inl e ↦ rw e (refused b n (λ _. value) v e)
  | inr e ↦ elim (Bool-cases (value == 0 && leb (add_size b.pos n) b.n_leading_zeros)) [
    | inl g ↦ rw (e, g) (unchanged b n (λ _. value) v (nothing e g))
    | inr g ↦
        rw
          (
            e,
            g,
            fill_loop-eq-write_cells b.mem b.pos value n (omega (arith, fits b n v e, v.small)),
          )
          (filled e (b.pos == 0 && value == 0))
  ]
]
  where
    nothing :
        ltb (sub_size b.max_len b.pos) n ≡ false
        → (value == 0 && leb (add_size b.pos n) b.n_leading_zeros) ≡ true
        → n ≡ 0
    nothing e g = ground (arith, no_wrap b n v e, v.no_zeros)

    filled :
        ltb (sub_size b.max_len b.pos) n ≡ false
        → (set_zero : Bool)
        → Appends b n
            (λ _. value)
            (
              success,
              if set_zero
                  then copied b n (λ _. value) (b.pos + n) 0
                  else copied b n (λ _. value) (b.pos + n) b.n_leading_zeros,
            )
    filled e true = accepted b n (b.pos + n) 0 (λ _. value) v e refl refl
    filled e false = accepted b n (b.pos + n) b.n_leading_zeros (λ _. value) v e refl v.no_zeros

-- `reset` empties the buffer.
pub reset-IsValid : (b : Buffer) → IsValid b → IsValid (reset b) × (contents (reset b) ≡ [])
unfolding reset
reset-IsValid b v = (omega arith, refl)

-- Where the bytes fit, they are appended and the call succeeds.
pub append_fits :
    (b : Buffer) (n : ℕ) (f : ℕ → ℕ) (r : Status × Buffer)
    → Appends b n f r
    → b.pos + n ≤ b.max_len
    → (r.0 ≡ success) × (contents r.1 ≡ contents b ++ tabulate n f)
unfolding append_spec
append_fits b n f r a room =
    (ap (λ (x : Status × List ℕ). x.0) both, ap (λ (x : Status × List ℕ). x.1) both)
  where
    enough : ltb (b.max_len - b.pos) n ≡ false
    enough = ground arith

    both : ◌≡◌ {A = Status × List ℕ} (r.0, contents r.1) (success, contents b ++ tabulate n f)
    both = a.result ∙ rw (length-tabulate b.pos (λ i. get_or b.mem i 0), enough)
