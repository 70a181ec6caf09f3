-- ===== src/Circbuf/Faults.antt =====
-- When the range assertions of `write` and `read` fail. They ask for `offset + n < capacity()`, so
-- they refuse a copy that ends exactly at the end of the array, which is in bounds.
use ledfw_lib.Common.{
  ℕ, ◌+◌, ◌-◌, ◌%◌, ◌≤◌, ◌<◌, ◌≡◌, refl, ap, ◌∙◌, Bool, true, false, not, ◌&&◌, ◌||◌, ◌==◌, leb,
  Bool-cases, inl, inr, Option, none, some, arith, ltb, if◌then◌else◌, add_size-eq-add,
}
use ledfw_lib.Fifo
use ledfw_lib.Circbuf.{
  Ptr, Circbuf, outcome, check_range, write, push_items, push, advance, pop_items, pop,
}
use ledfw_lib.Circbuf.Valid.{IsValid, contents, remaining_lem}
use ledfw_lib.Circbuf.Push.{push_refines}
use ledfw_lib.Circbuf.Pop.{pop_refines}

module _ {A : Type 0} (cap : ℕ) where
  push_items-asserts :
      (c : Circbuf A) (p : ℕ → A) (n : ℕ)
      → IsValid cap c
      → 0 < n
      → n ≤ cap - c.len
      → (push_items cap c p n).asserts
        ≡ (if ltb ((c.start + c.len) % cap + n) cap then c.asserts else c.asserts + 1)
  unfolding push_items write check_range
  push_items-asserts c p n v pos room =
      rw (add_size-eq-add c.start c.len (omega arith)) (ground arith)

  -- A `push` that goes through fails exactly one assertion if the items reach the end of the array,
  -- also where they fit, and none otherwise.
  pub push-asserts :
      (c : Circbuf A) (p : ℕ → A) (n : ℕ)
      → IsValid cap c
      → 0 < n
      → n ≤ cap - c.len
      → (push cap c (some p) n).1.asserts
        ≡ (if ltb ((c.start + c.len) % cap + n) cap then c.asserts else c.asserts + 1)
  unfolding push
  push-asserts c p n v pos room =
      ground (arith, push_items-asserts c p n v pos room, remaining_lem cap c v)

module _ {A : Type 0} (cap : ℕ) (junk : A) where
  -- A `pop` that goes through fails exactly one assertion if the items that it takes reach the end of
  -- the array, and none otherwise.
  pub pop-asserts :
      (c : Circbuf A) (n : ℕ)
      → IsValid cap c
      → 0 < n
      → n ≤ c.len
      → (pop cap junk c true n).2.asserts
        ≡ (if ltb (c.start + n) cap then c.asserts else c.asserts + 1)
  unfolding pop pop_items advance check_range
  pop-asserts c n v pos avail = ground arith

-- The result `r` of a call, where no assertion fails or the error handler returns
abbrev pub unless_stopped {ℓ} : {R : Type ℓ} → (handler_returns fails : Bool) → R → Option R
unless_stopped handler_returns fails r = if handler_returns || not fails then some r else none

outcome_lem {ℓ} :
    {A : Type 0} {R : Type ℓ} (handler_returns fails : Bool) (before after : Circbuf A) (r : R)
    → after.asserts ≡ (if fails then before.asserts + 1 else before.asserts)
    → outcome handler_returns before after r ≡ unless_stopped handler_returns fails r
unfolding outcome
outcome_lem handler_returns true before after r e =
    let g : (after.asserts == before.asserts) ≡ false = ground (arith, e) in rw g refl
outcome_lem handler_returns false before after r e =
    let g : (after.asserts == before.asserts) ≡ true = ground (arith, e) in rw g refl

module _ {A : Type 0} (cap : ℕ) where
  -- The push of items that fit and reach the end of the array
  abbrev pub push_reaches : Circbuf A → Ptr A → ℕ → Bool
  push_reaches c none n = false
  push_reaches c (some p) n =
      ltb 0 n && (leb n (cap - c.len) && leb cap ((c.start + c.len) % cap + n))

  -- The pop of items that are there and reach the end of the array
  abbrev pub pop_reaches : Circbuf A → (has_data : Bool) → ℕ → Bool
  pop_reaches c has_data n = has_data && (ltb 0 n && (leb n c.len && leb cap (c.start + n)))

  push-asserts_all :
      (c : Circbuf A) (items : Ptr A) (n : ℕ)
      → IsValid cap c
      → (push cap c items n).1.asserts
        ≡ (if push_reaches c items n then c.asserts + 1 else c.asserts)
  unfolding push
  push-asserts_all c none n v = ground arith
  push-asserts_all c (some p) n v = elim (Bool-cases (ltb 0 n)) [
    | inr none_asked ↦ ground arith
    | inl pos ↦ elim (Bool-cases (leb n (cap - c.len))) [
      | inr full ↦ ground (arith, remaining_lem cap c v)
      | inl room ↦ push-asserts cap c p n v (ground arith) (ground arith) ∙ ground arith
    ]
  ]

module _ {A : Type 0} (cap : ℕ) (junk : A) where
  pop-asserts_all :
      (c : Circbuf A) (has_data : Bool) (n : ℕ)
      → IsValid cap c
      → (pop cap junk c has_data n).2.asserts
        ≡ (if pop_reaches cap c has_data n then c.asserts + 1 else c.asserts)
  unfolding pop
  pop-asserts_all c false n v = ground arith
  pop-asserts_all c true n v = elim (Bool-cases (ltb 0 n)) [
    | inr none_asked ↦ ground arith
    | inl pos ↦ elim (Bool-cases (leb n c.len)) [
      | inr missing ↦ ground arith
      | inl avail ↦ pop-asserts cap junk c n v (ground arith) (ground arith) ∙ ground arith
    ]
  ]

  -- On every branch `push` on a well-formed buffer comes to the status of the bounded queue's `push` and leaves that
  -- queue's items, unless an assertion fails and the error handler does not return: that is so exactly for
  -- a push of one item or more that fit and reach the end of the array.
  pub push_outcome :
      (handler_returns : Bool) (c : Circbuf A) (items : Ptr A) (n : ℕ)
      → IsValid cap c
      → let (s, c') = push cap c items n in
        outcome handler_returns c c' (s, contents cap junk c')
        ≡ unless_stopped handler_returns
            (push_reaches cap c items n)
            (Fifo.push cap (contents cap junk c) items n)
  push_outcome handler_returns c items n v =
      let (s, c') = push cap c items n in
      outcome_lem handler_returns (push_reaches cap c items n) c c' (s, contents cap junk c')
        (push-asserts_all cap c items n v)
      ∙ ap (unless_stopped handler_returns (push_reaches cap c items n))
          (push_refines cap junk c items n v)

  -- On every branch `pop` on a well-formed buffer comes to the status and the items of the bounded queue's `pop` and
  -- leaves what that queue has left, unless an assertion fails and the error handler does not return: that
  -- is so exactly for a pop of one item or more that are there and reach the end of the array.
  pub pop_outcome :
      (handler_returns : Bool) (c : Circbuf A) (has_data : Bool) (n : ℕ)
      → IsValid cap c
      → let (s, out, c') = pop cap junk c has_data n in
        outcome handler_returns c c' (s, out, contents cap junk c')
        ≡ unless_stopped handler_returns
            (pop_reaches cap c has_data n)
            (Fifo.pop (contents cap junk c) has_data n)
  pop_outcome handler_returns c has_data n v =
      let (s, out, c') = pop cap junk c has_data n in
      outcome_lem handler_returns (pop_reaches cap c has_data n) c c' (s, out, contents cap junk c')
        (pop-asserts_all c has_data n v)
      ∙ ap (unless_stopped handler_returns (pop_reaches cap c has_data n))
          (pop_refines cap junk c has_data n v)
