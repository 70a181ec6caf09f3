-- ===== src/Fifo.antt =====
-- What a bounded first-in first-out queue promises: the specification of `circbuf`.
pub mod Cases
use ledfw_lib.Common.{
  ℕ, ◌-◌, Bool, none, some, true, false, List, [], ◌∷◌, ◌++◌, Option, ltb, ◌==◌, if◌then◌else◌,
  length, take, drop, tabulate, Status, success, no_mem, null, invalid_length,
}

module _ {A : Type 0} where
  -- All `n` items are appended, or none.
  unfoldable pub push : ℕ → List A → Option (ℕ → A) → ℕ → Status × List A
  push cap q items n =
      if n == 0
      then (success, q)
      else if ltb (cap - length q) n
      then (no_mem, q)
      else elim items [ none ↦ (null, q) | some p ↦ (success, q ++ tabulate n p) ]

  -- The `n` oldest items are removed and handed over, or none.
  unfoldable pub pop : List A → Bool → ℕ → Status × List A × List A
  pop q has_data n =
      if n == 0
      then (success, [], q)
      else if ltb (length q) n
      then (invalid_length, [], q)
      else if has_data
      then (success, take n q, drop n q)
      else (null, [], q)

  -- The oldest item is shown, and stays.
  unfoldable pub peek : List A → Bool → Status × Option A
  peek q false = (null, none)
  peek [] true = (invalid_length, none)
  peek (x ∷ q) true = (success, some x)
