-- ===== src/Fifo/Cases.antt =====
-- The bounded queue's `push` and `pop`, a case at a time.
use ledfw_lib.Common.{
  ℕ, zero, suc, ◌-◌, ◌≤◌, ◌<◌, ◌≡◌, refl, Bool, true, none, some, List, [], ◌++◌, append-nil, arith,
  length, take, drop, tabulate, success, null,
}
use ledfw_lib.Fifo.{push, pop}

module _ {A : Type 0} where
  pub push_fits :
      (cap : ℕ) (q : List A) (p : ℕ → A) (n : ℕ)
      → n ≤ cap - length q
      → push cap q (some p) n ≡ (success, q ++ tabulate n p)
  unfolding push
  push_fits cap q p zero h = rw (append-nil q)
  push_fits cap q p (suc n) h = ground arith

  pub push_null :
      (cap : ℕ) (q : List A) (n : ℕ) → 0 < n → n ≤ cap - length q → push cap q none n ≡ (null, q)
  unfolding push
  push_null cap q n pos h = ground arith

  pub push_zero : (cap : ℕ) (q : List A) (n : ℕ) → n ≡ 0 → push cap q none n ≡ (success, q)
  unfolding push
  push_zero cap q n e = ground arith

  pub pop_fits : (q : List A) (n : ℕ) → n ≤ length q → pop q true n ≡ (success, take n q, drop n q)
  unfolding pop
  pop_fits q zero h = refl
  pop_fits q (suc n) h = ground arith

  pub pop_zero : (q : List A) (b : Bool) → pop q b 0 ≡ (success, [], q)
  unfolding pop
  pop_zero q b = refl
