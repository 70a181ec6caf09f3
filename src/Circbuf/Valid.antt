-- ===== src/Circbuf/Valid.antt =====
-- The representation of a queue by a `circbuf`, and its well-formedness.
use ledfw_lib.Common.{
  ℕ, ◌+◌, ◌-◌, ◌%◌, ◌≤◌, ◌<◌, ◌^◌, ◌≡◌, List, arith, length, get_or, tabulate, length-tabulate,
}
use ledfw_lib.Circbuf.{Circbuf, remaining}

-- A capacity of at most half the address space keeps every `size_t` sum from wrapping.
pub record IsValid {A : Type 0} (cap : ℕ) (c : Circbuf A) : Type 0 where
  pub small : cap ≤ 2 ^ 31
  pub storage : length c.raw ≡ cap
  pub start_in : c.start < cap
  pub len_in : c.len ≤ cap

module _ {A : Type 0} (cap : ℕ) (junk : A) where
  -- The queued items, oldest first.
  abbrev pub contents : Circbuf A → List A
  contents c = tabulate c.len (λ i. get_or c.raw ((c.start + i) % cap) junk)

  pub length-contents : (c : Circbuf A) → length (contents c) ≡ c.len
  length-contents c = length-tabulate c.len _

-- An index at most one turn past the end wraps by one subtraction.
pub mod-of_wrap : (x n : ℕ) → n ≤ x → x < n + n → x % n ≡ x - n
mod-of_wrap x n h k = grind arith

pub remaining_lem :
    {A : Type 0} (cap : ℕ) (c : Circbuf A) → IsValid cap c → remaining cap c ≡ cap - c.len
unfolding remaining
remaining_lem cap c v = omega arith

module _ {A : Type 0} (cap : ℕ) (junk : A) (c : Circbuf A) where
  pub len_lem : c.len ≡ length (contents cap junk c)
  len_lem = omega (arith, length-contents cap junk c)

  pub remaining-eq : IsValid cap c → remaining cap c ≡ cap - length (contents cap junk c)
  remaining-eq v = omega (arith, length-contents cap junk c, remaining_lem cap c v)
