-- ===== src/Queue.antt =====
-- The interface of `circbuf<N, T>` that its clients in include/util.hh use: its operations, with the
-- bounded queue of `Fifo` as their contract.
pub mod Cases
use ledfw_lib.Common.{ℕ, ◌-◌, ◌≡◌, Bool, true, Option, List, length, Status}
use ledfw_lib.Fifo

pub record Queue (A : Type 0) (cap : ℕ) : Type 1 where
  pub State : Type 0
  pub IsValid : State → Type 0
  pub contents : State → List A
  pub len : State → ℕ
  pub remaining : State → ℕ
  pub push : State → Option (ℕ → A) → ℕ → Status × State
  pub pop : State → Bool → ℕ → Status × List A × State
  pub discard : State → ℕ → Status × State
  pub peek : State → Bool → Status × Option A
  pub len_lem : (s : State) → IsValid s → len s ≡ length (contents s)
  pub remaining_lem : (s : State) → IsValid s → remaining s ≡ cap - length (contents s)
  pub push_refines :
      (s : State) (p : Option (ℕ → A)) (n : ℕ)
      → IsValid s
      → let (t, s') = push s p n in (t, contents s') ≡ Fifo.push cap (contents s) p n
  pub push-IsValid : (s : State) (p : Option (ℕ → A)) (n : ℕ) → IsValid s → IsValid (push s p n).1
  pub pop_refines :
      (s : State) (b : Bool) (n : ℕ)
      → IsValid s
      → let (t, out, s') = pop s b n in (t, out, contents s') ≡ Fifo.pop (contents s) b n
  pub pop-IsValid : (s : State) (b : Bool) (n : ℕ) → IsValid s → IsValid (pop s b n).2
  pub discard_refines :
      (s : State) (n : ℕ)
      → IsValid s
      → let (t, s') = discard s n in
        let (u, out, q) = Fifo.pop (contents s) true n in (t ≡ u) × (contents s' ≡ q) × IsValid s'
  pub peek_refines : (s : State) (b : Bool) → IsValid s → peek s b ≡ Fifo.peek (contents s) b
