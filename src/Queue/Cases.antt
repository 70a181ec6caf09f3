-- ===== src/Queue/Cases.antt =====
-- The contract of a queue that holds a given list, one case of `push`, `pop` and `discard` at a time.
use ledfw_lib.Common.{
  ℕ, ◌-◌, ◌≤◌, ◌<◌, ◌≡◌, ◌∙◌, ap, ◌⊎◌, inl, inr, Bool, true, Option, none, some, List, ◌++◌, length,
  take, drop, tabulate, Status, success, null,
}
use ledfw_lib.Fifo
use ledfw_lib.Fifo.Cases
use ledfw_lib.Queue.{Queue}

module _ {A : Type 0} {cap : ℕ} (Q : Queue A cap) where
  -- A call's status, and what the queue holds after it.
  pub record Leaves (t : Status) (q : List A) (r : Status × Q.State) : Type 0 where
    pub status : r.0 ≡ t
    pub items : Q.contents r.1 ≡ q
    pub valid : Q.IsValid r.1

  module _ (s : Q.State) (q : List A) (v : Q.IsValid s) (e : Q.contents s ≡ q) (n : ℕ) where
    push-Leaves :
        (p : Option (ℕ → A)) (t : Status) (q' : List A)
        → Fifo.push cap q p n ≡ (t, q')
        → Leaves t q' (Q.push s p n)
    push-Leaves p t q' h = record {
      status = ap (λ (r : Status × List A). r.0) both;
      items = ap (λ (r : Status × List A). r.1) both;
      valid = Q.push-IsValid s p n v;
    }
      where
        both : ◌≡◌ {A = Status × List A} ((Q.push s p n).0, Q.contents (Q.push s p n).1) (t, q')
        both = Q.push_refines s p n v ∙ rw e h

    pub push_fits :
        (p : ℕ → A) → n ≤ cap - length q → Leaves success (q ++ tabulate n p) (Q.push s (some p) n)
    push_fits p room =
        push-Leaves (some p) success (q ++ tabulate n p) (Cases.push_fits cap q p n room)

    pub push_null : 0 < n → n ≤ cap - length q → Leaves null q (Q.push s none n)
    push_null pos room = push-Leaves none null q (Cases.push_null cap q n pos room)

    pub push_zero : n ≡ 0 → Leaves success q (Q.push s none n)
    push_zero h = push-Leaves none success q (Cases.push_zero cap q n h)

    pub discard_fits : n ≤ length q → Leaves success (drop n q) (Q.discard s n)
    discard_fits h =
        let r = Q.discard_refines s n v in
        record {
          status = r.0 ∙ ap (λ (x : Status × List A × List A). x.0) fifo;
          items = r.1 ∙ ap (λ (x : Status × List A × List A). x.2) fifo;
          valid = r.2;
        }
      where
        fifo : Fifo.pop (Q.contents s) true n ≡ (success, take n q, drop n q)
        fifo = rw e (Cases.pop_fits q n h)

    -- A `pop` of as many items as there are, with memory to put them in.
    pub pop_fits :
        (b : Bool)
        → n ≤ length q
        → (b ≡ true) ⊎ (n ≡ 0)
        → let (t, out, s') = Q.pop s b n in Leaves success (drop n q) (t, s') × (out ≡ take n q)
    pop_fits b h can = (
      record {
        status = ap (λ (x : Status × List A × List A). x.0) both;
        items = ap (λ (x : Status × List A × List A). x.2) both;
        valid = Q.pop-IsValid s b n v;
      },
      ap (λ (x : Status × List A × List A). x.1) both,
    )
      where
        fifo : (b ≡ true) ⊎ (n ≡ 0) → Fifo.pop q b n ≡ (success, take n q, drop n q)
        fifo (inl y) = rw y (Cases.pop_fits q n h)
        fifo (inr z) = rw z (Cases.pop_zero q b)

        both :
            ◌≡◌ {A = Status × List A × List A}
              ((Q.pop s b n).0, (Q.pop s b n).1, Q.contents (Q.pop s b n).2)
              (success, take n q, drop n q)
        both = Q.pop_refines s b n v ∙ rw e (fifo can)
