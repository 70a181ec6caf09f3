-- ===== src/Circbuf/Pop.antt =====
-- `pop`, `discard` and `peek` of `circbuf` against those of the bounded queue.
use ledfw_lib.Common.{
  ℕ, zero, suc, ◌+◌, ◌-◌, ◌%◌, ◌≤◌, ◌<◌, min, ◌≡◌, refl, ◌∙◌, sym, ap, Bool, true, false, ◌++◌,
  arith, dec_lt, get_or, ltb, ◌==◌, Bool-cases, if◌then◌else◌, add_size, add_size-eq-add, tabulate,
  tabulate_ext, tabulate-add, length-tabulate, take, drop, take-append, drop-append, cong, inl, inr,
  none, some, success, invalid_length,
}
use native.Mathlib.Nat.{mod-eq_of_lt, mod-add-mod}
use ledfw_lib.Fifo
use ledfw_lib.Circbuf.{Circbuf, check_range, read_cells, advance, pop_items, pop, discard, peek}
use ledfw_lib.Circbuf.Cells.{read_cells-eq-tabulate}
use ledfw_lib.Circbuf.Valid.{IsValid, contents, length-contents, mod-of_wrap}

module _ {A : Type 0} (cap : ℕ) (junk : A) {c : Circbuf A} (v : IsValid cap c) (n : ℕ)
    (avail : n ≤ c.len) where
  abbrev item : ℕ → A
  item i = get_or c.raw ((c.start + i) % cap) junk

  abbrev copy : ℕ
  copy = min n (cap - c.start)

  first_part : read_cells junk c.raw copy c.start ≡ tabulate copy item
  first_part =
      read_cells-eq-tabulate c.raw copy c.start junk
      ∙ tabulate_ext copy copy (λ i. get_or c.raw (c.start + i) junk) item refl
          (λ i lt. cong (λ k. get_or c.raw k junk) (sym (mod-eq_of_lt (omega arith))))

  second_part :
      copy < n → read_cells junk c.raw (n - copy) 0 ≡ tabulate (n - copy) (λ i. item (copy + i))
  second_part h =
      read_cells-eq-tabulate c.raw (n - copy) 0 junk
      ∙ tabulate_ext (n - copy) (n - copy) (λ i. get_or c.raw (0 + i) junk) (λ i. item (copy + i))
          refl
          (λ i lt.
            cong (λ k. get_or c.raw k junk)
              (sym (
                omega (arith, mod-of_wrap (c.start + (copy + i)) cap (omega arith) (omega arith)))))

  popped : (pop_items cap junk c n).0 ≡ tabulate n item
  unfolding pop_items advance check_range
  popped = elim (dec_lt copy n) [
    | yes h ↦
        ground (arith, first_part, second_part h, tabulate-add copy (n - copy) n item (omega arith))
    | no h ↦
        let same : copy ≡ n = omega arith in
        ground (arith, first_part, cong (λ k. tabulate k item) same)
  ]

  advance-fields :
      ((advance cap c n).raw ≡ c.raw)
      × ((advance cap c n).len ≡ c.len - n)
      × ((advance cap c n).start ≡ (c.start + n) % cap)
  unfolding advance
  advance-fields = (refl, refl, rw (add_size-eq-add c.start n (omega arith)))

  -- What is left after `n` items, once the index has moved on by `n`.
  contents-advance : contents cap junk (advance cap c n) ≡ tabulate (c.len - n) (λ i. item (n + i))
  unfolding advance
  contents-advance =
      tabulate_ext (c.len - n) (c.len - n)
        (λ i. get_or c.raw ((add_size c.start n % cap + i) % cap) junk) (λ i. item (n + i)) refl
        (λ i lt. cong (λ k. get_or c.raw k junk) (shift i))
    where
      shift : (i : ℕ) → (add_size c.start n % cap + i) % cap ≡ (c.start + (n + i)) % cap
      shift i =
          rw (add_size-eq-add c.start n (omega arith), mod-add-mod)
            (cong (λ k. k % cap) (omega arith))

  -- The queue is what `advance` drops followed by what it keeps.
  pub contents-split : contents cap junk c ≡ tabulate n item ++ contents cap junk (advance cap c n)
  contents-split =
      tabulate-add n (c.len - n) c.len item (omega arith)
      ∙ ap (λ l. tabulate n item ++ l) (sym contents-advance)

  contents-pop_items :
      contents cap junk (pop_items cap junk c n).1 ≡ contents cap junk (advance cap c n)
  unfolding pop_items advance check_range
  contents-pop_items = ground arith

  pub advance-IsValid : IsValid cap (advance cap c n)
  unfolding advance
  advance-IsValid = ground arith

  pub pop_items-IsValid : IsValid cap (pop_items cap junk c n).1
  unfolding pop_items advance check_range
  pop_items-IsValid = ground arith

  -- In terms of the queue: the oldest items come out, the others stay.
  pub pop_items_lem :
      ((pop_items cap junk c n).0 ≡ take n (contents cap junk c))
      × (contents cap junk (pop_items cap junk c n).1 ≡ drop n (contents cap junk c))
  pop_items_lem = (
    popped ∙ sym (rw contents-split (take-append n (tabulate n item) _ (length-tabulate n item))),
    contents-pop_items
        ∙ sym (rw contents-split (drop-append n (tabulate n item) _ (length-tabulate n item))),
  )

  pub contents-advance-eq-drop : contents cap junk (advance cap c n) ≡ drop n (contents cap junk c)
  contents-advance-eq-drop =
      sym (rw contents-split (drop-append n (tabulate n item) _ (length-tabulate n item)))

module _ {A : Type 0} (cap : ℕ) (junk : A) where
  -- On every branch `pop` returns the status and the items of the bounded queue's `pop`, and leaves
  -- the buffer holding what that queue has left.
  pub pop_refines :
      (c : Circbuf A) (has_data : Bool) (n : ℕ)
      → IsValid cap c
      → let (s, out, c') = pop cap junk c has_data n in
        (s, out, contents cap junk c') ≡ Fifo.pop (contents cap junk c) has_data n
  unfolding pop Fifo.pop
  pop_refines c has_data n v = elim (dec_lt c.len n) [
    | yes h ↦ ground (arith, length-contents cap junk c)
    | no h ↦ ground (arith, length-contents cap junk c, pop_items_lem cap junk v n (omega arith))
  ]

  -- `pop` keeps a buffer well formed, whatever it is given.
  pub pop-IsValid :
      (c : Circbuf A) (has_data : Bool) (n : ℕ)
      → IsValid cap c
      → IsValid cap (pop cap junk c has_data n).2
  unfolding pop
  pop-IsValid c has_data n v = elim (Bool-cases (n == 0)) [
    | inl e ↦ rw e v
    | inr e ↦ elim (Bool-cases (ltb c.len n)) [
      | inl f ↦ rw (e, f) v
      | inr f ↦
          rw (e, f)
            (elim (Bool-cases has_data) [
              | inl g ↦ rw g (pop_items-IsValid cap junk v n (ground arith))
              | inr g ↦ rw g v
            ])
    ]
  ]

  -- `discard` drops what `pop` would hand over, and keeps the buffer well formed.
  pub discard_refines :
      (c : Circbuf A) (n : ℕ)
      → IsValid cap c
      → let (s, c') = discard cap c n in
        let (t, out, q) = Fifo.pop (contents cap junk c) true n in
        (s ≡ t) × (contents cap junk c' ≡ q) × IsValid cap c'
  unfolding discard Fifo.pop
  discard_refines c n v = elim (Bool-cases (n == 0)) [
    | inl e ↦ rw e (refl, refl, v)
    | inr e ↦ elim (Bool-cases (ltb c.len n)) [
      | inl f ↦ rw (e, length-contents cap junk c, f) (refl, refl, v)
      | inr f ↦
          rw (e, length-contents cap junk c, f)
            (
              refl,
              contents-advance-eq-drop cap junk v n (ground arith),
              advance-IsValid cap junk v n (ground arith),
            )
    ]
  ]

  peek-tabulate :
      (m : ℕ) (f : ℕ → A)
      → Fifo.peek (tabulate m f) true
        ≡ (if m == 0 then (invalid_length, none) else (success, some (f 0)))
  unfolding Fifo.peek
  peek-tabulate zero f = refl
  peek-tabulate (suc m) f = ground arith

  -- `peek` shows the oldest item.
  pub peek_refines :
      (c : Circbuf A) (has_data : Bool)
      → IsValid cap c
      → peek cap junk c has_data ≡ Fifo.peek (contents cap junk c) has_data
  unfolding peek
  peek_refines c false v = unfold Fifo.peek in refl
  peek_refines c true v = rw (peek-tabulate c.len (λ i. get_or c.raw ((c.start + i) % cap) junk)) (
      cong
        (λ k. if c.len == 0 then (invalid_length, none) else (success, some (get_or c.raw k junk)))
        first)
    where
      first : c.start ≡ (c.start + 0) % cap
      first = sym (mod-eq_of_lt (omega arith) ∙ omega arith)
