-- ===== src/Circbuf/Push.antt =====
-- `push` of `circbuf` against that of the bounded queue.
use ledfw_lib.Common.{
  write_cells, length-write_cells, get_or-write_cells, get_or-write_cells_below,
  get_or-write_cells_above, ℕ, ◌+◌, ◌-◌, ◌%◌, ◌≤◌, ◌<◌, min, ◌≡◌, refl, ◌∙◌, List, arith, dec_lt,
  length, get_or, ltb, ◌==◌, Bool-cases, if◌then◌else◌, add_size, add_size-eq-add, tabulate,
  tabulate_ext, tabulate-add, ◌++◌, cong, ◌⊎◌, inl, inr, none, some,
}
use mathlib.Core.Path.{ap₂}
use native.Mathlib.Nat.{mod-eq_of_lt}
use ledfw_lib.Fifo
use ledfw_lib.Circbuf.{Circbuf, Ptr, check_range, write, remaining, push_items, push}
use ledfw_lib.Circbuf.Valid.{IsValid, contents, length-contents, mod-of_wrap, remaining_lem}

-- The array after the one or two copies of `push`.
abbrev pushed : {A : Type 0} → List A → (ℕ → A) → ℕ → ℕ → ℕ → List A
pushed raw p n end copy =
    if ltb copy n
    then write_cells (write_cells raw p copy end) (λ i. p (copy + i)) (n - copy) 0
    else write_cells raw p copy end

module _ {A : Type 0} (raw : List A) (p : ℕ → A) (n cap end : ℕ) (d : A)
    (storage : length raw ≡ cap) (end_in : end < cap) (fits : n ≤ cap) where
  abbrev copy : ℕ
  copy = min n (cap - end)

  length-pushed : length (pushed raw p n end copy) ≡ cap
  length-pushed = ground (
    arith,
    length-write_cells raw p copy end,
    length-write_cells (write_cells raw p copy end) (λ i. p (copy + i)) (n - copy) 0,
  )

  pushed_first :
      (j k : ℕ) → j < n → k ≡ end + j → k < cap → get_or (pushed raw p n end copy) k d ≡ p j
  pushed_first j k h1 e h2 = ground (
    arith,
    get_or-write_cells raw p copy end j k d (omega arith) e (omega arith),
    get_or-write_cells_above (write_cells raw p copy end) (λ i. p (copy + i)) (n - copy) 0 k d,
  )

  pushed_second : (j k : ℕ) → j < n → end + j ≡ cap + k → get_or (pushed raw p n end copy) k d ≡ p j
  pushed_second j k h e = ground (
    arith,
    get_or-write_cells (write_cells raw p copy end) (λ i. p (copy + i)) (n - copy) 0 k k d
        (omega arith) (omega arith) (omega (arith, length-write_cells raw p copy end)),
    cong p same,
  )
    where
      same : copy + k ≡ j
      same = omega arith

  -- A cell outside both copies is kept.
  pushed_kept :
      (k : ℕ)
      → (k < end) ⊎ (end + n ≤ k)
      → end + n ≤ cap + k
      → get_or (pushed raw p n end copy) k d ≡ get_or raw k d
  pushed_kept k (inl h) g = ground (
    arith,
    get_or-write_cells_below raw p copy end k d h,
    get_or-write_cells_above (write_cells raw p copy end) (λ i. p (copy + i)) (n - copy) 0 k d,
  )
  pushed_kept k (inr h) g = ground (
    arith,
    get_or-write_cells_above raw p copy end k d,
    get_or-write_cells_above (write_cells raw p copy end) (λ i. p (copy + i)) (n - copy) 0 k d,
  )

module _ {A : Type 0} (cap : ℕ) (junk : A) {c : Circbuf A} (v : IsValid cap c) (p : ℕ → A) (n : ℕ)
    (room : n ≤ cap - c.len) where
  abbrev end : ℕ
  end = add_size c.start c.len % cap

  -- `end` is `start + length`, less one turn where that passes the end of the array.
  end_cases :
      ((c.start + c.len < cap) × (end ≡ c.start + c.len))
      ⊎ ((cap ≤ c.start + c.len) × (end ≡ c.start + c.len - cap))
  end_cases = elim (dec_lt (c.start + c.len) cap) [
    | yes h ↦ inl (h, rw (add_size-eq-add c.start c.len (omega arith)) (mod-eq_of_lt h))
    | no h ↦ inr (
      omega arith,
      rw (add_size-eq-add c.start c.len (omega arith))
          (mod-of_wrap (c.start + c.len) cap (omega arith) (omega arith)),
    )
  ]

  place_cases :
      (i : ℕ)
      → i < cap
      → ((c.start + i < cap) × ((c.start + i) % cap ≡ c.start + i))
        ⊎ ((cap ≤ c.start + i) × ((c.start + i) % cap + cap ≡ c.start + i))
  place_cases i lt = elim (dec_lt (c.start + i) cap) [
    | yes h ↦ inl (h, omega (arith, mod-eq_of_lt h))
    | no h ↦
        inr (omega arith, omega (arith, mod-of_wrap (c.start + i) cap (omega arith) (omega arith)))
  ]

  push_items-raw : (push_items cap c p n).raw ≡ pushed c.raw p n end (min n (cap - end))
  unfolding push_items write check_range
  push_items-raw = ground arith

  push_items-fields :
      ((push_items cap c p n).start ≡ c.start) × ((push_items cap c p n).len ≡ c.len + n)
  unfolding push_items write check_range
  push_items-fields = ground arith

  old_item :
      (i : ℕ)
      → i < c.len
      → get_or (push_items cap c p n).raw ((c.start + i) % cap) junk
        ≡ get_or c.raw ((c.start + i) % cap) junk
  old_item i lt = rw push_items-raw (elim end_cases [
    | inl a ↦ elim (place_cases i (omega arith)) [
      | inl b ↦ kept (inl (omega arith)) (omega arith)
      | inr b ↦ kept (inl (omega arith)) (omega arith)
    ]
    | inr a ↦ elim (place_cases i (omega arith)) [
      | inl b ↦ kept (inr (omega arith)) (omega arith)
      | inr b ↦ kept (inl (omega arith)) (omega arith)
    ]
  ])
    where
      kept :
          ((c.start + i) % cap < end) ⊎ (end + n ≤ (c.start + i) % cap)
          → end + n ≤ cap + (c.start + i) % cap
          → get_or (pushed c.raw p n end (min n (cap - end))) ((c.start + i) % cap) junk
            ≡ get_or c.raw ((c.start + i) % cap) junk
      kept =
          pushed_kept c.raw p n cap end junk v.storage (omega arith) (omega arith)
            ((c.start + i) % cap)

  new_item :
      (j k : ℕ)
      → j < n
      → k ≡ c.len + j
      → get_or (push_items cap c p n).raw ((c.start + k) % cap) junk ≡ p j
  new_item j k lt e = rw push_items-raw (elim end_cases [
    | inl a ↦ elim (place_cases k (omega arith)) [
      | inl b ↦ first (omega arith) (omega arith)
      | inr b ↦ second (omega arith)
    ]
    | inr a ↦ elim (place_cases k (omega arith)) [
      | inl b ↦ absurd (omega arith)
      | inr b ↦ first (omega arith) (omega arith)
    ]
  ])
    where
      place : ℕ
      place = (c.start + k) % cap

      first :
          place ≡ end + j
          → place < cap
          → get_or (pushed c.raw p n end (min n (cap - end))) place junk ≡ p j
      first = pushed_first c.raw p n cap end junk v.storage (omega arith) (omega arith) j place lt

      second :
          end + j ≡ cap + place → get_or (pushed c.raw p n end (min n (cap - end))) place junk ≡ p j
      second = pushed_second c.raw p n cap end junk v.storage (omega arith) (omega arith) j place lt

  -- The copies append the caller's items to the queue.
  pub contents-push_items :
      contents cap junk (push_items cap c p n) ≡ contents cap junk c ++ tabulate n p
  contents-push_items =
      tabulate_ext (push_items cap c p n).len (c.len + n)
        (λ i. get_or (push_items cap c p n).raw (((push_items cap c p n).start + i) % cap) junk)
        item (push_items-fields.1) (λ i lt. rw push_items-fields.0)
      ∙ tabulate-add c.len n (c.len + n) item refl
      ∙ ap₂ ◌++◌
          (tabulate_ext c.len c.len item (λ i. get_or c.raw ((c.start + i) % cap) junk) refl
            old_item)
          (tabulate_ext n n (λ j. item (c.len + j)) p refl (λ j lt. new_item j (c.len + j) lt refl))
    where
      item : ℕ → A
      item i = get_or (push_items cap c p n).raw ((c.start + i) % cap) junk

  pub push_items-IsValid : IsValid cap (push_items cap c p n)
  push_items-IsValid = record {
    small = v.small;
    storage =
        rw push_items-raw
          (length-pushed c.raw p n cap end junk v.storage (omega arith) (omega arith));
    start_in = omega (arith, push_items-fields);
    len_in = omega (arith, push_items-fields);
  }

module _ {A : Type 0} (cap : ℕ) (junk : A) where
  -- On every branch `push` returns the status of the bounded queue's `push`, and leaves the buffer
  -- holding that queue's items.
  pub push_refines :
      (c : Circbuf A) (items : Ptr A) (n : ℕ)
      → IsValid cap c
      → let (s, c') = push cap c items n in
        (s, contents cap junk c') ≡ Fifo.push cap (contents cap junk c) items n
  unfolding push Fifo.push
  push_refines c none n v = ground (arith, length-contents cap junk c, remaining_lem cap c v)
  push_refines c (some p) n v =
      ground (
        arith,
        length-contents cap junk c,
        remaining_lem cap c v,
        contents-push_items cap junk v p n,
      )

  -- `push` keeps a buffer well formed, whatever it is given.
  pub push-IsValid :
      (c : Circbuf A) (items : Ptr A) (n : ℕ) → IsValid cap c → IsValid cap (push cap c items n).1
  unfolding push
  push-IsValid c none n v = ground arith
  push-IsValid c (some p) n v = elim (Bool-cases (n == 0)) [
    | inl e ↦ rw e v
    | inr e ↦ elim (Bool-cases (ltb (remaining cap c) n)) [
      | inl f ↦ rw (e, f) v
      | inr f ↦
          rw (e, f) (push_items-IsValid cap junk v p n (ground (arith, remaining_lem cap c v)))
    ]
  ]
