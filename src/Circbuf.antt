-- ===== src/Circbuf.antt =====
-- `circbuf<N, T>` of include/util.hh: a byte or item queue over a fixed array.
--
-- The template argument `N` is `cap`. A pointer argument is `none` for the null pointer, and else
-- the items that it leads to, by offset. `assert` calls the application's error handler, which is outside
-- the repository: `asserts` counts those calls, an operation is what happens if each returns, and
-- `outcome` is what a caller sees of it, whether they return or not. `junk` is what a read outside the array would
-- give.
pub mod Cells
pub mod Valid
pub mod Push
pub mod Pop
pub mod Faults
pub mod Instance
use ledfw_lib.Common.{
  ℕ, zero, suc, ◌+◌, ◌-◌, ◌%◌, min, Bool, true, false, ◌&&◌, ◌||◌, Option, none, some, List, [],
  ◌∷◌, ◌++◌, ltb, ◌==◌, if◌then◌else◌, get_or, write_cells, Status, success, no_mem, null,
  invalid_length, is_success, add_size, sub_size,
}

-- The pointer to caller memory.
abbrev pub Ptr : Type 0 → Type 0
Ptr A = Option (ℕ → A)

pub record Circbuf (A : Type 0) : Type 0 where
  pub start : ℕ
  pub len : ℕ
  pub raw : List A
  pub asserts : ℕ

-- What a call comes to that took `before` to `after` with the result `r`: `none` where it entered an error
-- handler that does not return
unfoldable pub outcome {ℓ} :
    {A : Type 0} {R : Type ℓ} → (handler_returns : Bool) → (before after : Circbuf A) → R → Option R
outcome handler_returns before after r =
    if handler_returns || after.asserts == before.asserts then some r else none

module _ {A : Type 0} (junk : A) where
  -- the loop of `read`: the items put into `data[0], …, data[n - 1]`
  unfoldable pub read_cells : List A → ℕ → ℕ → List A
  read_cells raw zero offset = []
  read_cells raw (suc n) offset = get_or raw offset junk ∷ read_cells raw n (suc offset)

module _ {A : Type 0} (cap : ℕ) where
  unfoldable pub remaining : Circbuf A → ℕ
  remaining c = sub_size cap c.len

  unfoldable pub is_empty : Circbuf A → Bool
  is_empty c = c.len == 0

  unfoldable pub is_full : Circbuf A → Bool
  is_full c = c.len == cap

  -- `assert(offset + n < capacity())`
  unfoldable pub check_range : Circbuf A → ℕ → ℕ → Circbuf A
  check_range c n offset =
      if ltb (add_size offset n) cap then c else record c { asserts = c.asserts + 1 }

  unfoldable pub write : Circbuf A → (ℕ → A) → ℕ → ℕ → Circbuf A
  write c items n offset =
      let c' = check_range c n offset in record c' { raw = write_cells c.raw items n offset }

  -- `push` past its guards
  unfoldable pub push_items : Circbuf A → (ℕ → A) → ℕ → Circbuf A
  push_items c items n =
      let end = add_size c.start c.len % cap in
      let copy = min n (cap - end) in
      let c' = write c items copy end in
      let c'' = if ltb copy n then write c' (λ i. items (copy + i)) (n - copy) 0 else c' in
      record c'' { len = add_size c.len n }

  unfoldable pub push : Circbuf A → Ptr A → ℕ → Status × Circbuf A
  push c items n =
      if n == 0
      then (success, c)
      else if ltb (remaining c) n
      then (no_mem, c)
      else elim items [ none ↦ (null, c) | some p ↦ (success, push_items c p n) ]

  unfoldable pub push_one : Circbuf A → Ptr A → Status × Circbuf A
  push_one c items = push c items 1

  -- `length -= n; start = (start + n) % capacity();`
  unfoldable pub advance : Circbuf A → ℕ → Circbuf A
  advance c n = record c { len = c.len - n; start = add_size c.start n % cap }

  unfoldable pub discard : Circbuf A → ℕ → Status × Circbuf A
  discard c n =
      if n == 0
      then (success, c)
      else if ltb c.len n
      then (invalid_length, c)
      else (success, advance c n)

module _ {A : Type 0} (cap : ℕ) (junk : A) where
  -- `pop` past its guards: the items written to the caller's memory, and the new state
  unfoldable pub pop_items : Circbuf A → ℕ → List A × Circbuf A
  pop_items c n =
      let copy = min n (cap - c.start) in
      let c' = check_range cap c copy c.start in
      let out = read_cells junk c.raw copy c.start in
      let c'' = if ltb copy n then check_range cap c' (n - copy) 0 else c' in
      let out' = if ltb copy n then out ++ read_cells junk c.raw (n - copy) 0 else out in
      (out', advance cap c'' n)

  -- `has_data` says that the caller's pointer is not null.
  unfoldable pub pop : Circbuf A → (has_data : Bool) → ℕ → Status × List A × Circbuf A
  pop c has_data n =
      if n == 0
      then (success, [], c)
      else if ltb c.len n
      then (invalid_length, [], c)
      else if has_data
      then (let (out, c') = pop_items c n in (success, out, c'))
      else (null, [], c)

  unfoldable pub pop_one : Circbuf A → (has_data : Bool) → Status × List A × Circbuf A
  pop_one c has_data = pop c has_data 1

  -- The number is what goes to `*npop`, if that is written.
  unfoldable pub pop_some :
      Circbuf A → (has_data : Bool) → ℕ → (has_npop : Bool) → Status × List A × Option ℕ × Circbuf A
  pop_some c has_data n has_npop =
      let n' = min n c.len in
      let (ret, out, c') = pop c has_data n' in
      (ret, out, if has_npop && is_success ret then some n' else none, c')

  unfoldable pub peek : Circbuf A → (has_data : Bool) → Status × Option A
  peek c has_data =
      if has_data
      then if c.len == 0
        then (invalid_length, none)
        else (success, some (get_or c.raw c.start junk))
      else (null, none)
