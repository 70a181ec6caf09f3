-- ===== src/Common/Cells.antt =====
-- Copying into an array: `memcpy`, and the loops that store one item after the other.
use Prim.Native.Nat.{ℕ, zero, suc, ◌+◌, ◌≤◌, ◌<◌}
use mathlib.Core.Path.{◌≡◌, refl, ap, ◌∙◌}
use mathlib.Core.List.{List, [], ◌∷◌, ◌++◌}
use native.Mathlib.Omega.{arith}
use ledfw_lib.Common.Lists.{length, get_or, set, drop, length-set, get_or-set_self, get_or-set_ne}

module _ {A : Type 0} where
  -- `raw[offset + i] = items[i]` for each `i` below `n`
  unfoldable pub write_cells : List A → (ℕ → A) → ℕ → ℕ → List A
  write_cells raw items zero offset = raw
  write_cells raw items (suc n) offset =
      write_cells (set raw offset (items 0)) (λ i. items (suc i)) n (suc offset)

  pub length-write_cells :
      (raw : List A) (p : ℕ → A) (n offset : ℕ) → length (write_cells raw p n offset) ≡ length raw
  unfolding write_cells
  length-write_cells raw p zero offset = refl
  length-write_cells raw p (suc n) offset =
      length-write_cells (set raw offset (p 0)) (λ i. p (suc i)) n (suc offset)
      ∙ length-set raw offset (p 0)

  -- Cells below and above the written range keep their items.
  pub get_or-write_cells_below :
      (raw : List A) (p : ℕ → A) (n offset k : ℕ) (d : A)
      → k < offset
      → get_or (write_cells raw p n offset) k d ≡ get_or raw k d
  unfolding write_cells
  get_or-write_cells_below raw p zero offset k d h = refl
  get_or-write_cells_below raw p (suc n) offset k d h =
      get_or-write_cells_below (set raw offset (p 0)) (λ i. p (suc i)) n (suc offset) k d
        (omega arith)
      ∙ get_or-set_ne raw offset k (p 0) d (omega arith)

  pub get_or-write_cells_above :
      (raw : List A) (p : ℕ → A) (n offset k : ℕ) (d : A)
      → offset + n ≤ k
      → get_or (write_cells raw p n offset) k d ≡ get_or raw k d
  unfolding write_cells
  get_or-write_cells_above raw p zero offset k d h = refl
  get_or-write_cells_above raw p (suc n) offset k d h =
      get_or-write_cells_above (set raw offset (p 0)) (λ i. p (suc i)) n (suc offset) k d
        (omega arith)
      ∙ get_or-set_ne raw offset k (p 0) d (omega arith)

  -- A cell of the written range holds the item at its place in the source.
  pub get_or-write_cells :
      (raw : List A) (p : ℕ → A) (n offset i k : ℕ) (d : A)
      → i < n
      → k ≡ offset + i
      → k < length raw
      → get_or (write_cells raw p n offset) k d ≡ p i
  unfolding write_cells
  get_or-write_cells raw p zero offset i k d h e r = absurd (omega arith)
  get_or-write_cells raw p (suc n) offset zero k d h e r =
      get_or-write_cells_below (set raw offset (p 0)) (λ i. p (suc i)) n (suc offset) k d
        (omega arith)
      ∙ ap (λ j. get_or (set raw offset (p 0)) j d) here
      ∙ get_or-set_self raw offset (p 0) d (omega arith)
    where
      here : k ≡ offset
      here = omega arith
  get_or-write_cells raw p (suc n) offset (suc i) k d h e r =
      get_or-write_cells (set raw offset (p 0)) (λ j. p (suc j)) n (suc offset) i k d (omega arith)
        (omega arith) (omega (arith, length-set raw offset (p 0)))

  -- A write past the first cell leaves it.
  pub write_cells_tail :
      (x : A) (raw : List A) (f : ℕ → A) (n k : ℕ)
      → write_cells (x ∷ raw) f n (suc k) ≡ x ∷ write_cells raw f n k
  unfolding write_cells
  write_cells_tail x raw f zero k = refl
  write_cells_tail x raw f (suc n) k =
      write_cells_tail x (set raw k (f 0)) (λ i. f (suc i)) n (suc k)

  -- A write behind a front leaves the front.
  pub write_cells-append :
      (front raw : List A) (f : ℕ → A) (n k : ℕ)
      → k ≡ length front
      → write_cells (front ++ raw) f n k ≡ front ++ write_cells raw f n 0
  write_cells-append [] raw f n zero e = refl
  write_cells-append [] raw f n (suc k) e = absurd (omega arith)
  write_cells-append (x ∷ front) raw f n zero e = absurd (omega arith)
  write_cells-append (x ∷ front) raw f n (suc k) e =
      write_cells_tail x (front ++ raw) f n k
      ∙ ap (λ l. x ∷ l) (write_cells-append front raw f n k (omega arith))

  -- A list that is copied to the start of a longer one replaces its first items.
  pub write_cells-start :
      (c raw : List A) (d : A)
      → length c ≤ length raw
      → write_cells raw (λ i. get_or c i d) (length c) 0 ≡ c ++ drop (length c) raw
  unfolding write_cells
  write_cells-start [] raw d h = refl
  write_cells-start (x ∷ c) [] d h = absurd (omega arith)
  write_cells-start (x ∷ c) (y ∷ raw) d h =
      write_cells_tail x raw (λ i. get_or c i d) (length c) 0
      ∙ ap (λ l. x ∷ l) (write_cells-start c raw d (omega arith))
