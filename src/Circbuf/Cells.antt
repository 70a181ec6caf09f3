-- ===== src/Circbuf/Cells.antt =====
-- What the copying loop of `read` takes from the array.
use ledfw_lib.Common.{
  ℕ, zero, suc, ◌+◌, ◌≡◌, refl, ap, ◌∙◌, List, ◌∷◌, arith, get_or, tabulate, tabulate_ext, cong,
}
use ledfw_lib.Circbuf.{read_cells}

module _ {A : Type 0} where
  pub read_cells-eq-tabulate :
      (raw : List A) (n offset : ℕ) (d : A)
      → read_cells d raw n offset ≡ tabulate n (λ i. get_or raw (offset + i) d)
  unfolding read_cells
  read_cells-eq-tabulate raw zero offset d = refl
  read_cells-eq-tabulate raw (suc n) offset d =
      ap (λ j. get_or raw j d ∷ read_cells d raw n (suc offset)) here
      ∙ ap (λ l. get_or raw (offset + 0) d ∷ l)
          (read_cells-eq-tabulate raw n (suc offset) d
            ∙ tabulate_ext n n (λ i. get_or raw (suc offset + i) d)
                (λ i. get_or raw (offset + suc i) d) refl
                (λ i lt. cong (λ j. get_or raw j d) (omega arith)))
    where
      here : offset ≡ offset + 0
      here = omega arith
