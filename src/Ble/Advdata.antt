-- ===== src/Ble/Advdata.antt =====
-- The manufacturer's data in advertisements: `set_advdata` of src/core/ble.cc, which `set_advertising_data` calls
-- with what it is given and `advertising_init` with a null pointer.
use ledfw_lib.Common.{
  ℕ, zero, suc, ◌+◌, ◌-◌, ◌%◌, ◌^◌, ◌≤◌, min, ◌≡◌, refl, ap, ◌∙◌, arith, Option, none, some, List,
  [], ◌∷◌, length, get_or, take, write_cells, write_cells_tail, length-write_cells,
}

-- `m_manuf_adv_data`, and the size in `manuf_data`
pub record Advdata : Type 0 where
  pub manuf_adv_data : List ℕ
  pub size : ℕ

-- `set_advdata` for `manuf_len` bytes, `none` for a null pointer
unfoldable pub set_advdata : (manuf : Option (List ℕ)) → (manuf_len : ℕ) → Advdata → Advdata
set_advdata manuf manuf_len a = record {
  manuf_adv_data = elim manuf [
    | none ↦ a.manuf_adv_data
    | some bytes ↦ write_cells a.manuf_adv_data (λ i. get_or bytes i 0) (min manuf_len (16 - 2)) 2
  ];
  size = (2 + manuf_len) % 2 ^ 16;
}

-- The array starts with the company's two bytes.
pub record IsBranded (a : Advdata) : Type 0 where
  pub rest : List ℕ
  pub branded : a.manuf_adv_data ≡ 0x41 ∷ 0x98 ∷ rest
  pub sized : length rest ≡ 14

copied :
    (bytes raw : List ℕ) (n : ℕ)
    → n ≤ length bytes
    → n ≤ length raw
    → take n (write_cells raw (λ i. get_or bytes i 0) n 0) ≡ take n bytes
unfolding write_cells
copied bytes raw zero h e = refl
copied [] raw (suc n) h e = absurd (omega arith)
copied (x ∷ bytes) [] (suc n) h e = absurd (omega arith)
copied (x ∷ bytes) (y ∷ raw) (suc n) h e =
    rw (write_cells_tail x raw (λ i. get_or bytes i 0) n 0)
      (ap (λ l. x ∷ l) (copied bytes raw n (omega arith) (omega arith)))

-- The company's bytes stay where they are.
pub set_advdata-IsBranded :
    (manuf : Option (List ℕ)) (manuf_len : ℕ) (a : Advdata)
    → IsBranded a
    → IsBranded (set_advdata manuf manuf_len a)
unfolding set_advdata
set_advdata-IsBranded none manuf_len a b = record {
  rest = b.rest;
  branded = b.branded;
  sized = b.sized;
}
set_advdata-IsBranded (some bytes) manuf_len a b =
    let f : ℕ → ℕ = λ i. get_or bytes i 0 in
    let k : ℕ = min manuf_len 14 in
    record {
      rest = write_cells b.rest f k 0;
      branded =
          ap (λ l. write_cells l f k 2) b.branded
          ∙ write_cells_tail 0x41 (0x98 ∷ b.rest) f k 1
          ∙ ap (λ l. 0x41 ∷ l) (write_cells_tail 0x98 b.rest f k 0);
      sized = length-write_cells b.rest f k 0 ∙ b.sized;
    }
