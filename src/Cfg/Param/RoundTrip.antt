-- ===== src/Cfg/Param/RoundTrip.antt =====
-- `get` after `set` of include/cfg.hh.
use ledfw_lib.Common.{
  ℕ, zero, suc, ◌+◌, ◌*◌, ◌/◌, ◌%◌, min, ◌≡◌, refl, ap, sym, ◌∙◌, true, some, List, [], ◌∷◌, ◌++◌,
  ◌==◌, length, get_or, take, replicate, append-nil, write_cells, write_cells_tail, take-append,
  length-append, success,
}
use native.Mathlib.Omega.{arith}
use ledfw_lib.Cfg.Ids.{id_to_index}
use ledfw_lib.Cfg.Cache
use ledfw_lib.Cfg.Cache.{Backend, FlashRecord, overwrite}
use ledfw_lib.Cfg.Safe.{IsSafe}
use ledfw_lib.Cfg.ReadWrite.{HasSize, read-write}
use ledfw_lib.Cfg.Param.{Param, padding_size, value_size, param_value, get, set_param}

-- The record is padded to a multiple of four bytes.
value_size_lem : (n : ℕ) → value_size n % 4 ≡ 0
unfolding value_size padding_size
value_size_lem n = omega arith

take_all : (n : ℕ) (xs : List ℕ) → length xs ≡ n → take n xs ≡ xs
take_all n xs e = ap (take n) (sym (append-nil xs)) ∙ take-append n xs [] e

overwrite-replicate : (xs : List ℕ) (n : ℕ) → length xs ≡ n → overwrite (replicate n 0) xs ≡ xs
unfolding write_cells
overwrite-replicate [] zero e = refl
overwrite-replicate [] (suc n) e = absurd (omega arith)
overwrite-replicate (x ∷ xs) zero e = absurd (omega arith)
overwrite-replicate (x ∷ xs) (suc n) e =
    write_cells_tail x (replicate n 0) (λ i. get_or xs i 0) (length xs) 0
    ∙ ap (λ l. x ∷ l) (overwrite-replicate xs n (omega arith))

-- A value of the parameter's size that was set is what `get` returns, with whatever padding, whatever the
-- flash holds: if no other task writes in between, the cache is safe, and a record whose allocation is as
-- long as the padded value is itself as long.
pub get-set_param :
    (others : Backend → Backend) (f : FlashRecord) (p : Param) (value padding : List ℕ)
    (s : Backend)
    → length value ≡ p.sizeof_value
    → length padding ≡ padding_size p.sizeof_value
    → IsSafe s
    → HasSize (s.cache (id_to_index p.idn)) (value_size p.sizeof_value)
    → let s' = (set_param (λ t. t) p (some value) padding s).2 in
      get others f p (some 0) s' ≡ (success, some value, s')
unfolding get set_param param_value value_size
get-set_param others f p value padding s lv lp safe fixed =
    let n : ℕ = p.sizeof_value in
    let bytes : List ℕ = p.version % 256 ∷ p.version / 256 ∷ (value ++ padding) in
    let size : ℕ = 2 + n + padding_size n in
    let len : length bytes ≡ size = omega (arith, length-append value padding) in
    let s' : Backend = (Cache.write (λ t. t) s p.idn bytes).2 in
    let got : Cache.read others f s' p.idn size ≡ (success, bytes, s') =
      read-write f others s p.idn bytes size safe (λ e. fixed (e ∙ len) ∙ sym len)
      ∙ ap (λ (l : List ℕ). (success, l, s'))
          (take_all (min size (length bytes)) bytes (omega (arith, len))) in
    let whole : overwrite (replicate size 0) bytes ≡ bytes = overwrite-replicate bytes size len in
    let ver : (p.version % 256 + 256 * (p.version / 256) == p.version) ≡ true = ground arith in
    rw (got, whole, ver)
      (ap (λ (v : List ℕ). (success, some v, s')) (take-append n value padding lv))
