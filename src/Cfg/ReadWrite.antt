-- ===== src/Cfg/ReadWrite.antt =====
-- What `read` returns after `write`, and which parameters `write` leaves alone.
use ledfw_lib.Common.{
  ℕ, ◌≤◌, ◌<◌, min, ◌≡◌, refl, ap, sym, ◌∙◌, true, false, ◌&&◌, Option, none, some, List, [], ◌∷◌,
  zero, suc, leb, ◌==◌, Bool-cases, inl, inr, length, get_or, take, write_cells, length-write_cells,
  success, get_or-write_cells,
}
use mathlib.Core.Path.{ap₂}
use native.Mathlib.Omega.{arith}
use ledfw_lib.Cfg.Ids.{ParamId, id_to_index}
use ledfw_lib.Cfg.Cache.{
  ParamCache, Backend, update, FlashRecord, try_read, bytes_eq, write_cache, write_exclusive, write,
  read,
}
use ledfw_lib.Cfg.Safe.{IsSafe, IsSafeCache}

-- The parameter is always written with its own size.
abbrev pub HasSize : ParamCache → ℕ → Type 0
HasSize c n = c.alloc_length ≡ n → c.len ≡ n

bytes_eq-eq : (xs ys : List ℕ) → bytes_eq xs ys ≡ true → xs ≡ ys
unfolding bytes_eq
bytes_eq-eq [] [] e = refl
bytes_eq-eq [] (y ∷ ys) e = absurd (ground arith)
bytes_eq-eq (x ∷ xs) [] e = absurd (ground arith)
bytes_eq-eq (x ∷ xs) (y ∷ ys) e = ap₂ ◌∷◌ (ground arith) (bytes_eq-eq xs ys (ground arith))

take_ext :
    (m : ℕ) (xs ys : List ℕ)
    → m ≤ length xs
    → m ≤ length ys
    → ((i : ℕ) → i < m → get_or xs i 0 ≡ get_or ys i 0)
    → take m xs ≡ take m ys
take_ext zero xs ys h k e = refl
take_ext (suc m) [] ys h k e = absurd (omega arith)
take_ext (suc m) (x ∷ xs) [] h k e = absurd (omega arith)
take_ext (suc m) (x ∷ xs) (y ∷ ys) h k e =
    ap₂ ◌∷◌ (e 0 (omega arith))
      (take_ext m xs ys (omega arith) (omega arith) (λ i lt. e (suc i) (omega arith)))

take-take_eq : (m n : ℕ) (xs ys : List ℕ) → m ≤ n → take n xs ≡ ys → take m xs ≡ take m ys
take-take_eq zero n xs ys h e = refl
take-take_eq (suc m) zero xs ys h e = absurd (omega arith)
take-take_eq (suc m) (suc n) [] ys h e = rw (sym e) refl
take-take_eq (suc m) (suc n) (x ∷ xs) ys h e =
    rw (sym e) (ap (λ l. x ∷ l) (take-take_eq m n xs (take n xs) (omega arith) refl))

-- What a reader of the cache sees.
abbrev pub seen : ParamCache → ℕ → Option (List ℕ)
seen c n = elim c.block [ none ↦ none | some b ↦ some (take (min n c.len) b) ]

write_cache-seen :
    (c : ParamCache) (bytes : List ℕ) (n : ℕ)
    → IsSafeCache c
    → HasSize c (length bytes)
    → seen (write_cache c bytes).1 n ≡ some (take (min n (length bytes)) bytes)
unfolding write_cache
write_cache-seen c bytes n h k = go c.block h refl
  where
    same :
        (b : List ℕ)
        → (c.alloc_length == length bytes && bytes_eq (take (length bytes) b) bytes) ≡ true
        → some (take (min n c.len) b) ≡ some (take (min n (length bytes)) bytes)
    same b g =
        let l : c.len ≡ length bytes = k (ground arith) in
        ap some (
          ap (λ m. take (min n m) b) l
          ∙ take-take_eq (min n (length bytes)) (length bytes) b bytes (omega arith)
              (bytes_eq-eq (take (length bytes) b) bytes (ground arith)))

    go :
        (o : Option (List ℕ))
        → IsSafeCache (record c { block = o })
        → c.block ≡ o
        → seen (write_cache c bytes).1 n ≡ some (take (min n (length bytes)) bytes)
    go none q e = rw e refl
    go (some b) q e = rw e (elim (Bool-cases (leb (length bytes) c.alloc_length)) [
      | inr f ↦ rw f refl
      | inl f ↦
          elim (Bool-cases
            (c.alloc_length == length bytes && bytes_eq (take (length bytes) b) bytes)) [
              | inl g ↦ rw (f, g) (same b g)
              | inr g ↦
                  rw (f, g)
                    (ap some (
                      take_ext (min n (length bytes))
                        (write_cells b (λ j. get_or bytes j 0) (length bytes) 0) bytes
                        (ground
                          (arith, length-write_cells b (λ j. get_or bytes j 0) (length bytes) 0))
                        (omega arith)
                        (λ i lt.
                          get_or-write_cells b (λ j. get_or bytes j 0) (length bytes) 0 i i 0
                            (omega arith) (omega arith) (ground arith))))
            ]
    ])

test_refl : (i : ℕ) → (i == i) ≡ true
test_refl i = ground arith

update_self : (f : ℕ → ParamCache) (i : ℕ) (c : ParamCache) → update f i c i ≡ c
update_self f i c = rw (test_refl i) refl

write_cache-unchanged :
    (c : ParamCache) (bytes : List ℕ)
    → (write_cache c bytes).0 ≡ false
    → (write_cache c bytes).1 ≡ c
unfolding write_cache
write_cache-unchanged c bytes = go c.block refl
  where
    go :
        (o : Option (List ℕ))
        → c.block ≡ o
        → (write_cache c bytes).0 ≡ false
        → (write_cache c bytes).1 ≡ c
    go none e = rw e (λ f. absurd (ground (arith, f)))
    go (some b) e = rw e (elim (Bool-cases (leb (length bytes) c.alloc_length)) [
      | inr f ↦ rw f (λ q. absurd (ground (arith, q)))
      | inl f ↦
          elim (Bool-cases
            (c.alloc_length == length bytes && bytes_eq (take (length bytes) b) bytes)) [
              | inl g ↦ rw (f, g) (λ q. refl)
              | inr g ↦ rw (f, g) (λ q. absurd (ground (arith, q)))
            ]
    ])

try_read-write_exclusive :
    (s : Backend) (id : ParamId) (bytes : List ℕ) (n : ℕ)
    → try_read (write_exclusive s id bytes).1 id n
      ≡ seen (write_cache (s.cache (id_to_index id)) bytes).1 n
unfolding write_exclusive try_read
try_read-write_exclusive s id bytes n =
    elim (Bool-cases (write_cache (s.cache (id_to_index id)) bytes).0) [
      | inl e ↦ rw e (
          ap (λ c. seen c n)
            (update_self s.cache (id_to_index id) (write_cache (s.cache (id_to_index id)) bytes).1))
      | inr e ↦
          rw e (ap (λ c. seen c n) (sym (write_cache-unchanged (s.cache (id_to_index id)) bytes e)))
    ]

write-state :
    (s : Backend) (id : ParamId) (bytes : List ℕ)
    → (write (λ t. t) s id bytes).2 ≡ (write_exclusive s id bytes).1
unfolding write
write-state s id bytes = elim (Bool-cases (write_exclusive s id bytes).0) [
  | inl e ↦ rw e refl
  | inr e ↦ rw e refl
]

read-hit :
    (others : Backend → Backend) (f : FlashRecord) (s : Backend) (id : ParamId) (n : ℕ)
    (out : List ℕ)
    → try_read s id n ≡ some out
    → read others f s id n ≡ (success, out, s)
unfolding read
read-hit others f s id n out e = rw (e, read) refl

-- After `write`, `read` is answered from the cache: it returns the first `n` bytes of the value written,
-- whatever the flash holds. It asks that no other task writes in between, and that a record whose
-- allocation is as long as the value is itself as long.
pub read-write :
    (f : FlashRecord) (others : Backend → Backend) (s : Backend) (id : ParamId) (bytes : List ℕ)
    (n : ℕ)
    → IsSafe s
    → HasSize (s.cache (id_to_index id)) (length bytes)
    → let s' = (write (λ t. t) s id bytes).2 in
      read others f s' id n ≡ (success, take (min n (length bytes)) bytes, s')
read-write f others s id bytes n h k =
    let i = id_to_index id in
    read-hit others f (write (λ t. t) s id bytes).2 id n (take (min n (length bytes)) bytes) (
      ap (λ t. try_read t id n) (write-state s id bytes)
      ∙ try_read-write_exclusive s id bytes n
      ∙ write_cache-seen (s.cache i) bytes n (h i) k)

update_ne :
    (f : ℕ → ParamCache) (i j : ℕ) (c : ParamCache) → (i == j) ≡ false → update f i c j ≡ f j
update_ne f i j c h = rw h refl

write_exclusive_ne :
    (s : Backend) (id id' : ParamId) (bytes : List ℕ) (n : ℕ)
    → (id_to_index id == id_to_index id') ≡ false
    → try_read (write_exclusive s id bytes).1 id' n ≡ try_read s id' n
unfolding write_exclusive try_read
write_exclusive_ne s id id' bytes n h =
    let c = write_cache (s.cache (id_to_index id)) bytes in
    elim (Bool-cases c.0) [
      | inl e ↦
          rw e (ap (λ c. seen c n) (update_ne s.cache (id_to_index id) (id_to_index id') c.1 h))
      | inr e ↦ rw e refl
    ]

-- `write` leaves what every other parameter reads.
pub try_read-write_ne :
    (s : Backend) (id id' : ParamId) (bytes : List ℕ) (n : ℕ)
    → (id_to_index id == id_to_index id') ≡ false
    → try_read (write (λ t. t) s id bytes).2 id' n ≡ try_read s id' n
try_read-write_ne s id id' bytes n h =
    ap (λ t. try_read t id' n) (write-state s id bytes) ∙ write_exclusive_ne s id id' bytes n h
