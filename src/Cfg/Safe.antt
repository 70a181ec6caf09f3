-- ===== src/Cfg/Safe.antt =====
-- The invariant of the cache in src/cfg/flash_backend.cc: its recorded lengths against its heap blocks.
use ledfw_lib.Common.{
  ℕ, ◌≤◌, ◌≡◌, refl, Bool, true, false, ◌&&◌, Option, none, some, List, leb, ◌==◌, Bool-cases,
  Option-cases, verify_success_elim, inl, inr, arith, length, get_or, take, length-write_cells,
  Status,
}
use ledfw_lib.Cfg.Ids.{ParamId, id_to_index}
use ledfw_lib.Cfg.Cache.{
  ParamCache, Backend, initial, put, FlashRecord, load_record, read_exclusive, try_read, bytes_eq,
  write_cache, write_exclusive, write, read, subscribe,
}

abbrev pub Fits : ParamCache → Option (List ℕ) → Type 0
Fits c none = Unit
Fits c (some b) = (c.len ≤ length b) × (c.alloc_length ≤ length b)

abbrev pub IsSafeCache : ParamCache → Type 0
IsSafeCache c = Fits c c.block × (c.block ≡ none → c.alloc_length ≡ 0)

abbrev pub IsSafe : Backend → Type 0
IsSafe s = (i : ℕ) → IsSafeCache (s.cache i)

put-IsSafe : (s : Backend) (i : ℕ) (c : ParamCache) → IsSafe s → IsSafeCache c → IsSafe (put s i c)
put-IsSafe s i c h k j = elim (Bool-cases (i == j)) [ inl e ↦ rw e k | inr e ↦ rw e (h j) ]

pub initial-IsSafe : IsSafe initial
initial-IsSafe i = (tt, λ e. refl)

-- The block and lengths after a write.
write_cache-IsSafe :
    (c : ParamCache) (bytes : List ℕ) → IsSafeCache c → IsSafeCache (write_cache c bytes).1
unfolding write_cache
write_cache-IsSafe c bytes h = go c.block h refl
  where
    go :
        (o : Option (List ℕ))
        → IsSafeCache (record c { block = o })
        → c.block ≡ o
        → IsSafeCache (write_cache c bytes).1
    go none k e = rw e ((omega arith, omega (arith, k.1 refl)), λ q. cc)
    go (some b) k e = rw e (elim (Bool-cases (leb (length bytes) c.alloc_length)) [
      | inr f ↦ rw f ((omega arith, ground arith), λ q. cc)
      | inl f ↦
          elim (Bool-cases
            (c.alloc_length == length bytes && bytes_eq (take (length bytes) b) bytes)) [
              | inl g ↦ rw (f, g) k
              | inr g ↦
                  rw (f, g)
                    (
                      (
                        ground
                            (arith, length-write_cells b (λ i. get_or bytes i 0) (length bytes) 0),
                        omega
                            (arith, length-write_cells b (λ i. get_or bytes i 0) (length bytes) 0),
                      ),
                      λ q. cc,
                    )
            ]
    ])

-- `write` keeps every block as large as its recorded lengths.
pub write_exclusive-IsSafe :
    (s : Backend) (id : ParamId) (bytes : List ℕ) → IsSafe s → IsSafe (write_exclusive s id bytes).1
unfolding write_exclusive
write_exclusive-IsSafe s id bytes h =
    elim (Bool-cases (write_cache (s.cache (id_to_index id)) bytes).0) [
      | inl e ↦ rw e (
          put-IsSafe s (id_to_index id) (write_cache (s.cache (id_to_index id)) bytes).1 h
            (write_cache-IsSafe (s.cache (id_to_index id)) bytes (h (id_to_index id))))
      | inr e ↦ rw e h
    ]

load_record-IsSafe :
    (f : FlashRecord) (s : Backend) (id : ParamId) (n : ℕ)
    → IsSafe s
    → IsSafe (load_record f s id n).2
unfolding load_record
load_record-IsSafe f s id n h =
    verify_success_elim Result f.find _ _
      (verify_success_elim Result f.open_status _ _
        (verify_success_elim Result f.close _ _
          (put-IsSafe s (id_to_index id) _ h ((omega arith, omega arith), λ q. cc)) (λ e. h))
        (λ e. h))
      (λ e. h)
  where
    Result : Status × List ℕ × Backend → Type 0
    Result r = IsSafe r.2

read_exclusive-IsSafe :
    (f : FlashRecord) (s : Backend) (id : ParamId) (n : ℕ)
    → IsSafe s
    → IsSafe (read_exclusive f s id n).2
unfolding read_exclusive
read_exclusive-IsSafe f s id n h = elim (Option-cases (try_read s id n)) [
  | inl e ↦ rw (e, read_exclusive) (load_record-IsSafe f s id n h)
  | inr (out, e) ↦ rw (e, read_exclusive) h
]

-- `read` keeps the recorded lengths within the blocks, on every status of the flash calls and whatever
-- other tasks do between its two accesses, if they keep it too.
pub read-IsSafe :
    (others : Backend → Backend) (f : FlashRecord) (s : Backend) (id : ParamId) (n : ℕ)
    → ((t : Backend) → IsSafe t → IsSafe (others t))
    → IsSafe s
    → IsSafe (read others f s id n).2
unfolding read
read-IsSafe others f s id n keep h = elim (Option-cases (try_read s id n)) [
  | inl e ↦ rw (e, read) (read_exclusive-IsSafe f (others s) id n (keep s h))
  | inr (out, e) ↦ rw (e, read) h
]

-- `write` keeps the recorded lengths within the blocks, whatever other tasks do before the subscribers are
-- called, if they keep it too.
pub write-IsSafe :
    (others : Backend → Backend) (s : Backend) (id : ParamId) (bytes : List ℕ)
    → ((t : Backend) → IsSafe t → IsSafe (others t))
    → IsSafe s
    → IsSafe (write others s id bytes).2
unfolding write
write-IsSafe others s id bytes keep h = elim (Bool-cases (write_exclusive s id bytes).0) [
  | inl e ↦ rw e (keep (write_exclusive s id bytes).1 (write_exclusive-IsSafe s id bytes h))
  | inr e ↦ rw e (write_exclusive-IsSafe s id bytes h)
]

pub subscribe-IsSafe :
    (s : Backend) (id : ParamId) (context : ℕ) (callback : Option ℕ) (allocated : Bool)
    → IsSafe s
    → IsSafe (subscribe s id context callback allocated).1
unfolding subscribe
subscribe-IsSafe s id context none allocated h = h
subscribe-IsSafe s id context (some f) true h =
    put-IsSafe s (id_to_index id) _ h (h (id_to_index id))
subscribe-IsSafe s id context (some f) false h = h
