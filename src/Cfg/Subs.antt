-- ===== src/Cfg/Subs.antt =====
-- Which subscribers `write` calls, and with what.
use ledfw_lib.Common.{
  ℕ, ◌≡◌, refl, ap, ◌∙◌, true, Option, none, some, List, [], ◌∷◌, if◌then◌else◌, Bool-cases, inl,
  inr, ◌==◌, ◌&&◌, leb, length, take, drop, success,
}
use native.Mathlib.Omega.{arith}
use ledfw_lib.Cfg.Ids.{ParamId, id_to_index}
use ledfw_lib.Cfg.Cache.{
  Sub, ParamCache, Backend, put, FlashRecord, load_record, read_exclusive, try_read, bytes_eq,
  write_cache, write_exclusive, notify_subs, notify, call_subs, write, read, subscribe, Call,
  update,
}

update_self : (f : ℕ → ParamCache) (i : ℕ) (c : ParamCache) → update f i c i ≡ c
update_self f i c = rw (test_refl i) refl
  where
    test_refl : (i : ℕ) → (i == i) ≡ true
    test_refl i = ground arith

-- The calls for one `param_cache`.
abbrev calls : ParamCache → List Call
calls c = elim c.block [ none ↦ [] | some b ↦ call_subs c.subs (drop 2 b) c.len ]

notify_subs-put :
    (s : Backend) (id : ParamId) (c : ParamCache)
    → notify_subs (notify (put s (id_to_index id) c) (id_to_index id)) id ≡ calls c
unfolding notify_subs
notify_subs-put s id c = ap calls (update_self s.cache (id_to_index id) c)

-- `write` calls the subscribers if the data changed, with the new state of the parameter.
write-calls :
    (s : Backend) (id : ParamId) (bytes : List ℕ)
    → let c = write_cache (s.cache (id_to_index id)) bytes in
      (write (λ t. t) s id bytes).1 ≡ (if c.0 then calls c.1 else [])
unfolding write write_exclusive
write-calls s id bytes = elim (Bool-cases (write_cache (s.cache (id_to_index id)) bytes).0) [
  | inl e ↦ rw e (notify_subs-put s id (write_cache (s.cache (id_to_index id)) bytes).1)
  | inr e ↦ rw e refl
]

write_cache-none :
    (c : ParamCache) (bytes : List ℕ)
    → c.block ≡ none
    → (if (write_cache c bytes).0 then calls (write_cache c bytes).1 else [])
      ≡ call_subs c.subs (drop 2 bytes) (length bytes)
unfolding write_cache
write_cache-none c bytes h = rw h refl

-- The first value that is written to a parameter reaches the function that subscribed last, before every
-- earlier subscriber; each is told the length of the value, but given it from its third byte on.
pub write-subscribe :
    (s : Backend) (id : ParamId) (context f : ℕ) (bytes : List ℕ)
    → (s.cache (id_to_index id)).block ≡ none
    → (write (λ t. t) (subscribe s id context (some f) true).1 id bytes).1
      ≡ record {
        sub = record { context = context; callback = f };
        bytes = drop 2 bytes;
        told = length bytes;
      }
        ∷ call_subs (s.cache (id_to_index id)).subs (drop 2 bytes) (length bytes)
unfolding subscribe call_subs
write-subscribe s id context f bytes h =
    let i = id_to_index id in
    let sub : Sub = record { context = context; callback = f } in
    let c : ParamCache = record (s.cache i) { subs = sub ∷ (s.cache i).subs } in
    let t : Backend = put s i c in
    let here : t.cache i ≡ c = update_self s.cache i c in
    write-calls t id bytes
    ∙ ap (λ x. if (write_cache x bytes).0 then calls (write_cache x bytes).1 else []) here
    ∙ write_cache-none c bytes h

calls-nil : (c : ParamCache) → c.subs ≡ [] → calls c ≡ []
unfolding call_subs
calls-nil c e = go c.block refl
  where
    go : (o : Option (List ℕ)) → c.block ≡ o → calls c ≡ []
    go none q = rw q refl
    go (some b) q = rw (q, e) refl

write_cache-subs : (c : ParamCache) (bytes : List ℕ) → (write_cache c bytes).1.subs ≡ c.subs
unfolding write_cache
write_cache-subs c bytes = go c.block refl
  where
    go : (o : Option (List ℕ)) → c.block ≡ o → (write_cache c bytes).1.subs ≡ c.subs
    go none e = rw e refl
    go (some b) e = rw e (elim (Bool-cases (leb (length bytes) c.alloc_length)) [
      | inr f ↦ rw f refl
      | inl f ↦
          elim (Bool-cases
            (c.alloc_length == length bytes && bytes_eq (take (length bytes) b) bytes)) [
              | inl g ↦ rw (f, g) refl
              | inr g ↦ rw (f, g) refl
            ]
    ])

write-calls_nil :
    (s : Backend) (id : ParamId) (bytes : List ℕ)
    → (s.cache (id_to_index id)).subs ≡ []
    → (write (λ t. t) s id bytes).1 ≡ []
write-calls_nil s id bytes h =
    let c = write_cache (s.cache (id_to_index id)) bytes in
    write-calls s id bytes ∙ elim (Bool-cases c.0) [
      | inl e ↦ rw e (calls-nil c.1 (write_cache-subs (s.cache (id_to_index id)) bytes ∙ h))
      | inr e ↦ rw e refl
    ]

-- A read that loads the record from flash forgets the subscriptions: a later write calls no one.
pub write-read_miss :
    (others : Backend → Backend) (f : FlashRecord) (s : Backend) (id : ParamId) (n : ℕ)
    (bytes : List ℕ)
    → f.find ≡ success
    → f.open_status ≡ success
    → f.close ≡ success
    → try_read s id n ≡ none
    → try_read (others s) id n ≡ none
    → (write (λ t. t) (read others f s id n).2 id bytes).1 ≡ []
unfolding read read_exclusive load_record
write-read_miss others f s id n bytes a b c d e =
    write-calls_nil (read others f s id n).2 id bytes (
      rw (d, e, a, b, c, read, read_exclusive)
        (ap (λ x. x.subs) (update_self (others s).cache (id_to_index id) _)))
