-- ===== src/Tests/Stored.antt =====
-- The thread that writes parameters to flash, over a store that has no room until it is collected.
use ledfw_lib.Common.{
  ℕ, ◌≡◌, ◌≢◌, ◌⊎◌, refl, ap, inl, inr, min, Bool, true, false, some, Option-cases, List, [], ◌∷◌,
  ◌%◌, length, take, Status, success, fds_no_space_in_flash, if◌then◌else◌,
}
use native.Mathlib.Omega.{arith}
use ledfw_lib.Userapp.Flash.{FlashRecord, Fds}
use ledfw_lib.Userapp.Flash.Laws.{FdsLaws, Completes}
use ledfw_lib.Cfg.Ids.{ParamId, dmx_channel, id_code, id_to_index}
use ledfw_lib.Cfg.Cache.{Backend, initial, read, write}
use ledfw_lib.Cfg.Store.{store_once, flash_pass, HasRoom}
use ledfw_lib.Cfg.Store.Restart.{answers, read-flash_pass}
use ledfw_lib.Tests.Flash.{
  Flash, Found, lookup, status_of, record_of, file_status, lookup_self, lookup-other,
  file_found_lem,
}

-- Whether there is no room, and the records
abbrev Cramped : Type 0
Cramped = Bool × Flash

abbrev put : Cramped → ℕ → FlashRecord → Status × Cramped
put f k r = if f.0 then (fds_no_space_in_flash, f) else (success, (false, (k, r) ∷ f.1))

abbrev cramped : Fds Cramped Found
cramped = record {
  find_in_file = λ f. file_status f.1;
  find = λ f k. (status_of (lookup f.1 k), lookup f.1 k);
  open_record = λ f d. (success, record_of d);
  close_record = λ f d. success;
  write_record = put;
  update_record = λ f d k r. put f k r;
  write_result = λ f k r. success;
  update_result = λ f d k r. success;
  delete_file = λ f. (success, (false, []));
}

put-stored :
    (f : Cramped) (k : ℕ) (r : FlashRecord)
    → (put f k r).0 ≡ success
    → lookup (put f k r).1.1 k ≡ some r
put-stored (true, f) k r e = cc
put-stored (false, f) k r e = lookup_self f k r

put-failed :
    (f : Cramped) (k : ℕ) (r : FlashRecord)
    → (put f k r).0 ≢ success
    → lookup (put f k r).1.1 k ≡ lookup f.1 k
put-failed (true, f) k r ne = refl
put-failed (false, f) k r ne = absurd (ne refl)

put-others :
    (f : Cramped) (k j : ℕ) (r : FlashRecord) → j ≢ k → lookup (put f k r).1.1 j ≡ lookup f.1 j
put-others (true, f) k j r ne = refl
put-others (false, f) k j r ne = lookup-other f k j r ne

abbrev cramped_laws : FdsLaws cramped
cramped_laws = record {
  lookup = λ f. lookup f.1;
  found = λ f k r e. (ap status_of e, ap (λ (d : Found). (success, record_of d)) e, refl);
  missing = λ f k e. ap status_of e;
  file_found = λ f. file_found_lem f.1;
  written = λ f k r e s c. put-stored f k r s;
  write_failed = put-failed;
  write_others = put-others;
  updated = λ f k old r e s c. put-stored f k r s;
  update_failed = put-failed;
  update_others = λ f k j old r e ne. put-others f k j r ne;
}

abbrev cramped_completes : Completes cramped
cramped_completes = record {
  write_completes = λ f k r e. refl;
  update_completes = λ f d k r e. refl;
}

abbrev collect : Cramped → Cramped
collect f = (false, f.1)

-- What FDS finds in memory when it reads
abbrev in_memory : ParamId → List ℕ
in_memory id = 1 ∷ 0 ∷ 7 ∷ 9 ∷ []

once-success :
    (s : Backend) (id : ParamId) (f : Flash)
    → (store_once cramped collect in_memory s id (false, f)).0 ≡ success
unfolding store_once
once-success s id f = elim (Option-cases (lookup f (id_code id))) [
  | inl e ↦ rw (store_once, e) refl
  | inr (r, e) ↦ rw (store_once, e) refl
]

once-no_space :
    (s : Backend) (id : ParamId) (f : Flash)
    → (store_once cramped collect in_memory s id (true, f)).0 ≡ fds_no_space_in_flash
unfolding store_once
once-no_space s id f = elim (Option-cases (lookup f (id_code id))) [
  | inl e ↦ rw (store_once, e) refl
  | inr (r, e) ↦ rw (store_once, e) refl
]

once-cases :
    (s : Backend) (id : ParamId) (f : Cramped)
    → ((store_once cramped collect in_memory s id f).0 ≡ success)
      ⊎ ((store_once cramped collect in_memory s id f).0 ≡ fds_no_space_in_flash)
once-cases s id (false, f) = inl (once-success s id f)
once-cases s id (true, f) = inr (once-no_space s id f)

cramped-HasRoom : HasRoom cramped_laws collect in_memory
cramped-HasRoom = record {
  gc_keeps = λ f k. refl;
  status = once-cases;
  after_gc = λ s id f. once-success s id f.1;
}

-- One parameter was written.
abbrev changed : Backend
changed = (write (λ t. t) initial dmx_channel (1 ∷ 0 ∷ 7 ∷ 9 ∷ [])).2

-- The first call finds no room.
read-flash_pass_example :
    (f' : Cramped) × (flash_pass cramped collect in_memory 2 changed (true, [])
      ≡ some (record changed { notified = λ i. false }, f'))
    × ((x : ParamId) (value : List ℕ) (n : ℕ)
        → changed.notified (id_to_index x) ≡ true
        → (changed.cache (id_to_index x)).block ≡ some value
        → in_memory x ≡ value
        → (changed.cache (id_to_index x)).len ≡ length value
        → length value % 4 ≡ 0
        → let got = read (λ t. t) (answers cramped f' x) initial x n in
          (got.0 ≡ success) × (got.1 ≡ take (min (length value) n) value))
read-flash_pass_example =
    read-flash_pass cramped_laws collect in_memory cramped_completes cramped-HasRoom 2 changed
      (true, []) (omega arith)
