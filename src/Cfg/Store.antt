-- ===== src/Cfg/Store.antt =====
-- The thread of src/cfg/flash_backend.cc that writes changed parameters to flash.
--
-- FDS is the interface `Fds` with `FdsLaws`, here for the file of the parameters. The thread hands FDS a
-- pointer to the cached data and does not wait for the event, so FDS reads later: `in_memory` is what it then
-- finds at the pointer of a parameter, and the flash after a call is that after its event. The result in the
-- event is ignored. `gc` is the garbage collection that `task::schedule_fds_gc` asks for.
pub mod Restart
use ledfw_lib.Common.{
  ℕ, zero, suc, ◌+◌, ◌*◌, ◌/◌, ◌≤◌, ◌≡◌, ◌≢◌, refl, sym, ap, ◌∙◌, ◌⊎◌, inl, inr, Bool, true, false,
  Bool-cases, Option, none, some, Option-cases, List, [], ◌∷◌, if◌then◌else◌, take, Status, success,
  fds_not_found, fds_no_space_in_flash, is_success, is_not_found, Status-discrete, ℕ_discrete,
}
use native.Mathlib.Omega.{arith}
use mathlib.Core.Path.{subst}
use ledfw_lib.Userapp.Flash.{FlashRecord, Fds}
use ledfw_lib.Userapp.Flash.Laws.{FdsLaws, Completes}
use ledfw_lib.Cfg.Ids.{ParamId, id_code, id_to_index, all_ids, ids_lem}
use ledfw_lib.Cfg.Cache.{Backend}

-- `wrecord.data` for a parameter: whole words of its cached bytes
unfoldable pub cached_record : Backend → ParamId → FlashRecord
cached_record s id =
    let c = s.cache (id_to_index id) in
    let n = c.len / 4 in
    record { length_words = n; data_bytes = elim c.block [ none ↦ [] | some b ↦ take (4 * n) b ] }

-- What FDS stores for it: as many words, of what it finds in memory when it reads
unfoldable pub stored_record : (in_memory : ParamId → List ℕ) → Backend → ParamId → FlashRecord
stored_record in_memory s id = record (cached_record s id) {
  data_bytes = take (4 * (cached_record s id).length_words) (in_memory id);
}

abbrev pub is_no_space : Status → Bool
is_no_space fds_no_space_in_flash = true
is_no_space success = false
is_no_space _ = false

module _ {Flash Desc : Type 0} (fds : Fds Flash Desc) (gc : Flash → Flash)
    (in_memory : ParamId → List ℕ) where
  -- One pass of the inner loop
  unfoldable pub store_once : Backend → ParamId → Flash → Status × Flash
  store_once s id f =
      let found = fds.find f (id_code id) in
      if is_not_found found.0
      then fds.write_record f (id_code id) (stored_record in_memory s id)
      else (if is_success found.0
          then fds.update_record f found.1 (id_code id) (stored_record in_memory s id)
          else (found.0, f))

  -- The inner loop; `none` where it does not end within the fuel or APP_ERROR_CHECK stops it.
  unfoldable pub store_param : (fuel : ℕ) → Backend → ParamId → Flash → Option Flash
  store_param zero s id f = none
  store_param (suc fuel) s id f =
      let done = store_once s id f in
      let rest = store_param fuel s id (gc done.1) in
      if is_no_space done.0 then rest else (if is_success done.0 then some done.1 else none)

  -- The loop over the parameters, for the bits that were notified
  unfoldable pub store_params : (fuel : ℕ) → List ParamId → Backend → Flash → Option Flash
  store_params fuel [] s f = some f
  store_params fuel (id ∷ rest) s f =
      let stored = if s.notified (id_to_index id) then store_param fuel s id f else some f in
      elim stored [ none ↦ none | some f' ↦ store_params fuel rest s f' ]

  -- One pass of `cfg_flash_thread`, which fetches all the bits.
  unfoldable pub flash_pass : (fuel : ℕ) → Backend → Flash → Option (Backend × Flash)
  flash_pass fuel s f = elim (store_params fuel all_ids s f) [
    | none ↦ none
    | some f' ↦ some (record s { notified = λ i. false }, f')
  ]

-- FDS finds room, if need be after one collection, which keeps the records.
pub record HasRoom {Flash Desc : Type 0} {fds : Fds Flash Desc} (laws : FdsLaws fds)
    (gc : Flash → Flash) (in_memory : ParamId → List ℕ) : Type 0 where
  pub gc_keeps : (f : Flash) (k : ℕ) → laws.lookup (gc f) k ≡ laws.lookup f k
  pub status :
      (s : Backend) (id : ParamId) (f : Flash)
      → ((store_once fds gc in_memory s id f).0 ≡ success)
        ⊎ ((store_once fds gc in_memory s id f).0 ≡ fds_no_space_in_flash)
  pub after_gc :
      (s : Backend) (id : ParamId) (f : Flash)
      → (store_once fds gc in_memory s id (gc f)).0 ≡ success

module _ {Flash Desc : Type 0} {fds : Fds Flash Desc} (laws : FdsLaws fds) (gc : Flash → Flash)
    (in_memory : ParamId → List ℕ) (completes : Completes fds) where
  -- What a store leaves: the record if it succeeded, and the others.
  record Once (s : Backend) (id : ParamId) (f : Flash) (r : Status × Flash) : Type 0 where
    stored : r.0 ≡ success → laws.lookup r.1 (id_code id) ≡ some (stored_record in_memory s id)
    others : (j : ℕ) → j ≢ id_code id → laws.lookup r.1 j ≡ laws.lookup f j

  store_once-Once :
      (s : Backend) (id : ParamId) (f : Flash) → Once s id f (store_once fds gc in_memory s id f)
  unfolding store_once
  store_once-Once s id f =
      let k : ℕ = id_code id in
      let r : FlashRecord = stored_record in_memory s id in
      elim (Option-cases (laws.lookup f k)) [
        | inl free ↦
            let e : (fds.find f k).0 ≡ fds_not_found = laws.missing f k free in
            rw (store_once, e)
              (record {
                stored =
                    λ done. laws.written f k r free done (completes.write_completes f k r done);
                others = λ j ne. laws.write_others f k j r ne;
              })
        | inr (old, there) ↦
            let e : (fds.find f k).0 ≡ success = (laws.found f k old there).0 in
            rw (store_once, e)
              (record {
                stored = λ done.
                    laws.updated f k old r there done
                      (completes.update_completes f (fds.find f k).1 k r done);
                others = λ j ne. laws.update_others f k j old r there ne;
              })
      ]

  module _ (room : HasRoom laws gc in_memory) where
    -- Two passes of the inner loop are enough.
    store_param-stored :
        (fuel : ℕ) (s : Backend) (id : ParamId) (f : Flash)
        → 2 ≤ fuel
        → (f' : Flash) × (store_param fds gc in_memory fuel s id f ≡ some f')
          × (laws.lookup f' (id_code id) ≡ some (stored_record in_memory s id))
          × ((j : ℕ) → j ≢ id_code id → laws.lookup f' j ≡ laws.lookup f j)
    unfolding store_param
    store_param-stored zero s id f h = absurd (omega arith)
    store_param-stored (suc zero) s id f h = absurd (omega arith)
    store_param-stored (suc (suc fuel)) s id f h =
        let one = store_once fds gc in_memory s id f in
        let once = store_once-Once s id f in
        elim (room.status s id f) [
          | inl e ↦ (one.1, rw (store_param, e) refl, once.stored e, once.others)
          | inr e ↦
              let two = store_once fds gc in_memory s id (gc one.1) in
              let twice = store_once-Once s id (gc one.1) in
              let g : two.0 ≡ success = room.after_gc s id one.1 in
              (
                two.1,
                rw (store_param, e, g) refl,
                twice.stored g,
                λ j ne. twice.others j ne ∙ room.gc_keeps one.1 j ∙ once.others j ne,
              )
        ]
