-- ===== src/Cfg/Store/Restart.antt =====
-- What a pass of the flash thread of src/cfg/flash_backend.cc stores, and a read after a restart.
use ledfw_lib.Common.{
  ℕ, ◌*◌, ◌/◌, ◌%◌, ◌≤◌, ◌≡◌, refl, sym, ap, ◌∙◌, ◌⊎◌, inl, inr, min, true, false, Bool-cases, some,
  List, [], ◌∷◌, take, length, take-length, success, ℕ_discrete,
}
use native.Mathlib.Omega.{arith}
use mathlib.Core.Path.{subst}
use ledfw_lib.Userapp.Flash.{FlashRecord, Fds}
use ledfw_lib.Userapp.Flash.Laws.{FdsLaws, Completes}
use ledfw_lib.Cfg.Ids.{ParamId, id_code, id_to_index, all_ids, ids_lem}
use ledfw_lib.Cfg.Ids
use ledfw_lib.Cfg.Cache.{Backend, initial, read, read_exclusive, try_read, load_record}
use ledfw_lib.Cfg.Cache
use ledfw_lib.Cfg.Store.{
  cached_record, stored_record, store_param, store_params, flash_pass, HasRoom, store_param-stored,
}

-- What FDS answers for the record of a parameter
abbrev pub answers : {Flash Desc : Type 0} → Fds Flash Desc → Flash → ParamId → Cache.FlashRecord
answers fds f id =
    let found = fds.find f (id_code id) in
    let opened = fds.open_record f found.1 in
    record {
      find = found.0;
      open_status = opened.0;
      close = fds.close_record f found.1;
      bytes = opened.1.data_bytes;
    }

module _ {Flash Desc : Type 0} {fds : Fds Flash Desc} (laws : FdsLaws fds) (gc : Flash → Flash)
    (in_memory : ParamId → List ℕ) (completes : Completes fds)
    (room : HasRoom laws gc in_memory) where
  read-answers :
      (f : Flash) (x : ParamId) (r : FlashRecord) (value : List ℕ) (n : ℕ)
      → laws.lookup f (id_code x) ≡ some r
      → r.data_bytes ≡ value
      → let got = read (λ t. t) (answers fds f x) initial x n in
        (got.0 ≡ success) × (got.1 ≡ take (min (length value) n) value)
  unfolding read read_exclusive load_record try_read
  read-answers f x r value n there e =
      let g = laws.found f (id_code x) r there in
      rw (read, read_exclusive, load_record, g.0, g.1, g.2, e) (refl, refl)

  whole_words :
      (s : Backend) (x : ParamId) (value : List ℕ)
      → in_memory x ≡ value
      → (s.cache (id_to_index x)).len ≡ length value
      → length value % 4 ≡ 0
      → (stored_record in_memory s x).data_bytes ≡ value
  unfolding stored_record cached_record
  whole_words s x value same len words =
      ap (λ l. take (4 * ((s.cache (id_to_index x)).len / 4)) l) same
      ∙ take-length (4 * ((s.cache (id_to_index x)).len / 4)) value (omega (arith, len, words))

  -- A store of one parameter keeps what is stored of the others.
  step :
      (fuel : ℕ) (s : Backend) (id : ParamId) (f : Flash)
      → 2 ≤ fuel
      → (f' : Flash) × (store_param fds gc in_memory fuel s id f ≡ some f')
        × ((x : ParamId)
            → (x ≡ id) ⊎ (laws.lookup f (id_code x) ≡ some (stored_record in_memory s x))
            → laws.lookup f' (id_code x) ≡ some (stored_record in_memory s x))
  step fuel s id f h =
      let (f', e, here, others) =
        store_param-stored laws gc in_memory completes room fuel s id f h in
      (
        f',
        e,
        λ x d. elim (ℕ_discrete (id_code x) (id_code id)) [
          | yes same ↦
              subst (λ y. laws.lookup f' (id_code y) ≡ some (stored_record in_memory s y))
                (sym ((ids_lem x id).4 same)) here
          | no ne ↦ elim d [
            | inl same ↦ absurd (ne (ap id_code same))
            | inr there ↦ others (id_code x) ne ∙ there
          ]
        ],
      )

  -- The parameters that are among `ids` and notified, or already stored
  abbrev Due : List ParamId → Backend → Flash → ParamId → Type 0
  Due [] s f x = laws.lookup f (id_code x) ≡ some (stored_record in_memory s x)
  Due (id ∷ ids) s f x = ((x ≡ id) × (s.notified (id_to_index id) ≡ true)) ⊎ Due ids s f x

  Due-mono :
      (ids : List ParamId) (s : Backend) (f f' : Flash) (x : ParamId)
      → (laws.lookup f (id_code x) ≡ some (stored_record in_memory s x)
          → laws.lookup f' (id_code x) ≡ some (stored_record in_memory s x))
      → Due ids s f x
      → Due ids s f' x
  Due-mono [] s f f' x h d = h d
  Due-mono (id ∷ ids) s f f' x h (inl d) = inl d
  Due-mono (id ∷ ids) s f f' x h (inr d) = inr (Due-mono ids s f f' x h d)

  Due-here :
      (ids : List ParamId) (s : Backend) (f : Flash) (x : ParamId)
      → laws.lookup f (id_code x) ≡ some (stored_record in_memory s x)
      → Due ids s f x
  Due-here [] s f x e = e
  Due-here (id ∷ ids) s f x e = inr (Due-here ids s f x e)

  store_params-stored :
      (ids : List ParamId) (fuel : ℕ) (s : Backend) (f : Flash)
      → 2 ≤ fuel
      → (f' : Flash) × (store_params fds gc in_memory fuel ids s f ≡ some f')
        × ((x : ParamId)
            → Due ids s f x
            → laws.lookup f' (id_code x) ≡ some (stored_record in_memory s x))
  unfolding store_params
  store_params-stored [] fuel s f h = (f, refl, λ x d. d)
  store_params-stored (id ∷ ids) fuel s f h = elim (Bool-cases (s.notified (id_to_index id))) [
    | inr n ↦
        let (f', e, r) = store_params-stored ids fuel s f h in
        (
          f',
          rw (store_params, n) e,
          λ x d. elim d [
            | inl due ↦ let no : true ≡ false = sym due.1 ∙ n in cc
            | inr due ↦ r x due
          ],
        )
    | inl y ↦
        let (f1, e1, r1) = step fuel s id f h in
        let (f', e, r) = store_params-stored ids fuel s f1 h in
        (
          f',
          rw (store_params, y, e1) e,
          λ x d. elim d [
            | inl due ↦ r x (Due-here ids s f1 x (r1 x (inl due.0)))
            | inr due ↦ r x (Due-mono ids s f f1 x (λ there. r1 x (inr there)) due)
          ],
        )
  ]

  Due-all :
      (s : Backend) (f : Flash) (x : ParamId)
      → s.notified (id_to_index x) ≡ true
      → Due all_ids s f x
  Due-all s f Ids.dmx_channel n = inl (refl, n)
  Due-all s f Ids.led0_render n = inr (inl (refl, n))
  Due-all s f Ids.led1_render n = inr (inr (inl (refl, n)))
  Due-all s f Ids.led2_render n = inr (inr (inr (inl (refl, n))))
  Due-all s f Ids.led3_render n = inr (inr (inr (inr (inl (refl, n)))))

  -- If FDS finds room, if need be after one collection, a pass of the flash thread ends, with no bit left. If each
  -- operation that was queued is then completed with success, after a restart a read of each parameter that
  -- was notified gives the first bytes of what was cached, as long as those are whole words and the memory of the
  -- cached data still holds them when FDS reads it.
  pub read-flash_pass :
      (fuel : ℕ) (s : Backend) (f : Flash)
      → 2 ≤ fuel
      → (f' : Flash) × (flash_pass fds gc in_memory fuel s f
          ≡ some (record s { notified = λ i. false }, f'))
        × ((x : ParamId) (value : List ℕ) (n : ℕ)
            → s.notified (id_to_index x) ≡ true
            → (s.cache (id_to_index x)).block ≡ some value
            → in_memory x ≡ value
            → (s.cache (id_to_index x)).len ≡ length value
            → length value % 4 ≡ 0
            → let got = read (λ t. t) (answers fds f' x) initial x n in
              (got.0 ≡ success) × (got.1 ≡ take (min (length value) n) value))
  unfolding flash_pass
  read-flash_pass fuel s f h =
      let (f', e, r) = store_params-stored all_ids fuel s f h in
      (
        f',
        rw (flash_pass, e) refl,
        λ x value n notified block same len words.
            read-answers f' x (stored_record in_memory s x) value n (r x (Due-all s f x notified))
              (whole_words s x value same len words),
      )
