-- ===== src/Userapp/Flash/Save.antt =====
-- The whole of `save_tempbuf_to_flash` in src/core/userapp.cc.
use ledfw_lib.Common.{
  ℕ, ◌+◌, ◌-◌, ◌*◌, ◌≤◌, ◌<◌, ◌≡◌, ◌≢◌, ◌∙◌, inl, inr, some, List, ◌++◌, length, take, drop,
  take-length, Status, success, fds_not_found, Option-cases,
}
use native.Mathlib.Omega.{arith}
use mathlib.Core.Path.{ap₂}
use ledfw_lib.Userapp.Upload.{usercode_size}
use ledfw_lib.Userapp.Flash.{
  FlashRecord, Fds, Storage, Outcome, storing_user_app, user_app_stored, returned, code_base,
  code_crc, size_words, word_bytes, with_flash, with_storage_state, write_loop, save_crc,
  save_tempbuf_to_flash,
}
use ledfw_lib.Userapp.Flash.Laws.{FdsLaws, VerifyLaws, Completes}
use ledfw_lib.Userapp.Flash.Chain.{
  Lookup, End, Chain, total, joined, length-total, total-append, joined-append, Chain-ext,
  Chain-end, Chain-append,
}
use ledfw_lib.Userapp.Flash.Steps.{slice-add, verify_elim}
use ledfw_lib.Userapp.Flash.Update.{update_loop_elim}
use ledfw_lib.Userapp.Flash.Create.{write_loop_elim}

abbrev pub crc_record : ℕ → FlashRecord
crc_record crc = record { length_words = 1; data_bytes = word_bytes crc }

-- An application in flash: at most as many words as the buffer has.
pub record IsWellStored (v : Lookup) : Type 0 where
  pub records : List FlashRecord
  pub chain : Chain v code_base records
  pub fits : total records ≤ size_words

-- Flash holds the bytes `image`, as many as the buffer has, and its CRC.
pub record Holds (v : Lookup) (image : List ℕ) (crc : ℕ) : Type 0 where
  pub records : List FlashRecord
  pub chain : Chain v code_base records
  pub whole : total records ≡ size_words
  pub content : joined records ≡ image
  pub crc_found : v code_crc ≡ some (crc_record crc)

pub Holds-IsWellStored :
    {v : Lookup} {image : List ℕ} {crc : ℕ} → Holds v image crc → IsWellStored v
Holds-IsWellStored h = record {
  records = h.records;
  chain = h.chain;
  fits = omega (arith, h.whole);
}

-- The part that the first loop stores, and the rest
pieces :
    (t : ℕ) (buf : List ℕ)
    → length buf ≡ usercode_size
    → t ≤ size_words
    → take (4 * t) (drop (4 * 0) buf) ++ take (4 * (size_words - (0 + t))) (drop (4 * (0 + t)) buf)
      ≡ buf
pieces t buf e h =
    slice-add 0 t (size_words - (0 + t)) buf
    ∙ take-length (4 * (t + (size_words - (0 + t)))) buf (omega arith)

module _ {Flash Desc : Type 0} {fds : Fds Flash Desc} (laws : FdsLaws fds) where
  -- How the call can end: with all stored, or with an error, the state as it was and a chain in flash.
  pub data SaveResult (crc : ℕ) (s : Storage Flash) : Outcome Flash → Type 0 where
    stored :
        (f : Flash)
        → Holds (laws.lookup f) s.app.temp_buf crc
        → SaveResult crc s (returned success (with_storage_state user_app_stored (with_flash f s)))
    failed :
        (f : Flash) (e : Status)
        → e ≢ success
        → IsWellStored (laws.lookup f)
        → SaveResult crc s (returned e (with_flash f s))

  -- A chain is not touched by what is done at the key of the CRC.
  Chain-beside :
      (f f' : Flash) (rs : List FlashRecord)
      → total rs ≤ size_words
      → Chain (laws.lookup f) code_base rs
      → ((j : ℕ) → j ≢ code_crc → laws.lookup f' j ≡ laws.lookup f j)
      → Chain (laws.lookup f') code_base rs
  Chain-beside f f' rs le c h =
      Chain-ext (laws.lookup f) (laws.lookup f') code_base rs (omega arith)
        (λ j a b. h j (omega arith)) c

  module _ {verify_success2 : Status → (next fail : Outcome Flash) → Outcome Flash}
      (verify : VerifyLaws verify_success2) (completes : Completes fds) where
    finish :
        (crc : ℕ) (s : Storage Flash) (f : Flash) (rs : List FlashRecord) (saved : Status × Flash)
        → total rs ≡ size_words
        → Chain (laws.lookup f) code_base rs
        → joined rs ≡ s.app.temp_buf
        → ((j : ℕ) → j ≢ code_crc → laws.lookup saved.1 j ≡ laws.lookup f j)
        → (saved.0 ≡ success → laws.lookup saved.1 code_crc ≡ some (crc_record crc))
        → SaveResult crc s (
            verify_success2 saved.0
              (returned success (with_storage_state user_app_stored (with_flash saved.1 s)))
              (returned saved.0 (with_flash saved.1 s)))
    finish crc s f rs saved tot c content others here =
        let chain' : Chain (laws.lookup saved.1) code_base rs =
          Chain-beside f saved.1 rs (omega (arith, tot)) c others in
        verify_elim laws verify (SaveResult crc s) saved.0
          (returned success (with_storage_state user_app_stored (with_flash saved.1 s)))
          (returned saved.0 (with_flash saved.1 s))
          (λ done. stored saved.1 (record {
            records = rs;
            chain = chain';
            whole = tot;
            content = content;
            crc_found = here done;
          }))
          (λ ne.
            failed saved.1 saved.0 ne
              (record { records = rs; chain = chain'; fits = omega (arith, tot) }))

    -- The call at its last step, where flash `f` holds the buffer.
    save_crc_lem :
        (crc : ℕ) (s : Storage Flash) (f : Flash) (rs : List FlashRecord)
        → total rs ≡ size_words
        → Chain (laws.lookup f) code_base rs
        → joined rs ≡ s.app.temp_buf
        → SaveResult crc s (
            save_crc fds verify_success2 s.storage_state crc
              (with_flash f (with_storage_state storing_user_app s)))
    unfolding save_crc
    save_crc_lem crc s f rs tot c content = elim (Option-cases (laws.lookup f code_crc)) [
      | inl free ↦
          let e : (fds.find f code_crc).0 ≡ fds_not_found = laws.missing f code_crc free in
          rw (save_crc, e)
            (finish crc s f rs (fds.write_record f code_crc (crc_record crc)) tot c content
              (λ j ne. laws.write_others f code_crc j (crc_record crc) ne)
              (λ done.
                laws.written f code_crc (crc_record crc) free done
                  (completes.write_completes f code_crc (crc_record crc) done)))
      | inr (r, there) ↦
          let e : (fds.find f code_crc).0 ≡ success = (laws.found f code_crc r there).0 in
          rw (save_crc, e)
            (finish crc s f rs
              (fds.update_record f (fds.find f code_crc).1 code_crc (crc_record crc)) tot c content
              (λ j ne. laws.update_others f code_crc j r (crc_record crc) there ne)
              (λ done. laws.updated f code_crc r (crc_record crc) there done (
                completes.update_completes f (fds.find f code_crc).1 code_crc (crc_record crc)
                  done)))
    ]

    -- If each operation that was queued is completed with success, then from a buffer of full size and a
    -- chain of at most as many words in flash, `save_tempbuf_to_flash` always returns: with success, and
    -- flash holds the buffer and the CRC, or with an error, and the variables are as before and flash still
    -- holds a chain that fits.
    pub save-SaveResult :
        (max_words fuel crc : ℕ) (s : Storage Flash)
        → 1 ≤ max_words
        → size_words < fuel
        → length s.app.temp_buf ≡ usercode_size
        → IsWellStored (laws.lookup s.flash)
        → SaveResult crc s (save_tempbuf_to_flash fds verify_success2 max_words fuel crc s)
    unfolding save_tempbuf_to_flash End
    save-SaveResult max_words fuel crc s some_words enough size well =
        let ds = well.records in
        let old = s.storage_state in
        let t : Storage Flash = with_storage_state storing_user_app s in
        update_loop_elim laws verify completes (SaveResult crc s) ds fuel old code_base 0 t
          (λ record_id write_offset s'.
            write_loop fds verify_success2 max_words fuel old record_id write_offset s'
              (save_crc fds verify_success2 old crc))
          size well.chain (omega (arith, well.fits)) (omega arith) (omega (arith, well.fits))
          (λ f e ne k.
            failed f e ne
              (record { records = k.records; chain = k.chain; fits = omega (arith, k.fits) }))
          (λ f rs len tot st.
            let room : ℕ = size_words - (0 + total ds) in
            let id : ℕ = code_base + length ds in
            let short = length-total (laws.lookup s.flash) code_base ds well.chain.seg in
            write_loop_elim laws verify completes (SaveResult crc s) max_words fuel old id
              (0 + total ds) room (with_flash f t) (save_crc fds verify_success2 old crc) size
              (Chain-end (laws.lookup f) code_base id rs (omega (arith, len)) st.chain) some_words
              (omega (arith, well.fits)) (omega (arith, short.0)) (omega arith)
              (λ f' e ne k. failed f' e ne (record {
                records = rs ++ k.records;
                chain =
                    Chain-append (laws.lookup f) (laws.lookup f') code_base id rs k.records
                      (omega (arith, len)) st.chain k.chain k.below;
                fits = omega (arith, total-append rs k.records, tot, k.fits, well.fits);
              }))
              (λ f' ts tot' st'.
                save_crc_lem crc s f' (rs ++ ts)
                  (omega (arith, total-append rs ts, tot, tot', well.fits))
                  (Chain-append (laws.lookup f) (laws.lookup f') code_base id rs ts
                    (omega (arith, len)) st.chain st'.chain st'.below)
                  (joined-append rs ts
                    ∙ ap₂ ◌++◌ st.content st'.content
                    ∙ pieces (total ds) s.app.temp_buf size well.fits)))
