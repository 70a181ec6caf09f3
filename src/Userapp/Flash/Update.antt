-- ===== src/Userapp/Flash/Update.antt =====
-- The loop of `save_tempbuf_to_flash` in src/core/userapp.cc over the records that exist.
use ledfw_lib.Common.{
  ℕ, zero, suc, ◌+◌, ◌-◌, ◌*◌, ◌≤◌, ◌<◌, ◌≡◌, ◌≢◌, refl, sym, ap, ◌∙◌, List, [], ◌∷◌, length, take,
  drop, Status, success,
}
use native.Mathlib.Omega.{arith}
use mathlib.Core.Path.{subst}
use ledfw_lib.Userapp.Upload.{usercode_size}
use ledfw_lib.Userapp.Flash.{
  FlashRecord, Fds, Storage, Outcome, StorageState, code_base, size_words, next_id, with_flash,
  slice, save_fail, update_loop,
}
use ledfw_lib.Userapp.Flash.Laws.{FdsLaws, VerifyLaws, Completes}
use ledfw_lib.Userapp.Flash.Chain.{
  IsRecord, Chain, total, length-total, Chain-ext, Chain-rest, Chain-none,
}
use ledfw_lib.Userapp.Flash.Steps.{
  slice-add, verify_elim, update_loop-none, update_loop-some, Kept, Stored, slice-IsRecord,
  Kept-step, Stored-step, Kept-same, update_failed_same,
}

module _ {Flash Desc : Type 0} {fds : Fds Flash Desc}
    {verify_success2 : Status → (next fail : Outcome Flash) → Outcome Flash} (laws : FdsLaws fds)
    (verify : VerifyLaws verify_success2) (completes : Completes fds) where
  -- The first loop fails and keeps a chain, or goes on behind the records, which now hold their part of the
  -- buffer.
  pub update_loop_elim :
      (P : Outcome Flash → Type 0) (ds : List FlashRecord) (fuel : ℕ) (old : StorageState)
      (id offset : ℕ) (s : Storage Flash) (next : ℕ → ℕ → Storage Flash → Outcome Flash)
      → length s.app.temp_buf ≡ usercode_size
      → Chain (laws.lookup s.flash) id ds
      → offset + total ds ≤ size_words
      → id ≤ code_base + offset
      → total ds < fuel
      → ((f : Flash) (e : Status)
          → e ≢ success
          → Kept laws verify s.flash f id (size_words - offset)
          → P (save_fail old (with_flash f s) e))
      → ((f : Flash) (rs : List FlashRecord)
          → length rs ≡ length ds
          → total rs ≡ total ds
          → Stored laws verify s.flash f id rs
              (take (4 * total ds) (drop (4 * offset) s.app.temp_buf))
          → P (next (id + length ds) (offset + total ds) (with_flash f s)))
      → P (update_loop fds verify_success2 fuel old id offset s next)
  update_loop_elim P ds zero old id offset s next size c fits key enough fail ok =
      absurd (omega arith)
  update_loop_elim P [] (suc fuel) old id offset s next size c fits key enough fail ok =
      subst P
        (ap (λ i. next i (offset + 0) s) (omega arith)
          ∙ ap (λ i. next id i s) (omega arith)
          ∙ sym (
              update_loop-none laws verify fuel old id offset s next
                (Chain-none (laws.lookup s.flash) id c (omega arith))))
        (ok s.flash [] refl refl (record { chain = c; content = refl; below = λ j lt. refl }))
  update_loop_elim P (d ∷ ds) (suc fuel) old id offset s next size c fits key enough fail ok =
      let v = laws.lookup s.flash in
      let here = Chain-rest v id d ds c in
      let n : ℕ = d.length_words in
      let r : FlashRecord = slice offset n s in
      let w : 1 ≤ n = here.1.some_words in
      let u = fds.update_record s.flash (fds.find s.flash id).1 id r in
      let isr : IsRecord r = slice-IsRecord laws verify offset n s size w (omega arith) in
      let other : (j : ℕ) → j ≢ id → laws.lookup u.1 j ≡ v j =
        λ j ne. laws.update_others s.flash id j d r here.0 ne in
      let short : length ds ≤ total ds = (length-total v (suc id) ds here.2.seg).0 in
      let chain' : Chain (laws.lookup u.1) (suc id) ds =
        Chain-ext v (laws.lookup u.1) (suc id) ds (omega (arith, w))
          (λ j a b. other j (omega arith)) here.2 in
      let key' : next_id id ≡ suc id = omega (arith, w) in
      subst P
        (sym (
          update_loop-some laws verify fuel old id offset s next d here.0 (omega (arith, w))
            (omega arith)))
        (verify_elim laws verify P u.0
          (update_loop fds verify_success2 fuel old (next_id id) (offset + n) (with_flash u.1 s)
            next)
          (save_fail old (with_flash u.1 s) u.0)
          (λ done.
            let finished = completes.update_completes s.flash (fds.find s.flash id).1 id r done in
            subst
              (λ i.
                P (update_loop fds verify_success2 fuel old i (offset + n) (with_flash u.1 s) next))
              (sym key')
              (update_loop_elim P ds fuel old (suc id) (offset + n) (with_flash u.1 s) next size
                chain' (omega arith) (omega (arith, w)) (omega (arith, w))
                (λ f e ne k. fail f e ne (
                  subst (Kept laws verify s.flash f id) (omega (arith, w)) (
                    Kept-step laws verify s.flash u.1 f id (size_words - (offset + n)) r
                      (laws.updated s.flash id d r here.0 done finished) isr other k)))
                (λ f rs len tot st.
                  subst P
                    (ap (λ i. next (id + suc (length ds)) i (with_flash f s)) (omega arith)
                      ∙ ap (λ i. next i (offset + n + total ds) (with_flash f s)) (omega arith))
                    (ok f (r ∷ rs) (omega (arith, len)) (omega (arith, tot)) (
                      subst (Stored laws verify s.flash f id (r ∷ rs))
                        (slice-add offset n (total ds) s.app.temp_buf)
                        (Stored-step laws verify s.flash u.1 f id r rs
                          (take (4 * total ds) (drop (4 * (offset + n)) s.app.temp_buf))
                          (laws.updated s.flash id d r here.0 done finished) isr other st))))))
          (λ ne. fail u.1 u.0 ne (
            Kept-same laws verify s.flash u.1 id (size_words - offset) (d ∷ ds) c (omega arith)
              (omega (arith, w)) (update_failed_same laws verify s.flash id d r here.0 ne))))
