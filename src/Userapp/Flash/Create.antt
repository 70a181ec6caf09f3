-- ===== src/Userapp/Flash/Create.antt =====
-- The loop of `save_tempbuf_to_flash` in src/core/userapp.cc that creates records.
use ledfw_lib.Common.{
  ℕ, zero, suc, ◌+◌, ◌-◌, ◌*◌, ◌≤◌, ◌<◌, min, ◌≡◌, ◌≢◌, refl, sym, ap, ◌∙◌, none, List, [], ◌∷◌,
  length, take, drop, Status, success,
}
use native.Mathlib.Omega.{arith}
use mathlib.Core.Path.{subst}
use ledfw_lib.Userapp.Upload.{usercode_size}
use ledfw_lib.Userapp.Flash.{
  FlashRecord, Fds, Storage, Outcome, StorageState, code_base, size_words, next_id, with_flash,
  slice, save_fail, write_loop,
}
use ledfw_lib.Userapp.Flash.Laws.{FdsLaws, VerifyLaws, Completes}
use ledfw_lib.Userapp.Flash.Chain.{IsRecord, Chain, total, Chain-none, Chain-skip}
use ledfw_lib.Userapp.Flash.Steps.{
  slice-add, verify_elim, write_loop-eq, write_loop-end, Kept, Stored, slice-IsRecord, Kept-step,
  Stored-step, Kept-same, write_failed_same,
}

module _ {Flash Desc : Type 0} {fds : Fds Flash Desc}
    {verify_success2 : Status → (next fail : Outcome Flash) → Outcome Flash} (laws : FdsLaws fds)
    (verify : VerifyLaws verify_success2) (completes : Completes fds) where
  -- The second loop fails and keeps a chain, or goes on when the rest of the buffer is stored.
  pub write_loop_elim :
      (P : Outcome Flash → Type 0) (max_words fuel : ℕ) (old : StorageState) (id offset room : ℕ)
      (s : Storage Flash) (next : Storage Flash → Outcome Flash)
      → length s.app.temp_buf ≡ usercode_size
      → Chain (laws.lookup s.flash) id []
      → 1 ≤ max_words
      → offset + room ≡ size_words
      → id ≤ code_base + offset
      → room < fuel
      → ((f : Flash) (e : Status)
          → e ≢ success
          → Kept laws verify s.flash f id room
          → P (save_fail old (with_flash f s) e))
      → ((f : Flash) (rs : List FlashRecord)
          → total rs ≡ room
          → Stored laws verify s.flash f id rs (take (4 * room) (drop (4 * offset) s.app.temp_buf))
          → P (next (with_flash f s)))
      → P (write_loop fds verify_success2 max_words fuel old id offset s next)
  write_loop_elim P max_words zero old id offset room s next size c some_words fits key enough fail
        ok =
      absurd (omega arith)
  write_loop_elim P max_words (suc fuel) old id offset zero s next size c some_words fits key enough
        fail ok =
      subst P (sym (write_loop-end laws verify max_words fuel old id offset s next (omega arith)))
        (ok s.flash [] refl (record { chain = c; content = refl; below = λ j lt. refl }))
  write_loop_elim P max_words (suc fuel) old id offset (suc room) s next size c some_words fits key
        enough fail ok =
      let v = laws.lookup s.flash in
      let n : ℕ = min max_words (size_words - offset) in
      let r : FlashRecord = slice offset n s in
      let one : 1 ≤ n = omega arith in
      let most : n ≤ suc room = omega arith in
      let u = fds.write_record s.flash id r in
      let isr : IsRecord r = slice-IsRecord laws verify offset n s size one (omega arith) in
      let free : v id ≡ none = Chain-none v id c (omega arith) in
      let other : (j : ℕ) → j ≢ id → laws.lookup u.1 j ≡ v j =
        λ j ne. laws.write_others s.flash id j r ne in
      let chain' : Chain (laws.lookup u.1) (suc id) [] =
        Chain-skip v (laws.lookup u.1) id other c in
      let key' : next_id id ≡ suc id = omega arith in
      let left : ℕ = suc room - n in
      subst P (sym (write_loop-eq laws verify max_words fuel old id offset s next (omega arith))) (
        verify_elim laws verify P u.0
          (write_loop fds verify_success2 max_words fuel old (next_id id) (offset + n)
            (with_flash u.1 s) next)
          (save_fail old (with_flash u.1 s) u.0)
          (λ done.
            let finished = completes.write_completes s.flash id r done in
            subst
              (λ i. P (
                write_loop fds verify_success2 max_words fuel old i (offset + n) (with_flash u.1 s)
                  next))
              (sym key')
              (write_loop_elim P max_words fuel old (suc id) (offset + n) left (with_flash u.1 s)
                next size chain' some_words (omega arith) (omega arith) (omega arith)
                (λ f e ne k. fail f e ne (
                  subst (Kept laws verify s.flash f id) (omega arith) (
                    Kept-step laws verify s.flash u.1 f id left r
                      (laws.written s.flash id r free done finished) isr other k)))
                (λ f rs tot st. ok f (r ∷ rs) (omega (arith, tot)) (
                  subst (Stored laws verify s.flash f id (r ∷ rs))
                    (slice-add offset n left s.app.temp_buf
                      ∙ ap (λ i. take (4 * i) (drop (4 * offset) s.app.temp_buf)) (omega arith))
                    (Stored-step laws verify s.flash u.1 f id r rs
                      (take (4 * left) (drop (4 * (offset + n)) s.app.temp_buf))
                      (laws.written s.flash id r free done finished) isr other st)))))
          (λ ne. fail u.1 u.0 ne (
            Kept-same laws verify s.flash u.1 id (suc room) [] c (omega arith) (omega arith)
              (write_failed_same laws verify s.flash id r ne))))
