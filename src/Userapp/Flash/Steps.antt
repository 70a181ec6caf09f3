-- ===== src/Userapp/Flash/Steps.antt =====
-- One pass of each loop of `save_tempbuf_to_flash` in src/core/userapp.cc.
use ledfw_lib.Common.{
  ℕ, suc, ◌+◌, ◌-◌, ◌*◌, ◌≤◌, ◌<◌, min, ◌≡◌, ◌≢◌, refl, sym, ap, ◌∙◌, Bool-cases, inl, inr, true,
  false, none, some, List, ◌∷◌, ◌++◌, length, ltb, take, drop, take-add, drop-add, length-take,
  length-drop, Status, success, fds_not_found, Status-discrete, ℕ_discrete,
}
use native.Mathlib.Omega.{arith}
use mathlib.Core.Path.{subst}
use ledfw_lib.Userapp.Upload.{usercode_size}
use ledfw_lib.Userapp.Flash.{
  FlashRecord, Fds, Storage, Outcome, StorageState, code_crc, size_words, next_id, with_flash,
  slice, save_fail, update_loop, write_loop,
}
use ledfw_lib.Userapp.Flash.Laws.{FdsLaws, VerifyLaws}
use ledfw_lib.Userapp.Flash.Chain.{IsRecord, Seg, End, Chain, total, joined, Chain-ext}

-- Two slices of a buffer, one behind the other
pub slice-add :
    (offset n t : ℕ) (buf : List ℕ)
    → take (4 * n) (drop (4 * offset) buf) ++ take (4 * t) (drop (4 * (offset + n)) buf)
      ≡ take (4 * (n + t)) (drop (4 * offset) buf)
slice-add offset n t buf =
    ap (λ l. take (4 * n) (drop (4 * offset) buf) ++ take (4 * t) l)
      (drop-add (4 * offset) (4 * n) (4 * (offset + n)) buf (omega arith))
    ∙ sym (take-add (4 * n) (4 * t) (4 * (n + t)) (drop (4 * offset) buf) (omega arith))

module _ {Flash Desc : Type 0} {fds : Fds Flash Desc}
    {verify_success2 : Status → (next fail : Outcome Flash) → Outcome Flash} (laws : FdsLaws fds)
    (verify : VerifyLaws verify_success2) where
  abbrev pub Next : Type 0
  Next = ℕ → ℕ → Storage Flash → Outcome Flash

  pub verify_elim :
      (P : Outcome Flash → Type 0) (s : Status) (next fail : Outcome Flash)
      → (s ≡ success → P next)
      → (s ≢ success → P fail)
      → P (verify_success2 s next fail)
  verify_elim P s next fail h k = elim (Status-discrete s success) [
    | yes e ↦
        subst P (sym (ap (λ r. verify_success2 r next fail) e ∙ verify.on_success next fail)) (h e)
    | no n ↦ subst P (sym (verify.on_failure s next fail n)) (k n)
  ]

  pub update_loop-none :
      (fuel : ℕ) (old : StorageState) (id offset : ℕ) (s : Storage Flash) (next : Next)
      → laws.lookup s.flash id ≡ none
      → update_loop fds verify_success2 (suc fuel) old id offset s next ≡ next id offset s
  unfolding update_loop
  update_loop-none fuel old id offset s next e =
      let f : (fds.find s.flash id).0 ≡ fds_not_found = laws.missing s.flash id e in
      elim (Bool-cases (ltb offset size_words)) [
        | inl lt ↦ rw (update_loop, lt, f) refl
        | inr ge ↦ rw (update_loop, ge) refl
      ]

  pub update_loop-some :
      (fuel : ℕ) (old : StorageState) (id offset : ℕ) (s : Storage Flash) (next : Next)
      (r : FlashRecord)
      → laws.lookup s.flash id ≡ some r
      → offset < size_words
      → offset + r.length_words ≤ size_words
      → let u =
          fds.update_record s.flash (fds.find s.flash id).1 id (slice offset r.length_words s) in
        update_loop fds verify_success2 (suc fuel) old id offset s next
        ≡ verify_success2 u.0
            (update_loop fds verify_success2 fuel old
              (next_id id)
              (offset + r.length_words)
              (with_flash u.1 s)
              next)
            (save_fail old (with_flash u.1 s) u.0)
  unfolding update_loop
  update_loop-some fuel old id offset s next r e lt le =
      let f = laws.found s.flash id r e in
      let a : ltb offset size_words ≡ true = ground arith in
      let b : ltb size_words (offset + r.length_words) ≡ false = ground arith in
      rw (update_loop, a, f.0, f.1, f.2, b)
        (verify.on_success _ _ ∙ verify.on_success _ _ ∙ verify.on_success _ _)

  pub write_loop-eq :
      (max_words fuel : ℕ) (old : StorageState) (id offset : ℕ) (s : Storage Flash)
      (next : Storage Flash → Outcome Flash)
      → offset < size_words
      → let n = min max_words (size_words - offset) in
        let w = fds.write_record s.flash id (slice offset n s) in
        write_loop fds verify_success2 max_words (suc fuel) old id offset s next
        ≡ verify_success2 w.0
            (write_loop fds verify_success2 max_words fuel old
              (next_id id)
              (offset + n)
              (with_flash w.1 s)
              next)
            (save_fail old (with_flash w.1 s) w.0)
  unfolding write_loop
  write_loop-eq max_words fuel old id offset s next lt =
      let a : ltb offset size_words ≡ true = ground arith in rw (write_loop, a) refl

  pub write_loop-end :
      (max_words fuel : ℕ) (old : StorageState) (id offset : ℕ) (s : Storage Flash)
      (next : Storage Flash → Outcome Flash)
      → size_words ≤ offset
      → write_loop fds verify_success2 max_words (suc fuel) old id offset s next ≡ next s
  unfolding write_loop
  write_loop-end max_words fuel old id offset s next ge =
      let a : ltb offset size_words ≡ false = ground arith in rw (write_loop, a) refl

  -- What a loop from `id` on leaves in flash `f'` where it found `f`: a chain of at most `room` words.
  pub record Kept (f f' : Flash) (id room : ℕ) : Type 0 where
    pub records : List FlashRecord
    pub chain : Chain (laws.lookup f') id records
    pub fits : total records ≤ room
    pub below : (j : ℕ) → j < id → laws.lookup f' j ≡ laws.lookup f j

  -- The same, where the records hold `bytes`.
  pub record Stored (f f' : Flash) (id : ℕ) (rs : List FlashRecord) (bytes : List ℕ) : Type 0 where
    pub chain : Chain (laws.lookup f') id rs
    pub content : joined rs ≡ bytes
    pub below : (j : ℕ) → j < id → laws.lookup f' j ≡ laws.lookup f j

  pub slice-IsRecord :
      (offset n : ℕ) (s : Storage Flash)
      → length s.app.temp_buf ≡ usercode_size
      → 1 ≤ n
      → offset + n ≤ size_words
      → IsRecord (slice offset n s)
  slice-IsRecord offset n s e one h = record {
    some_words = one;
    size =
        length-take (4 * n) (drop (4 * offset) s.app.temp_buf)
          (omega (arith, e, length-drop (4 * offset) s.app.temp_buf));
  }

  -- A record that is put at `id` goes in front of the chain behind it.
  pub Kept-step :
      (f f1 f2 : Flash) (id room : ℕ) (r : FlashRecord)
      → laws.lookup f1 id ≡ some r
      → IsRecord r
      → ((j : ℕ) → j ≢ id → laws.lookup f1 j ≡ laws.lookup f j)
      → Kept f1 f2 (suc id) room
      → Kept f f2 id (r.length_words + room)
  unfolding Seg End
  Kept-step f f1 f2 id room r e w same k = record {
    records = r ∷ k.records;
    chain = record {
      seg = (k.below id (omega arith) ∙ e, w, k.chain.seg);
      end_of = λ j a b. k.chain.end_of j (omega arith) b;
    };
    fits = omega (arith, k.fits);
    below = λ j lt. k.below j (omega arith) ∙ same j (omega arith);
  }

  pub Stored-step :
      (f f1 f2 : Flash) (id : ℕ) (r : FlashRecord) (rs : List FlashRecord) (bytes : List ℕ)
      → laws.lookup f1 id ≡ some r
      → IsRecord r
      → ((j : ℕ) → j ≢ id → laws.lookup f1 j ≡ laws.lookup f j)
      → Stored f1 f2 (suc id) rs bytes
      → Stored f f2 id (r ∷ rs) (r.data_bytes ++ bytes)
  unfolding Seg End
  Stored-step f f1 f2 id r rs bytes e w same k = record {
    chain = record {
      seg = (k.below id (omega arith) ∙ e, w, k.chain.seg);
      end_of = λ j a b. k.chain.end_of j (omega arith) b;
    };
    content = ap (λ l. r.data_bytes ++ l) k.content;
    below = λ j lt. k.below j (omega arith) ∙ same j (omega arith);
  }

  pub Kept-same :
      (f f' : Flash) (id room : ℕ) (rs : List FlashRecord)
      → Chain (laws.lookup f) id rs
      → total rs ≤ room
      → id + room ≤ code_crc
      → ((j : ℕ) → laws.lookup f' j ≡ laws.lookup f j)
      → Kept f f' id room
  Kept-same f f' id room rs c le top same = record {
    records = rs;
    chain = Chain-ext (laws.lookup f) (laws.lookup f') id rs (omega arith) (λ j a b. same j) c;
    fits = le;
    below = λ j lt. same j;
  }

  -- The same at every key, if the status is a failure
  pub update_failed_same :
      (f : Flash) (k : ℕ) (old r : FlashRecord)
      → laws.lookup f k ≡ some old
      → let u = fds.update_record f (fds.find f k).1 k r in
        u.0 ≢ success → (j : ℕ) → laws.lookup u.1 j ≡ laws.lookup f j
  update_failed_same f k old r e n j = elim (ℕ_discrete j k) [
    | yes q ↦
        subst (λ i. laws.lookup (fds.update_record f (fds.find f k).1 k r).1 i ≡ laws.lookup f i)
          (sym q) (laws.update_failed f k r n)
    | no n' ↦ laws.update_others f k j old r e n'
  ]

  pub write_failed_same :
      (f : Flash) (k : ℕ) (r : FlashRecord)
      → let w = fds.write_record f k r in
        w.0 ≢ success → (j : ℕ) → laws.lookup w.1 j ≡ laws.lookup f j
  write_failed_same f k r n j = elim (ℕ_discrete j k) [
    | yes q ↦
        subst (λ i. laws.lookup (fds.write_record f k r).1 i ≡ laws.lookup f i) (sym q)
          (laws.write_failed f k r n)
    | no n' ↦ laws.write_others f k j r n'
  ]
