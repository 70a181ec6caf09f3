-- ===== src/Userapp/Flash/Load.antt =====
-- `load_from_flash` of src/core/userapp.cc on the records that `save_tempbuf_to_flash` leaves.
use ledfw_lib.Common.{
  ℕ, zero, suc, ◌+◌, ◌-◌, ◌*◌, ◌≤◌, ◌<◌, ◌^◌, ◌≡◌, refl, sym, ap, ◌∙◌, true, false, none, some,
  List, [], ◌∷◌, ◌++◌, append_assoc, append-nil, if◌then◌else◌, ◌==◌, length, get_or, ltb, drop,
  drop-add, drop-length, length-drop, length-append, write_cells, length-write_cells,
  write_cells-append, write_cells-start, Status, success, usercode_invalid_crc, is_not_found,
  fds_not_found,
}
use native.Mathlib.Omega.{arith}
use mathlib.Core.Path.{subst, ap₂}
use ledfw_lib.Userapp.Upload.{AppState, user_app_loaded, loading_user_app, usercode_size, word_at}
use ledfw_lib.Userapp.Flash.{
  FlashRecord, Fds, Storage, Outcome, user_app_stored, is_stored, returned, code_base, code_crc,
  size_words, word_bytes, next_id, with_app_state, with_user_code, load_fail, load_loop, check_crc,
  load_from_flash,
}
use ledfw_lib.Userapp.Flash.Laws.{FdsLaws, VerifyLaws}
use ledfw_lib.Userapp.Flash.Chain.{IsRecord, Chain, total, joined, Chain-rest, Chain-none}
use ledfw_lib.Userapp.Flash.Save.{Holds, crc_record}

-- A record over the first bytes of the rest of the buffer
copied-record :
    (front rest : List ℕ) (r : FlashRecord) (offset : ℕ)
    → IsRecord r
    → length front ≡ 4 * offset
    → 4 * r.length_words ≤ length rest
    → write_cells (front ++ rest) (λ i. get_or r.data_bytes i 0) (4 * r.length_words) (4 * offset)
      ≡ (front ++ r.data_bytes) ++ drop (4 * r.length_words) rest
copied-record front rest r offset w e h =
    write_cells-append front rest (λ i. get_or r.data_bytes i 0) (4 * r.length_words) (4 * offset)
      (sym e)
    ∙ ap (λ l. front ++ l)
        (subst
          (λ n. write_cells rest (λ i. get_or r.data_bytes i 0) n 0 ≡ r.data_bytes ++ drop n rest)
          w.size (write_cells-start r.data_bytes rest 0 (omega (arith, w.size))))
    ∙ sym (append_assoc front r.data_bytes (drop (4 * r.length_words) rest))

module _ {Flash Desc : Type 0} {fds : Fds Flash Desc}
    {verify_success2 : Status → (next fail : Outcome Flash) → Outcome Flash} (laws : FdsLaws fds)
    (verify : VerifyLaws verify_success2) where
  load_loop-none :
      (fuel : ℕ) (old : AppState) (id offset : ℕ) (s : Storage Flash)
      (next : Status → Storage Flash → Outcome Flash)
      → laws.lookup s.flash id ≡ none
      → load_loop fds verify_success2 (suc fuel) old id offset s next ≡ next fds_not_found s
  unfolding load_loop
  load_loop-none fuel old id offset s next e =
      let f : (fds.find s.flash id).0 ≡ fds_not_found = laws.missing s.flash id e in
      rw (load_loop, f) refl

  load_loop-some :
      (fuel : ℕ) (old : AppState) (id offset : ℕ) (s : Storage Flash)
      (next : Status → Storage Flash → Outcome Flash) (r : FlashRecord)
      → laws.lookup s.flash id ≡ some r
      → offset + r.length_words ≤ size_words
      → load_loop fds verify_success2 (suc fuel) old id offset s next
        ≡ load_loop fds verify_success2 fuel old
            (next_id id)
            (offset + r.length_words)
            (with_user_code
              (write_cells s.app.user_code
                (λ i. get_or r.data_bytes i 0)
                (4 * r.length_words)
                (4 * offset))
              s)
            next
  unfolding load_loop
  load_loop-some fuel old id offset s next r e le =
      let f = laws.found s.flash id r e in
      let b : ltb size_words (offset + r.length_words) ≡ false = ground arith in
      rw (load_loop, f.0, f.1, f.2, b)
        (verify.on_success _ _ ∙ verify.on_success _ _ ∙ verify.on_success _ _)

  -- The loop copies the records one behind the other.
  pub load_loop_lem :
      (rs : List FlashRecord) (fuel : ℕ) (old : AppState) (id offset : ℕ) (s : Storage Flash)
      (next : Status → Storage Flash → Outcome Flash) (front rest : List ℕ)
      → Chain (laws.lookup s.flash) id rs
      → offset + total rs ≤ size_words
      → id ≤ code_base + offset
      → total rs < fuel
      → length front ≡ 4 * offset
      → length rest ≡ 4 * (size_words - offset)
      → load_loop fds verify_success2 fuel old id offset (with_user_code (front ++ rest) s) next
        ≡ next fds_not_found (with_user_code ((front ++ joined rs) ++ drop (4 * total rs) rest) s)
  load_loop_lem rs zero old id offset s next front rest c fits key enough f e = absurd (omega arith)
  load_loop_lem [] (suc fuel) old id offset s next front rest c fits key enough f e =
      load_loop-none fuel old id offset (with_user_code (front ++ rest) s) next
        (Chain-none (laws.lookup s.flash) id c (omega arith))
      ∙ ap (λ l. next fds_not_found (with_user_code (l ++ rest) s)) (sym (append-nil front))
  load_loop_lem (r ∷ rs) (suc fuel) old id offset s next front rest c fits key enough f e =
      let here = Chain-rest (laws.lookup s.flash) id r rs c in
      let n : ℕ = r.length_words in
      let w : 1 ≤ n = here.1.some_words in
      let front' : List ℕ = front ++ r.data_bytes in
      let longer : length front' ≡ length front + length r.data_bytes =
        length-append front r.data_bytes in
      let rest' : List ℕ = drop (4 * n) rest in
      let loop : ℕ → List ℕ → Outcome Flash = λ i code.
        load_loop fds verify_success2 fuel old i (offset + n) (with_user_code code s) next in
      load_loop-some fuel old id offset (with_user_code (front ++ rest) s) next r here.0
        (omega arith)
      ∙ ap (loop (next_id id)) (copied-record front rest r offset here.1 f (omega (arith, e)))
      ∙ ap (λ i. loop i (front' ++ rest')) (omega (arith, w))
      ∙ load_loop_lem rs fuel old (suc id) (offset + n) s next front' rest' here.2 (omega arith)
          (omega (arith, w)) (omega (arith, w)) (omega (arith, longer, f, here.1.size))
          (omega (arith, length-drop (4 * n) rest, e))
      ∙ ap (λ l. next fds_not_found (with_user_code l s))
          (ap₂ ◌++◌ (append_assoc front r.data_bytes (joined rs))
            (sym (drop-add (4 * n) (4 * total rs) (4 * (n + total rs)) rest (omega arith))))

  -- The CRC that was stored with the image is found and compared.
  check_crc_lem :
      (crc16 : List ℕ → ℕ) (old : AppState) (crc : ℕ) (s : Storage Flash)
      → laws.lookup s.flash code_crc ≡ some (crc_record crc)
      → crc < 2 ^ 32
      → check_crc fds verify_success2 crc16 old s ≡ (
          if crc == crc16 s.app.user_code
          then returned success (record s {
            app = record s.app { app_state = user_app_loaded; led_resets = s.app.led_resets + 1 };
          })
          else load_fail old s usercode_invalid_crc)
  unfolding check_crc
  check_crc_lem crc16 old crc s e lt =
      let f = laws.found s.flash code_crc (crc_record crc) e in
      let w : word_at (word_bytes crc) 0 ≡ crc = omega arith in
      rw (check_crc, f.0, f.1, f.2, w) (verify.on_success _ _ ∙ verify.on_success _ _)

  -- Where flash holds an image and a CRC, `load_from_flash` returns success and leaves the image in RAM, marked
  -- as loaded, if the CRC is that of the image, and else the image, the old state and an error.
  pub load-Holds :
      (crc16 : List ℕ → ℕ) (fuel : ℕ) (image : List ℕ) (crc : ℕ) (s : Storage Flash)
      → s.storage_state ≡ user_app_stored
      → length s.app.user_code ≡ usercode_size
      → Holds (laws.lookup s.flash) image crc
      → crc < 2 ^ 32
      → size_words < fuel
      → load_from_flash fds verify_success2 crc16 fuel s ≡ (
          if crc == crc16 image
          then returned success (record s {
            app = record s.app {
              app_state = user_app_loaded;
              user_code = image;
              led_resets = s.app.led_resets + 1;
            };
          })
          else returned usercode_invalid_crc (with_user_code image s))
  unfolding load_from_flash
  load-Holds crc16 fuel image crc s st size h lt enough =
      let code : List ℕ = write_cells s.app.user_code (λ i. 0) 4 0 in
      let len : length code ≡ usercode_size =
        length-write_cells s.app.user_code (λ i. 0) 4 0 ∙ size in
      let loading : Storage Flash = with_app_state loading_user_app s in
      let whole : (([] ++ joined h.records) ++ drop (4 * total h.records) code) ≡ image =
        ap (λ l. joined h.records ++ l)
          (drop-length (4 * total h.records) code (omega (arith, len, h.whole)))
        ∙ append-nil (joined h.records)
        ∙ h.content in
      let i : is_stored s.storage_state ≡ true = ap is_stored st in
      rw (load_from_flash, i)
        (load_loop_lem h.records fuel s.app.app_state code_base 0 loading
            (λ ret t.
              if is_not_found ret
              then check_crc fds verify_success2 crc16 s.app.app_state t
              else load_fail s.app.app_state t ret)
            [] code h.chain (omega (arith, h.whole)) (omega arith) (omega (arith, h.whole)) refl
            (omega (arith, len))
          ∙ ap (λ l. check_crc fds verify_success2 crc16 s.app.app_state (with_user_code l loading))
              whole
          ∙ check_crc_lem crc16 s.app.app_state crc (with_user_code image loading) h.crc_found lt)
