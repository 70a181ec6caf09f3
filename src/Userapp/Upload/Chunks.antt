-- ===== src/Userapp/Upload/Chunks.antt =====
-- An application that is sent in consecutive chunks.
use ledfw_lib.Common.{
  ℕ, zero, suc, ◌+◌, ◌-◌, ◌≤◌, ◌≡◌, refl, ap, sym, ◌∙◌, true, false, List, [], ◌∷◌, ◌++◌,
  append_assoc, append-nil, ltb, ◌==◌, add_size, length, get_or, replicate, write_cells,
  write_cells_tail, write_cells-append, length-append,
}
use native.Mathlib.Omega.{arith}
use ledfw_lib.Userapp.Upload.{
  App, user_app_loaded, usercode_size, clear_tempbuf, write_tempbuf, load_from_tempbuf, Action,
  begin_write, write, run, crc_tempbuf, serve, serve_all,
}

-- The bytes of the chunks in order, and the writes that carry them to `offset` and on.
abbrev pub joined : List (List ℕ) → List ℕ
joined [] = []
joined (c ∷ cs) = c ++ joined cs

abbrev pub writes : ℕ → List (List ℕ) → List Action
writes offset [] = []
writes offset (c ∷ cs) = write offset c ∷ writes (offset + length c) cs

-- A chunk over zeros.
write_cells-replicate :
    (c : List ℕ) (k : ℕ)
    → length c ≤ k
    → write_cells (replicate k 0) (λ i. get_or c i 0) (length c) 0 ≡ c ++ replicate (k - length c) 0
unfolding write_cells
write_cells-replicate [] k h = ap (λ j. replicate j 0) (omega arith)
write_cells-replicate (x ∷ c) zero h = absurd (omega arith)
write_cells-replicate (x ∷ c) (suc k) h =
    write_cells_tail x (replicate k 0) (λ i. get_or c i 0) (length c) 0
    ∙ ap (λ l. x ∷ l)
        (write_cells-replicate c k (omega arith) ∙ ap (λ j. c ++ replicate j 0) (omega arith))

-- The buffer holds what was sent so far, and zeros.
abbrev pub sent : App → List ℕ → App
sent s front = record s { temp_buf = front ++ replicate (usercode_size - length front) 0 }

module _ (crc16 : List ℕ → ℕ) where
  write-sent :
      (s : App) (front c : List ℕ)
      → length front + length c ≤ usercode_size
      → serve crc16 (write (length front) c) (sent s front) ≡ sent s (front ++ c)
  unfolding serve write_tempbuf
  write-sent s front c h =
      let e : ltb usercode_size (add_size (length front) (length c)) ≡ false = ground arith in
      rw (serve, e)
        (ap (λ l. record s { temp_buf = l })
          (write_cells-append front (replicate (usercode_size - length front) 0) (λ i. get_or c i 0)
              (length c) (length front) refl
            ∙ ap (λ l. front ++ l)
                (write_cells-replicate c (usercode_size - length front) (omega arith))
            ∙ sym (append_assoc front c (replicate (usercode_size - length front - length c) 0))
            ∙ ap (λ j. (front ++ c) ++ replicate j 0) (omega (arith, length-append front c))))

  pub writes-sent :
      (cs : List (List ℕ)) (s : App) (front : List ℕ) (k : ℕ)
      → k ≡ length front
      → length front + length (joined cs) ≤ usercode_size
      → serve_all crc16 (writes k cs) (sent s front) ≡ sent s (front ++ joined cs)
  unfolding serve_all
  writes-sent [] s front k e h = ap (sent s) (sym (append-nil front))
  writes-sent (c ∷ cs) s front k e h =
      let all : length (c ++ joined cs) ≡ length c + length (joined cs) =
        length-append c (joined cs) in
      let longer : length (front ++ c) ≡ length front + length c = length-append front c in
      ap (λ j. serve_all crc16 (writes (k + length c) cs) (serve crc16 (write j c) (sent s front)))
        e
      ∙ ap (serve_all crc16 (writes (k + length c) cs)) (write-sent s front c (omega (arith, all)))
      ∙ writes-sent cs s (front ++ c) (k + length c) (omega (arith, longer))
          (omega (arith, all, longer))
      ∙ ap (sent s) (append_assoc front c (joined cs))

  pub serve_all-append :
      (xs ys : List Action) (s : App)
      → serve_all crc16 (xs ++ ys) s ≡ serve_all crc16 ys (serve_all crc16 xs s)
  unfolding serve_all
  serve_all-append [] ys s = refl
  serve_all-append (x ∷ xs) ys s = serve_all-append xs ys (serve crc16 x s)

  pub serve-begin : (s : App) → serve crc16 begin_write s ≡ sent s []
  unfolding serve clear_tempbuf
  serve-begin s = refl

  serve-run : (s : App) → serve crc16 (run (crc16 s.temp_buf)) s ≡ (load_from_tempbuf s).1
  unfolding serve crc_tempbuf
  serve-run s = let e : (crc16 s.temp_buf == crc16 s.temp_buf) ≡ true = ground arith in rw e refl

  -- After `begin_write`, the chunks of an application in order, each written where the last one ended, and
  -- `run` with the CRC of the padded whole, the code in RAM is the application followed by zeros, and it is
  -- marked as loaded; the chunks must fit the buffer together.
  pub run-upload :
      (cs : List (List ℕ)) (s : App)
      → length (joined cs) ≤ usercode_size
      → let image = joined cs ++ replicate (usercode_size - length (joined cs)) 0 in
        serve_all crc16 (begin_write ∷ writes 0 cs ++ run (crc16 image) ∷ []) s ≡ record {
          app_state = user_app_loaded;
          temp_buf = image;
          user_code = image;
          led_resets = s.led_resets + 1;
        }
  unfolding load_from_tempbuf serve_all
  run-upload cs s h =
      let image = joined cs ++ replicate (usercode_size - length (joined cs)) 0 in
      let last : List Action = run (crc16 image) ∷ [] in
      ap (serve_all crc16 (writes 0 cs ++ last)) (serve-begin s)
      ∙ serve_all-append (writes 0 cs) last (sent s [])
      ∙ ap (serve_all crc16 last) (writes-sent cs s [] 0 refl (omega arith))
      ∙ serve-run (sent s (joined cs))
