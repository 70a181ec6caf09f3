-- ===== src/Ble/Leds/Control.antt =====
-- The loops of `on_control_write` in src/ble/led_impl.cc as copies.
use ledfw_lib.Common.{
  ℕ, zero, suc, ◌+◌, ◌-◌, ◌*◌, ◌/◌, ◌%◌, ◌≤◌, ◌<◌, min, ◌≡◌, refl, sym, ap, ◌∙◌, true, false,
  Bool-cases, inl, inr, ◌&&◌, Bool, some, List, [], ◌∷◌, get_or, length-replicate, ltb, ◌==◌,
  if◌then◌else◌, length, set, write_cells, length-write_cells, cong,
}
use native.Mathlib.Omega.{arith}
use mathlib.Core.Path.{ap₂}
use ledfw_lib.Userapp.Program.{WriteEvent}
use ledfw_lib.Ble.Leds.{Context, on_control_write, has_len, byte, set_led, fill_range, seq_write}

write_cells_ext :
    (n k : ℕ) (raw : List ℕ) (f g : ℕ → ℕ)
    → ((i : ℕ) → i < n → f i ≡ g i)
    → write_cells raw f n k ≡ write_cells raw g n k
unfolding write_cells
write_cells_ext zero k raw f g h = refl
write_cells_ext (suc n) k raw f g h =
    ap (λ v. write_cells (set raw k v) (λ i. f (suc i)) n (suc k)) (h 0 (omega arith))
    ∙ write_cells_ext n (suc k) (set raw k (g 0)) (λ i. f (suc i)) (λ i. g (suc i))
        (λ i lt. h (suc i) (omega arith))

at_size :
    (raw : List ℕ) (f : ℕ → ℕ) (k : ℕ) {m n : ℕ}
    → m ≡ n
    → write_cells raw f m k ≡ write_cells raw f n k
at_size raw f k e = cong (λ i. write_cells raw f i k) e

-- A copy of `3 * (n + 1)` bytes stores one LED and copies the others behind it.
write_cells-led :
    (n m k j : ℕ) (raw : List ℕ) (f g : ℕ → ℕ)
    → m ≡ 3 * suc n
    → j ≡ k + 3
    → ((i : ℕ) → f (i + 3) ≡ g i)
    → write_cells raw f m k ≡ write_cells (set_led raw k (f 0) (f 1) (f 2)) g (3 * n) j
unfolding write_cells
write_cells-led n m k j raw f g em ej h =
    let three : m ≡ suc (suc (suc (3 * n))) = omega arith in
    let one : suc k ≡ k + 1 = omega arith in
    let two : suc (suc k) ≡ k + 2 = omega arith in
    let next : suc (suc (suc k)) ≡ j = omega arith in
    let shift : (i : ℕ) → suc (suc (suc i)) ≡ i + 3 = λ i. omega arith in
    at_size raw f k three
    ∙ write_cells_ext (3 * n) (suc (suc (suc k)))
        (set (set (set raw k (f 0)) (suc k) (f 1)) (suc (suc k)) (f 2)) (λ i. f (suc (suc (suc i))))
        g (λ i lt. cong f (shift i) ∙ h i)
    ∙ ap₂
        (λ x y.
          write_cells (set (set (set raw k (f 0)) x (f 1)) y (f 2)) g (3 * n) (suc (suc (suc k))))
        one two
    ∙ cong (λ i. write_cells (set_led raw k (f 0) (f 1) (f 2)) g (3 * n) i) next

-- The bytes of LEDs of one colour
abbrev pub repeated : (a b c : ℕ) → ℕ → ℕ
repeated a b c i = if i % 3 == 0 then a else (if i % 3 == 1 then b else c)

repeated-add : (a b c i : ℕ) → repeated a b c (i + 3) ≡ repeated a b c i
repeated-add a b c i =
    let e : (i + 3) % 3 ≡ i % 3 = omega arith in
    cong (λ j. if j == 0 then a else (if j == 1 then b else c)) e

-- The loop of a range writes the colour to each LED of the range that the strip has, and nothing else.
pub fill_range-eq :
    (max_leds len start a b c : ℕ) (buffer : List ℕ)
    → fill_range (3 * max_leds) len (3 * start) a b c buffer
      ≡ write_cells buffer (repeated a b c) (3 * min len (max_leds - start)) (3 * start)
unfolding fill_range write_cells
fill_range-eq max_leds zero start a b c buffer =
    at_size buffer (repeated a b c) (3 * start) {m = 0} {n = 3 * min 0 (max_leds - start)}
      (omega arith)
fill_range-eq max_leds (suc len) start a b c buffer =
    let size : ℕ = 3 * max_leds in
    elim (Bool-cases (ltb (3 * start + 2) size)) [
      | inl in_strip ↦
          let e : 3 * start + 3 ≡ 3 * (start + 1) = omega arith in
          let led : List ℕ = set_led buffer (3 * start) a b c in
          rw (fill_range, in_strip)
            (ap (λ k. fill_range size len k a b c led) e
              ∙ fill_range-eq max_leds len (start + 1) a b c led
              ∙ sym (
                  write_cells-led (min len (max_leds - (start + 1)))
                    (3 * min (suc len) (max_leds - start)) (3 * start) (3 * (start + 1)) buffer
                    (repeated a b c) (repeated a b c) (ground arith) (omega arith)
                    (repeated-add a b c)))
      | inr past ↦
          rw (fill_range, past)
            (at_size buffer (repeated a b c) (3 * start) {m = 0}
              {n = 3 * min (suc len) (max_leds - start)} (ground arith))
    ]

-- The loop of a sequential write with enough fuel copies the whole LEDs of the event as far as the strip
-- goes, and moves the offset behind them.
pub seq_write-eq :
    (fuel max_leds len i offset : ℕ) (value : ℕ → ℕ) (buffer : List ℕ)
    → len ≤ i + 3 * fuel
    → let n = min ((len - i) / 3) (max_leds - offset) in
      seq_write fuel max_leds len i offset value buffer
      ≡ (offset + n, write_cells buffer (λ j. value (i + j)) (3 * n) (3 * offset))
unfolding seq_write write_cells
seq_write-eq zero max_leds len i offset value buffer h =
    ap₂ (λ (k : ℕ) (b : List ℕ). (k, b)) (omega arith)
      (at_size buffer (λ j. value (i + j)) (3 * offset) {m = 0}
        {n = 3 * min ((len - i) / 3) (max_leds - offset)} (omega arith))
seq_write-eq (suc fuel) max_leds len i offset value buffer h =
    elim (Bool-cases (ltb (i + 2) len && ltb offset max_leds)) [
      | inl more ↦
          let n : ℕ = min ((len - (i + 3)) / 3) (max_leds - (offset + 1)) in
          let led : List ℕ =
            set_led buffer (3 * offset) (value i) (value (i + 1)) (value (i + 2)) in
          let sum : (j : ℕ) → i + (j + 3) ≡ i + 3 + j = λ j. omega arith in
          let first : i + 0 ≡ i = omega arith in
          rw (seq_write, more)
            (seq_write-eq fuel max_leds len (i + 3) (offset + 1) value led (omega arith)
              ∙ ap₂ (λ (k : ℕ) (b : List ℕ). (k, b)) (ground arith)
                  (sym (
                    write_cells-led n (3 * min ((len - i) / 3) (max_leds - offset)) (3 * offset)
                      (3 * (offset + 1)) buffer (λ j. value (i + j)) (λ j. value (i + 3 + j))
                      (ground arith) (omega arith) (λ j. cong value (sum j))
                    ∙ cong
                        (λ k.
                          write_cells
                            (set_led buffer (3 * offset) (value k) (value (i + 1)) (value (i + 2)))
                            (λ j. value (i + 3 + j)) (3 * n) (3 * (offset + 1)))
                        first)))
      | inr done ↦
          rw (seq_write, done)
            (ap₂ (λ (k : ℕ) (b : List ℕ). (k, b)) (ground arith)
              (at_size buffer (λ j. value (i + j)) (3 * offset) {m = 0}
                {n = 3 * min ((len - i) / 3) (max_leds - offset)} (ground arith)))
    ]

and-false : (b : Bool) → (b && false) ≡ false
and-false true = refl
and-false false = refl

-- An event with all its bytes
abbrev pub event_of : List ℕ → WriteEvent
event_of bytes = record { len = length bytes; data_bytes = some bytes }

module _ (uint16_decode : ℕ → ℕ → ℕ) where
  -- Command 01 gives the `y` LEDs from the `x`-th on the colour of the event, as many of them as the strip has,
  -- and changes nothing else.
  pub on_control_write-range :
      (max_leds x0 x1 y0 y1 a b c : ℕ) (ctx : Context)
      → let x = uint16_decode x0 x1 in
        let y = uint16_decode y0 y1 in
        on_control_write uint16_decode max_leds
          (event_of (1 ∷ x0 ∷ x1 ∷ y0 ∷ y1 ∷ a ∷ b ∷ c ∷ []))
          ctx
        ≡ record ctx {
          user_buffer =
              write_cells ctx.user_buffer (repeated a b c) (3 * min y (max_leds - x)) (3 * x);
        }
  unfolding on_control_write write_cells
  on_control_write-range max_leds x0 x1 y0 y1 a b c ctx =
      ap (λ l. record ctx { user_buffer = l })
        (fill_range-eq max_leds (uint16_decode y0 y1) (uint16_decode x0 x1) a b c ctx.user_buffer)

  -- Command 11 copies the whole LEDs of the event behind those written before, as far as the strip goes, and
  -- moves the offset behind them; bytes that are no whole LED are dropped.
  pub on_control_write-sequential :
      (max_leds : ℕ) (bytes : List ℕ) (ctx : Context)
      → 1 ≤ length bytes
      → let n = min (length bytes / 3) (max_leds - ctx.seqwrite_offset) in
        on_control_write uint16_decode max_leds (event_of (0x11 ∷ bytes)) ctx ≡ record ctx {
          seqwrite_offset = ctx.seqwrite_offset + n;
          user_buffer =
              write_cells ctx.user_buffer (λ i. get_or bytes i 0) (3 * n) (3 * ctx.seqwrite_offset);
        }
  unfolding on_control_write write_cells
  on_control_write-sequential max_leds bytes ctx h =
      let len : ℕ = suc (length bytes) in
      let e : ltb 1 len ≡ true = ground arith in
      let f : (len == len) ≡ true = ground arith in
      let ev : WriteEvent = event_of (0x11 ∷ bytes) in
      let n : ℕ = min (length bytes / 3) (max_leds - ctx.seqwrite_offset) in
      let shift : (j : ℕ) → 1 + j ≡ suc j = λ j. omega arith in
      let copy =
        seq_write-eq len max_leds len 1 ctx.seqwrite_offset (byte ev) ctx.user_buffer
          (omega arith) in
      rw (e, f, and-false (has_len 1 ev), and-false (has_len 8 ev), and-false (has_len 3 ev))
        (ap (λ (r : ℕ × List ℕ). record ctx { seqwrite_offset = r.0; user_buffer = r.1 })
          (copy
            ∙ cong
                (λ m. (
                  ctx.seqwrite_offset + min (m / 3) (max_leds - ctx.seqwrite_offset),
                  write_cells ctx.user_buffer (λ j. byte ev (1 + j))
                      (3 * min (m / 3) (max_leds - ctx.seqwrite_offset)) (3 * ctx.seqwrite_offset),
                ))
                {j = length bytes} (omega arith)
            ∙ ap (λ (l : List ℕ). (ctx.seqwrite_offset + n, l))
                (write_cells_ext (3 * n) (3 * ctx.seqwrite_offset) ctx.user_buffer
                  (λ j. byte ev (1 + j)) (λ i. get_or bytes i 0)
                  (λ j lt. cong (byte ev) (shift j)))))

  -- Whatever is written, the buffer keeps the size of the strip.
  pub length-on_control_write :
      (max_leds : ℕ) (event : WriteEvent) (ctx : Context)
      → length ctx.user_buffer ≡ 3 * max_leds
      → length (on_control_write uint16_decode max_leds event ctx).user_buffer ≡ 3 * max_leds
  unfolding on_control_write
  length-on_control_write max_leds event ctx e =
      let number : ℕ → ℕ = λ i. uint16_decode (byte event i) (byte event (i + 1)) in
      let filled =
        fill_range-eq max_leds (number 3) (number 1) (byte event 5) (byte event 6) (byte event 7)
          ctx.user_buffer in
      let copied =
        seq_write-eq event.len max_leds event.len 1 ctx.seqwrite_offset (byte event) ctx.user_buffer
          (omega arith) in
      elim (Bool-cases (has_len 1 event && byte event 0 == 0)) [
        | inl c1 ↦ rw (c1) (length-replicate (3 * max_leds) 0)
        | inr n1 ↦ elim (Bool-cases (has_len 8 event && byte event 0 == 1)) [
          | inl c2 ↦ rw (n1, c2) (ap length filled ∙ length-write_cells ctx.user_buffer _ _ _ ∙ e)
          | inr n2 ↦ elim (Bool-cases (has_len 3 event && byte event 0 == 0x10)) [
            | inl c3 ↦ rw (n1, n2, c3) e
            | inr n3 ↦
                elim (Bool-cases
                  (ltb 1 event.len && has_len event.len event && byte event 0 == 0x11)) [
                    | inl c4 ↦
                        rw (n1, n2, n3, c4)
                          (ap (λ (r : ℕ × List ℕ). length r.1) copied
                            ∙ length-write_cells ctx.user_buffer _ _ _
                            ∙ e)
                    | inr n4 ↦ rw (n1, n2, n3, n4) e
                  ]
          ]
        ]
      ]
