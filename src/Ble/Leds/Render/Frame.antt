-- ===== src/Ble/Leds/Render/Frame.antt =====
-- What `render` of src/ble/led_impl.cc writes to the transcoder.
use ledfw_lib.Common.{
  ℕ, zero, suc, ◌+◌, ◌-◌, ◌*◌, ◌≤◌, ◌≡◌, refl, sym, ap, ◌∙◌, min, Bool, true, false, List, [], ◌++◌,
  append_assoc, append-nil, ltb, if◌then◌else◌, length, length-append, length-tabulate, Status,
  success,
}
use native.Mathlib.Omega.{arith}
use ledfw_lib.Buffer.{Buffer}
use ledfw_lib.Buffer.Append.{IsValid, contents}
use ledfw_lib.Transcode.{Rgb, black, encode, write, write_bus_reset}
use ledfw_lib.Transcode.Frame.{length-encode, Wrote, write-Wrote, write_bus_reset-Wrote}
use ledfw_lib.Led.Blank.{Wrote-Has, zero_bytes}
use ledfw_lib.Userapp.Upload.{App}
use ledfw_lib.Userapp.Default.{LedChan}
use ledfw_lib.Ble.Leds.{RenderConfig, Context}
use ledfw_lib.Ble.Leds.Render.{RenderProps, call_app, led_color, write_leds, write_frame, render}

-- The encoded colours of `n` LEDs whose bytes start at `ptr`
abbrev pub encoded : (ℕ → Rgb) → (n ptr : ℕ) → List ℕ
encoded color_at zero ptr = []
encoded color_at (suc n) ptr = encode (color_at ptr) ++ encoded color_at n (ptr + 3)

length-encoded : (color_at : ℕ → Rgb) (n ptr : ℕ) → length (encoded color_at n ptr) ≡ 24 * n
length-encoded color_at zero ptr = refl
length-encoded color_at (suc n) ptr = omega (
  arith,
  length-append (encode (color_at ptr)) (encoded color_at n (ptr + 3)),
  length-encode (color_at ptr),
  length-encoded color_at n (ptr + 3),
)

write_leds-Wrote :
    (color_at : ℕ → Rgb) (n ptr : ℕ) (b : Buffer)
    → IsValid b
    → b.pos + 24 * n ≤ b.max_len
    → Wrote b (encoded color_at n ptr) (write_leds color_at n ptr b)
unfolding write_leds
write_leds-Wrote color_at zero ptr b v h = record {
  status = refl;
  items = sym (append-nil (contents b));
  valid = v;
  same_cap = refl;
}
write_leds-Wrote color_at (suc n) ptr b v h =
    let c : Rgb = color_at ptr in
    let one = write-Wrote b c v (omega arith) in
    let has = Wrote-Has b (encode c) 24 (write b c) (length-encode c) one in
    let rest =
      write_leds-Wrote color_at n (ptr + 3) (write b c).1 one.valid
        (omega (arith, has.position, has.same_cap)) in
    rw (write_leds, one.status)
      (record {
        status = rest.status;
        items =
            rest.items
            ∙ ap (λ l. l ++ encoded color_at n (ptr + 3)) one.items
            ∙ append_assoc (contents b) (encode c) (encoded color_at n (ptr + 3));
        valid = rest.valid;
        same_cap = rest.same_cap ∙ one.same_cap;
      })

Wrote-Wrote :
    (b : Buffer) (xs ys : List ℕ) (r q : Status × Buffer)
    → Wrote b xs r
    → Wrote r.1 ys q
    → Wrote b (xs ++ ys) q
Wrote-Wrote b xs ys r q h g = record {
  status = g.status;
  items = g.items ∙ ap (λ l. l ++ ys) h.items ∙ append_assoc (contents b) xs ys;
  valid = g.valid;
  same_cap = g.same_cap ∙ h.same_cap;
}

module _ (to_rgb : ℕ → ℕ → ℕ → ℕ → Rgb) (max_leds : ℕ) where
  -- The LEDs of the strip, and black for the others after a reset
  abbrev pub frame_bytes : (fill_zeros : Bool) → RenderConfig → List ℕ → List ℕ
  frame_bytes fill_zeros config buffer =
      let leds : List ℕ =
        encoded (led_color to_rgb config.color_mode buffer) (min config.n_leds max_leds) 0 in
      if fill_zeros then leds ++ encoded (λ ptr. black) (max_leds - config.n_leds) 0 else leds

  write_frame-Wrote :
      (fill_zeros : Bool) (config : RenderConfig) (buffer : List ℕ) (b : Buffer)
      → IsValid b
      → b.pos + 24 * max_leds + 1000 ≤ b.max_len
      → Wrote b
          (frame_bytes fill_zeros config buffer ++ zero_bytes)
          (write_frame to_rgb max_leds fill_zeros config buffer b)
  unfolding write_frame
  write_frame-Wrote false config buffer b v h =
      let n : ℕ = min config.n_leds max_leds in
      let color_at : ℕ → Rgb = led_color to_rgb config.color_mode buffer in
      let leds = write_leds color_at n 0 b in
      let xs : List ℕ = encoded color_at n 0 in
      let one = write_leds-Wrote color_at n 0 b v (omega arith) in
      let has = Wrote-Has b xs (24 * n) leds (length-encoded color_at n 0) one in
      let last =
        write_bus_reset-Wrote leds.1 one.valid (omega (arith, has.position, has.same_cap)) in
      rw (one.status) (Wrote-Wrote b xs zero_bytes leds (write_bus_reset leds.1) one last)
  write_frame-Wrote true config buffer b v h =
      let n : ℕ = min config.n_leds max_leds in
      let m : ℕ = max_leds - config.n_leds in
      let color_at : ℕ → Rgb = led_color to_rgb config.color_mode buffer in
      let leds = write_leds color_at n 0 b in
      let zeros = write_leds (λ ptr. black) m 0 leds.1 in
      let xs : List ℕ = encoded color_at n 0 in
      let ys : List ℕ = encoded (λ ptr. black) m 0 in
      let one = write_leds-Wrote color_at n 0 b v (omega arith) in
      let has = Wrote-Has b xs (24 * n) leds (length-encoded color_at n 0) one in
      let two =
        write_leds-Wrote (λ ptr. black) m 0 leds.1 one.valid
          (omega (arith, has.position, has.same_cap)) in
      let has' = Wrote-Has leds.1 ys (24 * m) zeros (length-encoded (λ ptr. black) m 0) two in
      let last =
        write_bus_reset-Wrote zeros.1 two.valid
          (omega (arith, has.position, has.same_cap, has'.position, has'.same_cap)) in
      rw (one.status, two.status)
        (Wrote-Wrote b (xs ++ ys) zero_bytes zeros (write_bus_reset zeros.1)
          (Wrote-Wrote b xs ys leds zeros one two) last)

  -- The call of the application that this frame makes
  abbrev pub called :
      (sent : Bool) (init refresh : LedChan → LedChan)
      → App
      → RenderProps
      → Context
      → Status × Context
  called sent init refresh app props ctx =
      let first = call_app sent init app props (record ctx { reset_strip = false }) in
      let next =
        if ltb 0 props.render_config.n_leds
        then call_app sent refresh app props ctx
        else (success, ctx) in
      if ctx.reset_strip then first else next

  -- If the call of the application does not fail and the valid buffer has room for 2000 bytes and 24 for each
  -- LED, `render` succeeds and appends a bus reset, the colours of the LEDs as the application left them, black
  -- for the others after a reset of the strip, and a bus reset.
  pub render-frame :
      (sent : Bool) (init refresh : LedChan → LedChan) (app : App) (props : RenderProps)
      (ctx : Context) (b : Buffer)
      → IsValid b
      → b.pos + 24 * max_leds + 2000 ≤ b.max_len
      → (called sent init refresh app props ctx).0 ≡ success
      → let r = render to_rgb max_leds sent init refresh app props ctx b in
        let ctx' = (called sent init refresh app props ctx).1 in
        (r.0 ≡ success)
        × (r.1 ≡ ctx')
        × (contents r.2
            ≡ contents b
              ++ (zero_bytes
                  ++ (frame_bytes ctx.reset_strip props.render_config ctx'.user_buffer
                      ++ zero_bytes)))
  unfolding render
  render-frame sent init refresh app props ctx b v h ok =
      let ctx' : Context = (called sent init refresh app props ctx).1 in
      let started = write_bus_reset b in
      let one = write_bus_reset-Wrote b v (omega arith) in
      let has = Wrote-Has b zero_bytes 1000 started (length-tabulate 1000 (λ _. zero)) one in
      let two =
        write_frame-Wrote ctx.reset_strip props.render_config ctx'.user_buffer started.1 one.valid
          (omega (arith, has.position, has.same_cap)) in
      let bytes : List ℕ =
        frame_bytes ctx.reset_strip props.render_config ctx'.user_buffer ++ zero_bytes in
      rw (render, one.status, ok)
        (
          two.status,
          refl,
          (Wrote-Wrote b zero_bytes bytes started
              (write_frame to_rgb max_leds ctx.reset_strip props.render_config ctx'.user_buffer
                started.1)
              one two).items,
        )
