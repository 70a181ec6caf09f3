-- ===== src/Ble/Leds/Render/Solid.antt =====
-- `render` of src/ble/led_impl.cc with the default application of src/core/userapp.cc.
use ledfw_lib.Common.{
  if◌then◌else◌, ℕ, zero, suc, ◌+◌, ◌*◌, ◌≤◌, ◌<◌, ◌≡◌, refl, sym, ap, ◌∙◌, min, Bool, true, false,
  List, ◌++◌, ltb, ◌==◌, length, get_or, cong, Status, success, Bool-cases, inl, inr,
}
use native.Mathlib.Omega.{arith}
use mathlib.Core.Path.{ap₂}
use ledfw_lib.Buffer.{Buffer}
use ledfw_lib.Buffer.Append.{IsValid, contents}
use ledfw_lib.Transcode.{Rgb, encode}
use ledfw_lib.Led.Blank.{zero_bytes}
use ledfw_lib.Userapp.Upload.{App, with_app}
use ledfw_lib.Userapp.Default.{LedChan, default_refresh}
use ledfw_lib.Userapp.Default.Paint.{Refreshed, default_refresh-Refreshed}
use ledfw_lib.Ble.Leds.{RenderConfig, Request, Context, queue_request}
use ledfw_lib.Ble.Leds.Render.{RenderProps, led_chan, call_app, led_color, render}
use ledfw_lib.Ble.Leds.Render.Frame.{encoded, frame_bytes, called, render-frame}

-- Colours that agree at the LEDs in question
encoded_ext :
    (f g : ℕ → Rgb) (n ptr : ℕ)
    → ((k : ℕ) → k < n → f (3 * k + ptr) ≡ g (3 * k + ptr))
    → encoded f n ptr ≡ encoded g n ptr
encoded_ext f g zero ptr h = refl
encoded_ext f g (suc n) ptr h =
    let z : ptr ≡ 3 * 0 + ptr = omega arith in
    let here : f ptr ≡ g ptr = cong f z ∙ h 0 (omega arith) ∙ sym (cong g z) in
    let next : (k : ℕ) → 3 * suc k + ptr ≡ 3 * k + (ptr + 3) = λ k. omega arith in
    ap₂ (λ x y. encode x ++ y) here
      (encoded_ext f g n (ptr + 3)
        (λ k lt. sym (cong f (next k)) ∙ h (suc k) (omega arith) ∙ cong g (next k)))

abbrev pub solid : List ℕ → Rgb
solid vals = record { red = get_or vals 0 0; green = get_or vals 1 0; blue = get_or vals 2 0 }

rgb_color :
    (to_rgb : ℕ → ℕ → ℕ → ℕ → Rgb) (buffer vals : List ℕ) (ptr k : ℕ)
    → ptr ≡ 3 * k + 0
    → ((j : ℕ) → j < 3 → get_or buffer (3 * k + j) 0 ≡ get_or vals j 0)
    → led_color to_rgb 0 buffer ptr ≡ solid vals
unfolding led_color
rgb_color to_rgb buffer vals ptr k e h =
    let r : ptr + 1 ≡ 3 * k + 1 = omega arith in
    let s : ptr + 2 ≡ 3 * k + 2 = omega arith in
    let at : ℕ → ℕ = λ i. get_or buffer i 0 in
    let a = cong at e ∙ h 0 (omega arith) in
    let b = cong at r ∙ h 1 (omega arith) in
    let c = cong at s ∙ h 2 (omega arith) in
    ap
      (λ (x : ℕ). record {
        red = x;
        green = get_or buffer (ptr + 1) 0;
        blue = get_or buffer (ptr + 2) 0;
      })
      a
    ∙ ap (λ (y : ℕ). record { red = get_or vals 0 0; green = y; blue = get_or buffer (ptr + 2) 0 })
        b
    ∙ ap (λ (z : ℕ). record { red = get_or vals 0 0; green = get_or vals 1 0; blue = z }) c

queue_request-buffer :
    (sent : Bool) (req : Request) (ctx : Context)
    → (queue_request sent req ctx).user_buffer ≡ ctx.user_buffer
unfolding queue_request
queue_request-buffer true req ctx = refl
queue_request-buffer false req ctx = refl

module _ (to_rgb : ℕ → ℕ → ℕ → ℕ → Rgb) (max_leds : ℕ) (init : LedChan → LedChan)
    (sent : Bool) where
  call-default :
      (app : App) (props : RenderProps) (ctx : Context)
      → with_app (λ i r. success) app ≡ success
      → let c = call_app sent default_refresh app props ctx in
        (c.0 ≡ success)
        × (c.1.user_buffer ≡ (default_refresh (led_chan props ctx.user_buffer)).buffer)
  unfolding call_app queue_request
  call-default app props ctx ok =
      let chan : LedChan = default_refresh (led_chan props ctx.user_buffer) in
      rw (ok) (
        refl,
        elim (Bool-cases (chan.color_mode == props.render_config.color_mode)) [
          | inl e ↦ rw (e) refl
          | inr n ↦ rw (n) (queue_request-buffer sent _ (record ctx { user_buffer = chan.buffer }))
        ],
      )

  -- With the default application loaded, a strip in RGB mode that is not being reset and no longer than the
  -- buffer, and three DMX values or more, `render` sends the colour of the first three values to every LED,
  -- between two bus resets, if the buffer has room.
  pub render-solid :
      (app : App) (props : RenderProps) (ctx : Context) (b : Buffer)
      → IsValid b
      → b.pos + 24 * max_leds + 2000 ≤ b.max_len
      → with_app (λ i r. success) app ≡ success
      → ctx.reset_strip ≡ false
      → props.render_config.color_mode ≡ 0
      → 1 ≤ props.render_config.n_leds
      → props.render_config.n_leds ≤ max_leds
      → length ctx.user_buffer ≡ 3 * max_leds
      → 3 ≤ props.n_channels
      → let n = props.render_config.n_leds in
        let r = render to_rgb max_leds sent init default_refresh app props ctx b in
        (r.0 ≡ success)
        × (contents r.2
            ≡ contents b
              ++ (zero_bytes ++ (encoded (λ ptr. solid props.dmx_vals) n 0 ++ zero_bytes)))
  render-solid app props ctx b v room ok no_reset rgb some_leds fits size vals =
      let config : RenderConfig = props.render_config in
      let n : ℕ = config.n_leds in
      let chan : LedChan = led_chan props ctx.user_buffer in
      let new : List ℕ = (default_refresh chan).buffer in
      let painted : Refreshed chan (default_refresh chan) =
        default_refresh-Refreshed chan vals (omega (arith, size)) in
      let call : Status × Context = call_app sent default_refresh app props ctx in
      let first : Status × Context =
        call_app sent init app props (record ctx { reset_strip = false }) in
      let some_led : ltb 0 n ≡ true = ground arith in
      let step : called to_rgb max_leds sent init default_refresh app props ctx ≡ call =
        ap (λ (z : Bool). if z then first else (if ltb 0 n then call else (success, ctx))) no_reset
        ∙ ap (λ (z : Bool). if z then call else (success, ctx)) some_led in
      let done = call-default app props ctx ok in
      let left : (called to_rgb max_leds sent init default_refresh app props ctx).1.user_buffer
          ≡ new =
        ap (λ (p : Status × Context). p.1.user_buffer) step ∙ done.1 in
      let frame =
        render-frame to_rgb max_leds sent init default_refresh app props ctx b v room
          (ap (λ (p : Status × Context). p.0) step ∙ done.0) in
      let m : ℕ = min n max_leds in
      let bytes =
        ap₂ (λ z l. frame_bytes to_rgb max_leds z config l) no_reset left
        ∙ ap (λ mode. encoded (led_color to_rgb mode new) m 0) rgb
        ∙ encoded_ext (led_color to_rgb 0 new) (λ ptr. solid props.dmx_vals) m 0
            (λ k lt.
              rgb_color to_rgb new props.dmx_vals (3 * k + 0) k refl
                (λ j small. painted.painted k j (omega arith) small))
        ∙ cong (λ i. encoded (λ ptr. solid props.dmx_vals) i 0) {j = n} (omega arith) in
      (frame.0, frame.2 ∙ ap (λ l. contents b ++ (zero_bytes ++ (l ++ zero_bytes))) bytes)
