-- ===== src/Ble/Leds/Render.antt =====
-- `render` of src/ble/led_impl.cc.
--
-- The application's two functions are arguments, as is `to_rgb` of the colour modes HSV and HSL, which
-- computes with floating point.
pub mod Frame
pub mod Solid
use ledfw_lib.Common.{
  ℕ, zero, suc, ◌+◌, ◌-◌, ◌*◌, min, Bool, true, false, not, List, [], ◌∷◌, ltb, ◌==◌, if◌then◌else◌,
  get_or, Status, success, usercode_not_available, is_success, verify_success,
}
use ledfw_lib.Buffer.{Buffer}
use ledfw_lib.Transcode.{Rgb, black, write, write_bus_reset}
use ledfw_lib.Userapp.Upload.{App, with_app}
use ledfw_lib.Userapp.Default.{LedChan}
use ledfw_lib.Ble.Leds.{RenderConfig, Context, color_mode, accept_write}

-- `led::renderer_props`: the configuration, the DMX values and how many of them are configured.
pub record RenderProps : Type 0 where
  pub render_config : RenderConfig
  pub dmx_vals : List ℕ
  pub n_channels : ℕ

-- `led_chan(props)` with the service's buffer
abbrev pub led_chan : RenderProps → List ℕ → LedChan
led_chan props user_buffer = record {
  buffer = user_buffer;
  dmx_vals = props.dmx_vals;
  color_mode = props.render_config.color_mode;
  n_leds = props.render_config.n_leds;
  dmx_vals_len = props.n_channels;
}

-- Error `usercode_not_available` is ignored.
abbrev pub ignore_unavailable : Status → Status
ignore_unavailable usercode_not_available = success
ignore_unavailable success = success
ignore_unavailable s = s

-- A call of the application: the status, and the context with what it left in the buffer and a request if it
-- chose another colour mode.
unfoldable pub call_app :
    (sent : Bool) (func : LedChan → LedChan) → App → RenderProps → Context → Status × Context
call_app sent func app props ctx =
    let ret = with_app (λ init refresh. success) app in
    let chan = led_chan props ctx.user_buffer in
    let chan' = if is_success ret then func chan else chan in
    let ctx' = record ctx { user_buffer = chan'.buffer } in
    (
      ignore_unavailable ret,
      if chan'.color_mode == props.render_config.color_mode
          then ctx'
          else accept_write sent color_mode chan'.color_mode ctx',
    )

-- The colour of the LED whose bytes start at `ptr`
unfoldable pub led_color : (to_rgb : ℕ → ℕ → ℕ → ℕ → Rgb) (mode : ℕ) → List ℕ → ℕ → Rgb
led_color to_rgb mode buffer ptr =
    let a = get_or buffer ptr 0 in
    let b = get_or buffer (ptr + 1) 0 in
    let c = get_or buffer (ptr + 2) 0 in
    if mode == 0
    then record { red = a; green = b; blue = c }
    else (if ltb mode 3 then to_rgb mode a b c else black)

-- The loop over `n` LEDs
unfoldable pub write_leds : (color_at : ℕ → Rgb) (n ptr : ℕ) → Buffer → Status × Buffer
write_leds color_at zero ptr output = (success, output)
write_leds color_at (suc n) ptr output =
    let written = write output (color_at ptr) in
    let rest = write_leds color_at n (ptr + 3) written.1 in
    verify_success written.0 rest (λ e. (e, written.1))

module _ (to_rgb : ℕ → ℕ → ℕ → ℕ → Rgb) (max_leds : ℕ) where
  -- What is written behind the first bus reset
  unfoldable pub write_frame :
      (fill_zeros : Bool) → RenderConfig → List ℕ → Buffer → Status × Buffer
  write_frame fill_zeros config buffer output =
      let color_at = led_color to_rgb config.color_mode buffer in
      let leds = write_leds color_at (min config.n_leds max_leds) 0 output in
      let zeros = write_leds (λ ptr. black) (max_leds - config.n_leds) 0 leds.1 in
      let filled = if fill_zeros then zeros else leds in
      verify_success leds.0
        (verify_success filled.0 (write_bus_reset filled.1) (λ e. (e, filled.1))) (λ e. (e, leds.1))

  unfoldable pub render :
      (sent : Bool) (init refresh : LedChan → LedChan)
      → App
      → RenderProps
      → Context
      → Buffer
      → Status × Context × Buffer
  render sent init refresh app props ctx output =
      let config = props.render_config in
      let started = write_bus_reset output in
      let first = call_app sent init app props (record ctx { reset_strip = false }) in
      let next =
        if ltb 0 config.n_leds then call_app sent refresh app props ctx else (success, ctx) in
      let called = if ctx.reset_strip then first else next in
      let frame = write_frame ctx.reset_strip config called.1.user_buffer started.1 in
      verify_success started.0
        (verify_success called.0 (frame.0, called.1, frame.1) (λ e. (e, called.1, started.1)))
        (λ e. (e, ctx, started.1))
