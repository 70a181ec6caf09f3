-- ===== src/Userapp/Default.antt =====
-- The application that is in the temporary buffer by default: `default_init` and `default_refresh` of
-- src/core/userapp.cc.
pub mod Paint
use ledfw_lib.Common.{
  ℕ, zero, suc, ◌+◌, Bool, true, false, ◌&&◌, List, ltb, leb, if◌then◌else◌, get_or, set,
}

-- `led_chan`, with the arrays that its pointers lead to
pub record LedChan : Type 0 where
  pub buffer : List ℕ
  pub dmx_vals : List ℕ
  pub color_mode : ℕ
  pub n_leds : ℕ
  pub dmx_vals_len : ℕ

-- `led::color_mode::rgb`
abbrev pub rgb_mode : ℕ
rgb_mode = 0

unfoldable pub pick_mode : LedChan → LedChan
pick_mode chan =
    if leb 4 chan.dmx_vals_len && ltb (get_or chan.dmx_vals 3 0) 3
    then record chan { color_mode = get_or chan.dmx_vals 3 0 }
    else record chan { color_mode = rgb_mode }

-- The loop over `n` LEDs from index `i` of the buffer: three values for each.
unfoldable pub paint : (value : ℕ → ℕ) → (n i : ℕ) → List ℕ → List ℕ
paint value zero i buffer = buffer
paint value (suc n) i buffer =
    paint value n (i + 3) (set (set (set buffer i (value 0)) (i + 1) (value 1)) (i + 2) (value 2))

unfoldable pub default_init : LedChan → LedChan
default_init chan = record (pick_mode chan) { buffer = paint (λ j. 0) chan.n_leds 0 chan.buffer }

unfoldable pub default_refresh : LedChan → LedChan
default_refresh chan =
    if leb 3 chan.dmx_vals_len
    then record (pick_mode chan) {
      buffer = paint (λ j. get_or chan.dmx_vals j 0) chan.n_leds 0 chan.buffer;
    }
    else pick_mode chan
