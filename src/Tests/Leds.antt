-- ===== src/Tests/Leds.antt =====
-- The Bluetooth service of an LED channel and the rate of a connection.
use ledfw_lib.Common.{
  ℕ, ◌+◌, ◌*◌, ◌≡◌, refl, true, false, none, List, [], ◌∷◌, ◌++◌, get_or, replicate,
  length-replicate, write_cells, success,
}
use native.Mathlib.Omega.{arith}
use ledfw_lib.Buffer.{Buffer}
use ledfw_lib.Buffer.Append.{contents}
use ledfw_lib.Buffer.Append
use ledfw_lib.Transcode.{Rgb, black}
use ledfw_lib.Led.Blank.{zero_bytes}
use ledfw_lib.Userapp.Upload.{App, user_app_loaded, with_app}
use ledfw_lib.Userapp.Default.{LedChan}
use ledfw_lib.Userapp.Default
use ledfw_lib.Userapp.Program.{WriteEvent}
use ledfw_lib.Userapp.Desc.{full_desc, fill_tbl, magic_number, version, architecture}
use ledfw_lib.Ble.Leds.{
  RenderConfig, Context, num_leds, color_mode, on_control_write, fill_range, handle_requests, Prop,
}
use ledfw_lib.Ble.Leds.Control.{event_of, on_control_write-sequential}
use ledfw_lib.Ble.Leds.Config.{Limits, IsInRange, AreValid, deliver, client_writes-IsValid}
use ledfw_lib.Ble.Leds.Config
use ledfw_lib.Ble.Leds.Render.{RenderProps, call_app, render}
use ledfw_lib.Ble.Leds.Render.Frame.{frame_bytes, encoded, called, render-frame}
use ledfw_lib.Ble.Leds.Render.Solid.{solid, render-solid}

abbrev decode : ℕ → ℕ → ℕ
decode low high = low + 256 * high

abbrev context : Context
context = record {
  buf_num_leds = 2 ∷ 0 ∷ [];
  buf_color_mode = 0 ∷ [];
  buf_refresh_rate = 30 ∷ 0 ∷ [];
  reset_strip = false;
  seqwrite_offset = 1;
  user_buffer = 0 ∷ 0 ∷ 0 ∷ 0 ∷ 0 ∷ 0 ∷ [];
  requests = [];
  notified = [];
}

range_run :
    (on_control_write decode 2 (event_of (1 ∷ 1 ∷ 0 ∷ 9 ∷ 0 ∷ 5 ∷ 6 ∷ 7 ∷ [])) context).user_buffer
    ≡ 0 ∷ 0 ∷ 0 ∷ 5 ∷ 6 ∷ 7 ∷ []
unfolding on_control_write fill_range
range_run = refl

on_control_write-sequential_example :
    on_control_write decode 2 (event_of (0x11 ∷ 5 ∷ 6 ∷ 7 ∷ 8 ∷ [])) context ≡ record context {
      seqwrite_offset = 1 + 1;
      user_buffer =
          write_cells context.user_buffer (λ i. get_or (5 ∷ 6 ∷ 7 ∷ 8 ∷ []) i 0) (3 * 1) (3 * 1);
    }
on_control_write-sequential_example =
    on_control_write-sequential decode 2 (5 ∷ 6 ∷ 7 ∷ 8 ∷ []) context (omega arith)

abbrev limits : Limits
limits = record { max_leds = 2; minimum = 10; maximum = 1000 }

abbrev config : RenderConfig
config = record { n_leds = 2; refresh_msec = 30; color_mode = 0 }

config-IsValid : Config.IsValid limits config
unfolding IsInRange
config-IsValid = record {
  mode = omega arith;
  leds = omega arith;
  rate = (omega arith, omega arith);
}

none-AreValid : AreValid limits []
unfolding AreValid
none-AreValid = record {}

-- Too many LEDs, a mode, and a write without data
abbrev events : List (Prop × WriteEvent)
events =
    (num_leds, event_of (3 ∷ 0 ∷ []))
    ∷ (color_mode, event_of (2 ∷ []))
    ∷ (num_leds, record { len = 2; data_bytes = none })
    ∷ []

abbrev after_events : Context
after_events = deliver decode limits events context

client_writes-IsValid_example :
    Config.IsValid limits (handle_requests after_events.requests (after_events, config)).1
client_writes-IsValid_example =
    client_writes-IsValid decode limits events context config config-IsValid none-AreValid

-- A descriptor of version 1.0
abbrev app : App
app = record {
  app_state = user_app_loaded;
  temp_buf = [];
  user_code = 0x98 ∷ 0x11 ∷ 4 ∷ 0 ∷ 0 ∷ 0 ∷ 1 ∷ 0 ∷ replicate 20 1 ++ (4 ∷ 0 ∷ 1 ∷ 0 ∷ []);
  led_resets = 0;
}

app-ok : with_app (λ init refresh. success) app ≡ success
unfolding with_app full_desc fill_tbl magic_number version architecture
app-ok = refl

abbrev props : RenderProps
props = record { render_config = config; dmx_vals = 9 ∷ 8 ∷ 7 ∷ []; n_channels = 3 }

abbrev output : Buffer
output = record { mem = replicate 2048 0; max_len = 2048; pos = 0; n_leading_zeros = 0 }

output-IsValid : Append.IsValid output
output-IsValid = record {
  storage = length-replicate {A = ℕ} 2048 0;
  small = omega arith;
  pos_in = omega arith;
  no_zeros = refl;
}

abbrev to_rgb : ℕ → ℕ → ℕ → ℕ → Rgb
to_rgb mode a b c = black

abbrev idle : LedChan → LedChan
idle chan = chan

-- An application that leaves the buffer
idle-ok : (called to_rgb 2 true idle idle app props context).0 ≡ success
unfolding call_app with_app full_desc fill_tbl magic_number version architecture
idle-ok = refl

abbrev left : Context
left = (called to_rgb 2 true idle idle app props context).1

render-frame_example :
    ((render to_rgb 2 true idle idle app props context output).0 ≡ success)
    × ((render to_rgb 2 true idle idle app props context output).1 ≡ left)
    × (contents (render to_rgb 2 true idle idle app props context output).2
        ≡ contents output
          ++ (zero_bytes ++ (frame_bytes to_rgb 2 false config left.user_buffer ++ zero_bytes)))
render-frame_example =
    render-frame to_rgb 2 true idle idle app props context output output-IsValid (omega arith)
      idle-ok

render-solid_example :
    ((render to_rgb 2 true idle Default.default_refresh app props context output).0 ≡ success)
    × (contents (render to_rgb 2 true idle Default.default_refresh app props context output).2
        ≡ contents output
          ++ (zero_bytes ++ (encoded (λ ptr. solid (9 ∷ 8 ∷ 7 ∷ [])) 2 0 ++ zero_bytes)))
render-solid_example =
    render-solid to_rgb 2 idle true app props context output output-IsValid (omega arith) app-ok
      refl refl (omega arith) (omega arith) refl (omega arith)
