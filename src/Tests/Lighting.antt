-- ===== src/Tests/Lighting.antt =====
-- Encoders, LED threads and the SPI transport.
use ledfw_lib.Common.{ℕ, ◌+◌, ◌%◌, ◌≡◌, some, List, [], ◌∷◌, true, success, tabulate}
use native.Mathlib.Omega.{arith}
use ledfw_lib.Transcode.{Rgb, encode}
use ledfw_lib.Transcode.Symbols.{IsByteColor, wire, symbols, symbol, grb_bits, wire-encode}
use ledfw_lib.Led.Rounds.{start, trace, trace-start}
use ledfw_lib.Spi.{
  Spi, unused, init, set_buffer, send, send_step, set_buffer_step, Reach, reset, next,
}
use ledfw_lib.Spi.Idle.{IsIdle, Reach-IsIdle}
use ledfw_lib.Spi.Lockout.{ask_send, ask_set_buffer, Request}

abbrev orange : Rgb
orange = record { red = 255; green = 165; blue = 0 }

orange-IsByteColor : IsByteColor orange
orange-IsByteColor = record { red = omega arith; green = omega arith; blue = omega arith }

wire-encode_example : wire (encode orange) ≡ symbols symbol (grb_bits orange)
wire-encode_example = wire-encode orange orange-IsByteColor

abbrev ptr : ℕ → ℕ
ptr i = 4096 + i

abbrev len : ℕ → ℕ
len i = 2048

trace-start_example :
    trace ptr len 4 (start ptr len 0 1) ≡ tabulate 4 (λ i. (some (ptr (i % 2)), ptr ((i + 1) % 2)))
trace-start_example = trace-start ptr len 0 1 4

abbrev ready_spi : Spi
ready_spi = record unused { ready = true }

abbrev sending : Spi
sending = record unused { buffer = some 4096; len = 8; started = 1 }

reach-sending : Reach sending
unfolding init set_buffer send
reach-sending = next (next reset (set_buffer_step success (some 4096) 8)) send_step

Reach-IsIdle_example : IsIdle sending
Reach-IsIdle_example = Reach-IsIdle sending reach-sending

abbrev late : List Request
late = ask_set_buffer success (some 4096) 8 ∷ ask_send ∷ []
