-- ===== src/Transcode.antt =====
-- The WS2812 encoders of src/periph/spi_transcode.cc and src/periph/spi_transcode_alt.cc: one colour
-- becomes the bytes that an 8 MHz SPI sends for it. `rgb` is that of include/color.hh.
pub mod Symbols
pub mod Decode
pub mod Frame
use ledfw_lib.Common.{
  ℕ, ◌^◌, List, [], ◌∷◌, ◌++◌, ◌==◌, if◌then◌else◌, bit_and, length, get_or, Status,
}
use ledfw_lib.Buffer.{Buffer}
use ledfw_lib.Buffer

pub record Rgb : Type 0 where
  pub red : ℕ
  pub green : ℕ
  pub blue : ℕ

-- `rgb(BLACK)`
abbrev pub black : Rgb
black = record { red = 0; green = 0; blue = 0 }

-- `(value & (1 << bit)) ? one : zero`
abbrev pub choose : ℕ → ℕ → ℕ → ℕ → ℕ
choose value bit one zero' = if bit_and value (2 ^ bit) == 0 then zero' else one

-- The eight entries of `buf` for one channel: `ONE` is 0b11111000, `ZERO` is 0b11100000.
unfoldable pub channel : ℕ → List ℕ
channel v =
    choose v 7 0xf8 0xe0
    ∷ choose v 6 0xf8 0xe0
    ∷ choose v 5 0xf8 0xe0
    ∷ choose v 4 0xf8 0xe0
    ∷ choose v 3 0xf8 0xe0
    ∷ choose v 2 0xf8 0xe0
    ∷ choose v 1 0xf8 0xe0
    ∷ choose v 0 0xf8 0xe0
    ∷ []

-- `buf[0..23]`: green, red, blue
unfoldable pub encode : Rgb → List ℕ
encode c = channel c.green ++ (channel c.red ++ channel c.blue)

-- The ten entries of `buf` for one channel in the alternate encoder, with its constants `ONE_A` to
-- `ZERO_D`.
unfoldable pub channel_alt : ℕ → List ℕ
channel_alt v =
    choose v 7 0xfc 0xe0
    ∷ choose v 6 0x3f 0x38
    ∷ choose v 5 0x0f 0x0e
    ∷ choose v 5 0xc3 0x03
    ∷ choose v 4 0xf0 0x80
    ∷ choose v 3 0xfc 0xe0
    ∷ choose v 2 0x3f 0x38
    ∷ choose v 1 0x0f 0x0e
    ∷ choose v 1 0xc3 0x03
    ∷ choose v 0 0xf0 0x80
    ∷ []

-- `buf[0..29]`: green, red, blue
unfoldable pub encode_alt : Rgb → List ℕ
encode_alt c = channel_alt c.green ++ (channel_alt c.red ++ channel_alt c.blue)

-- `output.write(buf, sizeof(buf))` of a local array
abbrev pub write_array : Buffer → List ℕ → Status × Buffer
write_array b buf = Buffer.write b (λ i. get_or buf i 0) (length buf)

-- `transcode_8mhz::write`
unfoldable pub write : Buffer → Rgb → Status × Buffer
write output c = write_array output (encode c)

-- `transcode_8mhz_alt::write`
unfoldable pub write_alt : Buffer → Rgb → Status × Buffer
write_alt output c = write_array output (encode_alt c)

abbrev pub bytes_per_led : ℕ
bytes_per_led = 24

abbrev pub bytes_per_reset : ℕ
bytes_per_reset = 1000

-- `write_bus_reset` of both encoders
unfoldable pub write_bus_reset : Buffer → Status × Buffer
write_bus_reset output = Buffer.fill output 0 bytes_per_reset
