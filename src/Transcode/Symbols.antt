-- ===== src/Transcode/Symbols.antt =====
-- What goes over the wire, bit by bit: each bit of a colour is one WS2812 symbol.
use ledfw_lib.Common.{
  ℕ, zero, suc, ◌/◌, ◌%◌, ◌^◌, ◌<◌, ◌≡◌, refl, ap, ◌∙◌, sym, Bool, true, false, ◌&&◌, List, [], ◌∷◌,
  ◌++◌, append_assoc, ◌==◌, arith, holds_under, holds_under_at,
}
use mathlib.Core.Path.{ap₂}
use ledfw_lib.Transcode.{Rgb, channel, channel_alt, encode, encode_alt}

-- The low `n` bits of a number, the most significant first.
abbrev pub bits : ℕ → ℕ → List ℕ
bits zero v = []
bits (suc n) v = v / 2 ^ n % 2 ∷ bits n v

-- The bits of a sequence of bytes, in the order in which an SPI sends them.
abbrev pub wire : List ℕ → List ℕ
wire [] = []
wire (b ∷ bs) = bits 8 b ++ wire bs

-- Eight bits at 8 MHz: five high for a one, three high for a zero.
abbrev pub symbol : ℕ → List ℕ
symbol zero = 1 ∷ 1 ∷ 1 ∷ 0 ∷ 0 ∷ 0 ∷ 0 ∷ 0 ∷ []
symbol (suc n) = 1 ∷ 1 ∷ 1 ∷ 1 ∷ 1 ∷ 0 ∷ 0 ∷ 0 ∷ []

-- Ten bits at 8 MHz: six high for a one, three high for a zero.
abbrev pub symbol_alt : ℕ → List ℕ
symbol_alt zero = 1 ∷ 1 ∷ 1 ∷ 0 ∷ 0 ∷ 0 ∷ 0 ∷ 0 ∷ 0 ∷ 0 ∷ []
symbol_alt (suc n) = 1 ∷ 1 ∷ 1 ∷ 1 ∷ 1 ∷ 1 ∷ 0 ∷ 0 ∷ 0 ∷ 0 ∷ []

abbrev pub symbols : (ℕ → List ℕ) → List ℕ → List ℕ
symbols f [] = []
symbols f (b ∷ bs) = f b ++ symbols f bs

-- The bits that a WS2812 strip expects for a colour: green, red, blue.
abbrev pub grb_bits : Rgb → List ℕ
grb_bits c = bits 8 c.green ++ (bits 8 c.red ++ bits 8 c.blue)

same : List ℕ → List ℕ → Bool
same [] [] = true
same (x ∷ xs) (y ∷ ys) = x == y && same xs ys
same _ _ = false

same_sound : (xs ys : List ℕ) → same xs ys ≡ true → xs ≡ ys
unfolding same
same_sound [] [] h = refl
same_sound (x ∷ xs) (y ∷ ys) h = ground (arith, same_sound xs ys)
same_sound [] (y ∷ ys) h = ground arith
same_sound (x ∷ xs) [] h = ground arith

channel_table : holds_under (λ v. same (wire (channel v)) (symbols symbol (bits 8 v))) 256 ≡ true
unfolding holds_under same channel
channel_table = refl

channel_alt_table :
    holds_under (λ v. same (wire (channel_alt v)) (symbols symbol_alt (bits 8 v))) 256 ≡ true
unfolding holds_under same channel_alt
channel_alt_table = refl

wire-channel : (v : ℕ) → v < 256 → wire (channel v) ≡ symbols symbol (bits 8 v)
wire-channel v h = same_sound _ _ (holds_under_at _ 256 v h channel_table)

wire-channel_alt : (v : ℕ) → v < 256 → wire (channel_alt v) ≡ symbols symbol_alt (bits 8 v)
wire-channel_alt v h = same_sound _ _ (holds_under_at _ 256 v h channel_alt_table)

wire-append : (xs ys : List ℕ) → wire (xs ++ ys) ≡ wire xs ++ wire ys
wire-append [] ys = refl
wire-append (x ∷ xs) ys = ap (λ l. bits 8 x ++ l) (wire-append xs ys)

symbols-append :
    (f : ℕ → List ℕ) (xs ys : List ℕ) → symbols f (xs ++ ys) ≡ symbols f xs ++ symbols f ys
symbols-append f [] ys = refl
symbols-append f (x ∷ xs) ys =
    ap (λ l. f x ++ l) (symbols-append f xs ys)
    ∙ sym (append_assoc (f x) (symbols f xs) (symbols f ys))

pub record IsByteColor (c : Rgb) : Type 0 where
  pub red : c.red < 256
  pub green : c.green < 256
  pub blue : c.blue < 256

-- Three channels one after the other.
wire_channels :
    (f : ℕ → List ℕ) (chan : ℕ → List ℕ)
    → ((v : ℕ) → v < 256 → wire (chan v) ≡ symbols f (bits 8 v))
    → (c : Rgb) → IsByteColor c
    → wire (chan c.green ++ (chan c.red ++ chan c.blue)) ≡ symbols f (grb_bits c)
wire_channels f chan h c v =
    wire-append (chan c.green) (chan c.red ++ chan c.blue)
    ∙ ap₂ ◌++◌ (h c.green v.green) (
        wire-append (chan c.red) (chan c.blue)
        ∙ ap₂ ◌++◌ (h c.red v.red) (h c.blue v.blue)
        ∙ sym (symbols-append f (bits 8 c.red) (bits 8 c.blue)))
    ∙ sym (symbols-append f (bits 8 c.green) (bits 8 c.red ++ bits 8 c.blue))

-- For a colour of byte channels, the bytes of `encode` hold the colour's 24 bits, green first and each
-- channel from its top bit on, each bit as its eight-bit symbol.
pub wire-encode : (c : Rgb) → IsByteColor c → wire (encode c) ≡ symbols symbol (grb_bits c)
unfolding encode
wire-encode c v = wire_channels symbol channel wire-channel c v

-- For a colour of byte channels, the bytes of `encode_alt` hold the same 24 bits in the same order,
-- each as its ten-bit symbol, although these symbols straddle the bytes.
pub wire-encode_alt :
    (c : Rgb) → IsByteColor c → wire (encode_alt c) ≡ symbols symbol_alt (grb_bits c)
unfolding encode_alt
wire-encode_alt c v = wire_channels symbol_alt channel_alt wire-channel_alt c v
