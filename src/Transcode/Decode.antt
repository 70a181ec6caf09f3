-- ===== src/Transcode/Decode.antt =====
-- Reading a colour back from its encoded bytes, each symbol by its length.
use ledfw_lib.Common.{
  ℕ, ◌+◌, ◌*◌, ◌<◌, ◌≡◌, refl, true, List, [], ◌∷◌, ◌==◌, ==_iff, if◌then◌else◌, holds_under,
  holds_under_at, take, drop,
}
use ledfw_lib.Transcode.{Rgb, channel, encode}
use ledfw_lib.Transcode.Symbols.{IsByteColor}

-- A channel from its symbols, the top bit first.
pub decode_channel : ℕ → List ℕ → ℕ
decode_channel acc [] = acc
decode_channel acc (x ∷ xs) = decode_channel (if x == 0xf8 then 2 * acc + 1 else 2 * acc) xs

pub decode : List ℕ → Rgb
decode l = record {
  green = decode_channel 0 (take 8 l);
  red = decode_channel 0 (take 8 (drop 8 l));
  blue = decode_channel 0 (take 8 (drop 16 l));
}

decode_table : holds_under (λ v. decode_channel 0 (channel v) == v) 256 ≡ true
unfolding holds_under decode_channel channel
decode_table = refl

decode-channel : (v : ℕ) → v < 256 → decode_channel 0 (channel v) ≡ v
decode-channel v h = (==_iff _ v).0 (holds_under_at _ 256 v h decode_table)

-- Decoding what `encode` gives for a colour of byte channels gives the colour back.
pub decode-encode : (c : Rgb) → IsByteColor c → decode (encode c) ≡ c
unfolding decode encode channel
decode-encode c v = λ i. record {
  red = decode-channel c.red v.red i;
  green = decode-channel c.green v.green i;
  blue = decode-channel c.blue v.blue i;
}
