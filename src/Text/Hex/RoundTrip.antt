-- ===== src/Text/Hex/RoundTrip.antt =====
-- Bytes that are written in hexadecimal are read back.
use cross_chain_router.Prelude.{ℕ, ◌*◌, ◌/◌, ◌%◌, ◌<◌, ◌≡◌, refl, some, [], ◌∷◌, arith, length}
use cross_chain_router.Text.{Text}
use cross_chain_router.Text.Number.{digit_value}
use cross_chain_router.Text.Hex.{
  hex_digit, hex_encode, to_hex, hex2_bytes, strip_prefix, pad_even, from_hex,
}

-- Every element is a byte.
abbrev pub IsBytes : Text → Type 0
IsBytes [] = Unit
IsBytes (b ∷ s) = (b < 256) × IsBytes s

digit_value-hex_digit : (n : ℕ) → n < 16 → digit_value (hex_digit n) ≡ some n
unfolding digit_value hex_digit
digit_value-hex_digit n h = ground arith

hex2_bytes-hex_encode : (s : Text) → IsBytes s → hex2_bytes (hex_encode s) ≡ s
unfolding hex2_bytes hex_encode
hex2_bytes-hex_encode [] h = refl
hex2_bytes-hex_encode (b ∷ s) h = ground (
  arith,
  digit_value-hex_digit (b / 16) (omega arith),
  digit_value-hex_digit (b % 16) (omega arith),
  hex2_bytes-hex_encode s h.1,
)

pub length-hex_encode : (s : Text) → length (hex_encode s) ≡ 2 * length s
unfolding hex_encode
length-hex_encode [] = refl
length-hex_encode (b ∷ s) = omega (arith, length-hex_encode s)

-- FromHex undoes ToHex.
pub from_hex-to_hex : (s : Text) → IsBytes s → from_hex (to_hex s) ≡ s
unfolding from_hex to_hex strip_prefix pad_even
from_hex-to_hex s h = ground (arith, length-hex_encode s, hex2_bytes-hex_encode s h)

pub from_hex-nil : from_hex [] ≡ []
unfolding from_hex hex2_bytes strip_prefix pad_even
from_hex-nil = refl
