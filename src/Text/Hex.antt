-- ===== src/Text/Hex.antt =====
-- common/bytes.go: bytes as hexadecimal texts, with Encode of common/hexutil/hexutil.go.
pub mod RoundTrip
use cross_chain_router.Prelude.{
  ℕ, suc, ◌+◌, ◌-◌, ◌*◌, ◌/◌, ◌%◌, ◌<◌, Bool, true, false, ◌&&◌, ◌||◌, Option, none, some, [], ◌∷◌,
  ltb, ◌==◌, if◌then◌else◌, length,
}
use cross_chain_router.Text.{Text}
use cross_chain_router.Text.Number.{digit_value}

unfoldable pub hex_digit : ℕ → ℕ
hex_digit n = if ltb n 10 then b'0' + n else b'a' + (n - 10)

-- hex.Encode
unfoldable pub hex_encode : Text → Text
hex_encode [] = []
hex_encode (b ∷ s) = hex_digit (b / 16) ∷ hex_digit (b % 16) ∷ hex_encode s

-- ToHex, and Encode of hexutil
unfoldable pub to_hex : Text → Text
to_hex s = b'0' ∷ b'x' ∷ hex_encode s

join_digits : Option ℕ → Option ℕ → Text → Text
join_digits (some h) (some l) rest = (h * 16 + l) ∷ rest
join_digits (some h) none rest = []
join_digits none l rest = []

-- Hex2Bytes: the bytes that hex.DecodeString has read before an error.
unfoldable pub hex2_bytes : Text → Text
unfolding join_digits
hex2_bytes [] = []
hex2_bytes (c ∷ []) = []
hex2_bytes (c ∷ d ∷ s) = join_digits (digit_value c) (digit_value d) (hex2_bytes s)

strip_prefix : Text → Text
strip_prefix [] = []
strip_prefix (c ∷ []) = c ∷ []
strip_prefix (c ∷ d ∷ s) = if c == b'0' && (d == b'x' || d == b'X') then s else c ∷ d ∷ s

pad_even : Text → Text
pad_even s = if length s % 2 == 1 then b'0' ∷ s else s

-- FromHex
unfoldable pub from_hex : Text → Text
unfolding strip_prefix pad_even
from_hex s = hex2_bytes (pad_even (strip_prefix s))
