-- ===== src/Tokens/Abicoder/Values.antt =====
-- What PackData writes, the parsers read: bytes, strings and numbers.
use cross_chain_router.Prelude.{
  ℕ, zero, suc, ◌+◌, ◌*◌, ◌^◌, ◌<◌, ◌≡◌, ◌∙◌, Option, none, some, List, [], ◌∷◌, arith, length,
  get_elem?,
}
use cross_chain_router.Prelude.Int.{ℤ, pos, pos_part, neg_part}
use cross_chain_router.Text.{Text}
use cross_chain_router.Text.Data.{get_big_int, set_bytes, left_pad_bytes, int_bytes}
use cross_chain_router.Text.Data.Words.{
  set_bytes-int_bytes, set_bytes-left_pad_bytes, length-int_bytes, length-left_pad_bytes,
}
use cross_chain_router.Tokens.Errors.{ok}
use cross_chain_router.Tokens.Abicoder.Encode.{
  Arg, string_arg, bytes_arg, hex_bytes_arg, uint64_arg, int64_arg, int_arg, uint8_arg,
  pack_big_int, word, pack_bytes, pack_data,
}
use cross_chain_router.Tokens.Abicoder.Decode.{parse_bytes_in_data}
use cross_chain_router.Tokens.Abicoder.RoundTrip.{parse_bytes_in_data-Stands}
use cross_chain_router.Tokens.Abicoder.Layout.{AllTyped, IsTyped, head, tail, pack_data-IsLaid}

-- The bytes of an argument that is a string or a slice of bytes.
abbrev pub bytes_of : Arg → Option Text
bytes_of (string_arg s) = some s
bytes_of (bytes_arg s) = some s
bytes_of (hex_bytes_arg s) = some s
bytes_of arg = none

bytes_of-laid :
    (x : Arg) (s : Text) (o : ℕ)
    → bytes_of x ≡ some s
    → (head x o ≡ word o) × (tail x ≡ pack_bytes s)
bytes_of-laid (string_arg u) s o e = ground arith
bytes_of-laid (bytes_arg u) s o e = ground arith
bytes_of-laid (hex_bytes_arg u) s o e = ground arith
bytes_of-laid x s o e = absurd cc

-- ParseBytesInData and ParseStringInData read, at the slot of an argument, the bytes or the string that
-- PackData was given there, whatever the other arguments are, when the data is shorter than 2^63.
pub parse_bytes_in_data-pack_data :
    (k : ℕ) (x : Arg) (s : Text) (args : List Arg)
    → get_elem? args k ≡ some x
    → bytes_of x ≡ some s
    → AllTyped args
    → length (pack_data args) < 2 ^ 63
    → parse_bytes_in_data (pack_data args) (k * 32) ≡ ok s
parse_bytes_in_data-pack_data k x s args e b t l =
    let (o, laid) = pack_data-IsLaid k x args e t l in
    let (h, u) = bytes_of-laid x s o b in
    parse_bytes_in_data-Stands s (k * 32) o (pack_data args) l (rw (← h) laid.slotted)
      (rw (← u) laid.pointed)

-- The absolute value of an argument that is an integer.
abbrev pub magnitude : Arg → Option ℕ
magnitude (uint64_arg v) = some v
magnitude (uint8_arg v) = some v
magnitude (int64_arg z) = some (pos_part z + neg_part z)
magnitude (int_arg z) = some (pos_part z + neg_part z)
magnitude arg = none

padded :
    (z : ℤ)
    → pos_part z + neg_part z < 2 ^ 64
    → (set_bytes (left_pad_bytes (int_bytes z) 32) ≡ pos_part z + neg_part z)
      × (length (left_pad_bytes (int_bytes z) 32) ≡ 32)
padded z h = (
  set_bytes-left_pad_bytes (int_bytes z) 32 ∙ set_bytes-int_bytes z,
  length-left_pad_bytes (int_bytes z) 32 (length-int_bytes z (omega (arith, h))),
)

set_bytes-head :
    (x : Arg) (n o : ℕ)
    → magnitude x ≡ some n
    → IsTyped x
    → (set_bytes (head x o) ≡ n) × (length (head x o) ≡ 32)
unfolding IsTyped pack_big_int
set_bytes-head (uint64_arg v) n o e t = ground (arith, padded (pos v))
set_bytes-head (uint8_arg v) n o e t = ground (arith, padded (pos v))
set_bytes-head (int64_arg z) n o e t = ground (arith, padded z)
set_bytes-head (int_arg z) n o e t = ground (arith, padded z)
set_bytes-head x n o e t = absurd cc

get_elem?-IsTyped :
    (args : List Arg) (k : ℕ) (x : Arg) → get_elem? args k ≡ some x → AllTyped args → IsTyped x
get_elem?-IsTyped [] k x e t = absurd cc
get_elem?-IsTyped (y ∷ ys) zero x e t = let y_x : y ≡ x = cc in rw (← y_x) t.0
get_elem?-IsTyped (y ∷ ys) (suc k) x e t = get_elem?-IsTyped ys k x e t.1

-- GetBigInt reads, at the slot of an integer argument of at most 64 bits, its absolute value: the sign
-- is lost.
pub get_big_int-pack_data :
    (k n : ℕ) (x : Arg) (args : List Arg)
    → get_elem? args k ≡ some x
    → magnitude x ≡ some n
    → AllTyped args
    → length (pack_data args) < 2 ^ 63
    → get_big_int (pack_data args) (k * 32) 32 ≡ n
unfolding get_big_int
get_big_int-pack_data k n x args e m t l =
    let (o, laid) = pack_data-IsLaid k x args e t l in
    let (value, wide) = set_bytes-head x n o m (get_elem?-IsTyped args k x e t) in
    ground (arith, laid.slotted.within, laid.slotted.reads)
