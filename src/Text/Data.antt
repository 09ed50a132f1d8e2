-- ===== src/Text/Data.antt =====
-- common/bytes.go and common/utils.go: slices of bytes, padded, cut and read as numbers. An access
-- outside a slice is the error runtime_panic; lengths of slices stay below 2^63.
pub mod Laws
pub mod Words
use mathlib.Core.Logic.{dite}
use mathlib.Core.WellFounded.{Acc}
use native.Mathlib.Decide.{dec_lt}
use cross_chain_router.Prelude.{
  ℕ, zero, suc, ◌+◌, ◌-◌, ◌*◌, ◌/◌, ◌%◌, ◌^◌, ◌<◌, Bool, false, true, ◌||◌, List, [], ◌∷◌, ◌++◌,
  ltb, leb, ◌==◌, if◌then◌else◌, length, take, drop, arith,
}
use cross_chain_router.Prelude.Int.{ℤ, pos_part, neg_part}
use cross_chain_router.Text.{Text}
use cross_chain_router.Text.Number.{less_wf}
use cross_chain_router.Tokens.Errors.{Result, ok, err, sentinel, runtime_panic}

-- make([]byte, n)
unfoldable pub zeros : ℕ → Text
zeros zero = []
zeros (suc n) = 0 ∷ zeros n

-- copy(dst, src)
unfoldable pub overlay : Text → Text → Text
overlay [] dst = dst
overlay (x ∷ src) [] = []
overlay (x ∷ src) (y ∷ dst) = x ∷ overlay src dst

-- copy(dst[p:], src)
unfoldable pub copy_at : ℕ → Text → Text → Text
unfolding overlay
copy_at zero src dst = overlay src dst
copy_at (suc p) src [] = []
copy_at (suc p) src (y ∷ dst) = y ∷ copy_at p src dst

-- RightPadBytes
unfoldable pub right_pad_bytes : Text → ℕ → Text
unfolding zeros
right_pad_bytes s l = if leb l (length s) then s else s ++ zeros (l - length s)

-- LeftPadBytes
unfoldable pub left_pad_bytes : Text → ℕ → Text
unfolding zeros
left_pad_bytes s l = if leb l (length s) then s else zeros (l - length s) ++ s

pub shift-lt : (n : ℕ) → 0 < n → n / 256 < n
shift-lt n h = omega arith

-- The bytes of n, most significant first, in front of `out`.
put_bytes : (n : ℕ) → Acc ◌<◌ n → Text → Text
put_bytes n (Acc.intro _ smaller) out =
    dite (dec_lt 0 n) (λ h. put_bytes (n / 256) (smaller (n / 256) (shift-lt n h)) (n % 256 ∷ out))
      (λ _. out)

-- (*big.Int).Bytes: the absolute value, without leading zeros
unfoldable pub int_bytes : ℤ → Text
unfolding put_bytes less_wf dec_lt
int_bytes z = let n = pos_part z + neg_part z in put_bytes n (less_wf.apply n) []

join_bytes : ℕ → Text → ℕ
join_bytes n [] = n
join_bytes n (c ∷ s) = join_bytes (n * 256 + c) s

-- (*big.Int).SetBytes
unfoldable pub set_bytes : Text → ℕ
unfolding join_bytes
set_bytes s = join_bytes 0 s

-- data[start:end], for `end` within the slice
unfoldable pub slice : Text → ℕ → ℕ → Result Text
slice bs start end =
    if ltb end start then err (sentinel runtime_panic) else ok (take (end - start) (drop start bs))

-- RightPadBytes(s, int(size)): a size from 2^63 on is a negative int.
unfoldable pub pad_result : ℕ → Result Text → Result Text
unfolding right_pad_bytes
pad_result size (ok s) = ok (if ltb size (2 ^ 63) then right_pad_bytes s size else s)
pad_result size (err e) = err e

-- GetData
unfoldable pub get_data : Text → ℕ → ℕ → Result Text
unfolding slice pad_result
get_data bs start size =
    let n = length bs in
    let start' = if ltb n start then n else start in
    let end = (start' + size) % 2 ^ 64 in
    pad_result size (slice bs start' (if ltb n end then n else end))

-- GetBigInt, for a size with which the end does not wrap: every caller reads 32 bytes
unfoldable pub get_big_int : Text → ℕ → ℕ → ℕ
unfolding set_bytes
get_big_int bs start size =
    let n = length bs in
    let end = (start + size) % 2 ^ 64 in
    if leb n start || size == 0
    then 0
    else set_bytes (take ((if ltb n end then n else end) - start) (drop start bs))

-- GetUint64; the overflow flag beside the low 64 bits
unfoldable pub get_uint64 : Text → ℕ → ℕ → ℕ × Bool
unfolding get_big_int
get_uint64 bs start size =
    let v = get_big_int bs start size in (v % 2 ^ 64, if ltb v (2 ^ 64) then false else true)
