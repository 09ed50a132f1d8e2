-- ===== src/Tokens/Abicoder/Encode.antt =====
-- tokens/eth/abicoder/encode.go
use cross_chain_router.Prelude.{
  ℕ, suc, ◌+◌, ◌*◌, ◌/◌, Option, none, some, List, [], ◌∷◌, ◌++◌, length, take,
}
use cross_chain_router.Prelude.Int.{ℤ, pos}
use cross_chain_router.Text.{Text}
use cross_chain_router.Text.Data.{zeros, copy_at, left_pad_bytes, int_bytes}

-- The arguments that PackData takes, by their Go types; a nil *big.Int is `none`. Any other type ends
-- the process.
pub data Arg : Type 0 where
  hash_arg : Text → Arg
  address_arg : Text → Arg
  big_int_arg : Option ℤ → Arg
  string_arg : Text → Arg
  bytes_arg : Text → Arg
  hex_bytes_arg : Text → Arg
  uint64_arg : ℕ → Arg
  int64_arg : ℤ → Arg
  int_arg : ℤ → Arg
  uint8_arg : ℕ → Arg
  address_slice_arg : List Text → Arg
  big_int_slice_arg : List (Option ℤ) → Arg
  string_slice_arg : List Text → Arg
  hex_bytes_slice_arg : List Text → Arg
  bytes_slice_arg : List Text → Arg

-- packAddress: the hash of an address has it in its last 20 bytes.
unfoldable pub pack_address : Text → Text
pack_address a = left_pad_bytes a 32

-- packBigInt
unfoldable pub pack_big_int : Option ℤ → Text
pack_big_int none = left_pad_bytes [] 32
pack_big_int (some z) = left_pad_bytes (int_bytes z) 32

abbrev pub word : ℕ → Text
word n = pack_big_int (some (pos n))

-- packString and packBytes
unfoldable pub pack_bytes : Text → Text
pack_bytes s =
    let bs = zeros (32 + (length s + 31) / 32 * 32) in copy_at 32 s (copy_at 0 (word (length s)) bs)

-- The loops of packAddressSlice and packBigIntSlice, at the element i.
unfoldable pub pack_words : ℕ → List Text → Text → Text
pack_words i [] bs = bs
pack_words i (w ∷ ws) bs = pack_words (suc i) ws (copy_at ((i + 1) * 32) w bs)

abbrev pub packed : {A : Type 0} → (A → Text) → List A → List Text
packed f [] = []
packed f (x ∷ xs) = f x ∷ packed f xs

-- packAddressSlice
unfoldable pub pack_address_slice : List Text → Text
unfolding pack_words
pack_address_slice addrs =
    pack_words 0 (packed pack_address addrs)
      (copy_at 0 (word (length addrs)) (zeros ((1 + length addrs) * 32)))

-- packBigIntSlice
unfoldable pub pack_big_int_slice : List (Option ℤ) → Text
unfolding pack_words
pack_big_int_slice bi_slice =
    pack_words 0 (packed pack_big_int bi_slice)
      (copy_at 0 (word (length bi_slice)) (zeros ((1 + length bi_slice) * 32)))

-- A dynamic argument: its offset at the slot i, and its data at the end.
unfoldable pub pack_tail : ℕ → Text → Text → Text
pack_tail i tail bs = copy_at (i * 32) (word (length bs)) bs ++ tail

-- The loops of packStringSlice, packHexBytesSlice and packBytesSlice.
unfoldable pub pack_inner : ℕ → List Text → Text → Text
unfolding pack_tail
pack_inner i [] bs = bs
pack_inner i (s ∷ ss) bs = pack_inner (suc i) ss (pack_tail i (pack_bytes s) bs)

-- packStringSlice, packHexBytesSlice and packBytesSlice
unfoldable pub pack_bytes_slice : List Text → Text
unfolding pack_inner
pack_bytes_slice ss = word (length ss) ++ pack_inner 0 ss (zeros (length ss * 32))

-- The switch of PackData at the argument i.
unfoldable pub pack_arg : ℕ → Arg → Text → Text
unfolding pack_tail
pack_arg i (hash_arg h) bs = copy_at (i * 32) h bs
pack_arg i (address_arg a) bs = copy_at (i * 32) (pack_address a) bs
pack_arg i (big_int_arg v) bs = copy_at (i * 32) (take 32 (pack_big_int v)) bs
pack_arg i (string_arg s) bs = pack_tail i (pack_bytes s) bs
pack_arg i (bytes_arg s) bs = pack_tail i (pack_bytes s) bs
pack_arg i (hex_bytes_arg s) bs = pack_tail i (pack_bytes s) bs
pack_arg i (uint64_arg n) bs = copy_at (i * 32) (word n) bs
pack_arg i (int64_arg z) bs = copy_at (i * 32) (pack_big_int (some z)) bs
pack_arg i (int_arg z) bs = copy_at (i * 32) (pack_big_int (some z)) bs
pack_arg i (uint8_arg n) bs = copy_at (i * 32) (word n) bs
pack_arg i (address_slice_arg xs) bs = pack_tail i (pack_address_slice xs) bs
pack_arg i (big_int_slice_arg xs) bs = pack_tail i (pack_big_int_slice xs) bs
pack_arg i (string_slice_arg xs) bs = pack_tail i (pack_bytes_slice xs) bs
pack_arg i (hex_bytes_slice_arg xs) bs = pack_tail i (pack_bytes_slice xs) bs
pack_arg i (bytes_slice_arg xs) bs = pack_tail i (pack_bytes_slice xs) bs

unfoldable pub pack_args : ℕ → List Arg → Text → Text
pack_args i [] bs = bs
pack_args i (x ∷ xs) bs = pack_args (suc i) xs (pack_arg i x bs)

-- PackData
unfoldable pub pack_data : List Arg → Text
unfolding pack_args
pack_data args = pack_args 0 args (zeros (length args * 32))

-- PackDataWithFuncHash: copy(bs[:4], funcHash) takes at most 4 bytes.
unfoldable pub pack_data_with_func_hash : Text → List Arg → Text
pack_data_with_func_hash func_hash args =
    let pack = pack_data args in
    copy_at 4 pack (copy_at 0 (take 4 func_hash) (zeros (4 + length pack)))
