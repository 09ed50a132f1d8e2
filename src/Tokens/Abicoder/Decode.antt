-- ===== src/Tokens/Abicoder/Decode.antt =====
-- tokens/eth/abicoder/decode.go, over uint64 positions. `can_make` says for which lengths make([]T, n)
-- gives a slice instead of a panic.
use cross_chain_router.Prelude.{
  ℕ, zero, suc, ◌+◌, ◌-◌, ◌*◌, ◌%◌, ◌^◌, Bool, true, false, List, [], ◌∷◌, ltb, length, drop,
  if◌then◌else◌,
}
use cross_chain_router.Prelude.Int.{pos}
use cross_chain_router.Text.{Text}
use cross_chain_router.Text.Number.{format_int}
use cross_chain_router.Text.Hex.{hex_encode}
use cross_chain_router.Text.Data.{left_pad_bytes, get_data, get_big_int, get_uint64}
use cross_chain_router.Tokens.Errors.{Error, Result, ok, err, new_error, sentinel, runtime_panic}

-- ErrParseDataError
unfoldable pub err_parse_data_error : Error
err_parse_data_error = new_error "parse data error"

abbrev pub bind : {A B : Type 0} → Result A → (A → Result B) → Result B
bind (ok a) f = f a
bind (err e) f = err e

-- A value read by GetUint64, with the overflow as ErrParseDataError
unfoldable pub checked : ℕ × Bool → Result ℕ
checked (n, true) = err err_parse_data_error
checked (n, false) = ok n

-- offset, overflow := common.GetUint64(data, pos, 32)
unfoldable pub read_word : Text → ℕ → Result ℕ
unfolding checked
read_word bs p = checked (get_uint64 bs p 32)

-- ParseBytesInData and ParseStringInData, once offset and length are read
unfoldable pub bytes_at : Text → ℕ → ℕ → Result Text
bytes_at bs offset size =
    if ltb (length bs) (((offset + 32) % 2 ^ 64 + size) % 2 ^ 64)
    then err err_parse_data_error
    else get_data bs ((offset + 32) % 2 ^ 64) size

-- ParseBytesInData and ParseStringInData
unfoldable pub parse_bytes_in_data : Text → ℕ → Result Text
unfolding bytes_at read_word
parse_bytes_in_data bs p =
    bind (read_word bs p) λ offset. bind (read_word bs offset) λ size. bytes_at bs offset size

-- parseSliceInData
unfoldable pub parse_slice_in_data : Text → ℕ → Result (ℕ × ℕ)
unfolding read_word
parse_slice_in_data bs p = bind (read_word bs p) λ offset. bind (read_word bs offset) λ size.
    let start = (offset + 32) % 2 ^ 64 in
    if ltb (length bs) ((start + size * 32 % 2 ^ 64) % 2 ^ 64)
    then err err_parse_data_error
    else ok (start, size)

-- The loops: n elements are left, and the next one is at `offset`.
unfoldable pub parse_each : {A : Type 0} → (ℕ → Result A) → ℕ → ℕ → Result (List A)
parse_each f zero offset = ok []
parse_each f (suc n) offset =
    let rest = parse_each f n ((offset + 32) % 2 ^ 64) in
    bind (f offset) λ x. bind rest λ xs. ok (x ∷ xs)

-- make([]T, length), and the loop
unfoldable pub make_each : {A : Type 0} → (ℕ → Bool) → (ℕ → Result A) → ℕ × ℕ → Result (List A)
unfolding parse_each
make_each can_make f (offset, size) =
    if can_make size then parse_each f size offset else err (sentinel runtime_panic)

-- BytesToAddress
unfoldable pub bytes_to_address : Text → Text
bytes_to_address b = if ltb 20 (length b) then drop (length b - 20) b else left_pad_bytes b 20

-- Address.LowerHex
unfoldable pub lower_hex : Text → Text
lower_hex a = b'0' ∷ b'x' ∷ hex_encode a

unfoldable pub address_at : Text → ℕ → Result Text
address_at bs offset = bind (get_data bs offset 32) λ b. ok (bytes_to_address b)

-- data[offset:]
unfoldable pub slice_from : Text → ℕ → Result Text
slice_from bs offset =
    if ltb (length bs) offset then err (sentinel runtime_panic) else ok (drop offset bs)

module _ (can_make : ℕ → Bool) where
  -- ParseAddressSliceAsAddressesInData
  unfoldable pub parse_address_slice_as_addresses_in_data : Text → ℕ → Result (List Text)
  unfolding make_each address_at
  parse_address_slice_as_addresses_in_data bs p =
      bind (parse_slice_in_data bs p) (make_each can_make (address_at bs))

  -- ParseAddressSliceInData
  unfoldable pub parse_address_slice_in_data : Text → ℕ → Result (List Text)
  unfolding make_each address_at
  parse_address_slice_in_data bs p =
      bind (parse_slice_in_data bs p)
        (make_each can_make λ offset. bind (address_at bs offset) λ a. ok (lower_hex a))

  -- ParseNumberSliceAsBigIntsInData
  unfoldable pub parse_number_slice_as_big_ints_in_data : Text → ℕ → Result (List ℕ)
  unfolding make_each
  parse_number_slice_as_big_ints_in_data bs p =
      bind (parse_slice_in_data bs p) (make_each can_make λ offset. ok (get_big_int bs offset 32))

  -- ParseNumberSliceInData
  unfoldable pub parse_number_slice_in_data : Text → ℕ → Result (List Text)
  unfolding make_each
  parse_number_slice_in_data bs p =
      bind (parse_slice_in_data bs p)
        (make_each can_make λ offset. ok (format_int (pos (get_big_int bs offset 32))))

  -- ParseBytesSliceInData and ParseStringSliceInData: data[offset:] is the new data.
  unfoldable pub parse_bytes_slice_in_data : Text → ℕ → Result (List Text)
  unfolding make_each slice_from
  parse_bytes_slice_in_data bs p = bind (parse_slice_in_data bs p) λ at.
      bind (slice_from bs at.0) λ inner. make_each can_make (parse_bytes_in_data inner) (0, at.1)
