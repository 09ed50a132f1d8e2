-- ===== src/Examples/Calldata.antt =====
-- The theorems on the data of contract calls at concrete arguments.
use cross_chain_router.Prelude.{
  ◌-◌, ◌||◌, [], ltb, leb, if◌then◌else◌, ℕ, ◌+◌, ◌*◌, ◌-◌, ◌^◌, ◌<◌, ◌≡◌, refl, List, [], ◌∷◌,
  ◌++◌, arith, length, take, drop, ltb,
}
use cross_chain_router.Prelude.Int.{negsuc}
use cross_chain_router.Text.{Text, bytes}
use cross_chain_router.Text.Number.{less_wf}
use cross_chain_router.Text.Data.{
  get_data, zeros, overlay, copy_at, left_pad_bytes, int_bytes, set_bytes, get_big_int, get_uint64,
}
use cross_chain_router.Tokens.Errors.{ok, err, sentinel, runtime_panic}
use cross_chain_router.Tokens.Abicoder.Encode.{
  Arg, bytes_arg, int64_arg, string_slice_arg, word, pack_big_int, pack_bytes, pack_tail,
  pack_inner, pack_bytes_slice, pack_arg, pack_args, pack_data,
}
use cross_chain_router.Tokens.Abicoder.Decode.{
  parse_bytes_in_data, parse_bytes_slice_in_data, read_word, checked, err_parse_data_error,
}
use cross_chain_router.Tokens.Abicoder.Layout.{AllTyped, IsTyped}
use cross_chain_router.Tokens.Abicoder.Values.{parse_bytes_in_data-pack_data, get_big_int-pack_data}
use cross_chain_router.Tokens.Abicoder.Slices.{parse_bytes_slice_in_data-pack_data}
use cross_chain_router.Tokens.Abicoder.Overflow.{parse_bytes_in_data_outcome}

abbrev names : List Text
names = bytes "a" ∷ bytes "bc" ∷ []

abbrev args : List Arg
args = bytes_arg (bytes "hello") ∷ int64_arg (negsuc 4) ∷ string_slice_arg names ∷ []

args_typed : AllTyped args
unfolding IsTyped
args_typed = (tt, (omega arith, (tt, tt)))

args_size : length (pack_data args) ≡ 384
unfolding pack_data pack_args pack_arg pack_tail pack_bytes pack_bytes_slice pack_inner zeros
    copy_at overlay left_pad_bytes pack_big_int int_bytes less_wf bytes
args_size = refl

args_small : length (pack_data args) < 2 ^ 63
args_small = omega (arith, args_size)

parse_bytes_in_data-pack_data_example :
    parse_bytes_in_data (pack_data args) (0 * 32) ≡ ok (bytes "hello")
parse_bytes_in_data-pack_data_example =
    parse_bytes_in_data-pack_data 0 (bytes_arg (bytes "hello")) (bytes "hello") args refl refl
      args_typed args_small

get_big_int-pack_data_example : get_big_int (pack_data args) (1 * 32) 32 ≡ 5
get_big_int-pack_data_example =
    get_big_int-pack_data 1 5 (int64_arg (negsuc 4)) args refl refl args_typed args_small

parse_bytes_slice_in_data-pack_data_example :
    parse_bytes_slice_in_data (λ n. ltb n 1000) (pack_data args) (2 * 32) ≡ ok names
parse_bytes_slice_in_data-pack_data_example =
    parse_bytes_slice_in_data-pack_data (λ n. ltb n 1000) 2 (string_slice_arg names) names args refl
      refl refl args_typed args_small

-- An offset of 32, and a length with which the end of the bytes is 2^64.
abbrev wrapping : Text
wrapping = word 32 ++ word (2 ^ 64 - 64)

wrapping_facts :
    (length wrapping ≡ 64)
    × (read_word wrapping 0 ≡ ok 32)
    × (read_word wrapping 32 ≡ ok (2 ^ 64 - 64))
unfolding read_word checked get_uint64 get_big_int set_bytes zeros left_pad_bytes pack_big_int
    int_bytes less_wf
wrapping_facts = (refl, refl, refl)

abbrev wrap_size : ℕ
wrap_size = 2 ^ 64 - 64

parse_bytes_in_data_outcome_example : parse_bytes_in_data wrapping 0 ≡ (
    if leb (32 + 32 + wrap_size) (length wrapping)
    then ok (take wrap_size (drop (32 + 32) wrapping))
    else if ltb (32 + 32 + wrap_size) (2 ^ 64)
        || ltb (length wrapping) (32 + 32 + wrap_size - 2 ^ 64)
    then err err_parse_data_error
    else if leb (2 ^ 64) (length wrapping + wrap_size)
    then err (sentinel runtime_panic)
    else ok [])
parse_bytes_in_data_outcome_example =
    parse_bytes_in_data_outcome wrapping 0 32 wrap_size (omega (arith, wrapping_facts.0))
      wrapping_facts.1 wrapping_facts.2

-- An offset of 2^64 - 32: nothing is read, and no error is returned.
abbrev far_off : Text
far_off = word (2 ^ 64 - 32)

far_off_bytes : parse_bytes_in_data far_off 0 ≡ ok []
unfolding parse_bytes_in_data read_word checked get_uint64 get_big_int set_bytes zeros
    left_pad_bytes pack_big_int int_bytes less_wf get_data
far_off_bytes = refl
