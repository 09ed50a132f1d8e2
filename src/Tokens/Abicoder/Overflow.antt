-- ===== src/Tokens/Abicoder/Overflow.antt =====
-- What ParseBytesInData does with any offset and length, those included whose sum leaves uint64.
use cross_chain_router.Prelude.{
  refl, true, false, ◌%◌, ℕ, ◌+◌, ◌^◌, ◌≤◌, ◌<◌, ◌≡◌, ◌-◌, ◌||◌, [], ◌⊎◌, inl, inr, ltb, leb,
  if◌then◌else◌, arith, length, take, drop,
}
use cross_chain_router.Text.{Text}
use cross_chain_router.Text.Data.{
  get_uint64, get_data, get_big_int, pad_result, right_pad_bytes, slice,
}
use cross_chain_router.Tokens.Errors.{Result, ok, err, sentinel, runtime_panic}
use cross_chain_router.Tokens.Abicoder.Decode.{
  parse_bytes_in_data, read_word, checked, bytes_at, err_parse_data_error,
}
use cross_chain_router.Tokens.Abicoder.RoundTrip.{get_data-within}

read_word-lt : (bs : Text) (p n : ℕ) → read_word bs p ≡ ok n → n < 2 ^ 64
unfolding read_word checked get_uint64
read_word-lt bs p n h = ground arith

less_cases : (m n : ℕ) → (m ≤ n) ⊎ (n < m)
less_cases m n = omega arith

-- GetData whose end wraps to below its start.
get_data_wrapped :
    (bs : Text) (start n : ℕ)
    → length bs < 2 ^ 62
    → n < 2 ^ 64
    → 2 ^ 64 ≤ start + n
    → start ≤ length bs
    → get_data bs start n ≡ err (sentinel runtime_panic)
unfolding get_data slice
get_data_wrapped bs start n l s h w = ground arith

outcome : Text → ℕ → ℕ → Result Text
outcome bs o n =
    if leb (o + 32 + n) (length bs)
    then ok (take n (drop (o + 32) bs))
    else if ltb (o + 32 + n) (2 ^ 64) || ltb (length bs) (o + 32 + n - 2 ^ 64)
    then err err_parse_data_error
    else if leb (2 ^ 64) (length bs + n)
    then err (sentinel runtime_panic)
    else ok []

-- A word behind the data is 0.
read_word-beyond : (bs : Text) (p n : ℕ) → read_word bs p ≡ ok n → length bs ≤ p → n ≡ 0
unfolding read_word checked get_uint64 get_big_int
read_word-beyond bs p n h l = ground arith

-- GetData of no bytes.
get_data-none :
    (bs : Text) (start : ℕ) → start ≤ length bs → length bs < 2 ^ 62 → get_data bs start 0 ≡ ok []
unfolding get_data pad_result right_pad_bytes
get_data-none bs start h l =
    let inside : (if ltb (length bs) start then length bs else start) ≡ start = ground arith in
    let whole : (start + 0) % 2 ^ 64 ≡ start = omega arith in
    let same : ltb start start ≡ false = ground arith in
    let none_left : start - start ≡ 0 = omega arith in
    rw (get_data, inside, whole, inside, same, none_left) refl

-- GetData behind the data, with a size that is a negative int.
get_data-beyond :
    (bs : Text) (start n : ℕ)
    → length bs < 2 ^ 62
    → 2 ^ 63 ≤ n
    → n < 2 ^ 64
    → length bs < start
    → get_data bs start n
      ≡ (if leb (2 ^ 64) (length bs + n) then err (sentinel runtime_panic) else ok [])
unfolding get_data pad_result right_pad_bytes
get_data-beyond bs start n l big small h =
    let inside : (if ltb (length bs) start then length bs else start) ≡ length bs = ground arith in
    let none_left : length bs - length bs ≡ 0 = omega arith in
    elim (less_cases (2 ^ 64) (length bs + n)) [
      | inl v ↦ rw (get_data, inside) (ground arith)
      | inr v ↦
          (let whole : (length bs + n) % 2 ^ 64 ≡ length bs + n = omega arith in
            let clamped : ltb (length bs) (length bs + n) ≡ true = ground arith in
            let same : ltb (length bs) (length bs) ≡ false = ground arith in
            rw (get_data, inside, whole, clamped, same, none_left) (ground arith))
    ]

behind :
    (bs : Text) (o n : ℕ)
    → length bs < 2 ^ 62
    → o < 2 ^ 64
    → n ≡ 0
    → length bs ≤ o
    → 2 ^ 64 ≤ o + 32 + n
    → bytes_at bs o n ≡ outcome bs o n
unfolding bytes_at outcome
behind bs o n l low z b v = ground (arith, get_data-none bs (o + 32 - 2 ^ 64))

far :
    (bs : Text) (o n : ℕ)
    → length bs < 2 ^ 62
    → o < 2 ^ 64
    → n < 2 ^ 64
    → (length bs ≤ o → n ≡ 0)
    → 2 ^ 64 ≤ o + 32 + n
    → length bs < o + 32
    → bytes_at bs o n ≡ outcome bs o n
unfolding bytes_at outcome
far bs o n l low small zero_n v i = elim (less_cases (length bs) o) [
  | inl b ↦ behind bs o n l low (zero_n b) b v
  | inr b ↦ ground (arith, get_data-beyond bs (o + 32) n l (omega arith) small i)
]

-- When both words are read as o and n, of data shorter than 2^62, the end e = o + 32 + n decides: up to
-- the length of the data the bytes are returned; above it, but below 2^64, the error is
-- ErrParseDataError. From 2^64 on, the test compares e - 2^64 with the length: above it, the error is
-- ErrParseDataError again; otherwise the code panics when the length and n together come to 2^64 or
-- more, which they do whenever o + 32 is within the data, and returns no bytes when they do not.
pub parse_bytes_in_data_outcome :
    (bs : Text) (p o n : ℕ)
    → length bs < 2 ^ 62
    → read_word bs p ≡ ok o
    → read_word bs o ≡ ok n
    → parse_bytes_in_data bs p ≡ (
        if leb (o + 32 + n) (length bs)
        then ok (take n (drop (o + 32) bs))
        else if ltb (o + 32 + n) (2 ^ 64) || ltb (length bs) (o + 32 + n - 2 ^ 64)
        then err err_parse_data_error
        else if leb (2 ^ 64) (length bs + n)
        then err (sentinel runtime_panic)
        else ok [])
unfolding parse_bytes_in_data bytes_at outcome
parse_bytes_in_data_outcome bs p o n l at_p at_o =
    let small = read_word-lt bs o n at_o in
    let low = read_word-lt bs p o at_p in
    elim (less_cases (o + 32 + n) (length bs)) [
      | inl h ↦ rw (at_p, at_o) (ground (arith, get_data-within bs (o + 32) n))
      | inr h ↦ elim (less_cases (2 ^ 64) (o + 32 + n)) [
        | inr v ↦ rw (at_p, at_o) (ground arith)
        | inl v ↦ elim (less_cases (o + 32) (length bs)) [
          | inl i ↦ rw (at_p, at_o) (ground (arith, get_data_wrapped bs (o + 32) n l small v i))
          | inr i ↦ rw (at_p, at_o) (far bs o n l low small (read_word-beyond bs o n at_o) v i)
        ]
      ]
    ]
