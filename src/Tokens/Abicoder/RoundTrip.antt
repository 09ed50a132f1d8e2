-- ===== src/Tokens/Abicoder/RoundTrip.antt =====
-- What PackData writes of bytes and strings, ParseBytesInData and ParseStringInData read.
use cross_chain_router.Prelude.{
  ℕ, ◌+◌, ◌*◌, ◌/◌, ◌^◌, ◌≤◌, ◌<◌, ◌≡◌, sym, ◌∙◌, ap, arith, length, take, drop, take-drop-take,
  drop-drop, length-take,
}
use cross_chain_router.Prelude.Int.{pos}
use cross_chain_router.Text.{Text}
use cross_chain_router.Text.Data.{
  zeros, copy_at, right_pad_bytes, int_bytes, set_bytes, slice, get_data, get_big_int, get_uint64,
}
use cross_chain_router.Text.Data.Laws.{
  length-zeros, length-copy_at, copy_at-same, copy_at-before, length-drop,
}
use cross_chain_router.Text.Data.Words.{
  set_bytes-int_bytes, set_bytes-left_pad_bytes, length-int_bytes, length-left_pad_bytes,
}
use cross_chain_router.Tokens.Errors.{ok}
use cross_chain_router.Tokens.Abicoder.Encode.{pack_big_int, word, pack_bytes}
use cross_chain_router.Tokens.Abicoder.Decode.{parse_bytes_in_data, read_word, checked, bytes_at}

-- `t` stands in `bs` at `o`.
pub record Stands (t : Text) (o : ℕ) (bs : Text) : Type 0 where
  pub within : o + length t ≤ length bs
  pub reads : take (length t) (drop o bs) ≡ t

-- A part of what stands somewhere.
pub part_of :
    (a n : ℕ) (t : Text) (o : ℕ) (bs : Text)
    → Stands t o bs
    → a + n ≤ length t
    → take n (drop (o + a) bs) ≡ take n (drop a t)
part_of a n t o bs s h =
    sym (ap (take n) (drop-drop a o bs))
    ∙ sym (take-drop-take n a (length t) (drop o bs) h)
    ∙ ap (λ u. take n (drop a u)) s.reads

pub length-word : (n : ℕ) → n < 2 ^ 64 → length (word n) ≡ 32
unfolding pack_big_int
length-word n h =
    length-left_pad_bytes (int_bytes (pos n)) 32 (length-int_bytes (pos n) (omega arith))

pub set_bytes-word : (n : ℕ) → set_bytes (word n) ≡ n
unfolding pack_big_int
set_bytes-word n =
    set_bytes-left_pad_bytes (int_bytes (pos n)) 32 ∙ set_bytes-int_bytes (pos n) ∙ omega arith

-- A word that stands in the data is read.
pub read_word-word :
    (n o : ℕ) (bs : Text)
    → n < 2 ^ 64
    → length bs < 2 ^ 63
    → Stands (word n) o bs
    → read_word bs o ≡ ok n
unfolding read_word get_uint64 get_big_int checked
read_word-word n o bs h l s = ground (arith, s.within, s.reads, length-word n h, set_bytes-word n)

-- What bytes are packed to: their length, then the bytes.
pack_bytes-reads :
    (s : Text)
    → length s < 2 ^ 63
    → (take 32 (pack_bytes s) ≡ word (length s))
      × (take (length s) (drop 32 (pack_bytes s)) ≡ s)
      × (32 + length s ≤ length (pack_bytes s))
unfolding pack_bytes
pack_bytes-reads s h =
    let bs = zeros (32 + (length s + 31) / 32 * 32) in
    let headed = copy_at 0 (word (length s)) bs in
    let size : length bs ≡ 32 + (length s + 31) / 32 * 32 = length-zeros _ in
    let size' : length headed ≡ length bs = length-copy_at 0 (word (length s)) bs in
    let w : length (word (length s)) ≡ 32 = length-word (length s) (omega arith) in
    (
      copy_at-before 0 32 32 s headed (omega arith)
          ∙ ap (λ k. take k (drop 0 headed)) (sym w)
          ∙ copy_at-same 0 (word (length s)) bs (omega arith),
      copy_at-same 32 s headed (omega arith),
      omega (arith, length-copy_at 32 s headed),
    )

pub length-pack_bytes : (s : Text) → length (pack_bytes s) ≡ 32 + (length s + 31) / 32 * 32
unfolding pack_bytes
length-pack_bytes s =
    let bs = zeros (32 + (length s + 31) / 32 * 32) in
    length-copy_at 32 s (copy_at 0 (word (length s)) bs)
    ∙ length-copy_at 0 (word (length s)) bs
    ∙ length-zeros _

-- GetData inside the slice.
pub get_data-within :
    (bs : Text) (start size : ℕ)
    → start + size ≤ length bs
    → length bs < 2 ^ 63
    → get_data bs start size ≡ ok (take size (drop start bs))
unfolding get_data slice right_pad_bytes
get_data-within bs start size h l =
    ground (arith, length-take size (drop start bs), length-drop start bs)

-- Bytes that a word points to are read.
pub parse_bytes_in_data-Stands :
    (s : Text) (p o : ℕ) (bs : Text)
    → length bs < 2 ^ 63
    → Stands (word o) p bs
    → Stands (pack_bytes s) o bs
    → parse_bytes_in_data bs p ≡ ok s
unfolding parse_bytes_in_data bytes_at
parse_bytes_in_data-Stands s p o bs l at_p at_o =
    let size : length s < 2 ^ 63 = omega (arith, length-pack_bytes s, at_o.within) in
    let (head, body, fits) = pack_bytes-reads s size in
    let w : length (word (length s)) ≡ 32 = length-word (length s) (omega arith) in
    let counted : Stands (word (length s)) o bs = record {
      within = omega (arith, at_o.within);
      reads = ap (λ k. take k (drop o bs)) w ∙ at_zero s o bs at_o ∙ head;
    } in
    let shown : take (length s) (drop (o + 32) bs) ≡ s =
      part_of 32 (length s) (pack_bytes s) o bs at_o fits ∙ body in
    rw
      (
        read_word-word o p bs (omega (arith, at_o.within)) l at_p,
        read_word-word (length s) o bs (omega arith) l counted,
      )
      (ground (arith, get_data-within bs (o + 32) (length s), at_o.within))
  where
    at_zero :
        (s : Text) (o : ℕ) (bs : Text)
        → Stands (pack_bytes s) o bs
        → take 32 (drop o bs) ≡ take 32 (pack_bytes s)
    at_zero s o bs at_o =
        ap (λ k. take 32 (drop k bs)) (omega arith)
        ∙ part_of 0 32 (pack_bytes s) o bs at_o (omega (arith, length-pack_bytes s))
