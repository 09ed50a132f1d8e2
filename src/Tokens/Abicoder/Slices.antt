-- ===== src/Tokens/Abicoder/Slices.antt =====
-- What PackData writes, the parsers read: slices of strings and of bytes.
use cross_chain_router.Prelude.{
  ℕ, zero, suc, ◌+◌, ◌*◌, ◌%◌, ◌^◌, ◌≤◌, ◌<◌, ◌≡◌, refl, ◌∙◌, ap, Bool, true, Option, none, some,
  List, [], ◌∷◌, ◌++◌, arith, length, take, drop, get_elem?, drop-drop, length-append,
}
use cross_chain_router.Text.{Text}
use cross_chain_router.Text.Data.{zeros}
use cross_chain_router.Text.Data.Laws.{
  take-all, length-zeros, length-drop, take-append, drop-append,
}
use cross_chain_router.Tokens.Errors.{Result, ok}
use cross_chain_router.Tokens.Abicoder.Encode.{
  Arg, string_arg, string_slice_arg, hex_bytes_slice_arg, bytes_slice_arg, word, pack_bytes,
  pack_inner, pack_tail, pack_arg, pack_args, pack_bytes_slice, pack_data,
}
use cross_chain_router.Tokens.Abicoder.Decode.{
  parse_bytes_in_data, parse_slice_in_data, parse_bytes_slice_in_data, parse_each, make_each,
  slice_from,
}
use cross_chain_router.Tokens.Abicoder.RoundTrip.{
  Stands, part_of, length-word, parse_bytes_in_data-Stands, read_word-word,
}
use cross_chain_router.Tokens.Abicoder.Layout.{
  AllTyped, IsTyped, IsLaid, head, tail, pack_data-IsLaid, pack_args-IsLaid, length-pack_args,
}

-- What stands in a part stands in the rest that begins with the part.
Stands-drop :
    (t inner : Text) (o a : ℕ) (bs : Text)
    → Stands t o inner
    → Stands inner a bs
    → Stands t o (drop a bs)
Stands-drop t inner o a bs s r = record {
  within = omega (arith, s.within, r.within, length-drop a bs);
  reads =
      ap (take (length t)) (drop-drop o a bs)
      ∙ part_of o (length t) inner a bs r s.within
      ∙ s.reads;
}

Stands-append :
    (u v : Text) (o : ℕ) (bs : Text)
    → Stands (u ++ v) o bs
    → Stands u o bs × Stands v (o + length u) bs
Stands-append u v o bs s =
    let both : length (u ++ v) ≡ length u + length v = length-append u v in
    (
      record {
        within = omega (arith, s.within);
        reads =
            ap (λ k. take (length u) (drop k bs)) (plus_zero o)
            ∙ part_of 0 (length u) (u ++ v) o bs s (omega arith)
            ∙ take-append u v;
      },
      record {
        within = omega (arith, s.within);
        reads =
            part_of (length u) (length v) (u ++ v) o bs s (omega arith)
            ∙ ap (take (length v)) (drop-append u v)
            ∙ take-all v;
      },
    )
  where
    plus_zero : (o : ℕ) → o ≡ o + 0
    plus_zero o = omega arith

-- The loop of a parser reads a slice of which it reads each element.
parse_each-all :
    {A : Type 0} (f : ℕ → Result A) (i : ℕ) (xs : List A)
    → ((k : ℕ) (x : A) → get_elem? xs k ≡ some x → f ((i + k) * 32) ≡ ok x)
    → (i + length xs) * 32 < 2 ^ 63
    → parse_each f (length xs) (i * 32) ≡ ok xs
unfolding parse_each
parse_each-all f i [] h l = refl
parse_each-all f i (x ∷ xs) h l =
    let next : suc i * 32 ≡ (i * 32 + 32) % 2 ^ 64 = omega arith in
    let at_i : i * 32 ≡ (i + 0) * 32 = omega arith in
    let rest : parse_each f (length xs) (suc i * 32) ≡ ok xs =
      parse_each-all f (suc i) xs (λ k y e. ap f (slot i k) ∙ h (suc k) y e) (omega arith) in
    rw (← next, rest, at_i, h zero x refl) refl
  where
    slot : (i k : ℕ) → (suc i + k) * 32 ≡ (i + suc k) * 32
    slot i k = omega arith

-- The strings or slices of bytes that an argument lists.
abbrev pub slices_of : Arg → Option (List Text)
slices_of (string_slice_arg ss) = some ss
slices_of (hex_bytes_slice_arg ss) = some ss
slices_of (bytes_slice_arg ss) = some ss
slices_of arg = none

slices_of-laid :
    (x : Arg) (ss : List Text) (o : ℕ)
    → slices_of x ≡ some ss
    → (head x o ≡ word o) × (tail x ≡ pack_bytes_slice ss)
slices_of-laid (string_slice_arg u) ss o e = ground arith
slices_of-laid (hex_bytes_slice_arg u) ss o e = ground arith
slices_of-laid (bytes_slice_arg u) ss o e = ground arith
slices_of-laid x ss o e = absurd cc

abbrev as_args : List Text → List Arg
as_args [] = []
as_args (s ∷ ss) = string_arg s ∷ as_args ss

-- The inner data of a slice of strings is that of the strings as arguments.
pack_inner-pack_args :
    (i : ℕ) (ss : List Text) (bs : Text) → pack_inner i ss bs ≡ pack_args i (as_args ss) bs
unfolding pack_inner pack_args pack_arg
pack_inner-pack_args i [] bs = refl
pack_inner-pack_args i (s ∷ ss) bs = pack_inner-pack_args (suc i) ss (pack_tail i (pack_bytes s) bs)

as_args-facts : (ss : List Text) → (length (as_args ss) ≡ length ss) × AllTyped (as_args ss)
unfolding IsTyped
as_args-facts [] = (refl, tt)
as_args-facts (s ∷ ss) = let r = as_args-facts ss in (ap suc r.0, (tt, r.1))

get_elem?-as_args :
    (ss : List Text) (k : ℕ) (s : Text)
    → get_elem? ss k ≡ some s
    → get_elem? (as_args ss) k ≡ some (string_arg s)
get_elem?-as_args [] k s e = absurd cc
get_elem?-as_args (u ∷ ss) zero s e = cc
get_elem?-as_args (u ∷ ss) (suc k) s e = get_elem?-as_args ss k s e

abbrev inner_of : List Text → Text
inner_of ss = pack_inner 0 ss (zeros (length ss * 32))

inner_of-least : (ss : List Text) → length ss * 32 ≤ length (inner_of ss)
inner_of-least ss =
    let e = pack_inner-pack_args 0 ss (zeros (length ss * 32)) in
    rw e (
      omega (
        arith,
        length-pack_args 0 (as_args ss) (zeros (length ss * 32)),
        length-zeros (length ss * 32),
      ))

inner_of-IsLaid :
    (ss : List Text) (k : ℕ) (s : Text)
    → get_elem? ss k ≡ some s
    → length (inner_of ss) < 2 ^ 63
    → (o : ℕ) × IsLaid (string_arg s) ((0 + k) * 32) o (inner_of ss)
inner_of-IsLaid ss k s e l =
    let (same, typed) = as_args-facts ss in
    let inner = pack_inner-pack_args 0 ss (zeros (length ss * 32)) in
    rw inner (
      pack_args-IsLaid 0 k (string_arg s) (as_args ss) (zeros (length ss * 32))
        (get_elem?-as_args ss k s e) typed (omega (arith, same, length-zeros (length ss * 32)))
        (rw (← inner) l))

-- Each string is read in data that begins with the inner data.
inner_of-parsed :
    (ss : List Text) (a : ℕ) (bs : Text)
    → length bs < 2 ^ 63
    → Stands (inner_of ss) a bs
    → (k : ℕ) (s : Text) → get_elem? ss k ≡ some s
    → parse_bytes_in_data (drop a bs) ((0 + k) * 32) ≡ ok s
inner_of-parsed ss a bs l r k s e =
    let (o, laid) = inner_of-IsLaid ss k s e (omega (arith, r.within)) in
    parse_bytes_in_data-Stands s ((0 + k) * 32) o (drop a bs) (omega (arith, length-drop a bs))
      (Stands-drop (word o) (inner_of ss) ((0 + k) * 32) a bs laid.slotted r)
      (Stands-drop (pack_bytes s) (inner_of ss) o a bs laid.pointed r)

moved : {t : Text} {a b : ℕ} {bs : Text} → a ≡ b → Stands t a bs → Stands t b bs
moved e s = rw (← e) s

-- A slice of strings that a word points to is read.
parse_bytes_slice_in_data-Stands :
    (can_make : ℕ → Bool) (ss : List Text) (p o : ℕ) (bs : Text)
    → can_make (length ss) ≡ true
    → length bs < 2 ^ 63
    → Stands (word o) p bs
    → Stands (pack_bytes_slice ss) o bs
    → parse_bytes_slice_in_data can_make bs p ≡ ok ss
unfolding parse_bytes_slice_in_data parse_slice_in_data pack_bytes_slice slice_from make_each
parse_bytes_slice_in_data-Stands can_make ss p o bs c l at_p at_o =
    let n = length ss in
    let (counted, shifted) = Stands-append (word n) (inner_of ss) o bs at_o in
    let small : n < 2 ^ 58 = omega (arith, inner_of-least ss, shifted.within) in
    let wide : length (word n) ≡ 32 = length-word n (omega arith) in
    let at_inner : Stands (inner_of ss) (o + 32) bs = moved (ap (λ w. o + w) wide) shifted in
    let fits : o + 32 + n * 32 ≤ length bs = omega (arith, inner_of-least ss, at_inner.within) in
    rw (read_word-word o p bs (omega arith) l at_p, read_word-word n o bs (omega arith) l counted)
      (ground (
        arith,
        parse_each-all (parse_bytes_in_data (drop (o + 32) bs)) 0 ss
            (inner_of-parsed ss (o + 32) bs l at_inner) (omega arith),
      ))

-- ParseStringSliceInData and ParseBytesSliceInData read, at the slot of an argument, the slice that
-- PackData was given there, when its data is shorter than 2^63 and a slice of that length can be made.
pub parse_bytes_slice_in_data-pack_data :
    (can_make : ℕ → Bool) (k : ℕ) (x : Arg) (ss : List Text) (args : List Arg)
    → can_make (length ss) ≡ true
    → get_elem? args k ≡ some x
    → slices_of x ≡ some ss
    → AllTyped args
    → length (pack_data args) < 2 ^ 63
    → parse_bytes_slice_in_data can_make (pack_data args) (k * 32) ≡ ok ss
parse_bytes_slice_in_data-pack_data can_make k x ss args c e b t l =
    let (o, laid) = pack_data-IsLaid k x args e t l in
    let (h, u) = slices_of-laid x ss o b in
    parse_bytes_slice_in_data-Stands can_make ss (k * 32) o (pack_data args) c l
      (rw (← h) laid.slotted) (rw (← u) laid.pointed)
