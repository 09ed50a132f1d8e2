-- ===== src/Tokens/Abicoder/Layout.antt =====
-- Where PackData puts what: the word of each argument in its slot, and the data that it points to.
use cross_chain_router.Prelude.{
  ℕ, zero, suc, ◌+◌, ◌-◌, ◌*◌, ◌^◌, ◌≤◌, ◌<◌, ◌≡◌, refl, sym, ◌∙◌, ap, ◌⊎◌, inl, inr, none, some,
  List, [], ◌∷◌, ◌++◌, arith, length, take, drop, get_elem?, length-append, length-take,
}
use cross_chain_router.Prelude.Int.{pos_part, neg_part}
use cross_chain_router.Text.{Text}
use cross_chain_router.Text.Data.{zeros, copy_at, left_pad_bytes}
use cross_chain_router.Text.Data.Laws.{
  take-all, length-zeros, length-copy_at, copy_at-same, copy_at-before, copy_at-after, drop-append,
  append-before,
}
use cross_chain_router.Text.Data.Words.{length-int_bytes, length-left_pad_bytes}
use cross_chain_router.Tokens.Abicoder.Encode.{
  Arg, hash_arg, address_arg, big_int_arg, string_arg, bytes_arg, hex_bytes_arg, uint64_arg,
  int64_arg, int_arg, uint8_arg, address_slice_arg, big_int_slice_arg, string_slice_arg,
  hex_bytes_slice_arg, bytes_slice_arg, pack_address, pack_big_int, word, pack_bytes,
  pack_address_slice, pack_big_int_slice, pack_bytes_slice, pack_tail, pack_arg, pack_args,
  pack_data,
}
use cross_chain_router.Tokens.Abicoder.RoundTrip.{Stands, length-word}

-- The word of an argument, for the offset `n` of its data, and the data.
abbrev pub head : Arg → ℕ → Text
head (hash_arg h) n = h
head (address_arg a) n = pack_address a
head (big_int_arg v) n = take 32 (pack_big_int v)
head (uint64_arg v) n = word v
head (int64_arg z) n = pack_big_int (some z)
head (int_arg z) n = pack_big_int (some z)
head (uint8_arg v) n = word v
head (string_arg s) n = word n
head (bytes_arg s) n = word n
head (hex_bytes_arg s) n = word n
head (address_slice_arg xs) n = word n
head (big_int_slice_arg xs) n = word n
head (string_slice_arg xs) n = word n
head (hex_bytes_slice_arg xs) n = word n
head (bytes_slice_arg xs) n = word n

abbrev pub tail : Arg → Text
tail (hash_arg h) = []
tail (address_arg a) = []
tail (big_int_arg v) = []
tail (uint64_arg v) = []
tail (int64_arg z) = []
tail (int_arg z) = []
tail (uint8_arg v) = []
tail (string_arg s) = pack_bytes s
tail (bytes_arg s) = pack_bytes s
tail (hex_bytes_arg s) = pack_bytes s
tail (address_slice_arg xs) = pack_address_slice xs
tail (big_int_slice_arg xs) = pack_big_int_slice xs
tail (string_slice_arg xs) = pack_bytes_slice xs
tail (hex_bytes_slice_arg xs) = pack_bytes_slice xs
tail (bytes_slice_arg xs) = pack_bytes_slice xs

-- The Go types bound the values.
unfoldable pub IsTyped : Arg → Type 0
IsTyped (hash_arg h) = length h ≡ 32
IsTyped (address_arg a) = length a ≡ 20
IsTyped (uint64_arg v) = v < 2 ^ 64
IsTyped (int64_arg z) = pos_part z + neg_part z < 2 ^ 64
IsTyped (int_arg z) = pos_part z + neg_part z < 2 ^ 64
IsTyped (uint8_arg v) = v < 2 ^ 64
IsTyped arg = Unit

abbrev pub AllTyped : List Arg → Type 0
AllTyped [] = Unit
AllTyped (x ∷ xs) = IsTyped x × AllTyped xs

append_nil : (bs : Text) → bs ++ [] ≡ bs
append_nil [] = refl
append_nil (b ∷ bs) = ap (λ t. b ∷ t) (append_nil bs)

abbrev laid : ℕ → Arg → Text → Text
laid i x bs = copy_at (i * 32) (head x (length bs)) bs ++ tail x

pack_arg-laid : (i : ℕ) (x : Arg) (bs : Text) → pack_arg i x bs ≡ laid i x bs
unfolding pack_arg pack_tail
pack_arg-laid i (hash_arg h) bs = sym (append_nil _)
pack_arg-laid i (address_arg a) bs = sym (append_nil _)
pack_arg-laid i (big_int_arg v) bs = sym (append_nil _)
pack_arg-laid i (uint64_arg v) bs = sym (append_nil _)
pack_arg-laid i (int64_arg z) bs = sym (append_nil _)
pack_arg-laid i (int_arg z) bs = sym (append_nil _)
pack_arg-laid i (uint8_arg v) bs = sym (append_nil _)
pack_arg-laid i (string_arg s) bs = refl
pack_arg-laid i (bytes_arg s) bs = refl
pack_arg-laid i (hex_bytes_arg s) bs = refl
pack_arg-laid i (address_slice_arg xs) bs = refl
pack_arg-laid i (big_int_slice_arg xs) bs = refl
pack_arg-laid i (string_slice_arg xs) bs = refl
pack_arg-laid i (hex_bytes_slice_arg xs) bs = refl
pack_arg-laid i (bytes_slice_arg xs) bs = refl

padded_least : (s : Text) (l : ℕ) → l ≤ length (left_pad_bytes s l)
unfolding left_pad_bytes
padded_least s l =
    ground (arith, length-append (zeros (l - length s)) s, length-zeros (l - length s))

length-head : (x : Arg) (n : ℕ) → IsTyped x → n < 2 ^ 64 → length (head x n) ≡ 32
unfolding IsTyped pack_address pack_big_int
length-head (hash_arg h) n t l = t
length-head (address_arg a) n t l = length-left_pad_bytes a 32 (omega (arith, t))
length-head (big_int_arg none) n t l = length-take 32 _ (padded_least [] 32)
length-head (big_int_arg (some z)) n t l = length-take 32 _ (padded_least _ 32)
length-head (uint64_arg v) n t l = length-word v t
length-head (int64_arg z) n t l = length-left_pad_bytes _ 32 (length-int_bytes z (omega (arith, t)))
length-head (int_arg z) n t l = length-left_pad_bytes _ 32 (length-int_bytes z (omega (arith, t)))
length-head (uint8_arg v) n t l = length-word v t
length-head (string_arg s) n t l = length-word n l
length-head (bytes_arg s) n t l = length-word n l
length-head (hex_bytes_arg s) n t l = length-word n l
length-head (address_slice_arg xs) n t l = length-word n l
length-head (big_int_slice_arg xs) n t l = length-word n l
length-head (string_slice_arg xs) n t l = length-word n l
length-head (hex_bytes_slice_arg xs) n t l = length-word n l
length-head (bytes_slice_arg xs) n t l = length-word n l

length-pack_arg :
    (i : ℕ) (x : Arg) (bs : Text) → length (pack_arg i x bs) ≡ length bs + length (tail x)
length-pack_arg i x bs =
    ap length (pack_arg-laid i x bs)
    ∙ length-append (copy_at (i * 32) (head x (length bs)) bs) (tail x)
    ∙ ap (λ n. n + length (tail x)) (length-copy_at (i * 32) (head x (length bs)) bs)

pub length-pack_args : (i : ℕ) (xs : List Arg) (bs : Text) → length bs ≤ length (pack_args i xs bs)
unfolding pack_args
length-pack_args i [] bs = omega arith
length-pack_args i (x ∷ xs) bs =
    omega (arith, length-pack_args (suc i) xs (pack_arg i x bs), length-pack_arg i x bs)

-- The place [a, a + n) is not in the slots from `i` on, of which there are `k`.
abbrev IsApart : ℕ → ℕ → ℕ → ℕ → Type 0
IsApart a n i k = (a + n ≤ i * 32) ⊎ ((i + k) * 32 ≤ a)

-- The arguments from `i` on change their slots, and nothing else that is written.
pack_arg-keeps :
    (i a n : ℕ) (x : Arg) (bs : Text)
    → IsTyped x
    → length bs < 2 ^ 64
    → a + n ≤ length bs
    → (a + n ≤ i * 32) ⊎ (i * 32 + 32 ≤ a)
    → take n (drop a (pack_arg i x bs)) ≡ take n (drop a bs)
pack_arg-keeps i a n x bs t l within apart =
    ap (λ u. take n (drop a u)) (pack_arg-laid i x bs)
    ∙ append-before a n (copy_at (i * 32) (head x (length bs)) bs) (tail x)
        (omega (arith, length-copy_at (i * 32) (head x (length bs)) bs))
    ∙ elim apart [
      | inl b ↦ copy_at-before a n (i * 32) (head x (length bs)) bs b
      | inr f ↦ ap (take n) (
          copy_at-after a (i * 32) (head x (length bs)) bs
            (omega (arith, length-head x (length bs) t l)))
    ]

pub pack_args-keeps :
    (i a n : ℕ) (xs : List Arg) (bs : Text)
    → AllTyped xs
    → length (pack_args i xs bs) < 2 ^ 63
    → a + n ≤ length bs
    → IsApart a n i (length xs)
    → take n (drop a (pack_args i xs bs)) ≡ take n (drop a bs)
unfolding pack_args
pack_args-keeps i a n [] bs t l within apart = refl
pack_args-keeps i a n (x ∷ xs) bs (t, ts) l within apart =
    let bs' = pack_arg i x bs in
    let grown : length bs' ≡ length bs + length (tail x) = length-pack_arg i x bs in
    pack_args-keeps (suc i) a n xs bs' ts l (omega arith)
      (elim apart [ inl b ↦ inl (omega arith) | inr f ↦ inr (omega arith) ])
    ∙ pack_arg-keeps i a n x bs t (omega (arith, length-pack_args (suc i) xs bs')) within
        (elim apart [ inl b ↦ inl b | inr f ↦ inr (omega arith) ])

-- The word of an argument stands in its slot, and its data where the word says.
pub record IsLaid (x : Arg) (slot offset : ℕ) (bs : Text) : Type 0 where
  pub slotted : Stands (head x offset) slot bs
  pub pointed : Stands (tail x) offset bs

-- Straight after PackData has written an argument.
first-IsLaid :
    (i : ℕ) (x : Arg) (bs : Text)
    → IsTyped x
    → i * 32 + 32 ≤ length bs
    → length bs < 2 ^ 64
    → IsLaid x (i * 32) (length bs) (pack_arg i x bs)
first-IsLaid i x bs t room l =
    let headed = copy_at (i * 32) (head x (length bs)) bs in
    let wide : length (head x (length bs)) ≡ 32 = length-head x (length bs) t l in
    let kept : length headed ≡ length bs = length-copy_at (i * 32) (head x (length bs)) bs in
    let grown : length (pack_arg i x bs) ≡ length bs + length (tail x) = length-pack_arg i x bs in
    record {
      slotted = record {
        within = omega arith;
        reads =
            ap (λ u. take (length (head x (length bs))) (drop (i * 32) u)) (pack_arg-laid i x bs)
            ∙ append-before (i * 32) (length (head x (length bs))) headed (tail x) (omega arith)
            ∙ copy_at-same (i * 32) (head x (length bs)) bs (omega arith);
      };
      pointed = record {
        within = omega arith;
        reads =
            ap (λ u. take (length (tail x)) (drop (length bs) u)) (pack_arg-laid i x bs)
            ∙ ap (λ k. take (length (tail x)) (drop k (headed ++ tail x))) (sym kept)
            ∙ ap (take (length (tail x))) (drop-append headed (tail x))
            ∙ take-all (tail x);
      };
    }

-- The arguments after it leave it.
later-IsLaid :
    (i o : ℕ) (x : Arg) (xs : List Arg) (bs : Text)
    → IsLaid x (i * 32) o bs
    → length (head x o) ≡ 32
    → AllTyped xs
    → (i + 1 + length xs) * 32 ≤ o
    → length (pack_args (suc i) xs bs) < 2 ^ 63
    → IsLaid x (i * 32) o (pack_args (suc i) xs bs)
later-IsLaid i o x xs bs r wide ts room l =
    let most : length bs ≤ length (pack_args (suc i) xs bs) = length-pack_args (suc i) xs bs in
    record {
      slotted = record {
        within = omega (arith, r.slotted.within);
        reads =
            pack_args-keeps (suc i) (i * 32) (length (head x o)) xs bs ts l r.slotted.within
              (inl (omega arith))
            ∙ r.slotted.reads;
      };
      pointed = record {
        within = omega (arith, r.pointed.within);
        reads =
            pack_args-keeps (suc i) o (length (tail x)) xs bs ts l r.pointed.within
              (inr (omega arith))
            ∙ r.pointed.reads;
      };
    }

pub pack_args-IsLaid :
    (i k : ℕ) (x : Arg) (xs : List Arg) (bs : Text)
    → get_elem? xs k ≡ some x
    → AllTyped xs
    → (i + length xs) * 32 ≤ length bs
    → length (pack_args i xs bs) < 2 ^ 63
    → (o : ℕ) × IsLaid x ((i + k) * 32) o (pack_args i xs bs)
unfolding pack_args
pack_args-IsLaid i k x [] bs e t room l = absurd (none_some e)
  where
    none_some : {x : Arg} → none ≡ some x → ⊥
    none_some p = cc
pack_args-IsLaid i zero x (y ∷ xs) bs e (t, ts) room l =
    let small : length bs < 2 ^ 64 =
      omega (arith, length-pack_args (suc i) xs (pack_arg i y bs), length-pack_arg i y bs) in
    let x_y : y ≡ x = cc in
    let at_i : i ≡ i + 0 = omega arith in
    rw (← x_y, ← at_i)
      (
        length bs,
        later-IsLaid i (length bs) y xs (pack_arg i y bs)
            (first-IsLaid i y bs t (omega arith) small) (length-head y (length bs) t small) ts
            (omega arith) l,
      )
pack_args-IsLaid i (suc k) x (y ∷ xs) bs e (t, ts) room l =
    let at_k : suc i + k ≡ i + suc k = omega arith in
    rw (← at_k) (
      pack_args-IsLaid (suc i) k x xs (pack_arg i y bs) e ts (omega (arith, length-pack_arg i y bs))
        l)

-- In the data that PackData gives, the argument k has its word in the slot k, and its data in place.
pub pack_data-IsLaid :
    (k : ℕ) (x : Arg) (args : List Arg)
    → get_elem? args k ≡ some x
    → AllTyped args
    → length (pack_data args) < 2 ^ 63
    → (o : ℕ) × IsLaid x (k * 32) o (pack_data args)
unfolding pack_data
pack_data-IsLaid k x args e t l =
    let at_k : 0 + k ≡ k = omega arith in
    rw (← at_k) (
      pack_args-IsLaid 0 k x args (zeros (length args * 32)) e t
        (omega (arith, length-zeros (length args * 32))) l)
