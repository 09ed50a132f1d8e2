-- ===== src/Text/Data/Words.antt =====
-- Numbers written as bytes are read back.
use cross_chain_router.Prelude.{
  ℕ, zero, suc, ◌+◌, ◌-◌, ◌/◌, ◌%◌, ◌^◌, ◌≤◌, ◌<◌, ◌≡◌, refl, ◌∙◌, ap, [], ◌∷◌, ◌++◌, arith, length,
  length-append,
}
use mathlib.Core.WellFounded.{Acc}
use mathlib.Core.Logic.{dif_pos, dif_neg}
use native.Mathlib.Decide.{dec_lt}
use native.Mathlib.Bridge.{le_prop}
use cross_chain_router.Prelude.Int.{ℤ, pos_part, neg_part}
use cross_chain_router.Text.{Text}
use cross_chain_router.Text.Number.{less_wf}
use cross_chain_router.Text.Data.Laws.{length-zeros}
use cross_chain_router.Text.Data.{
  zeros, left_pad_bytes, shift-lt, put_bytes, int_bytes, join_bytes, set_bytes,
}

join_bytes-put_bytes :
    (n : ℕ) (w : Acc ◌<◌ n) (out : Text) → join_bytes 0 (put_bytes n w out) ≡ join_bytes n out
unfolding put_bytes join_bytes
join_bytes-put_bytes n (Acc.intro _ smaller) out = elim (dec_lt 0 n) [
  | yes h ↦ rw (dif_pos (dec_lt 0 n) le_prop h _ _) (
      join_bytes-put_bytes (n / 256) (smaller (n / 256) (shift-lt n h)) (n % 256 ∷ out)
      ∙ step n out)
  | no h ↦ rw (dif_neg _ h) (ap (λ k. join_bytes k out) (omega arith))
]
  where
    step : (n : ℕ) (out : Text) → join_bytes (n / 256) (n % 256 ∷ out) ≡ join_bytes n out
    step n out = ap (λ k. join_bytes k out) (omega arith)

pub set_bytes-int_bytes : (z : ℤ) → set_bytes (int_bytes z) ≡ pos_part z + neg_part z
unfolding set_bytes int_bytes join_bytes
set_bytes-int_bytes z = join_bytes-put_bytes (pos_part z + neg_part z) (less_wf.apply _) []

join_bytes-zeros : (k : ℕ) (s : Text) → join_bytes 0 (zeros k ++ s) ≡ join_bytes 0 s
unfolding zeros join_bytes
join_bytes-zeros zero s = refl
join_bytes-zeros (suc k) s = join_bytes-zeros k s

pub set_bytes-left_pad_bytes : (s : Text) (l : ℕ) → set_bytes (left_pad_bytes s l) ≡ set_bytes s
unfolding set_bytes left_pad_bytes
set_bytes-left_pad_bytes s l = ground (arith, join_bytes-zeros (l - length s) s)

length-put_bytes :
    (k n : ℕ) (w : Acc ◌<◌ n) (out : Text)
    → n < 256 ^ k
    → length (put_bytes n w out) ≤ k + length out
unfolding put_bytes
length-put_bytes k n (Acc.intro _ smaller) out h = elim (dec_lt 0 n) [
  | yes g ↦ rw (dif_pos (dec_lt 0 n) le_prop g _ _) (
      one_more k _ h g
        λ j. length-put_bytes j (n / 256) (smaller (n / 256) (shift-lt n g)) (n % 256 ∷ out))
  | no g ↦ rw (dif_neg _ g) (omega arith)
]
  where
    one_more :
        (k l : ℕ)
        → n < 256 ^ k
        → 0 < n
        → ((j : ℕ) → n / 256 < 256 ^ j → l ≤ j + suc (length out))
        → l ≤ k + length out
    one_more zero l h g ih = absurd (omega arith)
    one_more (suc k) l h g ih = let r = ih k (omega arith) in omega arith

pub length-int_bytes : (z : ℤ) → pos_part z + neg_part z < 256 ^ 32 → length (int_bytes z) ≤ 32
unfolding int_bytes
length-int_bytes z h =
    omega (arith, length-put_bytes 32 (pos_part z + neg_part z) (less_wf.apply _) [] h)

pub length-left_pad_bytes : (s : Text) (l : ℕ) → length s ≤ l → length (left_pad_bytes s l) ≡ l
unfolding left_pad_bytes
length-left_pad_bytes s l h =
    ground (arith, length-append (zeros (l - length s)) s, length-zeros (l - length s))
