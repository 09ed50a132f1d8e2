-- ===== src/Text/Number/RoundTrip.antt =====
-- What is printed is read back.
use cross_chain_router.Prelude.{
  ℕ, suc, ◌+◌, ◌*◌, ◌/◌, ◌^◌, ◌<◌, ◌≡◌, refl, ◌∙◌, ap, some, [], ◌∷◌, arith, ◌%◌, true,
}
use mathlib.Core.WellFounded.{Acc}
use mathlib.Core.Logic.{dif_pos, dif_neg}
use native.Mathlib.Decide.{dec_lt}
use native.Mathlib.Bridge.{le_prop}
use cross_chain_router.Prelude.Int.{ℤ, pos, negsuc, pos_part, neg_part}
use cross_chain_router.Text.{Text}
use cross_chain_router.Text.Number.{
  put_digits, format_nat, format_int, digit_value, scan_digits, scan_nat, set_string, parse_big256,
  less_wf, fits_256,
}

digit_value-digit : (d : ℕ) → d < 10 → digit_value (b'0' + d) ≡ some d
unfolding digit_value
digit_value-digit d h = ground arith

scan_digits-digit :
    (d : ℕ) (s : Text) (m : ℕ)
    → d < 10
    → scan_digits 10 ((b'0' + d) ∷ s) m ≡ scan_digits 10 s (m * 10 + d)
unfolding scan_digits
scan_digits-digit d s m h = ground (arith, digit_value-digit d h)

scan_digits-put_digits :
    (n : ℕ) (w : Acc ◌<◌ n) (out : Text)
    → scan_digits 10 (put_digits n w out) 0 ≡ scan_digits 10 out n
unfolding put_digits
scan_digits-put_digits n (Acc.intro _ smaller) out = elim (dec_lt 9 n) [
  | yes h ↦ rw (dif_pos (dec_lt 9 n) le_prop h _ _) (
      scan_digits-put_digits (n / 10) (smaller (n / 10) (omega arith)) ((b'0' + n % 10) ∷ out)
      ∙ scan_digits-digit (n % 10) out (n / 10) (omega arith)
      ∙ ap (scan_digits 10 out) (omega arith))
  | no h ↦
      rw (dif_neg _ h)
        (scan_digits-digit (n % 10) out 0 (omega arith) ∙ ap (scan_digits 10 out) (omega arith))
]

-- The first character is a digit.
put_digits-cons :
    (n : ℕ) (w : Acc ◌<◌ n) (out : Text)
    → (d : ℕ) × (s : Text) × (d < 10) × (put_digits n w out ≡ (b'0' + d) ∷ s)
unfolding put_digits
put_digits-cons n (Acc.intro _ smaller) out = elim (dec_lt 9 n) [
  | yes h ↦
      rw (dif_pos (dec_lt 9 n) le_prop h _ _)
        (put_digits-cons (n / 10) (smaller (n / 10) (omega arith)) ((b'0' + n % 10) ∷ out))
  | no h ↦ rw (dif_neg _ h) (n % 10, out, omega arith, refl)
]

scan_nat-put_digits :
    (n : ℕ) (w : Acc ◌<◌ n) (d : ℕ) (s : Text)
    → put_digits n w [] ≡ (b'0' + d) ∷ s
    → scan_nat 10 ((b'0' + d) ∷ s) ≡ some n
unfolding scan_nat
scan_nat-put_digits n w d s e = rw (← e) (scan_digits-put_digits n w [])

pub set_string-format_int : (z : ℤ) → set_string 10 (format_int z) ≡ some z
unfolding set_string format_int format_nat
set_string-format_int (pos n) =
    let (d, s, h, e) = put_digits-cons n (less_wf.apply n) [] in
    rw e (ground (arith, scan_nat-put_digits n (less_wf.apply n) d s e))
set_string-format_int (negsuc n) =
    let (d, s, h, e) = put_digits-cons (suc n) (less_wf.apply (suc n)) [] in
    rw e (ground (arith, scan_nat-put_digits (suc n) (less_wf.apply (suc n)) d s e))

-- A decimal numeral has no x behind a leading zero, so it is not taken for a hexadecimal one.
parse_big256-decimal :
    (t : Text) (z : ℤ) → set_string 10 t ≡ some z → fits_256 z ≡ true → parse_big256 t ≡ some z
unfolding parse_big256 scan_digits
parse_big256-decimal [] z h b = cc
parse_big256-decimal (c ∷ []) z h b = rw h (ground arith)
parse_big256-decimal (c ∷ d ∷ s) z h b = ground arith

-- A 256 bit integer that is printed is read back.
pub parse_big256-format_int :
    (z : ℤ) → pos_part z + neg_part z < 2 ^ 256 → parse_big256 (format_int z) ≡ some z
unfolding fits_256
parse_big256-format_int z h =
    parse_big256-decimal (format_int z) z (set_string-format_int z) (ground arith)
