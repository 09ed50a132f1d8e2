-- ===== src/Text/Number/Digits.antt =====
-- Decimal numerals have no letters, and differ where the numbers differ.
use cross_chain_router.Prelude.{ℕ, ◌+◌, ◌/◌, ◌%◌, ◌<◌, ◌≡◌, refl, [], ◌∷◌, arith}
use mathlib.Core.WellFounded.{Acc}
use mathlib.Core.Logic.{dif_pos, dif_neg}
use native.Mathlib.Decide.{dec_lt}
use native.Mathlib.Bridge.{le_prop}
use cross_chain_router.Text.{Text, lower, to_lower}
use cross_chain_router.Prelude.Int.{pos}
use cross_chain_router.Text.Number.{format_nat, format_int, put_digits, less_wf}
use cross_chain_router.Text.Number.RoundTrip.{set_string-format_int}

to_lower-put_digits :
    (n : ℕ) (w : Acc ◌<◌ n) (out : Text)
    → to_lower out ≡ out
    → to_lower (put_digits n w out) ≡ put_digits n w out
unfolding put_digits to_lower lower
to_lower-put_digits n (Acc.intro _ smaller) out h = elim (dec_lt 9 n) [
  | yes g ↦ rw (dif_pos (dec_lt 9 n) le_prop g _ _) (
      to_lower-put_digits (n / 10) (smaller (n / 10) (omega arith)) ((b'0' + n % 10) ∷ out)
        (ground arith))
  | no g ↦ rw (dif_neg _ g) (ground arith)
]

pub to_lower-format_nat : (n : ℕ) → to_lower (format_nat n) ≡ format_nat n
unfolding format_nat to_lower
to_lower-format_nat n = to_lower-put_digits n (less_wf.apply n) [] refl

pub format_nat_inj : (m n : ℕ) → format_nat m ≡ format_nat n → m ≡ n
unfolding format_int
format_nat_inj m n e = ground (arith, set_string-format_int (pos m), set_string-format_int (pos n))
