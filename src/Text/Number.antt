-- ===== src/Text/Number.antt =====
-- Decimal and hexadecimal numerals: fmt's %v and big.Int.String, and ParseBig256 of
-- common/math/big.go over big.Int.SetString.
pub mod RoundTrip
pub mod Digits
use mathlib.Core.Logic.{dite}
use mathlib.Core.WellFounded.{Acc, WellFounded}
use native.Mathlib.Decide.{dec_lt}
use cross_chain_router.Prelude.{
  ℕ, zero, suc, ◌+◌, ◌-◌, ◌*◌, ◌/◌, ◌%◌, ◌^◌, ◌<◌, ◌≡◌, refl, Bool, true, false, ◌&&◌, ◌||◌, Option,
  none, some, [], ◌∷◌, arith, ltb, leb, ◌==◌, if◌then◌else◌,
}
use cross_chain_router.Prelude.Int.{ℤ, pos, negsuc, pos_part, neg_part, sub_ℕ}
use cross_chain_router.Text.{Text, bytes}

acc_lt : (k n : ℕ) → n < k → Acc ◌<◌ n
acc_lt zero n h = elim h [ ]
acc_lt (suc k) n h = Acc.intro n (λ m hm. acc_lt k m (omega arith))

unfoldable pub less_wf : WellFounded ◌<◌
unfolding acc_lt
less_wf = record { apply = λ n. acc_lt (suc n) n (omega arith) }

-- The digits of n in front of `out`.
put_digits : (n : ℕ) → Acc ◌<◌ n → Text → Text
put_digits n (Acc.intro _ smaller) out =
    let digit = b'0' + n % 10 in
    dite (dec_lt 9 n) (λ h. put_digits (n / 10) (smaller (n / 10) (omega arith)) (digit ∷ out))
      (λ _. digit ∷ out)

unfoldable pub format_nat : ℕ → Text
unfolding put_digits less_wf dec_lt
format_nat n = put_digits n (less_wf.apply n) []

-- (*big.Int).String
unfoldable pub format_int : ℤ → Text
format_int (pos n) = format_nat n
format_int (negsuc n) = b'-' ∷ format_nat (suc n)

-- The value of a digit in bases up to 16.
unfoldable pub digit_value : ℕ → Option ℕ
digit_value c =
    if leb b'0' c && leb c b'9'
    then some (c - b'0')
    else if leb b'a' c && leb c b'f'
    then some (c - b'a' + 10)
    else if leb b'A' c && leb c b'F'
    then some (c - b'A' + 10)
    else none

-- The digits that follow, read into an accumulator.
scan_digits : ℕ → Text → ℕ → Option ℕ
unfolding digit_value
scan_digits base [] n = some n
scan_digits base (c ∷ s) n = elim (digit_value c) [
  | none ↦ none
  | some d ↦ if ltb d base then scan_digits base s (n * base + d) else none
]

scan_nat : ℕ → Text → Option ℕ
unfolding scan_digits
scan_nat base [] = none
scan_nat base (c ∷ s) = scan_digits base (c ∷ s) 0

negate : Option ℕ → Option ℤ
negate none = none
negate (some n) = some (sub_ℕ 0 n)

as_int : Option ℕ → Option ℤ
as_int none = none
as_int (some n) = some (pos n)

-- (*big.Int).SetString at base 10 or 16: an optional sign and at least one digit.
unfoldable pub set_string : ℕ → Text → Option ℤ
unfolding scan_nat negate as_int
set_string base [] = none
set_string base (c ∷ s) =
    if c == b'-'
    then negate (scan_nat base s)
    else if c == b'+'
    then as_int (scan_nat base s)
    else as_int (scan_nat base (c ∷ s))

-- BitLen() ≤ 256
unfoldable pub fits_256 : ℤ → Bool
fits_256 z = ltb (pos_part z + neg_part z) (2 ^ 256)

keep_256 : Option ℤ → Option ℤ
unfolding fits_256
keep_256 none = none
keep_256 (some z) = if fits_256 z then some z else none

unfoldable pub parse_big256 : Text → Option ℤ
unfolding keep_256 set_string
parse_big256 [] = some (pos 0)
parse_big256 (c ∷ []) = keep_256 (set_string 10 (c ∷ []))
parse_big256 (c ∷ d ∷ s) =
    if c == b'0' && (d == b'x' || d == b'X')
    then keep_256 (set_string 16 s)
    else keep_256 (set_string 10 (c ∷ d ∷ s))

parse_forms :
    (parse_big256 (bytes "0x1F") ≡ some (pos 31))
    × (parse_big256 (bytes "-007") ≡ some (negsuc 6))
    × (parse_big256 (bytes "12a") ≡ none)
    × (parse_big256 [] ≡ some (pos 0))
unfolding parse_big256 bytes
parse_forms = (refl, refl, refl, refl)

format_forms : format_int (negsuc 1229) ≡ bytes "-1230"
unfolding format_int format_nat put_digits less_wf dec_lt bytes
format_forms = refl
