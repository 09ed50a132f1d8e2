-- ===== src/Tokens/Fees/Convert.antt =====
-- Conversion between decimals: order, sign, and what a conversion there and back loses.
use native.Mathlib.Nat.{
  pow-suc, le-div_iff_mul-le, div-mul-le_self, le_trans, mul-div_cancel, lt-div-mul-add,
}
use cross_chain_router.Prelude.{ℕ, zero, suc, ◌-◌, ◌*◌, ◌/◌, ◌^◌, ◌≤◌, ◌<◌, ◌≡◌, arith}
use cross_chain_router.Prelude.Int.{ℤ, pos, negsuc, ◌≤ℤ◌, ◌+ℤ◌, scale, quotient}
use cross_chain_router.Tokens.Fees.{convert_token_value}

mul_mono : (k m n : ℕ) → m ≤ n → m * k ≤ n * k
mul_mono k m n p = grind arith

pow_pos : (n : ℕ) → 0 < 10 ^ n
pow_pos zero = omega arith
pow_pos (suc n) = rw pow-suc (omega (arith, pow_pos n))

div_mono : (k m n : ℕ) → 0 < k → m ≤ n → m / k ≤ n / k
div_mono k m n h p = (le-div_iff_mul-le h).1 (le_trans (div-mul-le_self m k) p)

quotient_mono : (k : ℕ) (a b : ℤ) → 0 < k → a ≤ℤ b → quotient a k ≤ℤ quotient b k
unfolding quotient
quotient_mono k (pos m) (pos n) h p = omega (arith, div_mono k m n h (omega arith))
quotient_mono k (pos m) (negsuc n) h p = absurd (omega arith)
quotient_mono k (negsuc m) (pos n) h p = omega arith
quotient_mono k (negsuc m) (negsuc n) h p = omega (arith, div_mono k n m h (omega arith))

scale_mono : (k : ℕ) (a b : ℤ) → a ≤ℤ b → scale a k ≤ℤ scale b k
unfolding scale
scale_mono k (pos m) (pos n) p = grind arith
scale_mono k (pos m) (negsuc n) p = absurd (omega arith)
scale_mono k (negsuc m) (pos n) p = ground arith
scale_mono k (negsuc m) (negsuc n) p = ground (arith, mul_mono k (suc n) (suc m) (omega arith))

-- A larger amount does not become smaller.
pub convert_token_value_mono :
    (a b : ℤ) (from_decimals to_decimals : ℕ)
    → a ≤ℤ b
    → convert_token_value a from_decimals to_decimals
      ≤ℤ convert_token_value b from_decimals to_decimals
unfolding convert_token_value
convert_token_value_mono a b m n p =
    ground
      (arith, quotient_mono (10 ^ (m - n)) a b (pow_pos (m - n)) p, scale_mono (10 ^ (n - m)) a b p)

convert_token_value_zero : (m n : ℕ) → convert_token_value (pos 0) m n ≡ pos 0
unfolding convert_token_value scale quotient
convert_token_value_zero m n = ground arith

pub convert_token_value_nonneg : (a : ℤ) (m n : ℕ) → pos 0 ≤ℤ a → pos 0 ≤ℤ convert_token_value a m n
convert_token_value_nonneg a m n h =
    rw (convert_token_value_zero m n) at (convert_token_value_mono (pos 0) a m n h)

-- More decimals and back: nothing is lost.
pub convert_token_value-convert_token_value :
    (v m n : ℕ) → m ≤ n → convert_token_value (convert_token_value (pos v) m n) n m ≡ pos v
unfolding convert_token_value scale quotient
convert_token_value-convert_token_value v m n h = ground (arith, mul-div_cancel v (pow_pos (n - m)))

-- Fewer decimals and back: the amount does not grow, and loses at most one unit of the fewer.
pub convert_token_value_loss :
    (v m n : ℕ)
    → n ≤ m
    → (convert_token_value (convert_token_value (pos v) m n) n m ≤ℤ pos v)
      × (pos v ≤ℤ convert_token_value (convert_token_value (pos v) m n) n m +ℤ pos (10 ^ (m - n)))
unfolding convert_token_value scale quotient ◌+ℤ◌
convert_token_value_loss v m n h =
    ground (arith, div-mul-le_self v (10 ^ (m - n)), lt-div-mul-add {a = v} (pow_pos (m - n)))
