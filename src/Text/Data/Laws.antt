-- ===== src/Text/Data/Laws.antt =====
-- Bytes written at one place of a slice, read at the same place and at another.
use cross_chain_router.Prelude.{
  ℕ, zero, suc, ◌+◌, ◌-◌, ◌≤◌, ◌≡◌, refl, ap, [], ◌∷◌, ◌++◌, arith, length, take, drop,
}
use cross_chain_router.Text.{Text}
use cross_chain_router.Text.Data.{zeros, overlay, copy_at}

pub length-zeros : (n : ℕ) → length (zeros n) ≡ n
unfolding zeros
length-zeros zero = refl
length-zeros (suc n) = ap suc (length-zeros n)

length-overlay : (src dst : Text) → length (overlay src dst) ≡ length dst
unfolding overlay
length-overlay [] dst = refl
length-overlay (x ∷ src) [] = refl
length-overlay (x ∷ src) (y ∷ dst) = ap suc (length-overlay src dst)

pub length-copy_at : (p : ℕ) (src dst : Text) → length (copy_at p src dst) ≡ length dst
unfolding copy_at
length-copy_at zero src dst = length-overlay src dst
length-copy_at (suc p) src [] = refl
length-copy_at (suc p) src (y ∷ dst) = ap suc (length-copy_at p src dst)

pub length-drop : (n : ℕ) (xs : Text) → length (drop n xs) ≡ length xs - n
length-drop zero xs = omega arith
length-drop (suc n) [] = omega arith
length-drop (suc n) (x ∷ xs) = omega (arith, length-drop n xs)

take-overlay :
    (src dst : Text) → length src ≤ length dst → take (length src) (overlay src dst) ≡ src
unfolding overlay
take-overlay [] dst h = refl
take-overlay (x ∷ src) [] h = absurd (omega (arith, h))
take-overlay (x ∷ src) (y ∷ dst) h = ap (λ t. x ∷ t) (take-overlay src dst (omega (arith, h)))

-- Read where it was written.
pub copy_at-same :
    (p : ℕ) (src dst : Text)
    → p + length src ≤ length dst
    → take (length src) (drop p (copy_at p src dst)) ≡ src
unfolding copy_at
copy_at-same zero src dst h = take-overlay src dst (omega (arith, h))
copy_at-same (suc p) [] [] h = refl
copy_at-same (suc p) (x ∷ src) [] h = absurd (omega (arith, h))
copy_at-same (suc p) src (y ∷ dst) h = copy_at-same p src dst (omega (arith, h))

-- Read before it.
pub copy_at-before :
    (a n p : ℕ) (src dst : Text)
    → a + n ≤ p
    → take n (drop a (copy_at p src dst)) ≡ take n (drop a dst)
unfolding copy_at
copy_at-before zero zero p src dst h = refl
copy_at-before zero (suc n) zero src dst h = absurd (omega arith)
copy_at-before zero (suc n) (suc p) src [] h = refl
copy_at-before zero (suc n) (suc p) src (y ∷ dst) h =
    ap (λ t. y ∷ t) (copy_at-before zero n p src dst (omega arith))
copy_at-before (suc a) n zero src dst h = absurd (omega arith)
copy_at-before (suc a) n (suc p) src [] h = refl
copy_at-before (suc a) n (suc p) src (y ∷ dst) h = copy_at-before a n p src dst (omega arith)

drop-overlay : (a : ℕ) (src dst : Text) → length src ≤ a → drop a (overlay src dst) ≡ drop a dst
unfolding overlay
drop-overlay a [] dst h = refl
drop-overlay zero (x ∷ src) dst h = absurd (omega (arith, h))
drop-overlay (suc a) (x ∷ src) [] h = refl
drop-overlay (suc a) (x ∷ src) (y ∷ dst) h = drop-overlay a src dst (omega (arith, h))

-- Read after it.
pub copy_at-after :
    (a p : ℕ) (src dst : Text) → p + length src ≤ a → drop a (copy_at p src dst) ≡ drop a dst
unfolding copy_at
copy_at-after a zero src dst h = drop-overlay a src dst (omega (arith, h))
copy_at-after zero (suc p) src dst h = absurd (omega arith)
copy_at-after (suc a) (suc p) src [] h = refl
copy_at-after (suc a) (suc p) src (y ∷ dst) h = copy_at-after a p src dst (omega (arith, h))

-- What is appended is read after the old end, and nothing else changes.
pub drop-append : (xs ys : Text) → drop (length xs) (xs ++ ys) ≡ ys
drop-append [] ys = refl
drop-append (x ∷ xs) ys = drop-append xs ys

pub take-append : (xs ys : Text) → take (length xs) (xs ++ ys) ≡ xs
take-append [] ys = refl
take-append (x ∷ xs) ys = ap (λ t. x ∷ t) (take-append xs ys)

pub append-before :
    (a n : ℕ) (xs ys : Text) → a + n ≤ length xs → take n (drop a (xs ++ ys)) ≡ take n (drop a xs)
append-before zero zero xs ys h = refl
append-before zero (suc n) [] ys h = absurd (omega (arith, h))
append-before zero (suc n) (x ∷ xs) ys h =
    ap (λ t. x ∷ t) (append-before zero n xs ys (omega (arith, h)))
append-before (suc a) n [] ys h = absurd (omega (arith, h))
append-before (suc a) n (x ∷ xs) ys h = append-before a n xs ys (omega (arith, h))

pub take-all : (xs : Text) → take (length xs) xs ≡ xs
take-all [] = refl
take-all (x ∷ xs) = ap (λ t. x ∷ t) (take-all xs)
