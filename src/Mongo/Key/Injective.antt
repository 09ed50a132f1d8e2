-- ===== src/Mongo/Key/Injective.antt =====
-- The key of a swap names it: chain, transaction and log index can be read off.
use cross_chain_router.Prelude.{◌≡◌, ◌≢◌, refl, ap, sym, ◌∙◌, [], ◌∷◌, ◌++◌, arith, ℕ}
use cross_chain_router.Text.{Text, lower, to_lower}
use cross_chain_router.Text.Number.{format_nat}
use cross_chain_router.Text.Number.Digits.{to_lower-format_nat, format_nat_inj}
use cross_chain_router.Mongo.Key.{get_router_swap_key}

-- The text has no colon.
abbrev pub HasNoColon : Text → Type 0
HasNoColon [] = Unit
HasNoColon (c ∷ s) = (c ≢ b':') × HasNoColon s

lower-colon : (c : ℕ) → c ≢ b':' → lower c ≢ b':'
unfolding lower
lower-colon c h = ground arith

to_lower-HasNoColon : (s : Text) → HasNoColon s → HasNoColon (to_lower s)
unfolding to_lower
to_lower-HasNoColon [] h = h
to_lower-HasNoColon (c ∷ s) h = (lower-colon c h.0, to_lower-HasNoColon s h.1)

to_lower-append : (s t : Text) → to_lower (s ++ t) ≡ to_lower s ++ to_lower t
unfolding to_lower
to_lower-append [] t = refl
to_lower-append (c ∷ s) t = ap (◌∷◌ (lower c)) (to_lower-append s t)

-- What stands before and behind the first colon.
split_colon :
    (a b s t : Text)
    → HasNoColon a
    → HasNoColon b
    → a ++ (b':' ∷ s) ≡ b ++ (b':' ∷ t)
    → (a ≡ b) × (s ≡ t)
split_colon [] [] s t ha hb e = ground arith
split_colon [] (d ∷ b) s t ha hb e = ground arith
split_colon (c ∷ a) [] s t ha hb e = ground arith
split_colon (c ∷ a) (d ∷ b) s t ha hb e = ground (arith, split_colon a b s t ha.1 hb.1)

lowered :
    (a x : Text) (i : ℕ)
    → get_router_swap_key a x i ≡ to_lower a ++ (b':' ∷ (to_lower x ++ (b':' ∷ format_nat i)))
unfolding get_router_swap_key to_lower lower
lowered a x i =
    to_lower-append a (b':' ∷ (x ++ (b':' ∷ format_nat i)))
    ∙ ap (λ t. to_lower a ++ (b':' ∷ t))
        (to_lower-append x (b':' ∷ format_nat i)
          ∙ ap (λ t. to_lower x ++ (b':' ∷ t)) (to_lower-format_nat i))

-- Chain ids and transaction ids without a colon that give the same key are the same up to the case of
-- their letters, and so are the log indexes.
pub get_router_swap_key_inj :
    (a b x y : Text) (i j : ℕ)
    → HasNoColon a
    → HasNoColon b
    → HasNoColon x
    → HasNoColon y
    → get_router_swap_key a x i ≡ get_router_swap_key b y j
    → (to_lower a ≡ to_lower b) × (to_lower x ≡ to_lower y) × (i ≡ j)
get_router_swap_key_inj a b x y i j ha hb hx hy e =
    let (ab, rest) =
      split_colon (to_lower a) (to_lower b) (to_lower x ++ (b':' ∷ format_nat i))
        (to_lower y ++ (b':' ∷ format_nat j)) (to_lower-HasNoColon a ha) (to_lower-HasNoColon b hb)
        (sym (lowered a x i) ∙ (e ∙ lowered b y j)) in
    let (xy, ij) =
      split_colon (to_lower x) (to_lower y) (format_nat i) (format_nat j) (to_lower-HasNoColon x hx)
        (to_lower-HasNoColon y hy) rest in
    (ab, xy, format_nat_inj i j ij)
