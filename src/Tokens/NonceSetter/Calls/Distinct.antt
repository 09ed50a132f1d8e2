-- ===== src/Tokens/NonceSetter/Calls/Distinct.antt =====
-- No nonce of an account is out twice, over every sequence of calls of the nonce setter.
use cross_chain_router.Prelude.{
  ℕ, ◌+◌, ◌%◌, ◌^◌, ◌≤◌, ◌<◌, ◌≡◌, ◌≢◌, refl, true, false, List, [], ◌∷◌, arith, ◌==◌, ◌||◌, Bool,
  if◌then◌else◌,
}
use cross_chain_router.Text.{Text}
use cross_chain_router.Mongo.Driver.{Driver}
use cross_chain_router.Tokens.NonceSetter.{NonceSetterBase}
use cross_chain_router.Tokens.NonceSetter.Calls.{
  Account, account_of, Event, handed, returned, silent, Allowed, stay, raise, restarted, restart,
  hand_next, hand_spare, keep_spare, drop_spare, Call, step, event_of,
}
use cross_chain_router.Tokens.NonceSetter.Calls.Refines.{step-Allowed}

abbrev pub is_out : ℕ → List ℕ → Bool
is_out n [] = false
is_out n (m ∷ ms) = n == m || is_out n ms

abbrev give : ℕ → List ℕ → List ℕ
give n [] = []
give n (m ∷ ms) = let rest = give n ms in if n == m then ms else m ∷ rest

-- The nonces that are out after an event: handed out and not returned since.
unfoldable pub after : Event → List ℕ → List ℕ
after (handed n) ms = n ∷ ms
after (returned n) ms = give n ms
after (restarted n) ms = ms
after silent ms = ms

-- Only a nonce that is out is returned, the counter does not wrap, and it is not started again below
-- where it stands.
unfoldable pub IsProper : Event → Account → List ℕ → Type 0
IsProper (handed n) a ms = a.next + 1 < 2 ^ 64
IsProper (returned n) a ms = is_out n ms ≡ true
IsProper (restarted n) a ms = a.next ≤ n
IsProper silent a ms = Unit

abbrev pub IsDistinct : List ℕ → Type 0
IsDistinct [] = Unit
IsDistinct (n ∷ ns) = (is_out n ns ≡ false) × IsDistinct ns

abbrev pub AllBelow : ℕ → List ℕ → Type 0
AllBelow b [] = Unit
AllBelow b (n ∷ ns) = (n < b) × AllBelow b ns

is_out_below : (b n : ℕ) (ms : List ℕ) → AllBelow b ms → b ≤ n → is_out n ms ≡ false
is_out_below b n [] h l = refl
is_out_below b n (m ∷ ms) h l = ground (arith, is_out_below b n ms h.1 l)

below_is_out : (b n : ℕ) (ms : List ℕ) → AllBelow b ms → is_out n ms ≡ true → n < b
below_is_out b n [] h e = cc
below_is_out b n (m ∷ ms) h e = ground (arith, below_is_out b n ms h.1)

AllBelow-mono : (b c : ℕ) (ms : List ℕ) → b ≤ c → AllBelow b ms → AllBelow c ms
AllBelow-mono b c [] l h = tt
AllBelow-mono b c (m ∷ ms) l h = (omega (arith, h.0), AllBelow-mono b c ms l h.1)

AllBelow-give : (b n : ℕ) (ms : List ℕ) → AllBelow b ms → AllBelow b (give n ms)
AllBelow-give b n [] h = tt
AllBelow-give b n (m ∷ ms) h = ground (arith, AllBelow-give b n ms h.1)

is_out-give : (k n : ℕ) (ms : List ℕ) → is_out k ms ≡ false → is_out k (give n ms) ≡ false
is_out-give k n [] h = refl
is_out-give k n (m ∷ ms) h = ground (arith, is_out-give k n ms)

give-IsDistinct : (n : ℕ) (ms : List ℕ) → IsDistinct ms → IsDistinct (give n ms)
give-IsDistinct n [] h = tt
give-IsDistinct n (m ∷ ms) h = ground (arith, give-IsDistinct n ms h.1, is_out-give m n ms)

-- A nonce that is returned once is out no more.
given_back : (n : ℕ) (ms : List ℕ) → IsDistinct ms → is_out n (give n ms) ≡ false
given_back n [] h = refl
given_back n (m ∷ ms) h = ground (arith, given_back n ms h.1)

-- The nonces that are out are distinct and below the counter; a spare nonce is below it and not out.
pub record IsSound (a : Account) (ms : List ℕ) : Type 0 where
  pub distinct : IsDistinct ms
  pub below : AllBelow a.next ms
  pub spare_in : a.spare ≢ 0 → is_out a.spare ms ≡ false
  pub spare_below : a.spare ≢ 0 → a.spare < a.next

raised-IsSound :
    (a : Account) (n : ℕ) (ms : List ℕ)
    → a.next ≤ n
    → IsSound a ms
    → IsSound (record a { next = n }) ms
raised-IsSound a n ms l s = record {
  distinct = s.distinct;
  below = AllBelow-mono a.next n ms l s.below;
  spare_in = s.spare_in;
  spare_below = λ z. omega (arith, s.spare_below z);
}

-- The invariant, on the abstract account.
Allowed-IsSound :
    (a b : Account) (e : Event) (ms : List ℕ)
    → Allowed a b e
    → IsProper e a ms
    → IsSound a ms
    → IsSound b (after e ms)
unfolding after IsProper
Allowed-IsSound a b e ms (stay h) p s = rw (← h) s
Allowed-IsSound a b e ms (raise n l h) p s = rw h (raised-IsSound a n ms l s)
Allowed-IsSound a b e ms (restart n h) p s = rw h (raised-IsSound a n ms p s)
Allowed-IsSound a b e ms (hand_next h) p s =
    let up : a.next + 1 ≡ (a.next + 1) % 2 ^ 64 = omega (arith, p) in
    rw (h, ← up)
      record {
        distinct = (is_out_below a.next a.next ms s.below (omega arith), s.distinct);
        below = (omega arith, AllBelow-mono a.next (a.next + 1) ms (omega arith) s.below);
        spare_in = λ z. ground (arith, s.spare_in z, s.spare_below z);
        spare_below = λ z. omega (arith, s.spare_below z);
      }
Allowed-IsSound a b e ms (hand_spare z h) p s = rw h record {
  distinct = (s.spare_in z, s.distinct);
  below = (s.spare_below z, s.below);
  spare_in = λ n. absurd (n refl);
  spare_below = λ n. absurd (n refl);
}
Allowed-IsSound a b e ms (keep_spare n h) p s = rw h record {
  distinct = give-IsDistinct n ms s.distinct;
  below = AllBelow-give a.next n ms s.below;
  spare_in = λ z. given_back n ms s.distinct;
  spare_below = λ z. below_is_out a.next n ms s.below p;
}
Allowed-IsSound a b e ms (drop_spare n h) p s = rw (← h) record {
  distinct = give-IsDistinct n ms s.distinct;
  below = AllBelow-give a.next n ms s.below;
  spare_in = λ z. is_out-give a.spare n ms (s.spare_in z);
  spare_below = s.spare_below;
}

module _ ⦃d : Driver⦄ (k : Text) where
  -- What calls can lead to, with the nonces of the account of `k` that are out.
  pub data Reach (b : NonceSetterBase d.Store) : NonceSetterBase d.Store → List ℕ → Type 0 where
    here : Reach b b []
    next :
        {c : NonceSetterBase d.Store} {ms : List ℕ}
        → Reach b c ms
        → (call : Call d.Store) → IsProper (event_of k call c) (account_of k c) ms
        → Reach b (step call c) (after (event_of k call c) ms)

  Reach-IsSound :
      {b c : NonceSetterBase d.Store} {ms : List ℕ}
      → (account_of k b).spare ≡ 0
      → Reach b c ms
      → IsSound (account_of k c) ms
  Reach-IsSound z here = record {
    distinct = tt;
    below = tt;
    spare_in = λ n. refl;
    spare_below = λ n. absurd (n z);
  }
  Reach-IsSound z (next {c = c} {ms = ms} r call p) =
      Allowed-IsSound (account_of k c) (account_of k (step call c)) (event_of k call c) ms
        (step-Allowed k call c) p (Reach-IsSound z r)

  -- However the calls of AllocateNonce, RecycleSwapNonce, SetNonce and InitSwapNonce follow one another
  -- and the database changes, the nonces of an account that are out are distinct and below its counter,
  -- from a setter without a spare nonce, when only nonces that are out are returned, a nonce is handed
  -- out only while the counter is below 2^64 - 1, and InitSwapNonce does not lower the counter.
  pub Reach-IsDistinct :
      {b c : NonceSetterBase d.Store} {ms : List ℕ}
      → (account_of k b).spare ≡ 0
      → Reach b c ms
      → IsDistinct ms × AllBelow (account_of k c).next ms
  Reach-IsDistinct z r = let s = Reach-IsSound z r in (s.distinct, s.below)
