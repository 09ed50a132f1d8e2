-- ===== src/Effect/Keeps.antt =====
-- A part of the state that no step changes is not changed by the steps one after the other.
use cross_chain_router.Prelude.{◌≡◌, refl}
use cross_chain_router.Tokens.Errors.{Result, ok, err}
use cross_chain_router.Effect.{Act, continue}

module _ {S X : Type 0} (part : S → X) where
  pub continue-keeps :
      {A B : Type 0} (r : Result A) (f : A → Act S B) (s : S)
      → ((a : A) → part (f a s).1 ≡ part s)
      → part (continue r f s).1 ≡ part s
  continue-keeps (ok a) f s h = h a
  continue-keeps (err e) f s h = refl
