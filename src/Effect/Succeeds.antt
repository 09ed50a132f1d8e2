-- ===== src/Effect/Succeeds.antt =====
-- A sequence of steps that succeeds is one of which each step has succeeded.
use cross_chain_router.Prelude.{◌≡◌, refl, Bool, true, false}
use cross_chain_router.Tokens.Errors.{Error, Result, ok, err, Done}
use cross_chain_router.Effect.{Act, continue, reject_if}

pub continue-ok :
    {S A B : Type 0} (r : Result A) (f : A → Act S B) (s : S) {b : B}
    → (continue r f s).0 ≡ ok b
    → (a : A) × ((r ≡ ok a) × ((f a s).0 ≡ ok b))
continue-ok (ok a) f s h = (a, (refl, h))
continue-ok (err e) f s h = absurd cc

pub reject_if-ok :
    {S : Type 0} (b : Bool) (e : Error) (s : S) {u : Done} → (reject_if b e s).0 ≡ ok u → b ≡ false
reject_if-ok true e s h = absurd cc
reject_if-ok false e s h = refl
