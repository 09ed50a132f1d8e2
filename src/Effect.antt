-- ===== src/Effect.antt =====
-- Go functions that return (value, error) and change a state: what was written before an error stays
-- written, so the state comes back beside the error too.
pub mod Keeps
pub mod Succeeds
use cross_chain_router.Prelude.{Bool, true, false}
use cross_chain_router.Tokens.Errors.{Error, Result, ok, err, Done}

abbrev pub Act : Type 0 → Type 0 → Type 0
Act S A = S → Result A × S

module _ {S A : Type 0} where
  abbrev pub pure : A → Act S A
  pure a s = (ok a, s)

  abbrev pub fail : Error → Act S A
  fail e s = (err e, s)

  abbrev pub gets : (S → A) → Act S A
  gets f s = (ok (f s), s)

  abbrev pub lift : Result A → Act S A
  lift r s = (r, s)

module _ {S A : Type 0} where
  -- `x, err := f()` where the code goes on after an error
  abbrev pub attempt : Act S A → Act S (Result A)
  attempt m s = let (r, s') = m s in (ok r, s')

module _ {S A B : Type 0} where
  abbrev pub continue : Result A → (A → Act S B) → Act S B
  continue (ok a) f s = f a s
  continue (err e) f s = (err e, s)

  infixl 5 ◌>>=◌ ◌>>◌
  abbrev pub ◌>>=◌ : Act S A → (A → Act S B) → Act S B
  ◌>>=◌ m f s = let (r, s') = m s in continue r f s'

  abbrev pub ◌>>◌ : Act S A → Act S B → Act S B
  m >> n = m >>= λ _. n

module _ {S A : Type 0} where
  -- `_ = f()`
  abbrev pub ignore : Act S A → Act S Done
  ignore m s = let (r, s') = m s in (ok tt, s')

module _ {S : Type 0} where
  -- if b { return err }
  abbrev pub reject_if : Bool → Error → Act S Done
  reject_if true e s = (err e, s)
  reject_if false e s = (ok tt, s)
