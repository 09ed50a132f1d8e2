-- ===== src/Text/Keyed.antt =====
-- Maps with strings as keys, as the functions that look a key up.
use cross_chain_router.Prelude.{◌≡◌, false, Option, arith, if◌then◌else◌}
use cross_chain_router.Text.{Text, text_eq}
use cross_chain_router.Text.Equality.{text_eq_refl}

-- m[key] = value, with `none` for a deleted key
unfoldable pub store_at : {V : Type 0} → Text → Option V → (Text → Option V) → Text → Option V
store_at key v m j = if text_eq key j then v else m j

pub store_at-same :
    {V : Type 0} (key : Text) (v : Option V) (m : Text → Option V) → store_at key v m key ≡ v
unfolding store_at
store_at-same key v m = ground (arith, text_eq_refl key)

pub store_at-other :
    {V : Type 0} (key j : Text) (v : Option V) (m : Text → Option V)
    → text_eq key j ≡ false
    → store_at key v m j ≡ m j
unfolding store_at
store_at-other key j v m h = ground arith
