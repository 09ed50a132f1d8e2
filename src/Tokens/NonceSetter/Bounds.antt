-- ===== src/Tokens/NonceSetter/Bounds.antt =====
-- AdjustNonce and InitSwapNonce of tokens/base/noncesetter.go: how far a nonce may move.
use cross_chain_router.Prelude.{ℕ, zero, suc, ◌+◌, ◌*◌, ◌≤◌, ◌≡◌, some, arith}
use cross_chain_router.Text.{Text, to_lower}
use cross_chain_router.Text.Keyed.{store_at-same}
use cross_chain_router.Tokens.Errors.{Result, ok}
use cross_chain_router.Tokens.NonceSetter.{
  NonceSetterBase, nonce_of, get_swap_nonce, adjust_nonce, ask_pool_nonce, init_swap_nonce,
  retry_rpc_count,
}

-- AdjustNonce never goes below the counter of the account, and never above twice the counter and 1000.
pub adjust_nonce_bounds :
    {S : Type 0} (address : Text) (value : ℕ) (b : NonceSetterBase S)
    → (get_swap_nonce address b ≤ adjust_nonce address value b)
      × (adjust_nonce address value b ≤ 2 * get_swap_nonce address b + 1000)
unfolding adjust_nonce
adjust_nonce_bounds address value b = ground arith

ask_pool_nonce-least : (ask : ℕ → Result ℕ) (n nonce : ℕ) → nonce ≤ ask_pool_nonce ask n nonce
unfolding ask_pool_nonce
ask_pool_nonce-least ask zero nonce = omega arith
ask_pool_nonce-least ask (suc n) nonce = ground (arith, ask_pool_nonce-least ask n nonce)

-- After InitSwapNonce the counter is not below the nonce of the database, and, when the chain answers
-- the first time, not below the nonce of the chain and equal to one of the two.
pub init_swap_nonce_bounds :
    {S : Type 0} (ask : ℕ → Result ℕ) (address : Text) (nonce p : ℕ) (b : NonceSetterBase S)
    → ask 2 ≡ ok p
    → let next = get_swap_nonce address (init_swap_nonce ask address nonce b) in
      (nonce ≤ next) × (p ≤ next) × (next ≤ nonce + p)
unfolding init_swap_nonce get_swap_nonce nonce_of ask_pool_nonce
init_swap_nonce_bounds ask address nonce p b h = ground (
  arith,
  store_at-same (to_lower address) (some (ask_pool_nonce ask retry_rpc_count nonce)) b.swap_nonce,
)
