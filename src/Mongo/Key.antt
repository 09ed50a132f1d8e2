-- ===== src/Mongo/Key.antt =====
-- GetRouterSwapKey of mongodb/api.go.
pub mod Injective
use cross_chain_router.Prelude.{ℕ, ◌++◌, ◌∷◌}
use cross_chain_router.Text.{Text, to_lower}
use cross_chain_router.Text.Number.{format_nat}

-- fmt.Sprintf("%v:%v:%v", fromChainID, txid, logindex), in lower case
unfoldable pub get_router_swap_key : Text → Text → ℕ → Text
get_router_swap_key from_chain_id tx_id log_index =
    to_lower (from_chain_id ++ (b':' ∷ (tx_id ++ (b':' ∷ format_nat log_index))))
