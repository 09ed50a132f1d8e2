-- ===== src/Mongo/Admin.antt =====
-- mongodb/api.go: the functions of an administrator, and GetRegisteredRouterSwap.
pub mod Reswap
use cross_chain_router.Prelude.{
  ℕ, ◌+◌, Bool, true, false, not, ◌&&◌, Option, none, some, List, [], ◌∷◌, ltb, leb, ◌==◌,
  if◌then◌else◌,
}
use cross_chain_router.Text.{Text, is_empty}
use cross_chain_router.Tokens.Errors.{
  Error, Result, ok, err, Done, new_error, sentinel, err_no_bridge_for_chain_id,
}
use cross_chain_router.Tokens.Types.{TxStatus, is_swap_tx_on_chain_and_failed}
use cross_chain_router.Tokens.Bridge.{Bridge}
use cross_chain_router.Effect.{
  Act, pure, fail, lift, attempt, continue, ◌>>=◌, ◌>>◌, ignore, reject_if,
}
use cross_chain_router.Mongo.Driver.{Driver}
use cross_chain_router.Mongo.Db.{Db}
use cross_chain_router.Mongo.Status.{
  tx_not_swapped, tx_processed, match_tx_empty, match_tx_not_stable, tx_with_big_value,
  match_tx_failed, swapout_forbidden, reswapping, is_registered_ok,
}
use cross_chain_router.Mongo.Tables.{MgoSwap, MgoSwapResult}
use cross_chain_router.Mongo.Swaps.{
  find_router_swap, find_router_swap_result, update_router_swap_status, refresh_timestamp,
}
use cross_chain_router.Mongo.Results.{update_router_swap_result_status}

reject_found : Result MgoSwapResult → Result Done
reject_found (ok r) = err (new_error "can not pass big value swap with result exist")
reject_found (err e) = ok tt

module _ {S : Type 0} (b : Bridge S) where
  first_status : List Text → Option TxStatus
  first_status [] = none
  first_status (tx ∷ txs) =
      let rest = first_status txs in
      elim (b.get_transaction_status 0 tx).1 [
        | none ↦ (b.get_transaction_status 0 tx).0
        | some e ↦ rest
      ]

  -- getSwapResultsTxStatus: the first of the transactions that the chain answers for.
  unfoldable pub get_swap_results_tx_status : MgoSwapResult → Option TxStatus
  unfolding first_status
  get_swap_results_tx_status res = first_status (res.swap_tx ∷ res.old_swap_txs)

block_height : Option TxStatus → ℕ
block_height none = 0
block_height (some st) = st.block_height

-- txStatus != nil && txStatus.BlockHeight > 0 && !txStatus.IsSwapTxOnChainAndFailed()
unfoldable pub has_succeeded : Option TxStatus → Bool
unfolding block_height is_swap_tx_on_chain_and_failed
has_succeeded st = ltb 0 (block_height st) && not (is_swap_tx_on_chain_and_failed st)

-- The test of the pool nonce in RouterAdminReswap.
check_pool_nonce : Option (Text → Result ℕ) → MgoSwapResult → Result Done
check_pool_nonce none res = ok tt
check_pool_nonce (some get_pool_nonce) res = elim (get_pool_nonce res.mpc) [
  | err e ↦ err e
  | ok nonce ↦
      if leb nonce res.swap_nonce
      then err (new_error "can not retry swap with lower nonce")
      else ok tt
]

or_no_bridge : {B : Type 0} → Option B → Result B
or_no_bridge none = err (sentinel err_no_bridge_for_chain_id)
or_no_bridge (some b) = ok b

module _ ⦃d : Driver⦄ where
  -- RouterAdminPassBigValue
  unfoldable pub router_admin_pass_big_value : Text → Text → ℕ → Act (Db d.Store) Done
  unfolding reject_found
  router_admin_pass_big_value from_chain_id tx_id log_index s =
      (do
        swap ← find_router_swap from_chain_id tx_id log_index
        reject_if (not (swap.status == tx_with_big_value))
            (new_error "swap status is not big value status")
        res ← attempt (find_router_swap_result from_chain_id tx_id log_index)
        lift (reject_found res)
        update_router_swap_status from_chain_id tx_id log_index tx_not_swapped s.now [])
        s

  -- RouterAdminPassForbiddenSwapout
  unfoldable pub router_admin_pass_forbidden_swapout : Text → Text → ℕ → Act (Db d.Store) Done
  router_admin_pass_forbidden_swapout from_chain_id tx_id log_index s =
      (do
        swap ← find_router_swap_result from_chain_id tx_id log_index
        reject_if (not (swap.status == swapout_forbidden))
            (new_error "swap status is not SwapoutForbidden")
        ignore
            (update_router_swap_result_status from_chain_id tx_id log_index match_tx_empty s.now [])
        update_router_swap_status from_chain_id tx_id log_index tx_not_swapped s.now [])
        s

  reswap_on : Text → Text → ℕ → MgoSwapResult → Bridge (Db d.Store) → Act (Db d.Store) Done
  unfolding check_pool_nonce
  reswap_on from_chain_id tx_id log_index res bridge s =
      if has_succeeded (get_swap_results_tx_status bridge res)
      then (do
        ignore (
            update_router_swap_result_status from_chain_id tx_id log_index match_tx_not_stable s.now
              [])
        fail (new_error "swap succeed with swaptx"))
          s
      else (do
        lift (check_pool_nonce bridge.get_pool_nonce res)
        update_router_swap_result_status from_chain_id tx_id log_index reswapping s.now []
        update_router_swap_status from_chain_id tx_id log_index tx_not_swapped s.now [])
          s

  -- RouterAdminReswap; `get_bridge` is router.GetBridgeByChainID.
  unfoldable pub router_admin_reswap :
      (Text → Option (Bridge (Db d.Store))) → Text → Text → ℕ → Act (Db d.Store) Done
  unfolding reswap_on or_no_bridge
  router_admin_reswap get_bridge from_chain_id tx_id log_index = do
    swap ← find_router_swap from_chain_id tx_id log_index
    reject_if (not (swap.status == tx_processed)) (new_error "swap status can not reswap")
    res ← find_router_swap_result from_chain_id tx_id log_index
    reject_if (not (res.status == match_tx_failed)) (new_error "swap result can not reswap")
    reject_if (is_empty res.swap_tx) (new_error "swap without swaptx")
    bridge ← lift (or_no_bridge (get_bridge swap.to_chain_id))
    reswap_on from_chain_id tx_id log_index res bridge

  registered : MgoSwap → Result MgoSwapResult → Option MgoSwap × Bool
  registered swap (ok r) = (some swap, true)
  registered swap (err e) = (some swap, false)

  get_registered :
      Text → Text → ℕ → Result MgoSwap → Db d.Store → (Option MgoSwap × Bool) × Db d.Store
  unfolding registered
  get_registered from_chain_id tx_id log_index (err e) s = ((none, false), s)
  get_registered from_chain_id tx_id log_index (ok swap) s =
      if is_registered_ok swap.status
      then (if swap.status == tx_not_swapped
          then (let (_, s') = refresh_timestamp swap.key swap s in ((some swap, true), s'))
          else ((some swap, true), s))
      else let (res, s') = find_router_swap_result from_chain_id tx_id log_index s in
        (registered swap res, s')

  -- GetRegisteredRouterSwap
  unfoldable pub get_registered_router_swap :
      Text → Text → ℕ → Db d.Store → (Option MgoSwap × Bool) × Db d.Store
  unfolding get_registered
  get_registered_router_swap from_chain_id tx_id log_index s =
      let (swap, s') = find_router_swap from_chain_id tx_id log_index s in
      get_registered from_chain_id tx_id log_index swap s'
