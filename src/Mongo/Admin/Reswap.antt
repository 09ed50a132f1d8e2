-- ===== src/Mongo/Admin/Reswap.antt =====
-- When an administrator may have a failed swap paid out again.
use cross_chain_router.Prelude.{ℕ, ◌<◌, ◌≡◌, false, Option, none, some, [], arith}
use cross_chain_router.Text.{Text}
use cross_chain_router.Tokens.Errors.{Result, ok, err}
use cross_chain_router.Tokens.Bridge.{Bridge}
use cross_chain_router.Mongo.Driver.{Driver, IsDocumented, found}
use cross_chain_router.Mongo.Db.{Db, read_reply, set_result}
use cross_chain_router.Mongo.Key.{get_router_swap_key}
use cross_chain_router.Mongo.Status.{tx_not_swapped, tx_processed, match_tx_failed, reswapping}
use cross_chain_router.Mongo.Tables.{MgoSwap, MgoSwapResult}
use cross_chain_router.Mongo.Swaps.{find_router_swap, find_router_swap_result}
use cross_chain_router.Mongo.Results.{set_result_status, update_router_swap_result_status}
use cross_chain_router.Mongo.Swaps.Frame.{update_router_swap_status-find_result}
use cross_chain_router.Mongo.Results.Nonce.{set_result-find}
use cross_chain_router.Mongo.Admin.{
  router_admin_reswap, reswap_on, or_no_bridge, check_pool_nonce, has_succeeded,
  get_swap_results_tx_status,
}

abbrev pub IsAbove : ℕ → Result ℕ → Type 0
IsAbove k (ok n) = k < n
IsAbove k (err e) = ⊥

-- The pool nonce, where the bridge tells one, is above the nonce of the result.
abbrev pub IsNonceUsed : Option (Text → Result ℕ) → MgoSwapResult → Type 0
IsNonceUsed none r = Unit
IsNonceUsed (some get_pool_nonce) r = IsAbove r.swap_nonce (get_pool_nonce r.mpc)

module _ ⦃d : Driver⦄ where
  check_pool_nonce-IsNonceUsed :
      (o : Option (Text → Result ℕ)) (r : MgoSwapResult)
      → check_pool_nonce o r ≡ ok tt
      → IsNonceUsed o r
  unfolding check_pool_nonce
  check_pool_nonce-IsNonceUsed none r h = tt
  check_pool_nonce-IsNonceUsed (some g) r h = ground arith

module _ ⦃d : Driver⦄ (lawful : IsDocumented d) where
  -- RouterAdminReswap, where it succeeds for a stored swap, its stored result and the bridge of its
  -- destination: the swap was TxProcessed and the result MatchTxFailed, the first of its transactions
  -- that the chain answers for has not succeeded, the pool nonce (where the bridge tells one) is above
  -- the nonce of the result, and the stored result is now the one reset to Reswapping.
  pub router_admin_reswap-ok :
      (get_bridge : Text → Option (Bridge (Db d.Store))) (from_chain_id tx_id : Text)
      (log_index : ℕ) (bridge : Bridge (Db d.Store)) (s : Db d.Store) (w : MgoSwap)
      (r : MgoSwapResult)
      → d.find_swap s.store (get_router_swap_key from_chain_id tx_id log_index) ≡ found w
      → d.find_result s.store (get_router_swap_key from_chain_id tx_id log_index) ≡ found r
      → get_bridge w.to_chain_id ≡ some bridge
      → (router_admin_reswap get_bridge from_chain_id tx_id log_index s).0 ≡ ok tt
      → (w.status ≡ tx_processed)
        × (r.status ≡ match_tx_failed)
        × (has_succeeded (get_swap_results_tx_status bridge r) ≡ false)
        × IsNonceUsed bridge.get_pool_nonce r
        × (d.find_result
              (router_admin_reswap get_bridge from_chain_id tx_id log_index s).1.store
              (get_router_swap_key from_chain_id tx_id log_index)
            ≡ found (set_result_status reswapping s.now [] r))
  unfolding router_admin_reswap reswap_on find_router_swap find_router_swap_result read_reply
      or_no_bridge update_router_swap_result_status
  router_admin_reswap-ok get_bridge from_chain_id tx_id log_index bridge s w r hw hr hb e =
      let key = get_router_swap_key from_chain_id tx_id log_index in
      ground (
        arith,
        set_result-find lawful key (set_result_status reswapping s.now []) s r,
        update_router_swap_status-find_result lawful from_chain_id tx_id log_index tx_not_swapped
            s.now [] (set_result key (set_result_status reswapping s.now []) s).1 key,
        check_pool_nonce-IsNonceUsed bridge.get_pool_nonce r,
      )
