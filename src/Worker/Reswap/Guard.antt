-- ===== src/Worker/Reswap/Guard.antt =====
-- When a payout is made again under a new transaction.
use cross_chain_router.Prelude.{◌≡◌, refl, false, arith, some}
use cross_chain_router.Tokens.Errors.{Result, ok, err}
use cross_chain_router.Tokens.Bridge.{Bridge}
use cross_chain_router.Mongo.Driver.{Driver, found}
use cross_chain_router.Mongo.Db.{Db, read_reply}
use cross_chain_router.Mongo.Key.{get_router_swap_key}
use cross_chain_router.Mongo.Status.{tx_need_reswap, tx_processed}
use cross_chain_router.Mongo.Tables.{MgoSwap, MgoSwapResult}
use cross_chain_router.Mongo.Swaps.{find_router_swap}
use cross_chain_router.Worker.State.{TaskSet, Env, World, is_blacked}
use cross_chain_router.Worker.Stable.{block_height}
use cross_chain_router.Worker.Replace.{blacklist_result}
use cross_chain_router.Worker.Reswap.{verify_reswap_swap, check_reswap, reswap_router_swap}

-- The swap is processed and not black listed, the result waits to be swapped again, and the bridge
-- gives no status of its last transaction, as after an error, or one without a block height.
abbrev pub IsReswapable : {S : Type 0} → Env S → Bridge (Db S) → MgoSwap → MgoSwapResult → Type 0
IsReswapable env bridge swap res =
    (is_blacked env swap ≡ false)
    × (swap.status ≡ tx_processed)
    × (res.status ≡ tx_need_reswap)
    × (block_height (bridge.get_transaction_status 0 res.swap_tx).0 ≡ 0)

module _ ⦃d : Driver⦄ (env : Env d.Store) where
  verify_reswap_swap-ok :
      (res : MgoSwapResult) (s : Db d.Store) (swap found_swap : MgoSwap)
      (bridge : Bridge (Db d.Store))
      → d.find_swap s.store (get_router_swap_key res.from_chain_id res.tx_id res.log_index)
        ≡ found swap
      → env.get_bridge res.to_chain_id ≡ some bridge
      → (verify_reswap_swap env res s).0 ≡ ok found_swap
      → IsReswapable env bridge swap res
  unfolding verify_reswap_swap check_reswap find_router_swap read_reply blacklist_result
  verify_reswap_swap-ok res s swap found_swap bridge h b e = ground arith

module _ ⦃d : Driver⦄ ⦃t : TaskSet⦄ (env : Env d.Store) where
  reswap_router_swap-verified :
      (res : MgoSwapResult) (w : World d.Store t.Tasks) (swap : MgoSwap)
      (bridge : Bridge (Db d.Store)) (r : Result MgoSwap)
      → (verify_reswap_swap env res w.db).0 ≡ r
      → d.find_swap w.db.store (get_router_swap_key res.from_chain_id res.tx_id res.log_index)
        ≡ found swap
      → env.get_bridge res.to_chain_id ≡ some bridge
      → (reswap_router_swap env res w).0 ≡ ok tt
      → IsReswapable env bridge swap res
  unfolding reswap_router_swap
  reswap_router_swap-verified res w swap bridge (ok x) v h b e =
      verify_reswap_swap-ok env res w.db swap x bridge h b v
  reswap_router_swap-verified res w swap bridge (err x) v h b e = absurd (ground arith)

  -- reswapRouterSwap, where it succeeds for a result whose swap is stored and whose destination has a
  -- bridge: the swap is TxProcessed and not black listed, the result is TxNeedReswap, and the bridge
  -- gives no status of its last transaction, as after an error, or one without a block height.
  pub reswap_router_swap-IsReswapable :
      (res : MgoSwapResult) (w : World d.Store t.Tasks) (swap : MgoSwap)
      (bridge : Bridge (Db d.Store))
      → d.find_swap w.db.store (get_router_swap_key res.from_chain_id res.tx_id res.log_index)
        ≡ found swap
      → env.get_bridge res.to_chain_id ≡ some bridge
      → (reswap_router_swap env res w).0 ≡ ok tt
      → IsReswapable env bridge swap res
  reswap_router_swap-IsReswapable res w swap bridge h b e =
      reswap_router_swap-verified res w swap bridge (verify_reswap_swap env res w.db).0 refl h b e
