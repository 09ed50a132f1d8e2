-- ===== src/Worker/Replace/Guard.antt =====
-- When a payout is replaced without an administrator.
use cross_chain_router.Prelude.{◌≡◌, ◌≢◌, refl, false, arith, Option}
use cross_chain_router.Prelude.Int.{ℤ}
use cross_chain_router.Tokens.Errors.{Result, ok, err}
use cross_chain_router.Mongo.Driver.{Driver, found}
use cross_chain_router.Mongo.Db.{Db, read_reply}
use cross_chain_router.Mongo.Key.{get_router_swap_key}
use cross_chain_router.Mongo.Status.{match_tx_not_stable, tx_processed}
use cross_chain_router.Mongo.Tables.{MgoSwap, MgoSwapResult}
use cross_chain_router.Mongo.Swaps.{find_router_swap}
use cross_chain_router.Worker.State.{TaskSet, Env, World, is_blacked}
use cross_chain_router.Worker.Replace.{
  verify_replace_swap, check_replace, blacklist_result, replace_router_swap,
}

-- The payout is under way: it has a nonce and no block, it is neither final nor failed, and its swap is
-- processed and not black listed.
abbrev pub IsReplaceable : {S : Type 0} → Env S → MgoSwap → MgoSwapResult → Type 0
IsReplaceable env swap res =
    (is_blacked env swap ≡ false)
    × (swap.status ≡ tx_processed)
    × (res.swap_nonce ≢ 0)
    × (res.status ≡ match_tx_not_stable)
    × (res.swap_height ≡ 0)

module _ ⦃d : Driver⦄ (env : Env d.Store) where
  verify_replace_swap-ok :
      (res : MgoSwapResult) (s : Db d.Store) (swap found_swap : MgoSwap)
      → d.find_swap s.store (get_router_swap_key res.from_chain_id res.tx_id res.log_index)
        ≡ found swap
      → (verify_replace_swap env res false s).0 ≡ ok found_swap
      → IsReplaceable env swap res
  unfolding verify_replace_swap check_replace find_router_swap read_reply blacklist_result
  verify_replace_swap-ok res s swap found_swap h e = ground arith

module _ ⦃d : Driver⦄ ⦃t : TaskSet⦄ (env : Env d.Store) where
  replace_router_swap-verified :
      (res : MgoSwapResult) (gas_price : Option ℤ) (w : World d.Store t.Tasks) (swap : MgoSwap)
      (r : Result MgoSwap)
      → (verify_replace_swap env res false w.db).0 ≡ r
      → d.find_swap w.db.store (get_router_swap_key res.from_chain_id res.tx_id res.log_index)
        ≡ found swap
      → (replace_router_swap env res gas_price false w).0 ≡ ok tt
      → IsReplaceable env swap res
  unfolding replace_router_swap
  replace_router_swap-verified res gas_price w swap (ok x) v h e =
      verify_replace_swap-ok env res w.db swap x h v
  replace_router_swap-verified res gas_price w swap (err x) v h e = absurd (ground arith)

  -- ReplaceRouterSwap, where it is not manual and succeeds for a result whose swap is stored: the swap
  -- is TxProcessed and not black listed, and the result has a nonce and no height, and is
  -- MatchTxNotStable.
  pub replace_router_swap-IsReplaceable :
      (res : MgoSwapResult) (gas_price : Option ℤ) (w : World d.Store t.Tasks) (swap : MgoSwap)
      → d.find_swap w.db.store (get_router_swap_key res.from_chain_id res.tx_id res.log_index)
        ≡ found swap
      → (replace_router_swap env res gas_price false w).0 ≡ ok tt
      → IsReplaceable env swap res
  replace_router_swap-IsReplaceable res gas_price w swap h e =
      replace_router_swap-verified res gas_price w swap (verify_replace_swap env res false w.db).0
        refl h e
