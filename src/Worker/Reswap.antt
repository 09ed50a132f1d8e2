-- ===== src/Worker/Reswap.antt =====
-- worker/reswap.go: on a chain without nonces a payout that has timed out is built anew.
pub mod Guard
use cross_chain_router.Mongo.Key.{get_router_swap_key}
use cross_chain_router.Prelude.{
  false, not, Option, none, some, [], ◌∷◌, ◌++◌, ltb, ◌==◌, if◌then◌else◌,
}
use cross_chain_router.Prelude.Int.{ℤ}
use cross_chain_router.Text.{Text, equal_fold}
use cross_chain_router.Text.Number.{format_int}
use cross_chain_router.Tokens.Errors.{
  Result, ok, err, Done, new_error, sentinel, err_reswap_not_support, err_sender_mismatch,
  runtime_panic,
}
use cross_chain_router.Tokens.Types
use cross_chain_router.Tokens.Types.{BuildTxArgs}
use cross_chain_router.Tokens.Bridge.{Bridge}
use cross_chain_router.Effect.{Act, pure, lift, attempt, ◌>>=◌, ◌>>◌, ignore, reject_if}
use cross_chain_router.Mongo.Driver.{Driver}
use cross_chain_router.Mongo.Db.{Db}
use cross_chain_router.Mongo.Status.{tx_processed, tx_need_reswap}
use cross_chain_router.Mongo.Tables.{MgoSwap, MgoSwapResult, get_token_id}
use cross_chain_router.Mongo.Swaps.{find_router_swap}
use cross_chain_router.Mongo.Results.{update_router_old_swap_txs}
use cross_chain_router.Mongo.Converts.{convert_from_swap_info}
use cross_chain_router.Worker.State.{
  TaskSet, Env, World, sign_and_send_reswap, on_db, or_no_bridge, is_blacked,
}
use cross_chain_router.Worker.Update.{no_match, update_match, update_swap_timestamp}
use cross_chain_router.Worker.Send.{send_signed_transaction}
use cross_chain_router.Worker.Stable.{block_height}
use cross_chain_router.Worker.Replace.{blacklist_result}
use cross_chain_router.Worker.Tasks.{get_from_to_chain_id_and_value}
use cross_chain_router.Worker.Reverify.{sign_failed}
use cross_chain_router.Worker.Swap.{forget_disagree, remember, record_sent}

reswap_args : MgoSwap → MgoSwapResult → ℤ → ℤ → ℤ → Types.SwapInfo → BuildTxArgs
reswap_args swap res from_chain to_chain value info = record {
  swap_info = info;
  swap_id = res.tx_id;
  swap_type = res.swap_type;
  bind = res.bind;
  log_index = res.log_index;
  from_chain_id = from_chain;
  to_chain_id = to_chain;
  reswapping = false;
  from = res.mpc;
  origin_from = swap.from;
  origin_tx_to = swap.tx_to;
  origin_value = some value;
  swap_value = none;
  extra = record { gas_price = none; sequence = none; replace_num = 0; ttl = none };
}

module _ ⦃d : Driver⦄ where
  check_reswap : Env d.Store → MgoSwapResult → MgoSwap → Act (Db d.Store) MgoSwap
  check_reswap env res swap = do
    reject_if (not (swap.status == tx_processed))
        (new_error "cannot reswap swap with status not equal to 'TxProcessed'")
    reject_if (not (res.status == tx_need_reswap))
        (new_error "swap result status is not 'TxNeedReswap'")
    bridge ← lift (or_no_bridge (env.get_bridge res.to_chain_id))
    reject_if (ltb 0 (block_height (bridge.get_transaction_status 0 res.swap_tx).0))
        (new_error "swap tx existed ")
    pure swap

  -- verifyReswapSwap; its flag isManual is not used.
  unfoldable pub verify_reswap_swap : Env d.Store → MgoSwapResult → Act (Db d.Store) MgoSwap
  unfolding check_reswap
  verify_reswap_swap env res = do
    swap ← find_router_swap res.from_chain_id res.tx_id res.log_index
    if is_blacked env swap then blacklist_result res else check_reswap env res swap

module _ ⦃d : Driver⦄ ⦃t : TaskSet⦄ (env : Env d.Store) where
  build_reswap : MgoSwap → MgoSwapResult → Act (World d.Store t.Tasks) Done
  unfolding reswap_args
  build_reswap swap res = do
    mpc ← lift (env.get_router_mpc (get_token_id swap.swap_info) res.to_chain_id)
    reject_if (not (equal_fold res.mpc mpc)) (sentinel err_sender_mismatch)
    ignore (on_db (update_swap_timestamp res.from_chain_id res.tx_id res.log_index))
    (from_chain, to_chain, value) ←
        lift (get_from_to_chain_id_and_value res.from_chain_id res.to_chain_id res.value)
    info ← lift (convert_from_swap_info swap.swap_info)
    bridge ← lift (or_no_bridge (env.get_bridge res.to_chain_id))
    (raw, args) ←
        on_db (bridge.build_raw_transaction (reswap_args swap res from_chain to_chain value info))
    λ w. (ok tt, record w { spawned = w.spawned ++ sign_and_send_reswap raw args res ∷ [] })

  -- reswapRouterSwap
  unfoldable pub reswap_router_swap : MgoSwapResult → Act (World d.Store t.Tasks) Done
  unfolding build_reswap
  reswap_router_swap res = do
    reject_if (not (env.is_reswap_supported res.to_chain_id)) (sentinel err_reswap_not_support)
    swap ← on_db (verify_reswap_swap env res)
    build_reswap swap res

  -- args.SwapValue and *args.Extra.TTL are dereferenced without a test.
  or_panic : {A : Type 0} → Option A → Result A
  or_panic none = err (sentinel runtime_panic)
  or_panic (some a) = ok a

  send_reswap :
      Bridge (Db d.Store)
      → BuildTxArgs
      → MgoSwapResult
      → Text × Text
      → Act (World d.Store t.Tasks) Done
  unfolding or_panic
  send_reswap bridge args res (signed, hash) = do
    forget_disagree (get_router_swap_key res.from_chain_id res.tx_id res.log_index)
    remember res.from_chain_id res.tx_id res.log_index hash
    on_db (update_router_old_swap_txs res.from_chain_id res.tx_id res.log_index hash)
    value ← lift (or_panic args.swap_value)
    ttl ← lift (or_panic args.extra.ttl)
    on_db (
        update_match res.from_chain_id res.tx_id res.log_index (record no_match {
          swap_tx = hash;
          swap_value = format_int value;
          mpc = args.from;
          ttl = ttl;
        }))
    sent ← attempt (send_signed_transaction env bridge args signed)
    ignore (record_sent res.from_chain_id res.tx_id res.log_index hash sent)

  -- signAndSendReswapTx
  unfoldable pub sign_and_send_reswap_tx :
      Bridge (Db d.Store) → Text → BuildTxArgs → MgoSwapResult → Act (World d.Store t.Tasks) Done
  unfolding send_reswap
  sign_and_send_reswap_tx bridge raw args res = elim (bridge.mpc_sign_transaction raw args) [
    | err e ↦ sign_failed env args e
    | ok signed ↦ send_reswap bridge args res signed
  ]
