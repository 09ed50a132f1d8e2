-- ===== src/Worker/Replace.antt =====
-- worker/replace.go: a payout that does not get on chain is sent again under the same nonce.
pub mod Guard
use cross_chain_router.Mongo.Key.{get_router_swap_key}
use cross_chain_router.Prelude.{
  ℕ, ◌+◌, ◌%◌, ◌^◌, Bool, true, false, not, ◌&&◌, ◌||◌, Option, none, some, List, [], ◌∷◌, ◌++◌,
  length, ltb, ◌==◌, if◌then◌else◌,
}
use cross_chain_router.Prelude.Int.{ℤ}
use cross_chain_router.Text.{Text, is_empty, equal_fold}
use cross_chain_router.Tokens.Errors.{
  Result, ok, err, Done, new_error, sentinel, sentinel_text, err_swap_in_blacklist,
  err_nonce_not_support, err_sender_mismatch,
}
use cross_chain_router.Tokens.Types
use cross_chain_router.Tokens.Types.{BuildTxArgs}
use cross_chain_router.Tokens.Bridge.{Bridge}
use cross_chain_router.Effect.{Act, pure, fail, lift, attempt, ◌>>=◌, ◌>>◌, ignore, reject_if}
use cross_chain_router.Mongo.Driver.{Driver}
use cross_chain_router.Mongo.Db.{Db}
use cross_chain_router.Mongo.Status.{tx_processed, match_tx_not_stable, swap_in_blacklist}
use cross_chain_router.Mongo.Tables.{MgoSwap, MgoSwapResult, get_token_id}
use cross_chain_router.Mongo.Swaps.{find_router_swap, update_router_swap_status}
use cross_chain_router.Mongo.Results.{update_router_swap_result_status, update_router_old_swap_txs}
use cross_chain_router.Mongo.Converts.{convert_from_swap_info}
use cross_chain_router.Worker.State.{
  TaskSet, Env, World, recycle_nonce, sign_and_send_replace, on_db, or_no_bridge, is_blacked,
  get_sep_time_in_find,
}
use cross_chain_router.Worker.Update.{update_swap_timestamp}
use cross_chain_router.Worker.Send.{send_signed_transaction}
use cross_chain_router.Worker.Stable.{check_if_swap_nonce_has_passed}
use cross_chain_router.Text.Keyed.{store_at}
use cross_chain_router.Worker.Tasks.{get_from_to_chain_id_and_value}
use cross_chain_router.Worker.Reverify.{sign_failed}
use cross_chain_router.Worker.Swap.{forget_disagree, record_sent}

abbrev pub def_wait_time_to_replace : ℕ
def_wait_time_to_replace = 300

abbrev pub def_max_replace_count : ℕ
def_max_replace_count = 20

abbrev pub def_max_replace_distance : ℕ
def_max_replace_distance = 10

abbrev pub or_default : ℕ → ℕ → ℕ
or_default n default = if n == 0 then default else n

-- BuildTxArgs of ReplaceRouterSwap, less the swap info.
replace_args : MgoSwap → MgoSwapResult → Option ℤ → ℤ → ℤ → ℤ → Types.SwapInfo → BuildTxArgs
replace_args swap res gas_price from_chain to_chain value info = record {
  swap_info = info;
  swap_id = res.tx_id;
  swap_type = res.swap_type;
  bind = res.bind;
  log_index = res.log_index;
  from_chain_id = from_chain;
  to_chain_id = to_chain;
  reswapping = false;
  from = res.mpc;
  origin_from = swap.from;
  origin_tx_to = swap.tx_to;
  origin_value = some value;
  swap_value = none;
  extra = record {
    gas_price = gas_price;
    sequence = some res.swap_nonce;
    replace_num = or_default (length res.old_swap_txs) 1;
    ttl = none;
  };
}

module _ ⦃d : Driver⦄ where
  -- The blacklist branch of verifyReplaceSwap and verifyReswapSwap.
  unfoldable pub blacklist_result : {A : Type 0} → MgoSwapResult → Act (Db d.Store) A
  blacklist_result res s =
      (do
        let memo = sentinel_text err_swap_in_blacklist
        ignore (
            update_router_swap_status res.from_chain_id res.tx_id res.log_index swap_in_blacklist
              s.now memo)
        ignore (
            update_router_swap_result_status res.from_chain_id res.tx_id res.log_index
              swap_in_blacklist s.now memo)
        fail (sentinel err_swap_in_blacklist))
        s

  check_replace : Env d.Store → MgoSwapResult → Bool → MgoSwap → Act (Db d.Store) MgoSwap
  check_replace env res is_manual swap = do
    reject_if (not (swap.status == tx_processed))
        (new_error "cannot replace swap with status not equal to 'TxProcessed'")
    reject_if (is_empty res.swap_tx && not env.is_parallel_swap_enabled)
        (new_error "swap without swaptx")
    reject_if (res.swap_nonce == 0 && not is_manual) (new_error "swap nonce is zero")
    reject_if (not (res.status == match_tx_not_stable))
        (new_error "swap result status is not 'MatchTxNotStable'")
    reject_if (not (res.swap_height == 0) && not is_manual) (new_error "swaptx with block height")
    bridge ← lift (or_no_bridge (env.get_bridge res.to_chain_id))
    check_if_swap_nonce_has_passed env bridge res true
    pure swap

  -- verifyReplaceSwap
  unfoldable pub verify_replace_swap : Env d.Store → MgoSwapResult → Bool → Act (Db d.Store) MgoSwap
  unfolding check_replace
  verify_replace_swap env res is_manual = do
    swap ← find_router_swap res.from_chain_id res.tx_id res.log_index
    if is_blacked env swap then blacklist_result res else check_replace env res is_manual swap

module _ ⦃d : Driver⦄ ⦃t : TaskSet⦄ (env : Env d.Store) where
  build_replacement : MgoSwap → MgoSwapResult → Option ℤ → Act (World d.Store t.Tasks) Done
  unfolding replace_args
  build_replacement swap res gas_price = do
    bridge ← lift (or_no_bridge (env.get_bridge res.to_chain_id))
    mpc ← lift (env.get_router_mpc (get_token_id swap.swap_info) res.to_chain_id)
    reject_if (not (equal_fold res.mpc mpc)) (sentinel err_sender_mismatch)
    (from_chain, to_chain, value) ←
        lift (get_from_to_chain_id_and_value res.from_chain_id res.to_chain_id res.value)
    ignore (on_db (update_swap_timestamp res.from_chain_id res.tx_id res.log_index))
    info ← lift (convert_from_swap_info swap.swap_info)
    (raw, args) ← on_db (
        bridge.build_raw_transaction
          (replace_args swap res gas_price from_chain to_chain value info))
    λ w. (ok tt, record w { spawned = w.spawned ++ sign_and_send_replace raw args res ∷ [] })

  -- ReplaceRouterSwap
  unfoldable pub replace_router_swap :
      MgoSwapResult → Option ℤ → Bool → Act (World d.Store t.Tasks) Done
  unfolding build_replacement
  replace_router_swap res gas_price is_manual = do
    reject_if (not (env.is_nonce_supported res.to_chain_id)) (sentinel err_nonce_not_support)
    swap ← on_db (verify_replace_swap env res is_manual)
    build_replacement swap res gas_price

  send_replacement :
      Bridge (Db d.Store)
      → BuildTxArgs
      → MgoSwapResult
      → Text × Text
      → Act (World d.Store t.Tasks) Done
  send_replacement bridge args res (signed, hash) = do
    forget_disagree (get_router_swap_key res.from_chain_id res.tx_id res.log_index)
    on_db (update_router_old_swap_txs res.from_chain_id res.tx_id res.log_index hash)
    sent ← attempt (send_signed_transaction env bridge args signed)
    ignore (record_sent res.from_chain_id res.tx_id res.log_index hash sent)

  -- signAndSendReplaceTx
  unfoldable pub sign_and_send_replace_tx :
      Bridge (Db d.Store) → Text → BuildTxArgs → MgoSwapResult → Act (World d.Store t.Tasks) Done
  unfolding send_replacement
  sign_and_send_replace_tx bridge raw args res = elim (bridge.mpc_sign_transaction raw args) [
    | err e ↦ sign_failed env args e
    | ok signed ↦ send_replacement bridge args res signed
  ]

  -- checkAndRecycleSwapNonce
  unfoldable pub check_and_recycle_swap_nonce : MgoSwapResult → Act (World d.Store t.Tasks) Done
  check_and_recycle_swap_nonce res =
      if not env.is_parallel_swap_enabled
      then pure tt
      else ignore (do
        swap ← on_db (verify_replace_swap env res false)
        bridge ← lift (or_no_bridge (env.get_bridge res.to_chain_id))
        elim bridge.get_pool_nonce [
          | none ↦ pure tt
          | some n ↦ if res.swap_nonce == 0 || is_empty res.mpc then pure tt else λ w.
              (ok tt, record w { sent = w.sent ++ recycle_nonce res.mpc res.swap_nonce ∷ [] })
        ])

  or_empty : Option (List MgoSwapResult) → List MgoSwapResult
  or_empty none = []
  or_empty (some q) = q

  enqueue_replace : MgoSwapResult → Act (World d.Store t.Tasks) Done
  unfolding or_empty
  enqueue_replace res w = (
    ok tt,
    record w {
      replace_task_queue =
          store_at res.to_chain_id
            (some (or_empty (w.replace_task_queue res.to_chain_id) ++ res ∷ []))
            w.replace_task_queue;
      replace_tasks_in_queue = t.add w.replace_tasks_in_queue res.key;
    },
  )

  near_latest : MgoSwapResult → Result ℕ → Act (World d.Store t.Tasks) Done
  unfolding enqueue_replace
  near_latest res (err e) = pure tt
  near_latest res (ok nonce) =
      if ltb ((nonce + or_default env.max_replace_distance def_max_replace_distance) % 2 ^ 64)
        res.swap_nonce
      then pure tt
      else enqueue_replace res

  -- dispatchSwapResultToReplace
  unfoldable pub dispatch_swap_result_to_replace : MgoSwapResult → Act (World d.Store t.Tasks) Done
  unfolding near_latest
  dispatch_swap_result_to_replace res w =
      (if ltb (or_default env.max_replace_count def_max_replace_count) (length res.old_swap_txs)
          then check_and_recycle_swap_nonce res
          else if not (is_empty res.swap_tx)
              && ltb
                  (get_sep_time_in_find w.db.now
                    (or_default env.wait_time_to_replace def_wait_time_to_replace))
                  res.timestamp
          then pure tt
          else if not (env.is_nonce_supported res.to_chain_id)
          then pure tt
          else (do
            bridge ← lift (or_no_bridge (env.get_bridge res.to_chain_id))
            elim bridge.get_pool_nonce [
              | none ↦ pure tt
              | some get_pool_nonce ↦ near_latest res (get_pool_nonce res.mpc)
            ]))
        w
