-- ===== src/Worker/Swap.antt =====
-- worker/swap.go: the job that pays a verified swap out.
pub mod Twice
pub mod Payout
use cross_chain_router.Prelude.{
  ℕ, suc, ◌+◌, ◌%◌, ◌^◌, Bool, true, false, not, ◌&&◌, ◌||◌, Option, none, some, List, [], ◌∷◌,
  ◌++◌, ltb, leb, ◌==◌, if◌then◌else◌,
}
use cross_chain_router.Prelude.Int.{ℤ}
use cross_chain_router.Text.{Text, text_eq, has_prefix}
use cross_chain_router.Text.Number.{format_int, parse_big256}
use cross_chain_router.Tokens.Errors.{
  Error, Sentinel, Result, ok, err, Done, new_error, sentinel, sentinel_text,
  err_build_tx_error_and_delay, err_get_sign_status_has_disagree, err_tx_not_stable,
  err_rpc_query_error, err_nil_swap_value, err_already_swapped, err_chain_is_paused,
  err_swap_in_blacklist, err_item_not_found, runtime_panic,
}
use cross_chain_router.Tokens.Types
use cross_chain_router.Tokens.Types.{BuildTxArgs, SwapTxInfo, get_tx_nonce, is_valid_type}
use cross_chain_router.Tokens.Bridge.{Bridge}
use cross_chain_router.Effect.{
  Act, pure, fail, gets, lift, attempt, continue, ◌>>=◌, ◌>>◌, ignore, reject_if,
}
use cross_chain_router.Mongo.Driver.{Driver}
use cross_chain_router.Mongo.Db.{Db}
use cross_chain_router.Mongo.Key.{get_router_swap_key}
use cross_chain_router.Mongo.Status.{
  SwapStatus, tx_not_stable, tx_processed, swap_in_blacklist, reswapping,
}
use cross_chain_router.Mongo.Tables.{MgoSwap, MgoSwapResult, get_token_id}
use cross_chain_router.Mongo.Swaps.{find_router_swap_result, update_router_swap_status}
use cross_chain_router.Mongo.Results.{update_router_swap_result_status, update_router_old_swap_txs}
use cross_chain_router.Mongo.Converts.{convert_from_swap_info}
use cross_chain_router.Worker.State.{
  TaskSet, Env, World, DisagreeRecord, as_uint64, as_int, SwapHistory, Spawned, sign_and_send,
  on_db, or_no_bridge, is_blacked,
}
use cross_chain_router.Worker.Update.{
  MatchTx, no_match, update_match, update_swap_memo, update_swap_tx,
}
use cross_chain_router.Worker.Send.{send_signed_transaction}
use cross_chain_router.Worker.History.{add_swap_history, prevent_reswap, is_pending_swap_status}
use cross_chain_router.Text.Keyed.{store_at}
use cross_chain_router.Worker.Tasks.{
  max_disagree_count, disagree_wait_interval, max_cached_swap_tasks, or_wrong,
  get_from_to_chain_id_and_value, is_build_delay, is_disagree, is_ignored, load_disagree, swap_key,
  still_pending, check_and_update_process_swap_task_cache, uncache_on_error,
}
use cross_chain_router.Worker.Reverify.{count_disagree, mark_unstable, reverify_swap, sign_failed}

module _ ⦃d : Driver⦄ ⦃t : TaskSet⦄ where
  -- After a failed BuildRawTransaction.
  build_failed : {A : Type 0} → BuildTxArgs → Error → Act (World d.Store t.Tasks) A
  unfolding is_build_delay
  build_failed args e = do
    ignore (
        if is_build_delay e
        then on_db
            (update_swap_memo (format_int args.from_chain_id) args.swap_id args.log_index e.message)
        else pure tt)
    fail e

  build_tx : Bridge (Db d.Store) → BuildTxArgs → Act (World d.Store t.Tasks) (Text × BuildTxArgs)
  unfolding build_failed
  build_tx bridge args = do
    built ← attempt (on_db (bridge.build_raw_transaction args))
    elim built [ err e ↦ build_failed args e | ok b ↦ pure b ]

  sign_tx :
      Env d.Store
      → Bridge (Db d.Store)
      → Text × BuildTxArgs
      → Act (World d.Store t.Tasks) (Text × Text × BuildTxArgs)
  sign_tx env bridge (raw, args) = elim (bridge.mpc_sign_transaction raw args) [
    | err e ↦ sign_failed env args e
    | ok (signed, hash) ↦ pure (signed, hash, args)
  ]

  -- disagreeRecords.Delete(cacheKey)
  unfoldable pub forget_disagree : Text → Act (World d.Store t.Tasks) Done
  forget_disagree key w =
      (ok tt, record w { disagree_records = store_at key none w.disagree_records })

  -- addSwapHistory
  unfoldable pub remember : Text → Text → ℕ → Text → Act (World d.Store t.Tasks) Done
  remember from_chain_id tx_id log_index hash w = (
    ok tt,
    record w {
      swap_ring =
          add_swap_history
            (record {
              chain_id = from_chain_id;
              tx_id = tx_id;
              log_index = log_index;
              match_tx = hash;
            })
            w.swap_ring;
    },
  )

  or_nil_value : Option ℤ → Act (World d.Store t.Tasks) ℤ
  or_nil_value none = fail (sentinel err_nil_swap_value)
  or_nil_value (some v) = pure v

  -- The second look at the result, and the update of the database.
  commit_swap : BuildTxArgs → BuildTxArgs → ℤ → Text → Act (World d.Store t.Tasks) Done
  commit_swap args built swap_value hash = do
    let from_chain_id = format_int args.from_chain_id
    forget_disagree (swap_key args)
    res ← on_db (find_router_swap_result from_chain_id args.swap_id args.log_index)
    prevent_reswap res
    remember from_chain_id args.swap_id args.log_index hash
    on_db (
        update_match from_chain_id args.swap_id args.log_index (record no_match {
          swap_tx = hash;
          swap_nonce = get_tx_nonce built;
          swap_value = format_int swap_value;
          mpc = built.from;
          ttl = elim built.extra.ttl [ none ↦ 0 | some n ↦ n ];
        }))

  commit_signed :
      BuildTxArgs
      → BuildTxArgs
      → ℤ
      → Text × Text × BuildTxArgs
      → Act (World d.Store t.Tasks) (Text × Text × BuildTxArgs)
  unfolding commit_swap
  commit_signed args built swap_value (signed, hash, args') = do
    commit_swap args built swap_value hash
    pure (signed, hash, args')

  sign_value :
      Env d.Store
      → Bridge (Db d.Store)
      → BuildTxArgs
      → Text × BuildTxArgs
      → ℤ
      → Act (World d.Store t.Tasks) (Text × Text × BuildTxArgs)
  unfolding sign_tx commit_signed
  sign_value env bridge args built swap_value = do
    signed ← sign_tx env bridge built
    commit_signed args built.1 swap_value signed

  sign_swap :
      Env d.Store
      → Bridge (Db d.Store)
      → BuildTxArgs
      → Text × BuildTxArgs
      → Act (World d.Store t.Tasks) (Text × Text × BuildTxArgs)
  unfolding or_nil_value sign_value
  sign_swap env bridge args built = do
    swap_value ← or_nil_value built.1.swap_value
    sign_value env bridge args built swap_value

  -- doSwap from the bridge to the database, which is updated before anything is sent.
  prepare_swap :
      Env d.Store
      → Bridge (Db d.Store)
      → BuildTxArgs
      → Act (World d.Store t.Tasks) (Text × Text × BuildTxArgs)
  unfolding build_tx sign_swap
  prepare_swap env bridge args = do built ← build_tx bridge args; sign_swap env bridge args built

  -- A transaction that was sent under another hash is added to the old ones.
  unfoldable pub record_sent :
      Text → Text → ℕ → Text → Result Text → Act (World d.Store t.Tasks) Done
  record_sent from_chain_id tx_id log_index hash (err e) = fail e
  record_sent from_chain_id tx_id log_index hash (ok sent) =
      if not (text_eq hash sent)
      then ignore (on_db (update_router_old_swap_txs from_chain_id tx_id log_index sent))
      else pure tt

  send_and_record :
      Env d.Store
      → Bridge (Db d.Store)
      → Text × Text × BuildTxArgs
      → Act (World d.Store t.Tasks) Done
  send_and_record env bridge (signed, hash, args) = do
    sent ← attempt (send_signed_transaction env bridge args signed)
    record_sent (format_int args.from_chain_id) args.swap_id args.log_index hash sent

  -- doSwap after the database is updated.
  finish_swap :
      Env d.Store
      → Bridge (Db d.Store)
      → Text × Text × BuildTxArgs
      → Act (World d.Store t.Tasks) Done
  unfolding send_and_record
  finish_swap env bridge (signed, hash, args) w =
      (do
        on_db (
            update_router_swap_status (format_int args.from_chain_id) args.swap_id args.log_index
              tx_processed w.db.now [])
        send_and_record env bridge (signed, hash, args))
        w

  prepare_with :
      Env d.Store
      → BuildTxArgs
      → Bridge (Db d.Store)
      → Act (World d.Store t.Tasks) (Bridge (Db d.Store) × (Text × Text × BuildTxArgs))
  unfolding prepare_swap
  prepare_with env args bridge = do prepared ← prepare_swap env bridge args; pure (bridge, prepared)

  prepare_at_bridge :
      Env d.Store
      → BuildTxArgs
      → Act (World d.Store t.Tasks) (Bridge (Db d.Store) × (Text × Text × BuildTxArgs))
  unfolding prepare_with
  prepare_at_bridge env args = do
    bridge ← lift (or_no_bridge (env.get_bridge (format_int args.to_chain_id)))
    prepare_with env args bridge

  try_prepare :
      Env d.Store
      → BuildTxArgs
      → Act (World d.Store t.Tasks) (Bridge (Db d.Store) × (Text × Text × BuildTxArgs))
  unfolding prepare_at_bridge
  try_prepare env args w = uncache_on_error (swap_key args) (prepare_at_bridge env args w)

  finish_at :
      Env d.Store
      → Bridge (Db d.Store) × (Text × Text × BuildTxArgs)
      → Act (World d.Store t.Tasks) Done
  unfolding finish_swap
  finish_at env (bridge, prepared) = finish_swap env bridge prepared

  -- doSwapParallel: the swap is signed and sent by a goroutine of its own.
  unfoldable pub do_swap_parallel : Env d.Store → BuildTxArgs → Act (World d.Store t.Tasks) Done
  unfolding build_tx swap_key
  do_swap_parallel env args = do
    check_and_update_process_swap_task_cache (swap_key args)
    (raw, built) ← λ w. uncache_on_error (swap_key args) (
        (do
          bridge ← lift (or_no_bridge (env.get_bridge (format_int args.to_chain_id)))
          build_tx bridge args)
          w)
    λ w. (ok tt, record w { spawned = w.spawned ++ sign_and_send raw built ∷ [] })

  -- doSwap
  unfoldable pub do_swap : Env d.Store → BuildTxArgs → Act (World d.Store t.Tasks) Done
  unfolding try_prepare finish_at swap_key
  do_swap env args = if env.is_parallel_swap_enabled then do_swap_parallel env args else do
    check_and_update_process_swap_task_cache (swap_key args)
    prepared ← try_prepare env args
    finish_at env prepared

  sign_and_send_at :
      Env d.Store → Bridge (Db d.Store) → Text → BuildTxArgs → Act (World d.Store t.Tasks) Done
  unfolding sign_tx
  sign_and_send_at env bridge raw args = do
    let from_chain_id = format_int args.from_chain_id
    (signed, hash, args') ← sign_tx env bridge (raw, args)
    forget_disagree (swap_key args)
    remember from_chain_id args.swap_id args.log_index hash
    ignore (on_db (update_swap_tx from_chain_id args.swap_id args.log_index hash))
    sent ← attempt (send_signed_transaction env bridge args' signed)
    record_sent from_chain_id args.swap_id args.log_index hash sent

  -- signAndSendTx. A bridge that has gone since is a nil dereference.
  unfoldable pub sign_and_send_tx :
      Env d.Store → Text → BuildTxArgs → Act (World d.Store t.Tasks) Done
  unfolding sign_and_send_at
  sign_and_send_tx env raw args = elim (env.get_bridge (format_int args.to_chain_id)) [
    | none ↦ fail (sentinel runtime_panic)
    | some bridge ↦ sign_and_send_at env bridge raw args
  ]
