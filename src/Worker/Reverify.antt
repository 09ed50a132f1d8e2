-- ===== src/Worker/Reverify.antt =====
-- reverifySwap of worker/swap.go: what follows when the signers disagree.
pub mod Outcome
use cross_chain_router.Prelude.{
  ℕ, suc, ◌+◌, ◌%◌, ◌^◌, Bool, true, false, not, ◌&&◌, ◌||◌, Option, none, some, List, [], ◌∷◌,
  ◌++◌, ltb, leb, ◌==◌, if◌then◌else◌,
}
use cross_chain_router.Prelude.Int.{ℤ}
use cross_chain_router.Text.{Text, text_eq, has_prefix}
use cross_chain_router.Text.Number.{format_int, parse_big256}
use cross_chain_router.Tokens.Errors.{
  Error, Sentinel, Result, ok, err, Done, new_error, sentinel, sentinel_text,
  err_build_tx_error_and_delay, err_get_sign_status_has_disagree, err_tx_not_stable,
  err_rpc_query_error, err_nil_swap_value, err_already_swapped, err_chain_is_paused,
  err_swap_in_blacklist, err_item_not_found, runtime_panic,
}
use cross_chain_router.Tokens.Types
use cross_chain_router.Tokens.Types.{BuildTxArgs, SwapTxInfo, get_tx_nonce, is_valid_type}
use cross_chain_router.Tokens.Bridge.{Bridge}
use cross_chain_router.Effect.{
  Act, pure, fail, gets, lift, attempt, continue, ◌>>=◌, ◌>>◌, ignore, reject_if,
}
use cross_chain_router.Mongo.Driver.{Driver}
use cross_chain_router.Mongo.Db.{Db}
use cross_chain_router.Mongo.Key.{get_router_swap_key}
use cross_chain_router.Mongo.Status.{
  SwapStatus, tx_not_stable, tx_processed, swap_in_blacklist, reswapping,
}
use cross_chain_router.Mongo.Tables.{MgoSwap, MgoSwapResult, get_token_id}
use cross_chain_router.Mongo.Swaps.{find_router_swap_result, update_router_swap_status}
use cross_chain_router.Mongo.Results.{update_router_swap_result_status, update_router_old_swap_txs}
use cross_chain_router.Mongo.Converts.{convert_from_swap_info}
use cross_chain_router.Worker.State.{
  TaskSet, Env, World, DisagreeRecord, as_uint64, as_int, SwapHistory, Spawned, sign_and_send,
  on_db, or_no_bridge, is_blacked,
}
use cross_chain_router.Worker.Update.{
  MatchTx, no_match, update_match, update_swap_memo, update_swap_tx,
}
use cross_chain_router.Worker.Send.{send_signed_transaction}
use cross_chain_router.Worker.History.{add_swap_history, prevent_reswap, is_pending_swap_status}
use cross_chain_router.Text.Keyed.{store_at}
use cross_chain_router.Worker.Tasks.{
  max_disagree_count, disagree_wait_interval, max_cached_swap_tasks, or_wrong,
  get_from_to_chain_id_and_value, is_build_delay, is_disagree, is_ignored, load_disagree, swap_key,
  still_pending, check_and_update_process_swap_task_cache, uncache_on_error,
}

module _ ⦃d : Driver⦄ ⦃t : TaskSet⦄ where
  unfoldable pub count_disagree : Text → Act (World d.Store t.Tasks) Done
  count_disagree key w = elim (load_disagree (w.disagree_records key)) [
    | err e ↦ (err e, w)
    | ok n ↦ (
      ok tt,
      record w {
        disagree_records = store_at key (some (as_uint64 ((n + 1) % 2 ^ 64))) w.disagree_records;
      },
    )
  ]

  unfoldable pub mark_unstable : BuildTxArgs → Option Error → Act (World d.Store t.Tasks) Done
  mark_unstable args none w = (ok tt, w)
  mark_unstable args (some e) w =
      (do
        ignore (
            on_db (
              update_router_swap_status (format_int args.from_chain_id) args.swap_id args.log_index
                tx_not_stable w.db.now []))
        ignore (
            on_db (
              update_router_swap_result_status (format_int args.from_chain_id) args.swap_id
                args.log_index tx_not_stable w.db.now e.message)))
        w

  -- reverifySwap
  unfoldable pub reverify_swap : Env d.Store → BuildTxArgs → Act (World d.Store t.Tasks) Done
  unfolding count_disagree mark_unstable is_ignored still_pending swap_key
  reverify_swap env args = do
    res ← attempt (
        on_db (find_router_swap_result (format_int args.from_chain_id) args.swap_id args.log_index))
    if not (still_pending res)
        then pure tt
        else (elim (env.get_bridge (format_int args.from_chain_id)) [
          | none ↦ pure tt
          | some bridge ↦
              (let e = (bridge.verify_transaction args.swap_id args.swap_type args.log_index).1 in
                (if is_ignored e then pure tt else mark_unstable args e)
                >> count_disagree (swap_key args))
        ])

  -- After a failed MPCSignTransaction.
  unfoldable pub sign_failed :
      {A : Type 0} → Env d.Store → BuildTxArgs → Error → Act (World d.Store t.Tasks) A
  sign_failed env args e = do if is_disagree e then reverify_swap env args else pure tt; fail e
