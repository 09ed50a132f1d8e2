-- ===== src/Worker/PassBigValue.antt =====
-- worker/passbigvalue.go: a swap of big value is passed on by itself after twelve hours.
use cross_chain_router.Prelude.{ℕ, ◌*◌, not, Option, none, some, ltb, ◌==◌, if◌then◌else◌}
use cross_chain_router.Tokens.Errors.{
  Error, Result, ok, err, Done, sentinel, err_no_bridge_for_chain_id, runtime_panic,
}
use cross_chain_router.Tokens.Types.{SwapTxInfo}
use cross_chain_router.Effect.{Act, pure, fail, attempt, ◌>>=◌, ◌>>◌, ignore}
use cross_chain_router.Mongo.Driver.{Driver}
use cross_chain_router.Mongo.Db.{Db}
use cross_chain_router.Mongo.Status.{tx_with_big_value, match_tx_empty}
use cross_chain_router.Mongo.Tables.{MgoSwap, MgoSwapResult}
use cross_chain_router.Mongo.Swaps.{find_router_swap_result}
use cross_chain_router.Mongo.Admin.{router_admin_pass_big_value}
use cross_chain_router.Worker.State.{Env, get_sep_time_in_find}
use cross_chain_router.Worker.Update.{add_initial_swap_result}

abbrev pub pass_big_value_time_required : ℕ
pass_big_value_time_required = 12 * 3600

abbrev pub min_time_interval_to_pass_big_value : ℕ
min_time_interval_to_pass_big_value = 300

module _ ⦃d : Driver⦄ (env : Env d.Store) (swap : MgoSwap) where
  -- After RouterAdminPassBigValue a nil swapInfo is dereferenced.
  pass_verified : Option SwapTxInfo × Option Error → Act (Db d.Store) Done
  pass_verified (info, some e) = fail e
  pass_verified (none, none) = do
    router_admin_pass_big_value swap.from_chain_id swap.tx_id swap.log_index
    fail (sentinel runtime_panic)
  pass_verified (some info, none) = do
    router_admin_pass_big_value swap.from_chain_id swap.tx_id swap.log_index
    ignore (add_initial_swap_result info match_tx_empty)

  pass_without_result : Result MgoSwapResult → Act (Db d.Store) Done
  unfolding pass_verified
  pass_without_result (ok res) = pure tt
  pass_without_result (err e) = elim (env.get_bridge swap.from_chain_id) [
    | none ↦ fail (sentinel err_no_bridge_for_chain_id)
    | some bridge ↦
        pass_verified (bridge.verify_transaction swap.tx_id swap.swap_type swap.log_index)
  ]

  -- processPassBigValRouterSwap
  unfoldable pub process_pass_big_val_router_swap : Act (Db d.Store) Done
  unfolding pass_without_result
  process_pass_big_val_router_swap s =
      (if not (swap.status == tx_with_big_value)
          then pure tt
          else if ltb (get_sep_time_in_find s.now pass_big_value_time_required * 1000)
              swap.init_time
          then pure tt
          else if ltb (get_sep_time_in_find s.now min_time_interval_to_pass_big_value)
              swap.timestamp
          then pure tt
          else (attempt (find_router_swap_result swap.from_chain_id swap.tx_id swap.log_index)
              >>= pass_without_result))
        s
