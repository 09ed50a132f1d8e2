-- ===== src/Worker/Reverify/Outcome.antt =====
-- What becomes of a swap whose verification fails the second time.
use cross_chain_router.Prelude.{◌≡◌, true, false, arith, some}
use cross_chain_router.Text.Number.{format_int}
use cross_chain_router.Tokens.Errors.{Error}
use cross_chain_router.Tokens.Types.{BuildTxArgs}
use cross_chain_router.Tokens.Bridge.{Bridge}
use cross_chain_router.Mongo.Driver.{Driver, found}
use cross_chain_router.Mongo.Db.{Db, read_reply, set_result}
use cross_chain_router.Mongo.Status.{tx_not_stable}
use cross_chain_router.Mongo.Tables.{MgoSwapResult}
use cross_chain_router.Mongo.Swaps.{find_router_swap_result, update_router_swap_status}
use cross_chain_router.Mongo.Results.{set_result_status, update_router_swap_result_status}
use cross_chain_router.Worker.State.{TaskSet, Env, World}
use cross_chain_router.Worker.History.{is_pending_swap_status}
use cross_chain_router.Worker.Tasks.{still_pending, is_ignored, swap_key}
use cross_chain_router.Worker.Reverify.{reverify_swap, mark_unstable, count_disagree}

module _ ⦃d : Driver⦄ ⦃t : TaskSet⦄ (env : Env d.Store) where
  pub reverify_swap-result :
      (args : BuildTxArgs) (bridge : Bridge (Db d.Store)) (w : World d.Store t.Tasks)
      (r : MgoSwapResult) (e : Error)
      → d.find_result w.db.store (swap_key args) ≡ found r
      → is_pending_swap_status r.status ≡ true
      → env.get_bridge (format_int args.from_chain_id) ≡ some bridge
      → (bridge.verify_transaction args.swap_id args.swap_type args.log_index).1 ≡ some e
      → is_ignored (some e) ≡ false
      → (reverify_swap env args w).1.db
        ≡ (set_result (swap_key args) (set_result_status tx_not_stable w.db.now e.message) w.db).1
  unfolding reverify_swap mark_unstable count_disagree still_pending swap_key
      find_router_swap_result read_reply update_router_swap_status update_router_swap_result_status
  reverify_swap-result args bridge w r e h q b v i = ground arith
