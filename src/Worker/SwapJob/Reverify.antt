-- ===== src/Worker/SwapJob/Reverify.antt =====
-- What becomes of a swap whose verification fails the second time.
use cross_chain_router.Prelude.{ℕ, ◌≡◌, ap, ◌∙◌, true, false, arith, [], ◌∷◌, some}
use cross_chain_router.Text.{Text}
use cross_chain_router.Text.Number.{format_int}
use cross_chain_router.Tokens.Errors.{Error, ok}
use cross_chain_router.Tokens.Types.{BuildTxArgs}
use cross_chain_router.Tokens.Bridge.{Bridge}
use cross_chain_router.Mongo.Driver.{Driver, IsDocumented, found}
use cross_chain_router.Mongo.Db.{Db, set_result}
use cross_chain_router.Mongo.Key.{get_router_swap_key}
use cross_chain_router.Mongo.Status.{tx_not_stable}
use cross_chain_router.Mongo.Tables.{MgoSwap, MgoSwapResult}
use cross_chain_router.Mongo.Swaps.Frame.{set_result-find_swap}
use cross_chain_router.Mongo.Results.{set_result_status}
use cross_chain_router.Mongo.Results.Nonce.{set_result-find}
use cross_chain_router.Worker.State.{TaskSet, Env, World}
use cross_chain_router.Worker.History.{is_non_empty, is_pending_swap_status}
use cross_chain_router.Worker.Tasks.{is_ignored, swap_key}
use cross_chain_router.Worker.Reverify.{reverify_swap}
use cross_chain_router.Worker.Reverify.Outcome.{reverify_swap-result}
use cross_chain_router.Worker.SwapJob.{swap_producer_round}
use cross_chain_router.Worker.SwapJob.Once.{IsPaid, swap_producer_round-IsPaid}

module _ ⦃d : Driver⦄ (lawful : IsDocumented d) ⦃t : TaskSet⦄ (env : Env d.Store) where
  set_result_status-paid :
      (now : ℕ) (memo : Text) (r : MgoSwapResult)
      → is_non_empty (set_result_status tx_not_stable now memo r) ≡ true
  unfolding is_non_empty set_result_status is_pending_swap_status
  set_result_status-paid now memo r = ground arith

  -- reverifySwap, where the verification fails for good and the result is written: it changes no swap,
  -- since the database forbids TxNotStable, and the result it leaves counts as a payout. So the next
  -- round of startSwapProducer over this swap queues no task, though nothing has been paid.
  pub reverify_swap-lost :
      (args : BuildTxArgs) (bridge : Bridge (Db d.Store)) (w : World d.Store t.Tasks)
      (r : MgoSwapResult) (e : Error) (swap : MgoSwap)
      → d.find_result w.db.store (swap_key args) ≡ found r
      → is_pending_swap_status r.status ≡ true
      → env.get_bridge (format_int args.from_chain_id) ≡ some bridge
      → (bridge.verify_transaction args.swap_id args.swap_type args.log_index).1 ≡ some e
      → is_ignored (some e) ≡ false
      → (set_result (swap_key args) (set_result_status tx_not_stable w.db.now e.message) w.db).0
        ≡ ok tt
      → get_router_swap_key swap.from_chain_id swap.tx_id swap.log_index ≡ swap_key args
      → let v = (reverify_swap env args w).1 in
        ((j : Text) → d.find_swap v.db.store j ≡ d.find_swap w.db.store j)
        × ((swap_producer_round env (swap ∷ []) v).1.swap_task_queue ≡ v.swap_task_queue)
  reverify_swap-lost args bridge w r e swap h q b c i a k =
      let f = set_result_status tx_not_stable w.db.now e.message in
      let same = reverify_swap-result env args bridge w r e h q b c i in
      let v = (reverify_swap env args w).1 in
      let paid : IsPaid v.db (get_router_swap_key swap.from_chain_id swap.tx_id swap.log_index) =
        rw k (
          rw same (
            rw (set_result-find lawful (swap_key args) f w.db r h a)
              (set_result_status-paid w.db.now e.message r))) in
      (
        λ j.
            ap (λ (s : Db d.Store). d.find_swap s.store j) same
            ∙ set_result-find_swap lawful (swap_key args) j f w.db,
        (swap_producer_round-IsPaid lawful env (swap ∷ []) v (paid, tt)).0,
      )
