-- ===== src/Worker/SwapJob/Recount.antt =====
-- The count of disagreements, once it is to start anew.
use cross_chain_router.Prelude.{ℕ, ◌+◌, ◌<◌, ◌≤◌, ◌≡◌, ap, ◌∙◌, false, ◌||◌, arith, some}
use cross_chain_router.Text.{has_prefix}
use cross_chain_router.Text.Equality.{text_eq_refl}
use cross_chain_router.Tokens.Errors.{
  Result, err, Done, sentinel, sentinel_text, runtime_panic, err_build_tx_error_and_delay,
}
use cross_chain_router.Tokens.Types.{BuildTxArgs}
use cross_chain_router.Mongo.Driver.{Driver, found}
use cross_chain_router.Mongo.Db.{read_reply}
use cross_chain_router.Mongo.Key.{get_router_swap_key}
use cross_chain_router.Mongo.Tables.{MgoSwap, MgoSwapResult}
use cross_chain_router.Mongo.Swaps.{find_router_swap_result}
use cross_chain_router.Worker.State.{TaskSet, Env, World, as_uint64, as_int, is_blacked}
use cross_chain_router.Worker.History.Guard.{prevent_reswap-frame}
use cross_chain_router.Text.Keyed.{store_at}
use cross_chain_router.Worker.Tasks.{max_disagree_count, disagree_wait_interval, load_disagree}
use cross_chain_router.Worker.SwapJob.{
  build_task, wait_or_build, process_found, recounted, process_router_swap, dispatch_swap_task,
  enqueue,
}

module _ ⦃d : Driver⦄ ⦃t : TaskSet⦄ (env : Env d.Store) where
  dispatch_swap_task-disagree :
      (args : BuildTxArgs) (w : World d.Store t.Tasks)
      → (dispatch_swap_task env args w).1.disagree_records ≡ w.disagree_records
  unfolding dispatch_swap_task enqueue
  dispatch_swap_task-disagree args w = ground arith

  build_task-disagree :
      (swap : MgoSwap) (r : MgoSwapResult) (w : World d.Store t.Tasks)
      → (build_task env swap r w).1.disagree_records ≡ w.disagree_records
  unfolding build_task dispatch_swap_task enqueue
  build_task-disagree swap r w =
      ground
        (arith, ap (λ (x : World d.Store t.Tasks). x.disagree_records) (prevent_reswap-frame r w))

  module _ (swap : MgoSwap) where
    -- The job comes as far as the count: no chain is paused, the swap is neither cached nor black
    -- listed, its result is stored, and no delay is noted in it.
    abbrev pub IsDue : World d.Store t.Tasks → MgoSwapResult → Type 0
    IsDue w r =
        ((env.is_chain_id_paused swap.from_chain_id || env.is_chain_id_paused swap.to_chain_id)
          ≡ false)
        × (t.contains w.cached_swap_tasks swap.key ≡ false)
        × (is_blacked env swap ≡ false)
        × (d.find_result w.db.store
              (get_router_swap_key swap.from_chain_id swap.tx_id swap.log_index)
            ≡ found r)
        × (has_prefix r.memo (sentinel_text err_build_tx_error_and_delay) ≡ false)

    process_router_swap-found :
        (w : World d.Store t.Tasks) (r : MgoSwapResult)
        → IsDue w r
        → process_router_swap env swap w ≡ process_found env swap r w
    unfolding process_router_swap find_router_swap_result read_reply
    process_router_swap-found w r h = ground arith

    process_found-recount :
        (w : World d.Store t.Tasks) (r : MgoSwapResult) (n : ℕ)
        → has_prefix r.memo (sentinel_text err_build_tx_error_and_delay) ≡ false
        → w.disagree_records (get_router_swap_key swap.from_chain_id swap.tx_id swap.log_index)
          ≡ some (as_uint64 n)
        → max_disagree_count < n
        → r.timestamp + disagree_wait_interval ≤ w.db.now
        → (process_found env swap r w).1.disagree_records
            (get_router_swap_key swap.from_chain_id swap.tx_id swap.log_index)
          ≡ some (as_int 0)
    unfolding process_found wait_or_build load_disagree recounted store_at
    process_found-recount w r n m c h l =
        let key = get_router_swap_key swap.from_chain_id swap.tx_id swap.log_index in
        ground (arith, build_task-disagree swap r (recounted env key w), text_eq_refl key)

    process_found-panic :
        (w : World d.Store t.Tasks) (r : MgoSwapResult) (n : ℕ)
        → has_prefix r.memo (sentinel_text err_build_tx_error_and_delay) ≡ false
        → w.disagree_records (get_router_swap_key swap.from_chain_id swap.tx_id swap.log_index)
          ≡ some (as_int n)
        → process_found env swap r w ≡ (err (sentinel runtime_panic), w)
    unfolding process_found load_disagree
    process_found-panic w r n m h = ground arith

    -- A swap that has met more than ten disagreements and has waited is counted anew from the int 0. As
    -- long as that record stands, the job panics whenever it comes to the count of this swap again.
    pub process_router_swap-panic :
        (w v : World d.Store t.Tasks) (r q : MgoSwapResult) (n : ℕ)
        → IsDue w r
        → w.disagree_records (get_router_swap_key swap.from_chain_id swap.tx_id swap.log_index)
          ≡ some (as_uint64 n)
        → max_disagree_count < n
        → r.timestamp + disagree_wait_interval ≤ w.db.now
        → v.disagree_records ≡ (process_router_swap env swap w).1.disagree_records
        → IsDue v q
        → process_router_swap env swap v ≡ (err (sentinel runtime_panic), v)
    process_router_swap-panic w v r q n h c l p e g =
        let key = get_router_swap_key swap.from_chain_id swap.tx_id swap.log_index in
        process_router_swap-found v q g
        ∙ process_found-panic v q 0 g.4 (
            ap (λ f. f key) e
            ∙ ap (λ (x : Result Done × World d.Store t.Tasks). x.1.disagree_records key)
                (process_router_swap-found w r h)
            ∙ process_found-recount w r n h.4 c l p)
