-- ===== src/Worker/SwapJob.antt =====
-- worker/swap.go: from a registered swap to a task in the queue of its chain, and from the queue to
-- doSwap.
pub mod Once
pub mod Reverify
pub mod Recount
use cross_chain_router.Prelude.{
  ℕ, ◌+◌, Bool, true, false, not, ◌&&◌, ◌||◌, Option, none, some, List, [], ◌∷◌, ◌++◌, ltb, ◌==◌,
  if◌then◌else◌,
}
use cross_chain_router.Prelude.Int.{ℤ}
use cross_chain_router.Text.{Text, text_eq, has_prefix}
use cross_chain_router.Text.Number.{format_int}
use cross_chain_router.Tokens.Errors.{
  Error, Result, ok, err, Done, new_error, sentinel, sentinel_text, err_build_tx_error_and_delay,
  err_already_swapped, err_chain_is_paused, err_swap_in_blacklist, err_item_not_found,
  runtime_panic,
}
use cross_chain_router.Tokens.Types
use cross_chain_router.Tokens.Types.{BuildTxArgs, is_valid_type}
use cross_chain_router.Tokens.Bridge.{Bridge}
use cross_chain_router.Effect.{
  Act, pure, fail, lift, attempt, continue, ◌>>=◌, ◌>>◌, ignore, reject_if,
}
use cross_chain_router.Mongo.Driver.{Driver}
use cross_chain_router.Mongo.Db.{Db}
use cross_chain_router.Mongo.Key.{get_router_swap_key}
use cross_chain_router.Mongo.Status.{tx_not_stable, swap_in_blacklist, reswapping}
use cross_chain_router.Mongo.Tables.{MgoSwap, MgoSwapResult, get_token_id}
use cross_chain_router.Mongo.Swaps.{find_router_swap_result, update_router_swap_status}
use cross_chain_router.Mongo.Results.{update_router_swap_result_status}
use cross_chain_router.Mongo.Converts.{convert_from_swap_info}
use cross_chain_router.Worker.State.{
  TaskSet, Env, World, DisagreeRecord, as_int, on_db, or_no_bridge, is_blacked,
}
use cross_chain_router.Worker.History.{prevent_reswap}
use cross_chain_router.Text.Keyed.{store_at}
use cross_chain_router.Worker.Tasks.{
  max_disagree_count, disagree_wait_interval, load_disagree, get_from_to_chain_id_and_value,
  swap_key,
}
use cross_chain_router.Worker.Swap.{do_swap}

is_not_found : Error → Bool
is_not_found e = elim e.is [ err_item_not_found ↦ true | _ ↦ false ]

-- An error that is logged; a panic is not.
log_error : {S : Type 0} → Result Done × S → Result Done × S
log_error (ok u, w) = (ok tt, w)
log_error (err e, w) = elim e.is [ runtime_panic ↦ (err e, w) | _ ↦ (ok tt, w) ]

or_empty : Option (List BuildTxArgs) → List BuildTxArgs
or_empty none = []
or_empty (some q) = q

-- The arguments that processRouterSwap builds, less the swap info.
swap_args : MgoSwap → MgoSwapResult → Text → ℤ → ℤ → ℤ → Types.SwapInfo → BuildTxArgs
swap_args swap res mpc from_chain to_chain value info = record {
  swap_info = info;
  swap_id = swap.tx_id;
  swap_type = swap.swap_type;
  bind = swap.bind;
  log_index = swap.log_index;
  from_chain_id = from_chain;
  to_chain_id = to_chain;
  reswapping = res.status == reswapping;
  from = mpc;
  origin_from = swap.from;
  origin_tx_to = swap.tx_to;
  origin_value = some value;
  swap_value = none;
  extra = record { gas_price = none; sequence = none; replace_num = 0; ttl = none };
}

module _ ⦃d : Driver⦄ ⦃t : TaskSet⦄ (env : Env d.Store) where
  -- The task enters the queue of its chain, which exists or is made, and the set of queued keys.
  enqueue : BuildTxArgs → Act (World d.Store t.Tasks) Done
  enqueue args w =
      let chain = format_int args.to_chain_id in
      (
        ok tt,
        record w {
          swap_task_queue =
              store_at chain (some (or_empty (w.swap_task_queue chain) ++ args ∷ []))
                w.swap_task_queue;
          swap_tasks_in_queue = t.add w.swap_tasks_in_queue (swap_key args);
        },
      )

  -- dispatchSwapTask. The consumer of a new queue is `consume_swap_task`.
  unfoldable pub dispatch_swap_task : BuildTxArgs → Act (World d.Store t.Tasks) Done
  unfolding enqueue or_empty
  dispatch_swap_task args w =
      (if not (is_valid_type args.swap_type)
          then fail (new_error "unknown router swap type")
          else (elim (w.swap_task_queue (format_int args.to_chain_id)) [
            | some q ↦ enqueue args
            | none ↦ (do
              bridge ← lift (or_no_bridge (env.get_bridge (format_int args.to_chain_id)))
              enqueue args)
          ]))
        w

  reject_black : MgoSwap → Act (World d.Store t.Tasks) Done
  reject_black swap w =
      (do
        let memo = sentinel_text err_swap_in_blacklist
        ignore (
            on_db (
              update_router_swap_status swap.from_chain_id swap.tx_id swap.log_index
                swap_in_blacklist w.db.now memo))
        ignore (
            on_db (
              update_router_swap_result_status swap.from_chain_id swap.tx_id swap.log_index
                swap_in_blacklist w.db.now memo)))
        w

  -- The arguments are built and dispatched, once nothing forbids the payout.
  build_task : MgoSwap → MgoSwapResult → Act (World d.Store t.Tasks) Done
  unfolding swap_args
  build_task swap res = do
    bridge ← lift (or_no_bridge (env.get_bridge swap.to_chain_id))
    prevent_reswap res
    (from_chain, to_chain, value) ←
        lift (get_from_to_chain_id_and_value swap.from_chain_id swap.to_chain_id res.value)
    mpc ← lift (env.get_router_mpc (get_token_id swap.swap_info) swap.to_chain_id)
    info ← lift (convert_from_swap_info res.swap_info)
    dispatch_swap_task (swap_args swap res mpc from_chain to_chain value info)

  -- disagreeRecords.Store(cacheKey, 0)
  recounted : Text → World d.Store t.Tasks → World d.Store t.Tasks
  recounted key w = record w {
    disagree_records = store_at key (some (as_int 0)) w.disagree_records;
  }

  -- The count of disagreements: too many of them make the swap wait, and then count anew.
  wait_or_build : Text → MgoSwap → MgoSwapResult → ℕ → Act (World d.Store t.Tasks) Done
  unfolding build_task recounted
  wait_or_build key swap res count w =
      if ltb max_disagree_count count
      then (if ltb w.db.now (res.timestamp + disagree_wait_interval)
          then (ok tt, w)
          else build_task swap res (recounted key w))
      else build_task swap res w

  process_found : MgoSwap → MgoSwapResult → Act (World d.Store t.Tasks) Done
  unfolding wait_or_build
  process_found swap res w =
      let key = get_router_swap_key swap.from_chain_id swap.tx_id swap.log_index in
      if has_prefix res.memo (sentinel_text err_build_tx_error_and_delay)
        && ltb w.db.now (res.timestamp + 300)
      then (ok tt, w)
      else (do
        count ← lift (load_disagree (w.disagree_records key))
        wait_or_build key swap res count)
          w

  not_found : MgoSwap → Error → Act (World d.Store t.Tasks) Done
  unfolding is_not_found
  not_found swap e w =
      (do
        ignore (
            if is_not_found e
            then on_db (
                update_router_swap_status swap.from_chain_id swap.tx_id swap.log_index tx_not_stable
                  w.db.now [])
            else pure tt)
        fail e)
        w

  -- processRouterSwap
  unfoldable pub process_router_swap : MgoSwap → Act (World d.Store t.Tasks) Done
  unfolding process_found not_found reject_black
  process_router_swap swap w =
      (if env.is_chain_id_paused swap.from_chain_id || env.is_chain_id_paused swap.to_chain_id
          then fail (sentinel err_chain_is_paused)
          else if t.contains w.cached_swap_tasks swap.key
          then fail (sentinel err_already_swapped)
          else if is_blacked env swap
          then reject_black swap
          else (attempt
                (on_db (find_router_swap_result swap.from_chain_id swap.tx_id swap.log_index))
              >>= elim [ err e ↦ not_found swap e | ok res ↦ process_found swap res ]))
        w

  -- What startSwapProducer does with one swap: nothing where it is queued or cached.
  producer_step : MgoSwap → Act (World d.Store t.Tasks) Done
  unfolding process_router_swap log_error
  producer_step swap w =
      if t.contains w.swap_tasks_in_queue swap.key || t.contains w.cached_swap_tasks swap.key
      then (ok tt, w)
      else log_error (process_router_swap swap w)

  -- One round of startSwapProducer over the swaps that it has found. An error is logged, and a panic
  -- ends the round and the process.
  unfoldable pub swap_producer_round : List MgoSwap → Act (World d.Store t.Tasks) Done
  unfolding producer_step
  swap_producer_round [] = pure tt
  swap_producer_round (swap ∷ swaps) = producer_step swap >> swap_producer_round swaps

  after_task :
      BuildTxArgs → Result Done × World d.Store t.Tasks → Result Done × World d.Store t.Tasks
  after_task args (err e, w) = (err e, w)
  after_task args (ok u, w) =
      (ok tt, record w { swap_tasks_in_queue = t.remove w.swap_tasks_in_queue (swap_key args) })

  consume_front : Text → Option (List BuildTxArgs) → Act (World d.Store t.Tasks) Done
  unfolding after_task log_error
  consume_front chain none w = (ok tt, w)
  consume_front chain (some []) w = (ok tt, w)
  consume_front chain (some (args ∷ queue)) w =
      let w' = record w { swap_task_queue = store_at chain (some queue) w.swap_task_queue } in
      if not (text_eq (format_int args.to_chain_id) chain)
      then (ok tt, w')
      else after_task args (log_error (do_swap env args w'))

  -- One round of startSwapConsumer, which takes the front of the queue of a chain; a panic ends the
  -- process.
  unfoldable pub consume_swap_task : Text → Act (World d.Store t.Tasks) Done
  unfolding consume_front
  consume_swap_task chain w = consume_front chain (w.swap_task_queue chain) w
