-- ===== src/Worker/Swap/Twice.antt =====
-- A swap that doSwap has handled stays in the cache, and is not handled again.
use cross_chain_router.Prelude.{
  ℕ, ◌≡◌, refl, ap, sym, ◌∙◌, true, false, arith, [], Option, some, none,
}
use mathlib.Core.Bool.{Bool-discrete}
use cross_chain_router.Prelude.Int.{ℤ}
use cross_chain_router.Text.{Text}
use cross_chain_router.Text.Number.{format_int}
use cross_chain_router.Tokens.Errors.{Result, ok, err, Done, sentinel, err_already_swapped}
use cross_chain_router.Tokens.Types.{BuildTxArgs}
use cross_chain_router.Tokens.Bridge.{Bridge}
use cross_chain_router.Mongo.Driver.{Driver}
use cross_chain_router.Mongo.Db.{Db}
use cross_chain_router.Mongo.Status.{tx_processed}
use cross_chain_router.Mongo.Swaps.{update_router_swap_status}
use cross_chain_router.Worker.State.{TaskSet, IsTaskSet, Env, World, or_no_bridge}
use cross_chain_router.Effect.{continue, ◌>>=◌}
use cross_chain_router.Effect.Keeps.{continue-keeps}
use cross_chain_router.Worker.Send.{send_signed_transaction}
use cross_chain_router.Worker.Send.Frame.{send_signed_transaction-frame}
use cross_chain_router.Worker.History.{
  prevent_reswap, process_non_empty_swap_result, process_history, already_processed,
}
use cross_chain_router.Worker.Tasks.{
  check_and_update_process_swap_task_cache, uncache_on_error, swap_key,
}
use cross_chain_router.Worker.Reverify.{sign_failed, reverify_swap, count_disagree, mark_unstable}
use cross_chain_router.Worker.Swap.{
  build_tx, build_failed, sign_tx, forget_disagree, remember, commit_swap, commit_signed,
  sign_value, sign_swap, prepare_swap, send_and_record, prepare_at_bridge, prepare_with,
  try_prepare, finish_at, record_sent, finish_swap, do_swap, do_swap_parallel, or_nil_value,
}

module _ ⦃d : Driver⦄ ⦃t : TaskSet⦄ (env : Env d.Store) where
  abbrev cache : World d.Store t.Tasks → t.Tasks
  cache w = w.cached_swap_tasks

  count_disagree-cache :
      (key : Text) (w : World d.Store t.Tasks)
      → (count_disagree key w).1.cached_swap_tasks ≡ w.cached_swap_tasks
  unfolding count_disagree
  count_disagree-cache key w = ground arith

  reverify_swap-cache :
      (args : BuildTxArgs) (w : World d.Store t.Tasks)
      → (reverify_swap env args w).1.cached_swap_tasks ≡ w.cached_swap_tasks
  unfolding reverify_swap mark_unstable count_disagree
  reverify_swap-cache args w = ground arith

  build_tx-cache :
      (bridge : Bridge (Db d.Store)) (args : BuildTxArgs) (w : World d.Store t.Tasks)
      → (build_tx bridge args w).1.cached_swap_tasks ≡ w.cached_swap_tasks
  unfolding build_tx build_failed
  build_tx-cache bridge args w = ground arith

  sign_tx-cache :
      (bridge : Bridge (Db d.Store)) (p : Text × BuildTxArgs) (w : World d.Store t.Tasks)
      → (sign_tx env bridge p w).1.cached_swap_tasks ≡ w.cached_swap_tasks
  unfolding sign_tx sign_failed
  sign_tx-cache bridge (raw, args) w = ground (arith, reverify_swap-cache args w)

  or_nil_value-cache :
      (o : Option ℤ) (w : World d.Store t.Tasks)
      → (or_nil_value o w).1.cached_swap_tasks ≡ w.cached_swap_tasks
  unfolding or_nil_value
  or_nil_value-cache none w = refl
  or_nil_value-cache (some v) w = refl

  commit_swap-cache :
      (args built : BuildTxArgs) (v : ℤ) (hash : Text) (w : World d.Store t.Tasks)
      → (commit_swap args built v hash w).1.cached_swap_tasks ≡ w.cached_swap_tasks
  unfolding commit_swap forget_disagree remember prevent_reswap process_non_empty_swap_result
      process_history already_processed
  commit_swap-cache args built v hash w = ground arith

  commit_signed-cache :
      (args built : BuildTxArgs) (v : ℤ) (p : Text × Text × BuildTxArgs) (w : World d.Store t.Tasks)
      → (commit_signed args built v p w).1.cached_swap_tasks ≡ w.cached_swap_tasks
  unfolding commit_signed
  commit_signed-cache args built v (signed, hash, args') w =
      ground (arith, commit_swap-cache args built v hash w)

  sign_value-cache :
      (bridge : Bridge (Db d.Store)) (args : BuildTxArgs) (p : Text × BuildTxArgs) (v : ℤ)
      (w : World d.Store t.Tasks)
      → (sign_value env bridge args p v w).1.cached_swap_tasks ≡ w.cached_swap_tasks
  unfolding sign_value
  sign_value-cache bridge args p v w =
      let w' = (sign_tx env bridge p w).1 in
      continue-keeps cache (sign_tx env bridge p w).0 (commit_signed args p.1 v) w'
        (λ q. commit_signed-cache args p.1 v q w')
      ∙ sign_tx-cache bridge p w

  sign_swap-cache :
      (bridge : Bridge (Db d.Store)) (args : BuildTxArgs) (p : Text × BuildTxArgs)
      (w : World d.Store t.Tasks)
      → (sign_swap env bridge args p w).1.cached_swap_tasks ≡ w.cached_swap_tasks
  unfolding sign_swap
  sign_swap-cache bridge args p w =
      let w' = (or_nil_value p.1.swap_value w).1 in
      continue-keeps cache (or_nil_value p.1.swap_value w).0 (sign_value env bridge args p) w'
        (λ v. sign_value-cache bridge args p v w')
      ∙ or_nil_value-cache p.1.swap_value w

  prepare_swap-cache :
      (bridge : Bridge (Db d.Store)) (args : BuildTxArgs) (w : World d.Store t.Tasks)
      → (prepare_swap env bridge args w).1.cached_swap_tasks ≡ w.cached_swap_tasks
  unfolding prepare_swap
  prepare_swap-cache bridge args w =
      continue-keeps cache (build_tx bridge args w).0 (sign_swap env bridge args)
        (build_tx bridge args w).1 (λ p. sign_swap-cache bridge args p (build_tx bridge args w).1)
      ∙ build_tx-cache bridge args w

  send_signed_transaction-cache :
      (bridge : Bridge (Db d.Store)) (args : BuildTxArgs) (tx : Text) (w : World d.Store t.Tasks)
      → (send_signed_transaction env bridge args tx w).1.cached_swap_tasks ≡ w.cached_swap_tasks
  send_signed_transaction-cache bridge args tx w =
      ap cache (send_signed_transaction-frame env bridge args tx w)

  record_sent-cache :
      (from_chain_id tx_id : Text) (log_index : ℕ) (hash : Text) (r : Result Text)
      (w : World d.Store t.Tasks)
      → (record_sent from_chain_id tx_id log_index hash r w).1.cached_swap_tasks
        ≡ w.cached_swap_tasks
  unfolding record_sent
  record_sent-cache a x i hash r w = ground arith

  send_and_record-cache :
      (bridge : Bridge (Db d.Store)) (p : Text × Text × BuildTxArgs) (w : World d.Store t.Tasks)
      → (send_and_record env bridge p w).1.cached_swap_tasks ≡ w.cached_swap_tasks
  unfolding send_and_record
  send_and_record-cache bridge (signed, hash, args) w =
      let sent = send_signed_transaction env bridge args signed w in
      record_sent-cache (format_int args.from_chain_id) args.swap_id args.log_index hash sent.0
        sent.1
      ∙ send_signed_transaction-cache bridge args signed w

  finish_swap-cache :
      (bridge : Bridge (Db d.Store)) (p : Text × Text × BuildTxArgs) (w : World d.Store t.Tasks)
      → (finish_swap env bridge p w).1.cached_swap_tasks ≡ w.cached_swap_tasks
  unfolding finish_swap
  finish_swap-cache bridge (signed, hash, args) w =
      let updated =
        update_router_swap_status (format_int args.from_chain_id) args.swap_id args.log_index
          tx_processed w.db.now [] w.db in
      continue-keeps cache updated.0 (λ u. send_and_record env bridge (signed, hash, args))
        (record w { db = updated.1 })
        (λ u. send_and_record-cache bridge (signed, hash, args) (record w { db = updated.1 }))

  prepare_with-cache :
      (args : BuildTxArgs) (bridge : Bridge (Db d.Store)) (w : World d.Store t.Tasks)
      → (prepare_with env args bridge w).1.cached_swap_tasks ≡ w.cached_swap_tasks
  unfolding prepare_with
  prepare_with-cache args bridge w = ground (arith, prepare_swap-cache bridge args w)

  prepare_at_bridge-cache :
      (args : BuildTxArgs) (w : World d.Store t.Tasks)
      → (prepare_at_bridge env args w).1.cached_swap_tasks ≡ w.cached_swap_tasks
  unfolding prepare_at_bridge
  prepare_at_bridge-cache args w =
      continue-keeps cache (or_no_bridge (env.get_bridge (format_int args.to_chain_id)))
        (prepare_with env args) w (λ bridge. prepare_with-cache args bridge w)

  abbrev Prepared : Type 0
  Prepared = Bridge (Db d.Store) × (Text × Text × BuildTxArgs)

  finish_at-cache :
      (p : Prepared) (w : World d.Store t.Tasks)
      → (finish_at env p w).1.cached_swap_tasks ≡ w.cached_swap_tasks
  unfolding finish_at
  finish_at-cache (bridge, prepared) w = finish_swap-cache bridge prepared w

  try_prepare-cache :
      (args : BuildTxArgs) (w : World d.Store t.Tasks) (p : Prepared)
      → (try_prepare env args w).0 ≡ ok p
      → (try_prepare env args w).1.cached_swap_tasks ≡ w.cached_swap_tasks
  unfolding try_prepare uncache_on_error
  try_prepare-cache args w p h = ground (arith, prepare_at_bridge-cache args w)

  continue-finish_at :
      (r : Result Prepared) (c : t.Tasks) (w : World d.Store t.Tasks)
      → ((p : Prepared) → r ≡ ok p → w.cached_swap_tasks ≡ c)
      → (continue r (finish_at env) w).0 ≡ ok tt
      → (continue r (finish_at env) w).1.cached_swap_tasks ≡ c
  continue-finish_at (ok p) c w h e = finish_at-cache p w ∙ h p refl
  continue-finish_at (err x) c w h e = cc

  continue-serial :
      (args : BuildTxArgs) (r : Result Done) (w : World d.Store t.Tasks)
      → (continue r (λ u. try_prepare env args >>= finish_at env) w).0 ≡ ok tt
      → (continue r (λ u. try_prepare env args >>= finish_at env) w).1.cached_swap_tasks
        ≡ w.cached_swap_tasks
  continue-serial args (ok u) w e =
      continue-finish_at (try_prepare env args w).0 w.cached_swap_tasks (try_prepare env args w).1
        (λ p h. try_prepare-cache args w p h) e
  continue-serial args (err x) w e = cc

module _ ⦃d : Driver⦄ ⦃t : TaskSet⦄ (lawful : IsTaskSet t) where
  check_and_update_process_swap_task_cache-contains :
      (key : Text) (w : World d.Store t.Tasks)
      → (check_and_update_process_swap_task_cache key w).0 ≡ ok tt
      → t.contains (check_and_update_process_swap_task_cache key w).1.cached_swap_tasks key ≡ true
  unfolding check_and_update_process_swap_task_cache
  check_and_update_process_swap_task_cache-contains key w h = ground (
    arith,
    lawful.contains_add w.cached_swap_tasks key,
    lawful.contains_add (t.pop w.cached_swap_tasks) key,
  )

  do_swap_parallel-cache :
      (env : Env d.Store) (args : BuildTxArgs) (w : World d.Store t.Tasks)
      → (do_swap_parallel env args w).0 ≡ ok tt
      → (do_swap_parallel env args w).1.cached_swap_tasks
        ≡ (check_and_update_process_swap_task_cache (swap_key args) w).1.cached_swap_tasks
  unfolding do_swap_parallel uncache_on_error build_tx build_failed
  do_swap_parallel-cache env args w h = ground arith

  do_swap-serial :
      (env : Env d.Store) (args : BuildTxArgs) (w : World d.Store t.Tasks)
      → env.is_parallel_swap_enabled ≡ false
      → (do_swap env args w).0 ≡ ok tt
      → (do_swap env args w).1.cached_swap_tasks
        ≡ (check_and_update_process_swap_task_cache (swap_key args) w).1.cached_swap_tasks
  unfolding do_swap
  do_swap-serial env args w n h =
      let c = check_and_update_process_swap_task_cache (swap_key args) w in
      ground (arith, continue-serial env args c.0 c.1)

  do_swap-cached :
      (env : Env d.Store) (args : BuildTxArgs) (w : World d.Store t.Tasks)
      → t.contains w.cached_swap_tasks (swap_key args) ≡ true
      → do_swap env args w ≡ (err (sentinel err_already_swapped), w)
  unfolding do_swap do_swap_parallel check_and_update_process_swap_task_cache
  do_swap-cached env args w h = ground arith

  do_swap-checked :
      (env : Env d.Store) (args : BuildTxArgs) (w : World d.Store t.Tasks)
      → (do_swap env args w).0 ≡ ok tt
      → (check_and_update_process_swap_task_cache (swap_key args) w).0 ≡ ok tt
  unfolding do_swap do_swap_parallel
  do_swap-checked env args w h = ground arith

  do_swap-parallel :
      (env : Env d.Store) (args : BuildTxArgs) (w : World d.Store t.Tasks)
      → env.is_parallel_swap_enabled ≡ true
      → do_swap env args w ≡ do_swap_parallel env args w
  unfolding do_swap
  do_swap-parallel env args w h = ground arith

  do_swap-cache :
      (env : Env d.Store) (args : BuildTxArgs) (w : World d.Store t.Tasks)
      → (do_swap env args w).0 ≡ ok tt
      → (do_swap env args w).1.cached_swap_tasks
        ≡ (check_and_update_process_swap_task_cache (swap_key args) w).1.cached_swap_tasks
  do_swap-cache env args w h = elim (Bool-discrete env.is_parallel_swap_enabled true) [
    | yes y ↦
        let e = do_swap-parallel env args w y in
        ap (λ p. p.1.cached_swap_tasks) e
        ∙ do_swap_parallel-cache env args w (sym (ap (λ p. p.0) e) ∙ h)
    | no n ↦ do_swap-serial env args w (ground arith) h
  ]

  -- Where doSwap succeeds, serially or with parallel signing, a second doSwap of a swap with the same
  -- key, straight after, is refused as already swapped and changes nothing.
  pub do_swap-do_swap :
      (env : Env d.Store) (args again : BuildTxArgs) (w : World d.Store t.Tasks)
      → swap_key again ≡ swap_key args
      → (do_swap env args w).0 ≡ ok tt
      → do_swap env again (do_swap env args w).1
        ≡ (err (sentinel err_already_swapped), (do_swap env args w).1)
  do_swap-do_swap env args again w k h = do_swap-cached env again (do_swap env args w).1 (
      ap (λ c. t.contains c (swap_key again)) (do_swap-cache env args w h)
      ∙ (ap
            (λ j.
              t.contains
                (check_and_update_process_swap_task_cache (swap_key args) w).1.cached_swap_tasks j)
            k
          ∙ check_and_update_process_swap_task_cache-contains (swap_key args) w
              (do_swap-checked env args w h)))
