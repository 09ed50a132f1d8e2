-- ===== src/Worker/Swap/Payout.antt =====
-- doSwap looks at the result again after signing, and sends nothing for a swap that shows a payout.
use cross_chain_router.Prelude.{◌≡◌, refl, true, false, arith, Option, some, none}
use cross_chain_router.Prelude.Int.{ℤ}
use cross_chain_router.Text.{Text}
use cross_chain_router.Text.Number.{format_int}
use cross_chain_router.Tokens.Errors.{Result, ok, err}
use cross_chain_router.Tokens.Types.{BuildTxArgs}
use cross_chain_router.Tokens.Bridge.{Bridge}
use cross_chain_router.Mongo.Driver.{Driver, found}
use cross_chain_router.Mongo.Db.{Db, read_reply}
use cross_chain_router.Mongo.Tables.{MgoSwapResult}
use cross_chain_router.Mongo.Swaps.{find_router_swap_result}
use cross_chain_router.Worker.State.{TaskSet, Env, World}
use cross_chain_router.Worker.History.{
  is_non_empty, prevent_reswap, process_non_empty_swap_result, already_processed,
}
use cross_chain_router.Worker.Tasks.{
  check_and_update_process_swap_task_cache, uncache_on_error, swap_key,
}
use cross_chain_router.Worker.Reverify.{sign_failed, reverify_swap, count_disagree, mark_unstable}
use cross_chain_router.Worker.Swap.{
  build_tx, build_failed, sign_tx, forget_disagree, commit_swap, commit_signed, sign_value,
  sign_swap, prepare_swap, prepare_at_bridge, prepare_with, try_prepare, do_swap, or_nil_value,
}

module _ ⦃d : Driver⦄ ⦃t : TaskSet⦄ (env : Env d.Store) where
  -- An error, and nothing is sent.
  abbrev pub IsRefused :
      {A : Type 0} → World d.Store t.Tasks → Result A × World d.Store t.Tasks → Type 0
  IsRefused w (ok a, v) = ⊥
  IsRefused w (err e, v) = v.sent ≡ w.sent

  module _ (args : BuildTxArgs) (r : MgoSwapResult) (paid : is_non_empty r ≡ true) where
    -- The result is stored.
    abbrev IsStored : World d.Store t.Tasks → Type 0
    IsStored w = d.find_result w.db.store (swap_key args) ≡ found r

    commit_swap-IsRefused :
        (built : BuildTxArgs) (v : ℤ) (hash : Text) (w : World d.Store t.Tasks)
        → IsStored w
        → IsRefused w (commit_swap args built v hash w)
    unfolding commit_swap forget_disagree swap_key find_router_swap_result read_reply prevent_reswap
        process_non_empty_swap_result already_processed
    commit_swap-IsRefused built v hash w h = ground arith

    commit_signed-IsRefused :
        (built : BuildTxArgs) (v : ℤ) (p : Text × Text × BuildTxArgs) (w : World d.Store t.Tasks)
        → IsStored w
        → IsRefused w (commit_signed args built v p w)
    unfolding commit_signed
    commit_signed-IsRefused built v (signed, hash, args') w h =
        ground (arith, commit_swap-IsRefused built v hash w h)

    reverify_swap-sent :
        (built : BuildTxArgs) (w : World d.Store t.Tasks)
        → (reverify_swap env built w).1.sent ≡ w.sent
    unfolding reverify_swap mark_unstable count_disagree
    reverify_swap-sent built w = ground arith

    sign_value-IsRefused :
        (bridge : Bridge (Db d.Store)) (p : Text × BuildTxArgs) (v : ℤ) (w : World d.Store t.Tasks)
        → IsStored w
        → IsRefused w (sign_value env bridge args p v w)
    unfolding sign_value sign_tx sign_failed
    sign_value-IsRefused bridge (raw, built) v w h =
        by_signing (bridge.mpc_sign_transaction raw built) refl
      where
        by_signing :
            (q : Result (Text × Text))
            → bridge.mpc_sign_transaction raw built ≡ q
            → IsRefused w (sign_value env bridge args (raw, built) v w)
        by_signing (ok (signed, hash)) e =
            ground (arith, commit_signed-IsRefused built v (signed, hash, built) w h)
        by_signing (err x) e = ground (arith, reverify_swap-sent built w)

    sign_swap-IsRefused :
        (bridge : Bridge (Db d.Store)) (p : Text × BuildTxArgs) (w : World d.Store t.Tasks)
        → IsStored w
        → IsRefused w (sign_swap env bridge args p w)
    unfolding sign_swap or_nil_value
    sign_swap-IsRefused bridge (raw, built) w h = by_value built.swap_value refl
      where
        by_value :
            (o : Option ℤ)
            → built.swap_value ≡ o
            → IsRefused w (sign_swap env bridge args (raw, built) w)
        by_value none e = ground arith
        by_value (some v) e = ground (arith, sign_value-IsRefused bridge (raw, built) v w h)

    prepare_with-IsRefused :
        (bridge : Bridge (Db d.Store)) (w : World d.Store t.Tasks)
        → IsStored (record w { db = (bridge.build_raw_transaction args w.db).1 })
        → IsRefused w (prepare_with env args bridge w)
    unfolding prepare_with prepare_swap build_tx build_failed
    prepare_with-IsRefused bridge w h = by_building (bridge.build_raw_transaction args w.db).0 refl
      where
        by_building :
            (q : Result (Text × BuildTxArgs))
            → (bridge.build_raw_transaction args w.db).0 ≡ q
            → IsRefused w (prepare_with env args bridge w)
        by_building (ok p) e = ground (
          arith,
          sign_swap-IsRefused bridge p
              (record w { db = (bridge.build_raw_transaction args w.db).1 }) h,
        )
        by_building (err x) e = ground arith

    try_prepare-IsRefused :
        (bridge : Bridge (Db d.Store)) (w : World d.Store t.Tasks)
        → env.get_bridge (format_int args.to_chain_id) ≡ some bridge
        → IsStored (record w { db = (bridge.build_raw_transaction args w.db).1 })
        → IsRefused w (try_prepare env args w)
    unfolding try_prepare prepare_at_bridge uncache_on_error
    try_prepare-IsRefused bridge w b h = ground (arith, prepare_with-IsRefused bridge w h)

    check_and_update_process_swap_task_cache-db :
        (key : Text) (w : World d.Store t.Tasks)
        → (check_and_update_process_swap_task_cache key w).1.db ≡ w.db
    unfolding check_and_update_process_swap_task_cache
    check_and_update_process_swap_task_cache-db key w = ground arith

    check_and_update_process_swap_task_cache-sent :
        (key : Text) (w : World d.Store t.Tasks)
        → (check_and_update_process_swap_task_cache key w).1.sent ≡ w.sent
    unfolding check_and_update_process_swap_task_cache
    check_and_update_process_swap_task_cache-sent key w = ground arith

    -- Without parallel signing: where the stored result shows a payout once the transaction is built,
    -- doSwap returns an error and sends nothing, and sets no nonce.
    pub do_swap-IsRefused :
        (bridge : Bridge (Db d.Store)) (w : World d.Store t.Tasks)
        → env.is_parallel_swap_enabled ≡ false
        → env.get_bridge (format_int args.to_chain_id) ≡ some bridge
        → d.find_result (bridge.build_raw_transaction args w.db).1.store (swap_key args) ≡ found r
        → IsRefused w (do_swap env args w)
    unfolding do_swap
    do_swap-IsRefused bridge w n b h =
        let c = check_and_update_process_swap_task_cache (swap_key args) w in
        let same_db = check_and_update_process_swap_task_cache-db (swap_key args) w in
        ground (
          arith,
          check_and_update_process_swap_task_cache-sent (swap_key args) w,
          try_prepare-IsRefused bridge c.1 b (rw same_db h),
        )
