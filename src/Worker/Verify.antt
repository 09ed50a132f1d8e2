-- ===== src/Worker/Verify.antt =====
-- worker/verify.go: the job that verifies a registered swap on its source chain.
pub mod Passing
pub mod Agreement
use cross_chain_router.Prelude.{
  ℕ, ◌+◌, ◌*◌, Bool, true, false, not, ◌&&◌, ◌||◌, Option, none, some, [], ltb, leb, if◌then◌else◌,
}
use cross_chain_router.Text.{Text, bytes}
use cross_chain_router.Tokens.Errors.{
  Error, Result, ok, err, Done, sentinel, sentinel_text, err_swap_in_blacklist, err_tx_not_stable,
  err_rpc_query_error, err_tx_not_found, err_not_found, err_tx_with_wrong_value,
  err_tx_with_wrong_path, err_miss_token_config, err_no_underlying_token, err_verify_tx_unsafe,
  err_swapout_forbidden, err_no_bridge_for_chain_id, runtime_panic,
}
use cross_chain_router.Tokens.Types.{SwapTxInfo}
use cross_chain_router.Tokens.Bridge.{Bridge}
use cross_chain_router.Effect.{
  Act, pure, fail, lift, attempt, continue, ◌>>=◌, ◌>>◌, ignore, reject_if,
}
use cross_chain_router.Mongo.Driver.{Driver}
use cross_chain_router.Mongo.Db.{Db}
use cross_chain_router.Mongo.Status.{
  SwapStatus, tx_verify_failed, tx_with_wrong_value, tx_with_wrong_path, miss_token_config,
  no_underlying_token, tx_maybe_unsafe, tx_with_big_value, match_tx_empty, swap_in_blacklist,
  swapout_forbidden,
}
use cross_chain_router.Mongo.Tables.{MgoSwap}
use cross_chain_router.Mongo.Swaps.{
  update_router_swap_status, update_router_swap_height, pass_router_swap_verify,
}
use cross_chain_router.Mongo.Results.{update_router_swap_result_status}
use cross_chain_router.Worker.State.{TaskSet, Env, World, on_db, is_blacked}
use cross_chain_router.Worker.Update.{add_initial_swap_result}

abbrev pub max_tx_not_found_time : ℕ
max_tx_not_found_time = 3 * 24 * 3600

abbrev pub max_cached_verifying_swaps : ℕ
max_cached_verifying_swaps = 100

-- How the switch over the error of VerifyTransaction goes on.
pub data Verdict : Type 0 where
  passed unstable forbidden : Verdict
  failed : SwapStatus → Verdict

unfoldable pub verdict_of : Option Error → Verdict
verdict_of none = passed
verdict_of (some e) = elim e.is [
  | err_tx_not_stable ↦ unstable
  | err_rpc_query_error ↦ unstable
  | err_tx_not_found ↦ unstable
  | err_not_found ↦ unstable
  | err_tx_with_wrong_value ↦ failed tx_with_wrong_value
  | err_tx_with_wrong_path ↦ failed tx_with_wrong_path
  | err_miss_token_config ↦ failed miss_token_config
  | err_no_underlying_token ↦ failed no_underlying_token
  | err_verify_tx_unsafe ↦ failed tx_maybe_unsafe
  | err_swapout_forbidden ↦ forbidden
  | _ ↦ failed tx_verify_failed
]

error_text : Option Error → Text
error_text none = []
error_text (some e) = e.message

-- `return err`, where nil is `none`
returned : Option Error → Result Done
returned none = ok tt
returned (some e) = err e

module _ ⦃d : Driver⦄ where
  module _ (swap : MgoSwap) where
    set_status : SwapStatus → Text → Act (Db d.Store) Done
    set_status status memo s =
        update_router_swap_status swap.from_chain_id swap.tx_id swap.log_index status s.now memo s

    pass : Env d.Store → SwapTxInfo → Act (Db d.Store) Done
    unfolding set_status
    pass env info s =
        (if env.is_big_value_swap info
            then set_status tx_with_big_value (bytes "big swap value")
            else (do
              pass_router_swap_verify swap.from_chain_id swap.tx_id swap.log_index s.now
              add_initial_swap_result info match_tx_empty))
          s

    note_height : Option SwapTxInfo → Act (Db d.Store) Done
    note_height none = pure tt
    note_height (some info) =
        if ltb 0 info.height
        then ignore
            (update_router_swap_height swap.from_chain_id swap.tx_id swap.log_index info.height)
        else pure tt

    give_up : Text → Act (Db d.Store) Done
    unfolding set_status
    give_up memo s =
        (do
          ignore (set_status tx_verify_failed memo)
          ignore (
              update_router_swap_result_status swap.from_chain_id swap.tx_id swap.log_index
                tx_verify_failed s.now memo))
          s

    -- saveSpecialSwapResult
    save_special_swap_result : SwapTxInfo → SwapStatus → Act (Db d.Store) Done
    unfolding set_status
    save_special_swap_result info status = do
      ignore (set_status status [])
      add_initial_swap_result info status

    retry_or_give_up : Option SwapTxInfo → Text → Act (Db d.Store) Bool
    unfolding note_height give_up
    retry_or_give_up info memo s =
        (do
          note_height info
          if ltb (swap.init_time + 1000 * max_tx_not_found_time) s.now_milli
              then (do give_up memo; pure true)
              else pure false)
          s

    -- The switch of processRouterSwapVerify. The result says whether the swap stays in the cache. A
    -- nil swapInfo is dereferenced where no error comes with it, or a forbidden swapout.
    apply_verdict : Env d.Store → Option SwapTxInfo → Text → Verdict → Act (Db d.Store) Bool
    unfolding pass retry_or_give_up save_special_swap_result
    apply_verdict env info memo unstable = retry_or_give_up info memo
    apply_verdict env info memo (failed status) = do ignore (set_status status memo); pure true
    apply_verdict env none memo passed = fail (sentinel runtime_panic)
    apply_verdict env (some info) memo passed = do ignore (pass env info); pure true
    apply_verdict env none memo forbidden = do
      ignore (set_status swapout_forbidden [])
      fail (sentinel runtime_panic)
    apply_verdict env (some info) memo forbidden = do
      ignore (save_special_swap_result info swapout_forbidden)
      pure true

  module _ ⦃t : TaskSet⦄ (env : Env d.Store) (swap : MgoSwap) where
    -- The deferred function: the swap leaves the cache if it is to be tried again.
    after_verdict :
        Option Error → Result Bool × World d.Store t.Tasks → Result Done × World d.Store t.Tasks
    unfolding returned
    after_verdict e (ok true, w) = (returned e, w)
    after_verdict e (ok false, w) = (
      returned e,
      record w { cached_verifying_swaps = t.remove w.cached_verifying_swaps swap.key },
    )
    after_verdict e (err p, w) = (err p, w)

    verify_at : Bridge (Db d.Store) → Act (World d.Store t.Tasks) Done
    unfolding after_verdict error_text apply_verdict
    verify_at bridge w =
        let (info, e) = bridge.verify_transaction swap.tx_id swap.swap_type swap.log_index in
        after_verdict e (on_db (apply_verdict swap env info (error_text e) (verdict_of e)) w)

    verify_cached : Act (World d.Store t.Tasks) Done
    unfolding verify_at set_status
    verify_cached =
        if is_blacked env swap
        then (do
          ignore (on_db (set_status swap swap_in_blacklist (sentinel_text err_swap_in_blacklist)))
          fail (sentinel err_swap_in_blacklist))
        else (elim (env.get_bridge swap.from_chain_id) [
          | none ↦ fail (sentinel err_no_bridge_for_chain_id)
          | some bridge ↦ verify_at bridge
        ])

    -- processRouterSwapVerify
    unfoldable pub process_router_swap_verify : Act (World d.Store t.Tasks) Done
    unfolding verify_cached
    process_router_swap_verify w =
        let tasks = w.cached_verifying_swaps in
        if env.is_chain_id_paused swap.from_chain_id || env.is_chain_id_paused swap.to_chain_id
        then (ok tt, w)
        else if t.contains tasks swap.key
        then (ok tt, w)
        else (let room =
              if leb max_cached_verifying_swaps (t.cardinality tasks) then t.pop tasks else tasks in
            verify_cached (record w { cached_verifying_swaps = t.add room swap.key }))
