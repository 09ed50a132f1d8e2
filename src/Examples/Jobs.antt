-- ===== src/Examples/Jobs.antt =====
-- The theorems on the jobs at concrete swaps.
use cross_chain_router.Prelude.{◌≡◌, ◌≢◌, inl, inr, refl, true, false, some, List, [], ◌∷◌, arith}
use cross_chain_router.Text.{Text, bytes, has_prefix}
use cross_chain_router.Prelude.Int.{pos}
use cross_chain_router.Text.Number.{format_int}
use cross_chain_router.Tokens.Errors.{
  ok, err, sentinel, sentinel_text, err_already_swapped, err_tx_with_wrong_value, runtime_panic,
}
use cross_chain_router.Tokens.Types.{is_swap_tx_on_chain}
use cross_chain_router.Mongo.Db.{set_result, mgo_error_of}
use cross_chain_router.Mongo.Key.{get_router_swap_key}
use cross_chain_router.Mongo.Status.{tx_not_stable, tx_not_swapped, match_tx_stable}
use cross_chain_router.Mongo.Tables.{MgoSwap}
use cross_chain_router.Mongo.Results.{set_result_status}
use cross_chain_router.Mongo.Results.Nonce.{Stored}
use cross_chain_router.Worker.State.{Env, World, as_uint64, is_blacked}
use cross_chain_router.Worker.History.{
  process_history, is_non_empty, is_pending_swap_status, prevent_reswap,
  process_non_empty_swap_result,
}
use cross_chain_router.Worker.History.Guard.{
  prevent_reswap-ok, prevent_reswap-process_history, IsUnpaid,
}
use cross_chain_router.Worker.Tasks.{
  check_and_update_process_swap_task_cache, uncache_on_error, swap_key, is_ignored,
}
use cross_chain_router.Worker.Reverify.{reverify_swap}
use cross_chain_router.Worker.Swap.{do_swap, do_swap_parallel}
use cross_chain_router.Worker.Swap.Twice.{do_swap-do_swap}
use cross_chain_router.Worker.Swap.Payout.{IsRefused, do_swap-IsRefused}
use cross_chain_router.Worker.SwapJob.{process_router_swap, swap_producer_round}
use cross_chain_router.Worker.SwapJob.Once.{IsPaid, swap_producer_round-IsPaid}
use cross_chain_router.Worker.SwapJob.Recount.{IsDue, process_router_swap-panic}
use cross_chain_router.Worker.SwapJob.Reverify.{reverify_swap-lost}
use cross_chain_router.Worker.Verify.{process_router_swap_verify}
use cross_chain_router.Worker.Verify.Passing.{process_router_swap_verify-IsHeld}
use cross_chain_router.Worker.Stable.{
  process_router_swap_stable, check_if_swap_nonce_has_passed, get_swap_tx_status, block_height,
}
use cross_chain_router.Worker.Stable.Final.{is_confirmed, process_router_swap_stable-IsOpen}
use cross_chain_router.Worker.Stable.Passed.{check_if_swap_nonce_has_passed-kept}
use cross_chain_router.Examples.Memory.{
  Memory, memory, memory-IsDocumented, task_list, task_list-IsTaskSet,
}
use cross_chain_router.Examples.Data.{
  swap_task, new_swap, new_result, paid_result, holding, chain, refusing, network, idle,
}

abbrev paid_world : World Memory (List Text)
paid_world = idle (holding new_swap paid_result)

paid-is_non_empty : is_non_empty paid_result ≡ true
unfolding is_non_empty
paid-is_non_empty = refl

swap_producer_round-IsPaid_example :
    ((swap_producer_round ⦃d = memory⦄ ⦃t = task_list⦄
        (network chain)
        (new_swap ∷ [])
        paid_world).1.swap_task_queue
      ≡ paid_world.swap_task_queue)
    × ((j : Text)
        → IsPaid ⦃d = memory⦄ paid_world.db j
        → IsPaid ⦃d = memory⦄
            (swap_producer_round ⦃d = memory⦄ ⦃t = task_list⦄
              (network chain)
              (new_swap ∷ [])
              paid_world).1.db
            j)
swap_producer_round-IsPaid_example =
    swap_producer_round-IsPaid ⦃d = memory⦄ memory-IsDocumented ⦃t = task_list⦄ (network chain)
      (new_swap ∷ []) paid_world (paid-is_non_empty, tt)

do_swap-IsRefused_example :
    IsRefused ⦃d = memory⦄ ⦃t = task_list⦄
      (network chain)
      paid_world
      (do_swap ⦃d = memory⦄ ⦃t = task_list⦄ (network chain) swap_task paid_world)
do_swap-IsRefused_example =
    do_swap-IsRefused ⦃d = memory⦄ ⦃t = task_list⦄ (network chain) swap_task paid_result
      paid-is_non_empty chain paid_world refl refl refl

process_router_swap_verify-IsHeld_example :
    Stored
      (λ x. x.status ≢ tx_not_swapped)
      (memory.find_swap
        (process_router_swap_verify ⦃d = memory⦄ ⦃t = task_list⦄
          (network refusing)
          new_swap
          paid_world).1.db.store
        (get_router_swap_key new_swap.from_chain_id new_swap.tx_id new_swap.log_index))
process_router_swap_verify-IsHeld_example =
    process_router_swap_verify-IsHeld ⦃d = memory⦄ memory-IsDocumented new_swap ⦃t = task_list⦄
      (network refusing) refusing paid_world refl (λ h. h) (omega arith)

abbrev fresh_world : World Memory (List Text)
fresh_world = idle (holding (record new_swap { status = tx_not_swapped }) new_result)

abbrev parallel : Env Memory
parallel = record (network chain) { is_parallel_swap_enabled = true }

swapped : (do_swap ⦃d = memory⦄ ⦃t = task_list⦄ parallel swap_task fresh_world).0 ≡ ok tt
unfolding do_swap do_swap_parallel check_and_update_process_swap_task_cache uncache_on_error
swapped = refl

do_swap-do_swap_example :
    do_swap ⦃d = memory⦄ ⦃t = task_list⦄ parallel
      (record swap_task { bind = [] })
      (do_swap ⦃d = memory⦄ ⦃t = task_list⦄ parallel swap_task fresh_world).1
    ≡ (
      err (sentinel err_already_swapped),
      (do_swap ⦃d = memory⦄ ⦃t = task_list⦄ parallel swap_task fresh_world).1,
    )
unfolding swap_key
do_swap-do_swap_example =
    do_swap-do_swap ⦃d = memory⦄ ⦃t = task_list⦄ task_list-IsTaskSet parallel swap_task
      (record swap_task { bind = [] }) fresh_world refl swapped

unconfirmed : is_confirmed chain (get_swap_tx_status chain 0 paid_result).0 ≡ false
unfolding is_confirmed get_swap_tx_status block_height is_swap_tx_on_chain
unconfirmed = refl

process_router_swap_stable-IsOpen_example :
    Stored
      (λ r. r.status ≢ match_tx_stable)
      (memory.find_result
        (process_router_swap_stable ⦃d = memory⦄ (network chain) paid_result paid_world.db).1.store
        (get_router_swap_key paid_result.from_chain_id paid_result.tx_id paid_result.log_index))
process_router_swap_stable-IsOpen_example =
    process_router_swap_stable-IsOpen ⦃d = memory⦄ memory-IsDocumented paid_result (network chain)
      chain paid_world.db refl unconfirmed (omega arith)

check_if_swap_nonce_has_passed-kept_example :
    (check_if_swap_nonce_has_passed ⦃d = memory⦄
      (network chain)
      chain
      (record paid_result { swap_nonce = 9 })
      false
      paid_world.db).1
    ≡ paid_world.db
check_if_swap_nonce_has_passed-kept_example =
    check_if_swap_nonce_has_passed-kept ⦃d = memory⦄ (network chain) chain
      (record paid_result { swap_nonce = 9 }) (λ mpc. ok 5) paid_result paid_world.db false refl
      refl (inr (inl (λ n h. ground arith)))

new-prevent : (prevent_reswap ⦃d = memory⦄ new_result fresh_world).0 ≡ ok tt
unfolding prevent_reswap process_non_empty_swap_result is_non_empty process_history
new-prevent = refl

prevent_reswap-ok_example :
    IsUnpaid new_result
    × (prevent_reswap ⦃d = memory⦄ new_result fresh_world ≡ (ok tt, fresh_world))
prevent_reswap-ok_example = prevent_reswap-ok ⦃d = memory⦄ new_result fresh_world new-prevent

prevent_reswap-process_history_example :
    prevent_reswap ⦃d = memory⦄ paid_result fresh_world
    ≡ process_non_empty_swap_result ⦃d = memory⦄ paid_result fresh_world
prevent_reswap-process_history_example =
    prevent_reswap-process_history ⦃d = memory⦄ paid_result fresh_world

abbrev disagreed : World Memory (List Text)
disagreed = record fresh_world { disagree_records = λ k. some (as_uint64 11) }

disagreed-IsDue : IsDue ⦃d = memory⦄ ⦃t = task_list⦄ (network chain) new_swap disagreed new_result
unfolding is_blacked bytes has_prefix sentinel_text
disagreed-IsDue = (refl, refl, refl, refl, refl)

abbrev later : World Memory (List Text)
later = record disagreed {
  disagree_records =
      (process_router_swap ⦃d = memory⦄ ⦃t = task_list⦄ (network chain) new_swap
        disagreed).1.disagree_records;
}

later-IsDue : IsDue ⦃d = memory⦄ ⦃t = task_list⦄ (network chain) new_swap later new_result
unfolding is_blacked bytes has_prefix sentinel_text
later-IsDue = (refl, refl, refl, refl, refl)

process_router_swap-panic_example :
    process_router_swap ⦃d = memory⦄ ⦃t = task_list⦄ (network chain) new_swap later
    ≡ (err (sentinel runtime_panic), later)
process_router_swap-panic_example =
    process_router_swap-panic ⦃d = memory⦄ ⦃t = task_list⦄ (network chain) new_swap disagreed later
      new_result new_result 11 disagreed-IsDue refl (omega arith) (omega arith) refl later-IsDue

abbrev queued_swap : MgoSwap
queued_swap = record new_swap { from_chain_id = format_int (pos 1) }

pending : is_pending_swap_status new_result.status ≡ true
unfolding is_pending_swap_status
pending = refl

not_ignored : is_ignored (some (sentinel err_tx_with_wrong_value)) ≡ false
unfolding is_ignored sentinel
not_ignored = refl

acknowledged :
    (set_result ⦃d = memory⦄
      (swap_key swap_task)
      (set_result_status tx_not_stable fresh_world.db.now
        (sentinel err_tx_with_wrong_value).message)
      fresh_world.db).0
    ≡ ok tt
unfolding set_result mgo_error_of
acknowledged = refl

same_key :
    get_router_swap_key queued_swap.from_chain_id queued_swap.tx_id queued_swap.log_index
    ≡ swap_key swap_task
unfolding swap_key
same_key = refl

reverify_swap-lost_example :
    let v =
      (reverify_swap ⦃d = memory⦄ ⦃t = task_list⦄ (network refusing) swap_task fresh_world).1 in
    ((j : Text) → memory.find_swap v.db.store j ≡ memory.find_swap fresh_world.db.store j)
    × ((swap_producer_round ⦃d = memory⦄ ⦃t = task_list⦄
          (network refusing)
          (queued_swap ∷ [])
          v).1.swap_task_queue
        ≡ v.swap_task_queue)
reverify_swap-lost_example =
    reverify_swap-lost ⦃d = memory⦄ memory-IsDocumented ⦃t = task_list⦄ (network refusing) swap_task
      refusing fresh_world new_result (sentinel err_tx_with_wrong_value) queued_swap refl pending
      refl refl not_ignored acknowledged same_key
