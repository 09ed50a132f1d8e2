-- ===== src/Worker/Tasks.antt =====
-- worker/swap.go: the values that the swap job works with, and the cache of the tasks that it has taken.
use cross_chain_router.Prelude.{ℕ, Bool, true, false, Option, none, some, leb, if◌then◌else◌}
use cross_chain_router.Prelude.Int.{ℤ}
use cross_chain_router.Text.{Text}
use cross_chain_router.Text.Number.{format_int, parse_big256}
use cross_chain_router.Tokens.Errors.{
  Error, Result, ok, err, Done, new_error, sentinel, err_build_tx_error_and_delay,
  err_get_sign_status_has_disagree, err_tx_not_stable, err_rpc_query_error, err_already_swapped,
  runtime_panic,
}
use cross_chain_router.Tokens.Types.{BuildTxArgs}
use cross_chain_router.Effect.{Act}
use cross_chain_router.Mongo.Driver.{Driver}
use cross_chain_router.Mongo.Key.{get_router_swap_key}
use cross_chain_router.Mongo.Tables.{MgoSwapResult}
use cross_chain_router.Worker.State.{TaskSet, World, DisagreeRecord, as_uint64, as_int}
use cross_chain_router.Worker.History.{is_pending_swap_status}

abbrev pub max_disagree_count : ℕ
max_disagree_count = 10

abbrev pub disagree_wait_interval : ℕ
disagree_wait_interval = 300

abbrev pub max_cached_swap_tasks : ℕ
max_cached_swap_tasks = 1000

unfoldable pub or_wrong : Option ℤ → Error → Result ℤ
or_wrong none e = err e
or_wrong (some z) e = ok z

-- getFromToChainIDAndValue
unfoldable pub get_from_to_chain_id_and_value : Text → Text → Text → Result (ℤ × ℤ × ℤ)
unfolding or_wrong
get_from_to_chain_id_and_value from_chain_id to_chain_id value =
    elim (or_wrong (parse_big256 from_chain_id) (new_error "wrong fromChainID")) [
      | err e ↦ err e
      | ok from ↦ elim (or_wrong (parse_big256 to_chain_id) (new_error "wrong toChainID")) [
        | err e ↦ err e
        | ok to ↦ elim (or_wrong (parse_big256 value) (new_error "wrong value")) [
          | err e ↦ err e
          | ok v ↦ ok (from, to, v)
        ]
      ]
    ]

-- errors.Is(err, tokens.ErrBuildTxErrorAndDelay)
unfoldable pub is_build_delay : Error → Bool
is_build_delay e = elim e.is [ err_build_tx_error_and_delay ↦ true | _ ↦ false ]

-- errors.Is(err, mpc.ErrGetSignStatusHasDisagree)
unfoldable pub is_disagree : Error → Bool
is_disagree e = elim e.is [ err_get_sign_status_has_disagree ↦ true | _ ↦ false ]

-- The errors that reverifySwap ignores, nil among them.
unfoldable pub is_ignored : Option Error → Bool
is_ignored none = true
is_ignored (some e) = elim e.is [
  | err_tx_not_stable ↦ true
  | err_rpc_query_error ↦ true
  | _ ↦ false
]

-- oldValue.(uint64), 0 if there is no value; an int in its place is a panic.
unfoldable pub load_disagree : Option DisagreeRecord → Result ℕ
load_disagree none = ok 0
load_disagree (some (as_uint64 n)) = ok n
load_disagree (some (as_int n)) = err (sentinel runtime_panic)

unfoldable pub swap_key : BuildTxArgs → Text
swap_key args = get_router_swap_key (format_int args.from_chain_id) args.swap_id args.log_index

unfoldable pub still_pending : Result MgoSwapResult → Bool
still_pending (err e) = true
still_pending (ok res) = is_pending_swap_status res.status

module _ ⦃d : Driver⦄ ⦃t : TaskSet⦄ where
  -- checkAndUpdateProcessSwapTaskCache
  unfoldable pub check_and_update_process_swap_task_cache : Text → Act (World d.Store t.Tasks) Done
  check_and_update_process_swap_task_cache key w =
      let tasks = w.cached_swap_tasks in
      if t.contains tasks key
      then (err (sentinel err_already_swapped), w)
      else let room =
          if leb max_cached_swap_tasks (t.cardinality tasks) then t.pop tasks else tasks in
        (ok tt, record w { cached_swap_tasks = t.add room key })

  -- The deferred function of doSwap: an error before the database is updated frees the key.
  unfoldable pub uncache_on_error :
      {A : Type 0} → Text → Result A × World d.Store t.Tasks → Result A × World d.Store t.Tasks
  uncache_on_error key (ok a, w) = (ok a, w)
  uncache_on_error key (err e, w) =
      (err e, record w { cached_swap_tasks = t.remove w.cached_swap_tasks key })
