-- ===== src/Mongo/Swaps.antt =====
-- mongodb/api.go: the operations on registered swaps.
pub mod Frame
use cross_chain_router.Prelude.{
  ℕ, ◌+◌, ◌*◌, Bool, true, false, not, ◌&&◌, Option, none, some, [], ltb, ◌==◌, if◌then◌else◌,
}
use cross_chain_router.Text.{Text, is_empty}
use cross_chain_router.Tokens.Errors.{Error, Result, ok, err, Done, new_error}
use cross_chain_router.Effect.{
  Act, pure, fail, lift, attempt, continue, ◌>>=◌, ◌>>◌, ignore, reject_if,
}
use cross_chain_router.Mongo.Driver.{
  Driver, Reply, found, no_documents, query_failed, Written, written, duplicate_key, write_failed,
}
use cross_chain_router.Mongo.Db.{Db, read_reply, mgo_error_of, set_swap}
use cross_chain_router.Mongo.Key.{get_router_swap_key}
use cross_chain_router.Mongo.Status.{SwapStatus, tx_not_stable, tx_not_swapped, is_registered_ok}
use cross_chain_router.Mongo.Tables.{MgoSwap, MgoSwapResult, SwapInfo, is_valid}

abbrev pub three_days : ℕ
three_days = 3 * 24 * 3600

-- The updates of UpdateRouterSwapStatus.
unfoldable pub set_swap_status : SwapStatus → ℕ → Text → MgoSwap → MgoSwap
set_swap_status status timestamp memo x = record x {
  status = status;
  timestamp = timestamp;
  memo = if not (is_empty memo) then memo else if status == tx_not_swapped then [] else x.memo;
}

-- The updates of PassRouterSwapVerify.
unfoldable pub set_passed : ℕ → MgoSwap → MgoSwap
set_passed timestamp x = record x { status = tx_not_swapped; timestamp = timestamp }

module _ ⦃d : Driver⦄ where
  -- FindRouterSwap
  unfoldable pub find_router_swap : Text → Text → ℕ → Act (Db d.Store) MgoSwap
  find_router_swap from_chain_id tx_id log_index s =
      (read_reply (d.find_swap s.store (get_router_swap_key from_chain_id tx_id log_index)), s)

  -- FindRouterSwapResult
  unfoldable pub find_router_swap_result : Text → Text → ℕ → Act (Db d.Store) MgoSwapResult
  find_router_swap_result from_chain_id tx_id log_index s =
      (read_reply (d.find_result s.store (get_router_swap_key from_chain_id tx_id log_index)), s)

  -- A swap that waits for more than three days is given a new timestamp.
  unfoldable pub refresh_timestamp : Text → MgoSwap → Act (Db d.Store) Done
  refresh_timestamp key swap s =
      if ltb (swap.timestamp + three_days) s.now
      then ignore (set_swap key (λ x. record x { timestamp = s.now })) s
      else (ok tt, s)

  refresh_old : MgoSwap → Reply MgoSwap → Act (Db d.Store) Done
  unfolding refresh_timestamp
  refresh_old ms (found swap) s =
      if swap.status == tx_not_swapped then refresh_timestamp ms.key swap s else (ok tt, s)
  refresh_old ms no_documents s = (ok tt, s)
  refresh_old ms (query_failed t) s = (ok tt, s)

  after_insert : MgoSwap → Written → Act (Db d.Store) Done
  unfolding refresh_old
  after_insert ms duplicate_key s =
      let (_, s') = refresh_old ms (d.find_swap s.store ms.key) s in
      (mgo_error_of duplicate_key, s')
  after_insert ms w s = (mgo_error_of w, s)

  -- AddRouterSwap
  unfoldable pub add_router_swap : MgoSwap → Act (Db d.Store) Done
  unfolding after_insert
  add_router_swap ms s =
      if not (is_valid ms)
      then (err (new_error "invalid swap fields"), s)
      else let ms' = record ms {
        key = get_router_swap_key ms.from_chain_id ms.tx_id ms.log_index;
        init_time = s.now_milli;
      } in
        let (w, store) = d.insert_swap s.store ms' in
        after_insert ms' w (record s { store = store })

  pass_verify : Text → ℕ → Result MgoSwap → Act (Db d.Store) Done
  pass_verify key timestamp (err e) = fail (new_error "forbid pass verify as swap is not exist")
  pass_verify key timestamp (ok swap) =
      if not (swap.status == tx_not_stable)
      then fail (new_error "forbid pass verify as swap status is not TxNotStable")
      else set_swap key (set_passed timestamp)

  -- PassRouterSwapVerify
  unfoldable pub pass_router_swap_verify : Text → Text → ℕ → ℕ → Act (Db d.Store) Done
  unfolding pass_verify
  pass_router_swap_verify from_chain_id tx_id log_index timestamp = do
    swap ← attempt (find_router_swap from_chain_id tx_id log_index)
    pass_verify (get_router_swap_key from_chain_id tx_id log_index) timestamp swap

  -- UpdateRouterSwapHeight
  unfoldable pub update_router_swap_height : Text → Text → ℕ → ℕ → Act (Db d.Store) Done
  update_router_swap_height from_chain_id tx_id log_index height =
      set_swap (get_router_swap_key from_chain_id tx_id log_index)
        (λ x. record x { tx_height = height })

  -- UpdateRouterSwapStatus
  unfoldable pub update_router_swap_status :
      Text → Text → ℕ → SwapStatus → ℕ → Text → Act (Db d.Store) Done
  update_router_swap_status from_chain_id tx_id log_index status timestamp memo =
      if status == tx_not_stable
      then fail (new_error "forbid update swap status to TxNotStable")
      else set_swap (get_router_swap_key from_chain_id tx_id log_index)
          (set_swap_status status timestamp memo)

  update_info :
      Text
      → SwapInfo
      → SwapStatus
      → ℕ
      → Text
      → Result MgoSwap
      → Reply MgoSwapResult
      → Act (Db d.Store) Done
  update_info key info status timestamp memo (err e) result =
      fail (new_error "forbid update swap info if swap is not exist")
  update_info key info status timestamp memo (ok swap) (found r) =
      if is_registered_ok swap.status
      then fail (new_error "forbid update swap info from registered status")
      else fail (new_error "forbid update swap info if swap result exists")
  update_info key info status timestamp memo (ok swap) none_found =
      if is_registered_ok swap.status
      then fail (new_error "forbid update swap info from registered status")
      else set_swap key (λ x. record x {
        swap_info = info;
        status = status;
        timestamp = timestamp;
        init_time = timestamp * 1000;
        memo = memo;
      })

  -- UpdateRouterSwapInfoAndStatus. The second query follows the first without a write between.
  unfoldable pub update_router_swap_info_and_status :
      Text → Text → ℕ → SwapInfo → SwapStatus → ℕ → Text → Act (Db d.Store) Done
  unfolding update_info
  update_router_swap_info_and_status from_chain_id tx_id log_index info status timestamp memo s =
      let key = get_router_swap_key from_chain_id tx_id log_index in
      let (swap, _) = find_router_swap from_chain_id tx_id log_index s in
      update_info key info status timestamp memo swap (d.find_result s.store key) s
