-- ===== src/Mongo/Results.antt =====
-- mongodb/api.go: the operations on swap results. updateResultLock makes each of them one step.
pub mod Nonce
pub mod OldTxs
use cross_chain_router.Prelude.{
  ℕ, suc, ◌+◌, ◌%◌, ◌^◌, Bool, true, false, not, ◌&&◌, ◌||◌, Option, none, some, List, [], ◌∷◌,
  ◌++◌, ◌==◌, if◌then◌else◌,
}
use cross_chain_router.Prelude.Int.{ℤ}
use cross_chain_router.Text.{Text, is_empty, equal_fold}
use cross_chain_router.Text.Number.{format_int}
use cross_chain_router.Tokens.Errors.{
  Result, ok, err, Done, new_error, sentinel, err_forbid_update_nonce, err_forbid_update_swap_tx,
}
use cross_chain_router.Tokens.Types.{BuildTxArgs}
use cross_chain_router.Effect.{
  Act, pure, fail, lift, attempt, continue, ◌>>=◌, ◌>>◌, ignore, reject_if,
}
use cross_chain_router.Mongo.Driver.{Driver}
use cross_chain_router.Mongo.Db.{Db, mgo_error_of, set_swap, set_result}
use cross_chain_router.Mongo.Key.{get_router_swap_key}
use cross_chain_router.Mongo.Status.{
  SwapStatus, tx_processed, match_tx_not_stable, match_tx_stable, tx_need_reswap, keep_status,
  reswapping,
}
use cross_chain_router.Mongo.Tables.{MgoSwapResult, SwapResultUpdateItems}
use cross_chain_router.Mongo.Swaps.{find_router_swap_result}

-- checkRouterSwapResultUpdate
unfoldable pub check_router_swap_result_update : MgoSwapResult → Result Done
check_router_swap_result_update r =
    if not (r.swap_nonce == 0)
    then err (sentinel err_forbid_update_nonce)
    else if not (is_empty r.swap_tx)
    then err (sentinel err_forbid_update_swap_tx)
    else ok tt

-- The updates of UpdateRouterSwapResultStatus.
unfoldable pub set_result_status : SwapStatus → ℕ → Text → MgoSwapResult → MgoSwapResult
set_result_status status timestamp memo r =
    if status == reswapping
    then record r {
      status = status;
      timestamp = timestamp;
      memo = [];
      swap_tx = [];
      old_swap_txs = [];
      swap_height = 0;
      swap_time = 0;
      swap_nonce = 0;
    }
    else record r {
      status = status;
      timestamp = timestamp;
      memo = if not (is_empty memo) then memo else r.memo;
    }

-- The updates of AllocateRouterSwapNonce.
unfoldable pub set_allocated : BuildTxArgs → ℕ → ℕ → MgoSwapResult → MgoSwapResult
set_allocated args nonce now r = record r {
  mpc = args.from;
  status = match_tx_not_stable;
  swap_nonce = nonce;
  timestamp = now;
  swap_value = elim args.swap_value [ none ↦ r.swap_value | some v ↦ format_int v ];
}

-- The loop over OldSwapTxs.
unfoldable pub mentions : Text → List Text → Bool
mentions tx [] = false
mentions tx (t ∷ ts) = equal_fold tx t || mentions tx ts

-- The updates of UpdateRouterOldSwapTxs, from the result `old` that it has read.
unfoldable pub set_old_swap_txs : MgoSwapResult → Text → ℕ → MgoSwapResult → MgoSwapResult
set_old_swap_txs old tx now r = record r {
  timestamp = now;
  swap_tx =
      if old.status == tx_need_reswap
      then []
      else if not (old.status == match_tx_stable)
      then tx
      else r.swap_tx;
  old_swap_txs = elim old.old_swap_txs [
    | [] ↦ old.swap_tx ∷ tx ∷ []
    | t ∷ ts ↦ r.old_swap_txs ++ tx ∷ []
  ];
}

-- The updates of UpdateRouterSwapResult.
unfoldable pub set_items : SwapResultUpdateItems → MgoSwapResult → MgoSwapResult
set_items items r = record r {
  timestamp = items.timestamp;
  status = if not (items.status == keep_status) then items.status else r.status;
  mpc = if not (is_empty items.mpc) then items.mpc else r.mpc;
  swap_tx = if not (is_empty items.swap_tx) then items.swap_tx else r.swap_tx;
  swap_height = if not (items.swap_height == 0) then items.swap_height else r.swap_height;
  swap_time = if not (items.swap_time == 0) then items.swap_time else r.swap_time;
  swap_value = if not (is_empty items.swap_value) then items.swap_value else r.swap_value;
  memo =
      if not (is_empty items.memo)
      then items.memo
      else if items.status == match_tx_not_stable
      then []
      else r.memo;
  ttl = if not (items.ttl == 0) then items.ttl else r.ttl;
  swap_nonce = if not (items.swap_nonce == 0) then items.swap_nonce else r.swap_nonce;
}

module _ ⦃d : Driver⦄ where
  -- AddRouterSwapResult
  unfoldable pub add_router_swap_result : MgoSwapResult → Act (Db d.Store) Done
  add_router_swap_result mr s =
      let (w, store) = d.insert_result s.store (record mr {
        key = get_router_swap_key mr.from_chain_id mr.tx_id mr.log_index;
        init_time = s.now_milli;
      }) in
      (mgo_error_of w, record s { store = store })

  -- After the checks: the result first, and only then the swap, whose error is logged and dropped.
  allocate : Text → BuildTxArgs → ℕ → Bool → Act (Db d.Store) (ℕ × ℕ)
  allocate key args nonce is_recycle s =
      (do
        set_result key (set_allocated args nonce s.now)
        ignore (set_swap key (λ x. record x { status = tx_processed; timestamp = s.now }))
        pure (nonce, if is_recycle then 0 else (nonce + 1) % 2 ^ 64))
        s

  -- AllocateRouterSwapNonce; the result holds the nonce and the new *nonceptr.
  unfoldable pub allocate_router_swap_nonce : BuildTxArgs → ℕ → Bool → Act (Db d.Store) (ℕ × ℕ)
  unfolding allocate
  allocate_router_swap_nonce args nonce is_recycle = do
    let from_chain_id = format_int args.from_chain_id
    reject_if (is_recycle && nonce == 0) (new_error "swap nonce is alreay recycled")
    res ← find_router_swap_result from_chain_id args.swap_id args.log_index
    lift (check_router_swap_result_update res)
    allocate (get_router_swap_key from_chain_id args.swap_id args.log_index) args nonce is_recycle

  -- UpdateRouterSwapResultStatus
  unfoldable pub update_router_swap_result_status :
      Text → Text → ℕ → SwapStatus → ℕ → Text → Act (Db d.Store) Done
  update_router_swap_result_status from_chain_id tx_id log_index status timestamp memo =
      set_result (get_router_swap_key from_chain_id tx_id log_index)
        (set_result_status status timestamp memo)

  append_swap_tx : Text → Text → MgoSwapResult → Act (Db d.Store) Done
  append_swap_tx key tx res s =
      if equal_fold tx res.swap_tx || mentions tx res.old_swap_txs
      then (ok tt, s)
      else set_result key (set_old_swap_txs res tx s.now) s

  -- UpdateRouterOldSwapTxs
  unfoldable pub update_router_old_swap_txs : Text → Text → ℕ → Text → Act (Db d.Store) Done
  unfolding append_swap_tx
  update_router_old_swap_txs from_chain_id tx_id log_index tx = if is_empty tx then pure tt else do
    res ← find_router_swap_result from_chain_id tx_id log_index
    append_swap_tx (get_router_swap_key from_chain_id tx_id log_index) tx res

  update_result : Text → SwapResultUpdateItems → MgoSwapResult → Act (Db d.Store) Done
  update_result key items res =
      if res.status == match_tx_stable
      then pure tt
      else if not (items.swap_nonce == 0) || items.status == match_tx_not_stable
      then (do lift (check_router_swap_result_update res); set_result key (set_items items))
      else set_result key (set_items items)

  -- UpdateRouterSwapResult
  unfoldable pub update_router_swap_result :
      Text → Text → ℕ → SwapResultUpdateItems → Act (Db d.Store) Done
  unfolding update_result
  update_router_swap_result from_chain_id tx_id log_index items = do
    res ← find_router_swap_result from_chain_id tx_id log_index
    update_result (get_router_swap_key from_chain_id tx_id log_index) items res
