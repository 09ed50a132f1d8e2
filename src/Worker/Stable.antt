-- ===== src/Worker/Stable.antt =====
-- worker/stable.go and worker/checkfailedswap.go, with checkIfSwapNonceHasPassed of
-- worker/replace.go and reswapIfTimeout of worker/reswap.go: what the destination chain says of a
-- payout.
pub mod Final
pub mod Passed
use cross_chain_router.Prelude.{
  ℕ, ◌+◌, ◌%◌, ◌^◌, Bool, true, false, not, ◌&&◌, ◌||◌, Option, none, some, List, [], ◌∷◌, ◌++◌,
  ltb, leb, ◌==◌, if◌then◌else◌,
}
use cross_chain_router.Text.{Text, is_empty, text_eq, equal_fold, bytes}
use cross_chain_router.Text.Number.{format_nat}
use cross_chain_router.Tokens.Errors.{
  Error, Result, ok, err, Done, new_error, sentinel, err_sender_mismatch,
  err_no_bridge_for_chain_id,
}
use cross_chain_router.Tokens.Types.{TxStatus, is_swap_tx_on_chain, is_swap_tx_on_chain_and_failed}
use cross_chain_router.Tokens.Bridge.{Bridge, ReSwapable}
use cross_chain_router.Effect.{
  Act, pure, fail, lift, attempt, continue, ◌>>=◌, ◌>>◌, ignore, reject_if,
}
use cross_chain_router.Mongo.Driver.{Driver}
use cross_chain_router.Mongo.Db.{Db}
use cross_chain_router.Mongo.Status.{reswapping, tx_need_reswap}
use cross_chain_router.Mongo.Tables.{MgoSwapResult, get_token_id}
use cross_chain_router.Mongo.Swaps.{find_router_swap_result}
use cross_chain_router.Mongo.Results.{update_router_swap_result_status}
use cross_chain_router.Worker.State.{Env, get_sep_time_in_find}
use cross_chain_router.Worker.Update.{
  MatchTx, no_match, update_match, update_swap_tx, mark_swap_result_stable,
  mark_swap_result_unstable, mark_swap_result_failed,
}

abbrev pub treat_as_nonce_passed_interval : ℕ
treat_as_nonce_passed_interval = 600

-- The first answer of GetTransactionStatus that has no error and is on chain.
on_chain : Option TxStatus × Option Error → Bool
on_chain (st, some e) = false
on_chain (st, none) = is_swap_tx_on_chain st

module _ {S : Type 0} (b : Bridge S) (round : ℕ) where
  -- The loop over OldSwapTxs, from the transaction and the status that it starts with.
  seek : Text → Option TxStatus → List Text → Option TxStatus × Text
  unfolding on_chain
  seek tx st [] = (st, tx)
  seek tx st (old ∷ olds) =
      let rest = seek tx st olds in
      if not (text_eq tx old) && on_chain (b.get_transaction_status round old)
      then ((b.get_transaction_status round old).0, old)
      else rest

  -- getSwapTxStatus: the status, and the SwapTx that swap is left with.
  unfoldable pub get_swap_tx_status : MgoSwapResult → Option TxStatus × Text
  unfolding seek
  get_swap_tx_status res =
      if on_chain (b.get_transaction_status round res.swap_tx)
      then ((b.get_transaction_status round res.swap_tx).0, res.swap_tx)
      else seek res.swap_tx (b.get_transaction_status round res.swap_tx).0 res.old_swap_txs

-- txStatus.BlockHeight, 0 for a nil status
unfoldable pub block_height : Option TxStatus → ℕ
block_height none = 0
block_height (some st) = st.block_height

unfoldable pub confirmations_of : Option TxStatus → ℕ
confirmations_of none = 0
confirmations_of (some st) = st.confirmations

block_time : Option TxStatus → ℕ
block_time none = 0
block_time (some st) = st.block_time

is_nil : Option TxStatus → Bool
is_nil none = true
is_nil (some st) = false

module _ ⦃d : Driver⦄ (env : Env d.Store) (bridge : Bridge (Db d.Store)) (res : MgoSwapResult) where
  -- reswapIfTimeout; a bridge that is not ReSwapable is no error.
  unfoldable pub reswap_if_timeout : Act (Db d.Store) Done
  reswap_if_timeout s = elim bridge.re_swapable [
    | none ↦ (ok tt, s)
    | some r ↦ elim r.get_current_threshold [
      | err e ↦ (err e, s)
      | ok threshold ↦
          if r.is_tx_timeout res.ttl threshold
          then update_router_swap_result_status res.from_chain_id res.tx_id res.log_index
              tx_need_reswap s.now
              (bytes "ttl:" ++ (format_nat threshold ++ (bytes " current:" ++ format_nat res.ttl)))
              s
          else (err (new_error "reswap check tx not Timeout yet"), s)
    ]
  ]

  found_on_chain : Bool → Act (Db d.Store) Done
  found_on_chain is_replace =
      if is_replace then fail (new_error "swaptx exist in chain") else pure tt

  mark_passed : Act (Db d.Store) Done
  mark_passed = do
    old ← find_router_swap_result res.from_chain_id res.tx_id res.log_index
    reject_if (old.status == reswapping) (new_error "forbid mark reswaping result to failed status")
    ignore (mark_swap_result_failed res.from_chain_id res.tx_id res.log_index)

  nonce_passed : Bool → Option TxStatus → Act (Db d.Store) Done
  unfolding mark_passed found_on_chain is_nil
  nonce_passed is_replace st s =
      let interval =
        let i = env.get_nonce_passed_confirm_interval res.to_chain_id in
        if i == 0 then treat_as_nonce_passed_interval else i in
      let lower : Act (Db d.Store) Done =
        if is_replace then fail (new_error "swap nonce is lower than latest nonce") else pure tt in
      if ltb res.timestamp (get_sep_time_in_find s.now interval)
      then (if is_nil st && ltb 0 (block_height (get_swap_tx_status bridge 2 res).0)
          then found_on_chain is_replace s
          else (mark_passed >> lower) s)
      else lower s

  -- checkIfSwapNonceHasPassed
  unfoldable pub check_if_swap_nonce_has_passed : Bool → Act (Db d.Store) Done
  unfolding nonce_passed
  check_if_swap_nonce_has_passed is_replace s = elim bridge.get_pool_nonce [
    | none ↦ (ok tt, s)
    | some get_pool_nonce ↦ elim (get_pool_nonce res.mpc) [
      | err e ↦ (err e, s)
      | ok nonce ↦
          (let st = (get_swap_tx_status bridge 1 res).0 in
            if ltb 0 (block_height st)
            then found_on_chain is_replace s
            else if ltb res.swap_nonce nonce && ltb 0 res.swap_nonce
            then nonce_passed is_replace st s
            else (ok tt, s))
    ]
  ]

  -- No status yet, and no height recorded.
  not_on_chain : Act (Db d.Store) Done
  unfolding reswap_if_timeout check_if_swap_nonce_has_passed
  not_on_chain s =
      let check : Result Done → Act (Db d.Store) Done = λ e.
        if env.is_nonce_supported res.to_chain_id
        then check_if_swap_nonce_has_passed false
        else lift e in
      if env.is_reswap_supported res.to_chain_id
      then (let (e, s') = reswap_if_timeout s in
          elim e [ ok _ ↦ (ok tt, s') | err x ↦ check (err x) s' ])
      else check (ok tt) s

  -- A height is recorded: the payout is final once it has the confirmations.
  confirm : Option TxStatus → Text → Act (Db d.Store) Done
  confirm st tx = if ltb (confirmations_of st) bridge.confirmations then pure tt else do
    ignore (
        if not (text_eq tx res.swap_tx)
        then update_swap_tx res.from_chain_id res.tx_id res.log_index tx
        else pure tt)
    if is_swap_tx_on_chain_and_failed st
        then mark_swap_result_failed res.from_chain_id res.tx_id res.log_index
        else mark_swap_result_stable res.from_chain_id res.tx_id res.log_index

  stable_with : Option TxStatus → Text → Act (Db d.Store) Done
  unfolding not_on_chain confirm block_time
  stable_with st tx =
      if block_height st == 0
      then (if not (res.swap_height == 0) then pure tt else not_on_chain)
      else if not (res.swap_height == 0)
      then confirm st tx
      else update_match res.from_chain_id res.tx_id res.log_index (record no_match {
        swap_height = block_height st;
        swap_time = block_time st;
        swap_tx = if not (text_eq tx res.swap_tx) then tx else [];
      })

module _ ⦃d : Driver⦄ (env : Env d.Store) (res : MgoSwapResult) where
  -- processRouterSwapStable
  unfoldable pub process_router_swap_stable : Act (Db d.Store) Done
  unfolding stable_with
  process_router_swap_stable = elim (env.get_bridge res.to_chain_id) [
    | none ↦ fail (sentinel err_no_bridge_for_chain_id)
    | some bridge ↦
        if not (res.swap_height == 0)
          && ltb (env.get_cached_latest_block_number res.to_chain_id)
              ((res.swap_height + bridge.confirmations) % 2 ^ 64)
        then pure tt
        else (let (st, tx) = get_swap_tx_status bridge 0 res in stable_with env bridge res st tx)
  ]

  recheck : Bridge (Db d.Store) → (Text → Result ℕ) → Act (Db d.Store) Done
  recheck bridge get_pool_nonce =
      let st = (get_swap_tx_status bridge 0 res).0 in
      if is_swap_tx_on_chain_and_failed st
      then pure tt
      else if ltb 0 (block_height st)
      then (if ltb (confirmations_of st) bridge.confirmations
          then mark_swap_result_unstable res.from_chain_id res.tx_id res.log_index
          else mark_swap_result_stable res.from_chain_id res.tx_id res.log_index)
      else (elim (get_pool_nonce res.mpc) [
        | err e ↦ fail e
        | ok nonce ↦
            if leb nonce res.swap_nonce
            then mark_swap_result_unstable res.from_chain_id res.tx_id res.log_index
            else pure tt
      ])

  recheck_sender : Bridge (Db d.Store) → (Text → Result ℕ) → Result Text → Act (Db d.Store) Done
  unfolding recheck
  recheck_sender bridge get_pool_nonce (err e) = pure tt
  recheck_sender bridge get_pool_nonce (ok mpc) =
      if not (equal_fold res.mpc mpc)
      then fail (sentinel err_sender_mismatch)
      else recheck bridge get_pool_nonce

  -- checkFailedRouterSwap
  unfoldable pub check_failed_router_swap : Act (Db d.Store) Done
  unfolding recheck_sender
  check_failed_router_swap =
      if (res.swap_nonce == 0 && res.swap_height == 0) || is_empty res.swap_tx
      then pure tt
      else (elim (env.get_bridge res.to_chain_id) [
        | none ↦ pure tt
        | some bridge ↦ elim bridge.get_pool_nonce [
          | none ↦ pure tt
          | some get_pool_nonce ↦
              recheck_sender bridge get_pool_nonce
                (env.get_router_mpc (get_token_id res.swap_info) res.to_chain_id)
        ]
      ])
