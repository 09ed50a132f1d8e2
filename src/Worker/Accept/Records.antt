-- ===== src/Worker/Accept/Records.antt =====
-- worker/acceptdb.go: the payouts that a signing node has agreed to, and the refusal of a second one.
pub mod Refused
use cross_chain_router.Prelude.{
  ℕ, ◌+◌, Bool, true, false, not, ◌&&◌, ◌||◌, Option, none, some, List, [], ◌∷◌, ◌++◌, ltb, leb,
  ◌==◌, if◌then◌else◌, length, drop,
}
use cross_chain_router.Prelude.Int.{pos}
use cross_chain_router.Text.{Text, to_lower}
use cross_chain_router.Text.Number.{format_int}
use cross_chain_router.Tokens.Errors.{
  Error, Result, ok, err, Done, sentinel, err_already_swapped, runtime_panic,
}
use cross_chain_router.Tokens.Types.{BuildTxArgs, TxStatus, get_tx_nonce}
use cross_chain_router.Worker.State.{TaskSet}
use cross_chain_router.Worker.Accept.State.{
  AcceptBridge, AcceptEnv, AcceptWorld, PoolTx, rpc_transaction, other_transaction, RecordStore,
  Saving,
}

abbrev pub allow_reswap_time_interval : ℕ
allow_reswap_time_interval = 1800

-- getSwapKeyPrefix
unfoldable pub get_swap_key_prefix : BuildTxArgs → Text
get_swap_key_prefix args = to_lower (
    args.swap_id
    ++ b':' ∷ format_int (pos args.log_index)
    ++ b':' ∷ format_int args.from_chain_id
    ++ b':' ∷ format_int (pos args.swap_type)
    ++ b':' ∷ [])

-- The receipt of a transaction that is on chain: a failed one is no payout.
counts : Option Bool → Bool
counts none = true
counts (some status_ok) = status_ok

-- A transaction of an earlier request that is not on chain, by what GetTransaction finds.
in_pool : BuildTxArgs → ℕ → ℕ → Result PoolTx → Bool
in_pool args value now (err e) = false
in_pool args value now (ok other_transaction) = true
in_pool args value now (ok (rpc_transaction nonce)) =
    not (args.reswapping && leb (value + allow_reswap_time_interval) now)
    && not (nonce == get_tx_nonce args)

-- Whether GetTransactionStatus shows the transaction on chain: `none` when it does not, else whether it
-- counts.
unfoldable pub on_chain : Option TxStatus × Option Error → Option Bool
unfolding counts
on_chain (some s, none) = if ltb 0 s.block_height then some (counts s.receipt_ok) else none
on_chain (none, e) = none
on_chain (some s, some e) = none

-- Whether the entry stops the request: `oldSwapTx` is a payout that counts.
unfoldable pub is_swapped : AcceptBridge → BuildTxArgs → ℕ → Text → ℕ → Bool
unfolding on_chain in_pool
is_swapped b args now old_swap_tx value = elim (on_chain (b.get_transaction_status old_swap_tx)) [
  | some yes_or_no ↦ yes_or_no
  | none ↦ in_pool args value now (b.get_transaction old_swap_tx)
]

-- The loop of CheckAcceptRecord; a bridge that is nil is dereferenced at the first entry.
unfoldable pub check_entries :
    Option AcceptBridge → BuildTxArgs → ℕ → ℕ → List (Text × ℕ) → Result Done
unfolding is_swapped
check_entries bridge args now n [] = ok tt
check_entries none args now n (entry ∷ entries) = err (sentinel runtime_panic)
check_entries (some b) args now n (entry ∷ entries) =
    let rest = check_entries (some b) args now n entries in
    if is_swapped b args now (drop n entry.0) entry.1
    then err (sentinel err_already_swapped)
    else rest

module _ ⦃r : RecordStore⦄ where
  -- CheckAcceptRecord
  unfoldable pub check_accept_record : AcceptEnv → BuildTxArgs → ℕ → Option r.Store → Result Done
  unfolding check_entries
  check_accept_record env args now none = ok tt
  check_accept_record env args now (some db) =
      let prefix = get_swap_key_prefix args in
      check_entries (env.get_bridge_by_chain_id (format_int args.to_chain_id)) args now
        (length prefix) (r.entries db prefix)

  -- AddAcceptRecord
  unfoldable pub add_accept_record :
      BuildTxArgs → Text → ℕ → Option r.Store → Result (Option r.Store)
  add_accept_record args swap_tx now none = ok none
  add_accept_record args swap_tx now (some db) =
      elim (r.put db (get_swap_key_prefix args ++ swap_tx) now) [
        | ok db' ↦ ok (some db')
        | err e ↦ err e
      ]

  or_same : Option r.Store → Result (Option r.Store) → Option r.Store
  or_same old (ok db) = db
  or_same old (err e) = old

  -- saveAcceptRecord; its errors are logged.
  unfoldable pub save_accept_record : ℕ → Saving → Option r.Store → Option r.Store
  unfolding add_accept_record or_same
  save_accept_record now s db = elim s.bridge.get_signed_tx_hash_of_key_id [
    | none ↦ db
    | some hash_of ↦ elim (hash_of s.sign_args.args.from s.key_id s.raw_tx) [
      | err e ↦ db
      | ok swap_tx ↦ or_same db (add_accept_record s.sign_args.args swap_tx now db)
    ]
  ]
