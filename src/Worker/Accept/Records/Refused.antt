-- ===== src/Worker/Accept/Records/Refused.antt =====
-- When the records let a request pass.
use cross_chain_router.Prelude.{
  ℕ, ◌+◌, ◌≤◌, ◌<◌, true, false, ◌≡◌, ◌⊎◌, none, some, List, [], ◌∷◌, arith, length, drop,
}
use cross_chain_router.Text.{Text}
use cross_chain_router.Text.Number.{format_int}
use cross_chain_router.Tokens.Errors.{ok}
use cross_chain_router.Tokens.Types.{BuildTxArgs, TxStatus, get_tx_nonce}
use cross_chain_router.Worker.Accept.State.{
  AcceptBridge, AcceptEnv, rpc_transaction, other_transaction, RecordStore,
}
use cross_chain_router.Worker.Accept.Records.{
  counts, in_pool, on_chain, is_swapped, check_entries, check_accept_record, get_swap_key_prefix,
  allow_reswap_time_interval,
}

-- An earlier payout that is no obstacle: on chain it has failed; off chain it is not found, or replaced
-- under the same nonce, or the request is a reswap and the payout older than the interval.
pub record IsSettled (b : AcceptBridge) (args : BuildTxArgs) (now : ℕ) (tx : Text) (time : ℕ)
    : Type 0 where
  pub failed :
      (s : TxStatus)
      → b.get_transaction_status tx ≡ (some s, none)
      → 0 < s.block_height
      → s.receipt_ok ≡ some false
  pub pooled :
      (nonce : ℕ)
      → on_chain (b.get_transaction_status tx) ≡ none
      → b.get_transaction tx ≡ ok (rpc_transaction nonce)
      → (nonce ≡ get_tx_nonce args)
        ⊎ ((args.reswapping ≡ true) × (time + allow_reswap_time_interval ≤ now))
  pub known :
      on_chain (b.get_transaction_status tx) ≡ none
      → b.get_transaction tx ≡ ok other_transaction
      → ⊥

abbrev pub AllSettled : AcceptBridge → BuildTxArgs → ℕ → ℕ → List (Text × ℕ) → Type 0
AllSettled b args now n [] = Unit
AllSettled b args now n (entry ∷ entries) =
    IsSettled b args now (drop n entry.0) entry.1 × AllSettled b args now n entries

module _ (b : AcceptBridge) (args : BuildTxArgs) (now : ℕ) where
  is_swapped-failed :
      (tx : Text) (time : ℕ) (s : TxStatus)
      → is_swapped b args now tx time ≡ false
      → b.get_transaction_status tx ≡ (some s, none)
      → 0 < s.block_height
      → s.receipt_ok ≡ some false
  unfolding is_swapped on_chain counts
  is_swapped-failed tx time s h e l = ground arith

  is_swapped-pooled :
      (tx : Text) (time nonce : ℕ)
      → is_swapped b args now tx time ≡ false
      → on_chain (b.get_transaction_status tx) ≡ none
      → b.get_transaction tx ≡ ok (rpc_transaction nonce)
      → (nonce ≡ get_tx_nonce args)
        ⊎ ((args.reswapping ≡ true) × (time + allow_reswap_time_interval ≤ now))
  unfolding is_swapped in_pool
  is_swapped-pooled tx time nonce h e p = ground arith

  is_swapped-known :
      (tx : Text) (time : ℕ)
      → is_swapped b args now tx time ≡ false
      → on_chain (b.get_transaction_status tx) ≡ none
      → b.get_transaction tx ≡ ok other_transaction
      → ⊥
  unfolding is_swapped in_pool
  is_swapped-known tx time h e p = ground arith

  check_entries-AllSettled :
      (n : ℕ) (entries : List (Text × ℕ))
      → check_entries (some b) args now n entries ≡ ok tt
      → AllSettled b args now n entries
  unfolding check_entries
  check_entries-AllSettled n [] h = tt
  check_entries-AllSettled n ((key, time) ∷ entries) h =
      let tx = drop n key in
      let open_ : is_swapped b args now tx time ≡ false = ground arith in
      (
        record {
          failed = λ s. is_swapped-failed tx time s open_;
          pooled = λ nonce. is_swapped-pooled tx time nonce open_;
          known = is_swapped-known tx time open_;
        },
        check_entries-AllSettled n entries (ground arith),
      )

module _ ⦃r : RecordStore⦄ where
  -- CheckAcceptRecord lets a request to a known chain pass only when every payout that is recorded for
  -- its swap is settled.
  pub check_accept_record-AllSettled :
      (env : AcceptEnv) (args : BuildTxArgs) (now : ℕ) (db : r.Store) (b : AcceptBridge)
      → env.get_bridge_by_chain_id (format_int args.to_chain_id) ≡ some b
      → check_accept_record env args now (some db) ≡ ok tt
      → let prefix = get_swap_key_prefix args in
        AllSettled b args now (length prefix) (r.entries db prefix)
  unfolding check_accept_record
  check_accept_record-AllSettled env args now db b e h =
      check_entries-AllSettled b args now (length (get_swap_key_prefix args)) _ (rw (← e) h)
