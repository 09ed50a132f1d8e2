-- ===== src/Tokens/Bridge.antt =====
-- tokens/interface.go: what a bridge of a chain does for the workers, as an interface. The state S is
-- the database, which BuildRawTransaction writes to when nonces are allocated for parallel signing.
use cross_chain_router.Prelude.{ℕ, Bool, Option}
use cross_chain_router.Text.{Text}
use cross_chain_router.Tokens.Errors.{Error, Result}
use cross_chain_router.Tokens.Types.{SwapTxInfo, TxStatus, BuildTxArgs}
use cross_chain_router.Effect.{Act}

-- ReSwapable; IsTxTimeout takes the TTL of a transaction and the threshold.
pub record ReSwapable : Type 0 where
  pub get_current_threshold : Result ℕ
  pub is_tx_timeout : ℕ → ℕ → Bool

-- Raw and signed transactions are opaque, and stand as texts. The first argument of
-- `get_transaction_status` and of `send_transaction` counts the rounds of asking, since the chain may
-- answer otherwise the next time.
pub record Bridge (S : Type 0) : Type 0 where
  pub confirmations : ℕ
  pub verify_transaction : Text → ℕ → ℕ → Option SwapTxInfo × Option Error
  pub build_raw_transaction : BuildTxArgs → Act S (Text × BuildTxArgs)
  pub mpc_sign_transaction : Text → BuildTxArgs → Result (Text × Text)
  pub send_transaction : ℕ → Text → Result Text
  pub get_transaction_status : ℕ → Text → Option TxStatus × Option Error
  pub get_pool_nonce : Option (Text → Result ℕ)
  pub re_swapable : Option ReSwapable
