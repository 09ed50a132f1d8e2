-- ===== src/Worker/Accept/State.antt =====
-- What a signing node asks the bridges, the configuration and the signing client, and the variables of
-- worker/accept.go.
use cross_chain_router.Prelude.{ℕ, Bool, Option, List}
use cross_chain_router.Text.{Text, bytes}
use cross_chain_router.Tokens.Errors.{Error, Result, Done}
use cross_chain_router.Tokens.Types.{SwapTxInfo, TxStatus, BuildTxArgs}

abbrev pub accept_agree : Text
accept_agree = bytes "AGREE"

abbrev pub accept_disagree : Text
accept_disagree = bytes "DISAGREE"

abbrev pub max_cached_accept_infos : ℕ
max_cached_accept_infos = 500

-- SignInfoData of mpc/types.go, less the fields that the job does not read.
pub record SignInfoData : Type 0 where
  pub account : Text
  pub key : Text
  pub msg_hash : List Text
  pub msg_context : List Text

-- BuildTxArgs with the Identifier that only signing nodes read. Chain ids are not nil.
pub record SignArgs : Type 0 where
  pub identifier : Text
  pub args : BuildTxArgs

-- What GetTransaction finds: an *RPCTransaction with its nonce, or something else.
pub data PoolTx : Type 0 where
  rpc_transaction : ℕ → PoolTx
  other_transaction : PoolTx

-- The calls of an IBridge. A raw transaction is opaque, and stands as a text.
pub record AcceptBridge : Type 0 where
  pub verify_transaction : Text → ℕ → ℕ → Option SwapTxInfo × Option Error
  pub build_raw_transaction : SignArgs → Result Text
  pub verify_msg_hash : Text → List Text → Result Done
  pub get_transaction_status : Text → Option TxStatus × Option Error
  pub get_transaction : Text → Result PoolTx
  pub get_signed_tx_hash_of_key_id : Option (Text → Text → Text → Result Text)

-- `unmarshal` is json.Unmarshal into BuildTxArgs.
pub record AcceptEnv : Type 0 where
  pub get_bridge_by_chain_id : Text → Option AcceptBridge
  pub get_identifier : Text
  pub aggregate_identifier : Text
  pub unmarshal : Text → Option SignArgs
  pub is_mpc_initiator : Text → Bool
  pub verify_aggregate : List Text → SignArgs → Result Done
  pub pending_invalid_accept : Bool
  pub do_accept_sign : Text → Text → List Text → List Text → Result Done

-- The key-value store of the package leveldb: an iteration over the keys with a prefix.
pub record RecordStore : Type 1 where
  pub Store : Type 0
  pub entries : Store → Text → List (Text × ℕ)
  pub put : Store → Text → ℕ → Result Store

-- A call of DoAcceptSign.
pub record Answer : Type 0 where
  pub key_id : Text
  pub result : Text
  pub msg_hash : List Text
  pub context : List Text

-- A call of saveAcceptRecord that was started: the bridge, the key id, the arguments, the transaction.
pub record Saving : Type 0 where
  pub bridge : AcceptBridge
  pub key_id : Text
  pub sign_args : SignArgs
  pub raw_tx : Text

-- `records` is lvldbHandle; the answers stand last first.
pub record AcceptWorld (T R : Type 0) : Type 0 where
  pub cached_accept_infos : T
  pub records : Option R
  pub now : ℕ
  pub answers : List Answer
  pub saving : List Saving
