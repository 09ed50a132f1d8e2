-- ===== src/Tokens/Errors.antt =====
-- tokens/errors.go, with the errors of mongodb/errors.go, worker/swap.go and the package mpc.
-- A Go error is a text and the sentinel that errors.Is finds in it.
use cross_chain_router.Prelude.{Bool, true, false, Option, none, some}
use Prim.Native.String.{String}
use cross_chain_router.Text.{Text, bytes}

-- The sentinels that the modelled code asks for. Every other error is `other_error`. A run-time
-- panic, which nothing recovers, comes back as the error `runtime_panic`.
pub data Sentinel : Type 0 where
  other_error : Sentinel
  err_not_found err_tx_not_found err_tx_not_stable err_rpc_query_error : Sentinel
  err_swap_in_blacklist err_no_bridge_for_chain_id err_build_tx_error_and_delay : Sentinel
  err_nil_swap_value err_sender_mismatch err_nonce_not_support err_reswap_not_support : Sentinel
  err_tx_with_wrong_value err_tx_with_wrong_path err_miss_token_config : Sentinel
  err_no_underlying_token err_verify_tx_unsafe err_swapout_forbidden : Sentinel
  err_item_not_found err_item_is_dup mgo_error : Sentinel
  err_forbid_update_nonce err_forbid_update_swap_tx : Sentinel
  err_already_swapped err_chain_is_paused err_get_sign_status_has_disagree : Sentinel
  err_wrong_msg_context err_identifier_mismatch err_invalid_aggregate : Sentinel
  err_initiator_mismatch err_tx_with_wrong_contract err_miss_router_info : Sentinel
  runtime_panic : Sentinel

pub record Error : Type 0 where
  pub is : Sentinel
  pub message : Text

-- errors.New(text), and fmt.Errorf less the values that it formats
unfoldable pub new_error : String → Error
new_error s = record { is = other_error; message = bytes s }

unfoldable pub sentinel_text : Sentinel → Text
sentinel_text err_not_found = bytes "not found"
sentinel_text err_tx_not_found = bytes "tx not found"
sentinel_text err_tx_not_stable = bytes "tx not stable"
sentinel_text err_rpc_query_error = bytes "rpc query error"
sentinel_text err_swap_in_blacklist = bytes "swap is in black list"
sentinel_text err_no_bridge_for_chain_id = bytes "no bridge for chain id"
sentinel_text err_build_tx_error_and_delay = bytes "[build tx error]"
sentinel_text err_nil_swap_value = bytes "swap value is nil"
sentinel_text err_sender_mismatch = bytes "sender mismatch"
sentinel_text err_nonce_not_support = bytes "nonce not support"
sentinel_text err_reswap_not_support = bytes "reswap not support"
sentinel_text err_tx_with_wrong_value = bytes "tx with wrong value"
sentinel_text err_tx_with_wrong_path = bytes "swap trade tx with wrong path"
sentinel_text err_miss_token_config = bytes "miss token config"
sentinel_text err_no_underlying_token = bytes "no underlying token"
sentinel_text err_verify_tx_unsafe = bytes "[tx maybe unsafe]"
sentinel_text err_swapout_forbidden = bytes "swapout forbidden"
sentinel_text err_item_not_found = bytes "mgoError: Item not found"
sentinel_text err_item_is_dup = bytes "mgoError: Item is duplicate"
sentinel_text err_forbid_update_nonce = bytes "mgoError: Forbid update swap nonce"
sentinel_text err_forbid_update_swap_tx = bytes "mgoError: Forbid update swap tx"
sentinel_text err_already_swapped = bytes "already swapped"
sentinel_text err_chain_is_paused = bytes "from or to chain is paused"
sentinel_text err_get_sign_status_has_disagree = bytes "getSignStatus has disagree"
sentinel_text mgo_error = bytes "mgoError: "
sentinel_text err_wrong_msg_context = bytes "wrong msg context"
sentinel_text err_identifier_mismatch = bytes "cross chain bridge identifier mismatch"
sentinel_text err_invalid_aggregate = bytes "invalid agregate"
sentinel_text err_initiator_mismatch = bytes "initiator mismatch"
sentinel_text err_tx_with_wrong_contract = bytes "tx with wrong contract"
sentinel_text err_miss_router_info = bytes "miss router info"
sentinel_text runtime_panic = bytes "panic"
sentinel_text other_error = bytes ""

-- The error value itself, `ErrTxNotStable` for `err_tx_not_stable`.
unfoldable pub sentinel : Sentinel → Error
sentinel s = record { is = s; message = sentinel_text s }

-- ShouldRegisterRouterSwapForError; nil is `none`.
unfoldable pub should_register_router_swap_for_error : Option Error → Bool
should_register_router_swap_for_error none = true
should_register_router_swap_for_error (some e) = elim e.is [
  | err_tx_with_wrong_value ↦ true
  | err_tx_with_wrong_path ↦ true
  | err_miss_token_config ↦ true
  | err_no_underlying_token ↦ true
  | err_verify_tx_unsafe ↦ true
  | err_swapout_forbidden ↦ true
  | _ ↦ false
]

-- IsRPCQueryOrNotFoundError
unfoldable pub is_rpc_query_or_not_found_error : Error → Bool
is_rpc_query_or_not_found_error e = elim e.is [
  | err_rpc_query_error ↦ true
  | err_not_found ↦ true
  | _ ↦ false
]

pub data Result (A : Type 0) : Type 0 where
  ok : A → Result A
  err : Error → Result A

-- What a function returns that returns an error only.
abbrev pub Done : Type 0
Done = Unit {0}
