-- ===== src/Mongo/Status.antt =====
-- mongodb/status.go. A SwapStatus is its uint16.
pub mod Registration
use cross_chain_router.Prelude.{
  ℕ, Bool, true, false, ◌||◌, Option, none, some, ◌==◌, if◌then◌else◌, not,
}
use cross_chain_router.Tokens.Errors.{
  Error, should_register_router_swap_for_error, err_tx_with_wrong_value, err_tx_with_wrong_path,
  err_miss_token_config, err_no_underlying_token, err_verify_tx_unsafe, err_swapout_forbidden,
}

abbrev pub SwapStatus : Type 0
SwapStatus = ℕ

abbrev pub tx_not_stable : SwapStatus
tx_not_stable = 0

abbrev pub tx_verify_failed : SwapStatus
tx_verify_failed = 1

abbrev pub tx_with_wrong_value : SwapStatus
tx_with_wrong_value = 3

abbrev pub tx_not_swapped : SwapStatus
tx_not_swapped = 5

abbrev pub tx_processed : SwapStatus
tx_processed = 7

abbrev pub match_tx_empty : SwapStatus
match_tx_empty = 8

abbrev pub match_tx_not_stable : SwapStatus
match_tx_not_stable = 9

abbrev pub match_tx_stable : SwapStatus
match_tx_stable = 10

abbrev pub tx_with_big_value : SwapStatus
tx_with_big_value = 12

abbrev pub match_tx_failed : SwapStatus
match_tx_failed = 14

abbrev pub swap_in_blacklist : SwapStatus
swap_in_blacklist = 15

abbrev pub manual_make_fail : SwapStatus
manual_make_fail = 16

abbrev pub tx_with_wrong_path : SwapStatus
tx_with_wrong_path = 19

abbrev pub miss_token_config : SwapStatus
miss_token_config = 20

abbrev pub no_underlying_token : SwapStatus
no_underlying_token = 21

abbrev pub tx_maybe_unsafe : SwapStatus
tx_maybe_unsafe = 22

abbrev pub swapout_forbidden : SwapStatus
swapout_forbidden = 23

abbrev pub tx_need_reswap : SwapStatus
tx_need_reswap = 24

abbrev pub keep_status : SwapStatus
keep_status = 255

abbrev pub reswapping : SwapStatus
reswapping = 256

-- IsResultStatus
unfoldable pub is_result_status : SwapStatus → Bool
is_result_status s =
    s == match_tx_empty
    || s == match_tx_not_stable
    || s == match_tx_stable
    || s == match_tx_failed
    || s == reswapping
    || s == manual_make_fail
    || s == swapout_forbidden
    || s == tx_need_reswap

-- IsRegisteredOk
unfoldable pub is_registered_ok : SwapStatus → Bool
is_registered_ok s =
    s == tx_not_stable
    || s == tx_not_swapped
    || s == tx_processed
    || s == tx_maybe_unsafe
    || s == manual_make_fail

-- GetRouterSwapStatusByVerifyError; nil is `none`.
unfoldable pub get_router_swap_status_by_verify_error : Option Error → SwapStatus
unfolding should_register_router_swap_for_error
get_router_swap_status_by_verify_error none = tx_not_stable
get_router_swap_status_by_verify_error (some e) =
    if not (should_register_router_swap_for_error (some e)) then tx_verify_failed else elim e.is [
      | err_tx_with_wrong_value ↦ tx_with_wrong_value
      | err_tx_with_wrong_path ↦ tx_with_wrong_path
      | err_miss_token_config ↦ miss_token_config
      | err_no_underlying_token ↦ no_underlying_token
      | err_verify_tx_unsafe ↦ tx_maybe_unsafe
      | err_swapout_forbidden ↦ swapout_forbidden
      | _ ↦ tx_verify_failed
    ]
