-- ===== src/Mongo/Status/Registration.antt =====
-- Which verification errors leave a record in the database, and with what status.
use cross_chain_router.Prelude.{◌≡◌, ◌↔◌, ◌≢◌, true, Option, some, none, arith}
use cross_chain_router.Tokens.Errors.{Error, should_register_router_swap_for_error}
use cross_chain_router.Mongo.Status.{get_router_swap_status_by_verify_error, tx_verify_failed}

-- ShouldRegisterRouterSwapForError holds of exactly the errors, and of nil, for which
-- GetRouterSwapStatusByVerifyError gives a status other than TxVerifyFailed.
pub should_register_router_swap_for_error_iff :
    (e : Option Error)
    → (should_register_router_swap_for_error e ≡ true)
      ↔ (get_router_swap_status_by_verify_error e ≢ tx_verify_failed)
unfolding should_register_router_swap_for_error get_router_swap_status_by_verify_error
should_register_router_swap_for_error_iff none = ground arith
should_register_router_swap_for_error_iff (some e) = ground arith
