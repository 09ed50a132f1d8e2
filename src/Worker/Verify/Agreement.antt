-- ===== src/Worker/Verify/Agreement.antt =====
-- The status that the verify job gives, against the one that a registration gives.
use cross_chain_router.Prelude.{◌≡◌, Option, some, none, arith}
use cross_chain_router.Tokens.Errors.{Error, should_register_router_swap_for_error}
use cross_chain_router.Mongo.Status.{
  SwapStatus, get_router_swap_status_by_verify_error, swapout_forbidden, tx_not_stable,
}
use cross_chain_router.Worker.Verify.{Verdict, passed, unstable, failed, forbidden, verdict_of}

-- The status that a verdict stands for, where it settles the swap.
abbrev pub IsStatusOf : Verdict → SwapStatus → Type 0
IsStatusOf passed s = s ≡ tx_not_stable
IsStatusOf unstable s = Unit
IsStatusOf forbidden s = s ≡ swapout_forbidden
IsStatusOf (failed status) s = s ≡ status

-- Where the switch of processRouterSwapVerify settles a swap for an error, it gives the status of
-- GetRouterSwapStatusByVerifyError. A nil error passes here and is TxNotStable there.
pub verdict_of-get_router_swap_status_by_verify_error :
    (e : Option Error) → IsStatusOf (verdict_of e) (get_router_swap_status_by_verify_error e)
unfolding verdict_of get_router_swap_status_by_verify_error should_register_router_swap_for_error
verdict_of-get_router_swap_status_by_verify_error none = ground arith
verdict_of-get_router_swap_status_by_verify_error (some e) = ground arith
