-- ===== src/Examples/Nonces.antt =====
-- The theorems on nonces at concrete calls.
use cross_chain_router.Prelude.{◌≡◌, refl, none, [], arith}
use cross_chain_router.Text.{Text, bytes, to_lower, lower, text_eq, is_empty}
use cross_chain_router.Text.Keyed.{store_at}
use cross_chain_router.Mongo.Db.{set_result, set_swap, mgo_error_of, read_reply}
use cross_chain_router.Mongo.Swaps.{find_router_swap_result}
use cross_chain_router.Mongo.Results.{allocate_router_swap_nonce, check_router_swap_result_update}
use cross_chain_router.Tokens.NonceSetter.{
  NonceSetterBase, nonce_of, set_nonce, allocate_nonce, try_allocate_recycle_nonce,
}
use cross_chain_router.Tokens.NonceSetter.Calls.{
  account_of, spare_of, Allowed, handed, Call, set, allocate, step, event_of,
}
use cross_chain_router.Tokens.NonceSetter.Calls.Refines.{step-Allowed}
use cross_chain_router.Tokens.NonceSetter.Calls.Distinct.{
  Reach, here, next, after, IsProper, IsDistinct, AllBelow, Reach-IsDistinct,
}
use cross_chain_router.Examples.Memory.{Memory, memory}
use cross_chain_router.Examples.Data.{swap_task, new_swap, new_result, holding}

abbrev new_setter : NonceSetterBase Memory
new_setter = record {
  swap_nonce = λ k. none;
  recycle_nonce = λ k. none;
  db = holding new_swap new_result;
}

abbrev k : Text
k = bytes "0xmpc"

abbrev set_call : Call Memory
set_call = set (bytes "0xMPC") 7

abbrev allocate_call : Call Memory
allocate_call = allocate swap_task

abbrev setter : NonceSetterBase Memory
setter = step ⦃d = memory⦄ set_call new_setter

hands_seven : event_of ⦃d = memory⦄ k allocate_call setter ≡ handed 7
unfolding event_of step set_nonce store_at allocate_nonce try_allocate_recycle_nonce
    allocate_router_swap_nonce find_router_swap_result check_router_swap_result_update read_reply
    set_result set_swap mgo_error_of is_empty to_lower lower text_eq nonce_of bytes
hands_seven = refl

step-Allowed_example :
    Allowed
      (account_of k setter)
      (account_of k (step ⦃d = memory⦄ allocate_call setter))
      (event_of ⦃d = memory⦄ k allocate_call setter)
step-Allowed_example = step-Allowed ⦃d = memory⦄ k allocate_call setter

reached : Reach ⦃d = memory⦄ k new_setter (step ⦃d = memory⦄ allocate_call setter) (
    after
      (event_of ⦃d = memory⦄ k allocate_call setter)
      (after (event_of ⦃d = memory⦄ k set_call new_setter) []))
unfolding event_of IsProper account_of step set_nonce store_at nonce_of to_lower lower text_eq bytes
reached = next (next here set_call tt) allocate_call (rw hands_seven (omega arith))

Reach-IsDistinct_example :
    let ms =
      after
        (event_of ⦃d = memory⦄ k allocate_call setter)
        (after (event_of ⦃d = memory⦄ k set_call new_setter) []) in
    IsDistinct ms × AllBelow (account_of k (step ⦃d = memory⦄ allocate_call setter)).next ms
unfolding account_of spare_of
Reach-IsDistinct_example = Reach-IsDistinct ⦃d = memory⦄ k refl reached
