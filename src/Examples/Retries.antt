-- ===== src/Examples/Retries.antt =====
-- The theorems on replacing a payout and on making it again, at concrete swaps.
use cross_chain_router.Prelude.{◌≡◌, refl, true, false, arith, none, List}
use cross_chain_router.Prelude.Int.{pos}
use cross_chain_router.Text.{Text, bytes, equal_fold, is_empty, text_eq, to_lower, lower}
use cross_chain_router.Text.Number.{format_int}
use cross_chain_router.Text.Number.RoundTrip.{parse_big256-format_int}
use cross_chain_router.Tokens.Errors.{ok}
use cross_chain_router.Tokens.Types.{is_swap_tx_on_chain}
use cross_chain_router.Mongo.Db.{read_reply}
use cross_chain_router.Mongo.Converts.{convert_from_swap_info}
use cross_chain_router.Mongo.Status.{match_tx_not_stable, tx_need_reswap, tx_processed}
use cross_chain_router.Mongo.Swaps.{find_router_swap}
use cross_chain_router.Mongo.Tables.{MgoSwapResult}
use cross_chain_router.Worker.State.{Env, World, is_blacked}
use cross_chain_router.Worker.Stable.{
  check_if_swap_nonce_has_passed, get_swap_tx_status, block_height,
}
use cross_chain_router.Worker.Tasks.{get_from_to_chain_id_and_value}
use cross_chain_router.Worker.Replace.{replace_router_swap, verify_replace_swap}
use cross_chain_router.Worker.Replace.Guard.{IsReplaceable, replace_router_swap-IsReplaceable}
use cross_chain_router.Worker.Reswap.{reswap_router_swap, verify_reswap_swap}
use cross_chain_router.Worker.Reswap.Guard.{IsReswapable, reswap_router_swap-IsReswapable}
use cross_chain_router.Examples.Memory.{Memory, memory, task_list}
use cross_chain_router.Examples.Data.{new_swap, paid_result, holding, chain, network, idle}

abbrev hanging : MgoSwapResult
hanging = record paid_result {
  status = match_tx_not_stable;
  swap_nonce = 9;
  from_chain_id = format_int (pos 1);
  to_chain_id = format_int (pos 2);
  value = format_int (pos 5);
}

abbrev hanging_world : World Memory (List Text)
hanging_world = idle (holding (record new_swap { status = tx_processed }) hanging)

replaced :
    (replace_router_swap ⦃d = memory⦄ ⦃t = task_list⦄
      (network chain)
      hanging
      none
      false
      hanging_world).0
    ≡ ok tt
unfolding replace_router_swap verify_replace_swap find_router_swap read_reply is_blacked is_empty
    bytes check_if_swap_nonce_has_passed get_swap_tx_status block_height is_swap_tx_on_chain
    equal_fold text_eq to_lower lower convert_from_swap_info get_from_to_chain_id_and_value
replaced = ground (
  arith,
  parse_big256-format_int (pos 1) (omega arith),
  parse_big256-format_int (pos 2) (omega arith),
  parse_big256-format_int (pos 5) (omega arith),
)

replace_router_swap-IsReplaceable_example :
    IsReplaceable (network chain) (record new_swap { status = tx_processed }) hanging
replace_router_swap-IsReplaceable_example =
    replace_router_swap-IsReplaceable ⦃d = memory⦄ ⦃t = task_list⦄ (network chain) hanging none
      hanging_world (record new_swap { status = tx_processed }) refl replaced

abbrev reswap_network : Env Memory
reswap_network = record (network chain) { is_reswap_supported = λ c. true }

abbrev timed_out : MgoSwapResult
timed_out = record hanging { status = tx_need_reswap }

reswapped :
    (reswap_router_swap ⦃d = memory⦄ ⦃t = task_list⦄ reswap_network timed_out hanging_world).0
    ≡ ok tt
unfolding reswap_router_swap verify_reswap_swap find_router_swap read_reply is_blacked is_empty
    bytes block_height equal_fold text_eq to_lower lower convert_from_swap_info
    get_from_to_chain_id_and_value
reswapped = ground (
  arith,
  parse_big256-format_int (pos 1) (omega arith),
  parse_big256-format_int (pos 2) (omega arith),
  parse_big256-format_int (pos 5) (omega arith),
)

reswap_router_swap-IsReswapable_example :
    IsReswapable reswap_network chain (record new_swap { status = tx_processed }) timed_out
reswap_router_swap-IsReswapable_example =
    reswap_router_swap-IsReswapable ⦃d = memory⦄ ⦃t = task_list⦄ reswap_network timed_out
      hanging_world (record new_swap { status = tx_processed }) chain refl refl reswapped
