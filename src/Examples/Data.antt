-- ===== src/Examples/Data.antt =====
-- A swap, its result, the chains and the state of the workers.
use cross_chain_router.Prelude.{true, false, none, some, List, []}
use cross_chain_router.Prelude.Int.{pos}
use cross_chain_router.Text.{Text, bytes}
use cross_chain_router.Tokens.Errors.{ok, sentinel, err_tx_with_wrong_value}
use cross_chain_router.Tokens.Types
use cross_chain_router.Tokens.Types.{BuildTxArgs, SwapTxInfo, TxStatus}
use cross_chain_router.Tokens.Bridge.{Bridge}
use cross_chain_router.Mongo.Driver.{found, no_documents}
use cross_chain_router.Mongo.Db.{Db}
use cross_chain_router.Mongo.Status.{tx_not_stable, match_tx_empty}
use cross_chain_router.Mongo.Tables.{MgoSwap, MgoSwapResult, no_swap_info}
use cross_chain_router.Worker.State.{Env, World}
use cross_chain_router.Examples.Memory.{Memory}

abbrev pub swap_info : SwapTxInfo
swap_info = record {
  swap_info = Types.no_swap_info;
  swap_type = 1;
  hash = bytes "0xa";
  height = 7;
  timestamp = 100;
  from = bytes "0xf";
  tx_to = bytes "0xr";
  to = bytes "0xr";
  bind = bytes "0xb";
  value = some (pos 5);
  log_index = 1;
  from_chain_id = pos 1;
  to_chain_id = pos 2;
}

abbrev pub swap_task : BuildTxArgs
swap_task = record {
  swap_info = Types.no_swap_info;
  swap_id = bytes "0xa";
  swap_type = 1;
  bind = bytes "0xb";
  log_index = 1;
  from_chain_id = pos 1;
  to_chain_id = pos 2;
  reswapping = false;
  from = bytes "0xmpc";
  origin_from = bytes "0xf";
  origin_tx_to = bytes "0xr";
  origin_value = some (pos 5);
  swap_value = some (pos 5);
  extra = record { gas_price = none; sequence = some 3; replace_num = 0; ttl = none };
}

abbrev pub new_swap : MgoSwap
new_swap = record {
  key = bytes "1:0xa:1";
  swap_type = 1;
  tx_id = bytes "0xa";
  tx_to = bytes "0xr";
  tx_height = 7;
  from = bytes "0xf";
  bind = bytes "0xb";
  value = bytes "5";
  log_index = 1;
  from_chain_id = bytes "1";
  to_chain_id = bytes "2";
  swap_info = no_swap_info;
  status = tx_not_stable;
  init_time = 100;
  timestamp = 100;
  memo = [];
}

abbrev pub new_result : MgoSwapResult
new_result = record {
  key = bytes "1:0xa:1";
  swap_type = 1;
  tx_id = bytes "0xa";
  tx_to = bytes "0xr";
  tx_height = 7;
  tx_time = 100;
  from = bytes "0xf";
  to = [];
  bind = bytes "0xb";
  value = bytes "5";
  log_index = 1;
  from_chain_id = bytes "1";
  to_chain_id = bytes "2";
  swap_info = no_swap_info;
  swap_tx = [];
  old_swap_txs = [];
  swap_height = 0;
  swap_time = 0;
  swap_value = bytes "0";
  swap_nonce = 0;
  status = match_tx_empty;
  init_time = 100;
  timestamp = 100;
  memo = [];
  mpc = [];
  ttl = 0;
}

abbrev pub paid_result : MgoSwapResult
paid_result = record new_result { swap_tx = bytes "0xpaid"; swap_nonce = 3; mpc = bytes "0xmpc" }

-- The database that holds the swap and the result under each key.
abbrev pub holding : MgoSwap → MgoSwapResult → Db Memory
holding swap res = record {
  store = record { swaps = λ k. found swap; results = λ k. found res; used_rs = λ k. no_documents };
  now = 1000;
  now_milli = 1000000;
}

-- A chain that verifies deposits, and sends, but has no transaction yet.
abbrev pub chain : Bridge (Db Memory)
chain = record {
  confirmations = 2;
  verify_transaction = λ tx t i. (some swap_info, none);
  build_raw_transaction = λ args s. (ok (bytes "raw", args), s);
  mpc_sign_transaction = λ raw args. ok (bytes "signed", bytes "0xpaid");
  send_transaction = λ i tx. ok (bytes "0xpaid");
  get_transaction_status = λ i tx. (none, none);
  get_pool_nonce = some (λ mpc. ok 5);
  re_swapable = none;
}

-- A chain that refuses the deposit.
abbrev pub refusing : Bridge (Db Memory)
refusing = record chain {
  verify_transaction = λ tx t i. (some swap_info, some (sentinel err_tx_with_wrong_value));
}

abbrev pub network : Bridge (Db Memory) → Env Memory
network bridge = record {
  get_bridge = λ c. some bridge;
  is_chain_id_paused = λ c. false;
  is_chain_id_in_black_list = λ c. false;
  is_token_id_in_black_list = λ i. false;
  is_token_id_in_black_list_on_chain = λ c i. false;
  is_account_in_black_list = λ a. false;
  is_big_value_swap = λ i. false;
  get_router_mpc = λ i c. ok (bytes "0xmpc");
  is_reswap_supported = λ c. false;
  is_nonce_supported = λ c. true;
  get_cached_latest_block_number = λ c. 0;
  is_parallel_swap_enabled = false;
  increase_nonce_when_send_tx = λ c. false;
  retry_send_tx_loop_count = λ c. 0;
  send_tx_loop_disabled = λ c. false;
  get_nonce_passed_confirm_interval = λ c. 0;
  wait_time_to_replace = 0;
  max_replace_count = 0;
  max_replace_distance = 0;
}

abbrev pub idle : Db Memory → World Memory (List Text)
idle db = record {
  db = db;
  cached_swap_tasks = [];
  cached_verifying_swaps = [];
  swap_tasks_in_queue = [];
  replace_tasks_in_queue = [];
  swap_task_queue = λ c. none;
  replace_task_queue = λ c. none;
  disagree_records = λ k. none;
  swap_ring = [];
  sent = [];
  spawned = [];
}
