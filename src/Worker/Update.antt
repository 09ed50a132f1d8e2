-- ===== src/Worker/Update.antt =====
-- worker/common.go: how the jobs write to the swap results.
use cross_chain_router.Prelude.{ℕ, not, none, some, [], ltb, ◌==◌, if◌then◌else◌}
use cross_chain_router.Text.{Text, is_empty, bytes}
use cross_chain_router.Text.Number.{format_int}
use cross_chain_router.Tokens.Errors.{Done}
use cross_chain_router.Tokens.Types.{SwapTxInfo}
use cross_chain_router.Effect.{Act}
use cross_chain_router.Mongo.Driver.{Driver}
use cross_chain_router.Mongo.Db.{Db}
use cross_chain_router.Mongo.Status.{
  SwapStatus, keep_status, match_tx_not_stable, match_tx_stable, match_tx_failed,
}
use cross_chain_router.Mongo.Tables.{MgoSwapResult, SwapResultUpdateItems}
use cross_chain_router.Mongo.Results.{
  add_router_swap_result, update_router_swap_result, update_router_swap_result_status,
}
use cross_chain_router.Mongo.Converts.{convert_to_swap_info}

-- MatchTx
pub record MatchTx : Type 0 where
  pub mpc : Text
  pub swap_tx : Text
  pub swap_height : ℕ
  pub swap_time : ℕ
  pub swap_value : Text
  pub swap_nonce : ℕ
  pub ttl : ℕ

abbrev pub no_match : MatchTx
no_match = record {
  mpc = [];
  swap_tx = [];
  swap_height = 0;
  swap_time = 0;
  swap_value = [];
  swap_nonce = 0;
  ttl = 0;
}

-- SwapResultUpdateItems{Status: KeepStatus, Timestamp: now()}
abbrev keep_items : ℕ → SwapResultUpdateItems
keep_items now = record {
  mpc = [];
  swap_tx = [];
  swap_height = 0;
  swap_time = 0;
  swap_value = [];
  swap_nonce = 0;
  status = keep_status;
  timestamp = now;
  memo = [];
  ttl = 0;
}

-- The items that updateRouterSwapResult makes of a MatchTx.
unfoldable pub match_items : MatchTx → ℕ → SwapResultUpdateItems
match_items m now =
    if m.swap_height == 0
    then record (keep_items now) {
      swap_value = m.swap_value;
      swap_nonce = m.swap_nonce;
      mpc = if not (is_empty m.swap_tx) then m.mpc else [];
      swap_tx = if not (is_empty m.swap_tx) then m.swap_tx else [];
      status = if not (is_empty m.swap_tx) then match_tx_not_stable else keep_status;
      ttl = if ltb 0 m.ttl then m.ttl else 0;
    }
    else record (keep_items now) {
      swap_nonce = m.swap_nonce;
      swap_height = m.swap_height;
      swap_time = m.swap_time;
      swap_tx = if not (is_empty m.swap_tx) then m.swap_tx else [];
      ttl = if ltb 0 m.ttl then m.ttl else 0;
    }

initial_result : SwapTxInfo → SwapStatus → ℕ → MgoSwapResult
initial_result info status now = record {
  key = [];
  swap_type = info.swap_type;
  tx_id = info.hash;
  tx_to = info.tx_to;
  tx_height = info.height;
  tx_time = info.timestamp;
  from = info.from;
  to = info.to;
  bind = info.bind;
  value = elim info.value [ none ↦ bytes "0" | some v ↦ format_int v ];
  log_index = info.log_index;
  from_chain_id = format_int info.from_chain_id;
  to_chain_id = format_int info.to_chain_id;
  swap_info = convert_to_swap_info info.swap_info;
  swap_tx = [];
  old_swap_txs = [];
  swap_height = 0;
  swap_time = 0;
  swap_value = bytes "0";
  swap_nonce = 0;
  status = status;
  init_time = 0;
  timestamp = now;
  memo = [];
  mpc = [];
  ttl = 0;
}

module _ ⦃d : Driver⦄ where
  -- AddInitialSwapResult
  unfoldable pub add_initial_swap_result : SwapTxInfo → SwapStatus → Act (Db d.Store) Done
  unfolding initial_result
  add_initial_swap_result info status s =
      add_router_swap_result (initial_result info status s.now) s

  -- updateRouterSwapResult
  unfoldable pub update_match : Text → Text → ℕ → MatchTx → Act (Db d.Store) Done
  update_match from_chain_id tx_id log_index m s =
      update_router_swap_result from_chain_id tx_id log_index (match_items m s.now) s

  -- updateSwapMemo
  unfoldable pub update_swap_memo : Text → Text → ℕ → Text → Act (Db d.Store) Done
  update_swap_memo from_chain_id tx_id log_index memo s =
      update_router_swap_result from_chain_id tx_id log_index
        (record (keep_items s.now) { memo = memo }) s

  -- updateSwapTimestamp
  unfoldable pub update_swap_timestamp : Text → Text → ℕ → Act (Db d.Store) Done
  update_swap_timestamp from_chain_id tx_id log_index s =
      update_router_swap_result from_chain_id tx_id log_index (keep_items s.now) s

  -- updateSwapTx
  unfoldable pub update_swap_tx : Text → Text → ℕ → Text → Act (Db d.Store) Done
  update_swap_tx from_chain_id tx_id log_index tx s =
      update_router_swap_result from_chain_id tx_id log_index
        (record (keep_items s.now) { swap_tx = tx }) s

  -- markSwapResultUnstable
  unfoldable pub mark_swap_result_unstable : Text → Text → ℕ → Act (Db d.Store) Done
  mark_swap_result_unstable from_chain_id tx_id log_index s =
      update_router_swap_result_status from_chain_id tx_id log_index match_tx_not_stable s.now [] s

  -- markSwapResultStable
  unfoldable pub mark_swap_result_stable : Text → Text → ℕ → Act (Db d.Store) Done
  mark_swap_result_stable from_chain_id tx_id log_index s =
      update_router_swap_result_status from_chain_id tx_id log_index match_tx_stable s.now [] s

  -- markSwapResultFailed
  unfoldable pub mark_swap_result_failed : Text → Text → ℕ → Act (Db d.Store) Done
  mark_swap_result_failed from_chain_id tx_id log_index s =
      update_router_swap_result_status from_chain_id tx_id log_index match_tx_failed s.now [] s
