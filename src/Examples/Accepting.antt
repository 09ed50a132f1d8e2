-- ===== src/Examples/Accepting.antt =====
-- The theorems on sign requests at concrete requests.
use cross_chain_router.Prelude.{
  ℕ, ◌≡◌, refl, true, false, Option, none, some, List, [], ◌∷◌, length, if◌then◌else◌,
}
use cross_chain_router.Text.{Text, bytes, to_lower, text_eq, has_prefix, equal_fold}
use cross_chain_router.Text.Number.{format_int, format_nat}
use cross_chain_router.Tokens.Errors.{Error, ok, err, sentinel, err_tx_not_stable}
use cross_chain_router.Tokens.Types.{SwapTxInfo, is_valid_type, get_tx_nonce}
use cross_chain_router.Worker.Accept.State.{
  AcceptBridge, AcceptEnv, AcceptWorld, RecordStore, SignArgs, SignInfoData, rpc_transaction,
}
use cross_chain_router.Worker.Accept.Records.{check_accept_record, get_swap_key_prefix}
use cross_chain_router.Worker.Accept.Records.Refused.{AllSettled, check_accept_record-AllSettled}
use cross_chain_router.Worker.Accept.Verify.{
  filter_sign_info, verify_sign_info, verify_parsed, rebuild_and_verify_msg_hash, get_bridges,
  verified,
}
use cross_chain_router.Worker.Accept.Verify.Justified.{IsJustified}
use cross_chain_router.Worker.Accept.{process_accept_info, check_and_update_cached_accept_info_map}
use cross_chain_router.Worker.Accept.Answered.{
  IsAnswer, process_accept_info-IsJustified, process_accept_info-process_accept_info,
}
use cross_chain_router.Worker.Accept.Answered.Fate.{IsFate, fate_of, process_accept_info-IsFate}
use cross_chain_router.Examples.Memory.{task_list, task_list-IsTaskSet}
use cross_chain_router.Examples.Data.{swap_task, swap_info}

abbrev with_prefix : List (Text × ℕ) → Text → List (Text × ℕ)
with_prefix [] p = []
with_prefix (entry ∷ entries) p =
    let rest = with_prefix entries p in if has_prefix entry.0 p then entry ∷ rest else rest

abbrev record_list : RecordStore
record_list = record {
  Store = List (Text × ℕ);
  entries = with_prefix;
  put = λ s k v. ok ((k, v) ∷ s);
}

-- A chain that answers every VerifyTransaction alike, and that has a failed payout.
abbrev answering : Option SwapTxInfo → Option Error → AcceptBridge
answering info e = record {
  verify_transaction = λ tx swap_type i. (info, e);
  build_raw_transaction = λ a. ok (bytes "raw");
  verify_msg_hash = λ raw hashes. ok tt;
  get_transaction_status = λ tx. (
    some (record { receipt_ok = some false; confirmations = 1; block_height = 5; block_time = 6 }),
    none,
  );
  get_transaction = λ tx. ok (rpc_transaction 4);
  get_signed_tx_hash_of_key_id = none;
}

abbrev request : SignArgs
request = record { identifier = bytes "router"; args = swap_task }

abbrev node : Option SwapTxInfo → Option Error → AcceptEnv
node info e = record {
  get_bridge_by_chain_id = λ chain. some (answering info e);
  get_identifier = bytes "router";
  aggregate_identifier = bytes "aggregate";
  unmarshal = λ s. some request;
  is_mpc_initiator = λ account. true;
  verify_aggregate = λ hashes a. ok tt;
  pending_invalid_accept = true;
  do_accept_sign = λ key result hashes context. ok tt;
}

abbrev sign_info : SignInfoData
sign_info = record {
  account = bytes "0xi";
  key = bytes "k";
  msg_hash = bytes "h" ∷ [];
  msg_context = bytes "{}" ∷ [];
}

abbrev idle_node : AcceptWorld (List Text) (List (Text × ℕ))
idle_node = record {
  cached_accept_infos = [];
  records = none;
  now = 1000;
  answers = [];
  saving = [];
}

abbrev agreeing : AcceptEnv
agreeing = node (some swap_info) none

abbrev waiting : AcceptEnv
waiting = node none (some (sentinel err_tx_not_stable))

verify_agrees :
    (verify_sign_info ⦃t = task_list⦄ ⦃r = record_list⦄ agreeing sign_info idle_node).0 ≡ ok tt
unfolding verify_sign_info filter_sign_info text_eq bytes verify_parsed get_tx_nonce
    check_accept_record rebuild_and_verify_msg_hash is_valid_type get_bridges verified equal_fold
    to_lower
verify_agrees = refl

process_accept_info-IsJustified_example :
    IsAnswer ⦃t = task_list⦄ ⦃r = record_list⦄ agreeing sign_info
      (IsJustified ⦃r = record_list⦄ agreeing sign_info 1000 none)
      idle_node
      (process_accept_info ⦃t = task_list⦄ ⦃r = record_list⦄ agreeing sign_info idle_node).1
process_accept_info-IsJustified_example =
    process_accept_info-IsJustified ⦃t = task_list⦄ ⦃r = record_list⦄ agreeing sign_info idle_node

process_agrees :
    (process_accept_info ⦃t = task_list⦄ ⦃r = record_list⦄ agreeing sign_info idle_node).0 ≡ ok tt
unfolding process_accept_info verify_sign_info filter_sign_info text_eq bytes verify_parsed
    get_tx_nonce check_accept_record rebuild_and_verify_msg_hash is_valid_type get_bridges verified
    equal_fold to_lower
process_agrees = refl

process_accept_info-process_accept_info_example :
    let v =
      (process_accept_info ⦃t = task_list⦄ ⦃r = record_list⦄ agreeing sign_info idle_node).1 in
    process_accept_info ⦃t = task_list⦄ ⦃r = record_list⦄ agreeing sign_info v ≡ (ok tt, v)
process_accept_info-process_accept_info_example =
    process_accept_info-process_accept_info ⦃t = task_list⦄ ⦃r = record_list⦄ agreeing sign_info
      idle_node task_list-IsTaskSet process_agrees

abbrev not_stable : Error
not_stable = sentinel err_tx_not_stable

verify_waits :
    (verify_sign_info ⦃t = task_list⦄ ⦃r = record_list⦄ waiting sign_info
      (check_and_update_cached_accept_info_map ⦃t = task_list⦄ ⦃r = record_list⦄
        (bytes "k")
        idle_node).1).0
    ≡ err not_stable
unfolding check_and_update_cached_accept_info_map verify_sign_info filter_sign_info text_eq bytes
    verify_parsed get_tx_nonce check_accept_record rebuild_and_verify_msg_hash is_valid_type
    get_bridges verified equal_fold to_lower
verify_waits = refl

process_accept_info-IsFate_example :
    IsFate ⦃t = task_list⦄ ⦃r = record_list⦄ waiting sign_info
      (fate_of true err_tx_not_stable)
      not_stable
      idle_node
      (process_accept_info ⦃t = task_list⦄ ⦃r = record_list⦄ waiting sign_info idle_node)
unfolding sentinel
process_accept_info-IsFate_example =
    process_accept_info-IsFate ⦃t = task_list⦄ ⦃r = record_list⦄ waiting sign_info idle_node
      not_stable task_list-IsTaskSet refl verify_waits

abbrev recorded : List (Text × ℕ)
recorded = (bytes "0xa:1:1:1:0xold", 7) ∷ []

passes : check_accept_record ⦃r = record_list⦄ agreeing swap_task 1000 (some recorded) ≡ ok tt
unfolding check_accept_record has_prefix get_swap_key_prefix to_lower bytes format_int format_nat
passes = refl

check_accept_record-AllSettled_example :
    let prefix = get_swap_key_prefix swap_task in
    AllSettled
      (answering (some swap_info) none)
      swap_task
      1000
      (length prefix)
      (with_prefix recorded prefix)
check_accept_record-AllSettled_example =
    check_accept_record-AllSettled ⦃r = record_list⦄ agreeing swap_task 1000 recorded
      (answering (some swap_info) none) refl passes
