-- ===== src/Examples/Database.antt =====
-- The theorems on the database at concrete swaps.
use cross_chain_router.Prelude.{
  ℕ, ◌+◌, ◌%◌, ◌^◌, ◌&&◌, ◌==◌, ◌≡◌, refl, true, false, Option, some, [], arith, if◌then◌else◌,
}
use cross_chain_router.Text.{Text, bytes, is_empty, equal_fold, text_eq, to_lower}
use cross_chain_router.Tokens.Errors.{ok, err, new_error, sentinel, err_forbid_update_nonce}
use cross_chain_router.Mongo.Driver.{found}
use cross_chain_router.Mongo.Db.{Db, set_result, set_swap, mgo_error_of, read_reply}
use cross_chain_router.Mongo.Key.{get_router_swap_key}
use cross_chain_router.Mongo.Status.{tx_processed, match_tx_failed, keep_status, reswapping}
use cross_chain_router.Mongo.Tables.{SwapResultUpdateItems}
use cross_chain_router.Mongo.Swaps.{
  find_router_swap_result, find_router_swap, update_router_swap_status,
}
use cross_chain_router.Mongo.Results.{
  allocate_router_swap_nonce, check_router_swap_result_update, set_allocated,
  update_router_swap_result, update_router_old_swap_txs, set_result_status,
  update_router_swap_result_status, mentions,
}
use cross_chain_router.Mongo.Results.Nonce.{
  Stored, key_of, allocate_router_swap_nonce-ok, allocate_router_swap_nonce-again,
  update_router_swap_result-nonce,
}
use cross_chain_router.Mongo.Results.OldTxs.{
  IsLaterThan, is_listed, update_router_old_swap_txs-IsLaterThan,
}
use cross_chain_router.Tokens.Types.{is_swap_tx_on_chain_and_failed}
use cross_chain_router.Tokens.Bridge.{Bridge}
use cross_chain_router.Mongo.Admin.{router_admin_reswap, has_succeeded, get_swap_results_tx_status}
use cross_chain_router.Mongo.Admin.Reswap.{IsNonceUsed, router_admin_reswap-ok}
use cross_chain_router.Examples.Memory.{Memory, memory, memory-IsDocumented}
use cross_chain_router.Examples.Data.{swap_task, new_swap, new_result, paid_result, holding, chain}

abbrev fresh : Db Memory
fresh = holding new_swap new_result

abbrev paid : Db Memory
paid = holding new_swap paid_result

abbrev pair : ℕ × ℕ
pair = (7, 8)

allocated : (allocate_router_swap_nonce ⦃d = memory⦄ swap_task 7 false fresh).0 ≡ ok (7, 8)
unfolding allocate_router_swap_nonce find_router_swap_result check_router_swap_result_update
    read_reply set_result set_swap mgo_error_of is_empty
allocated = refl

allocate_router_swap_nonce-ok_example :
    (pair ≡ (7, if false then 0 else (7 + 1) % 2 ^ 64))
    × (new_result.swap_nonce ≡ 0)
    × (new_result.swap_tx ≡ [])
    × (memory.find_result
          (allocate_router_swap_nonce ⦃d = memory⦄ swap_task 7 false fresh).1.store
          (key_of swap_task)
        ≡ found (set_allocated swap_task 7 fresh.now new_result))
allocate_router_swap_nonce-ok_example =
    allocate_router_swap_nonce-ok ⦃d = memory⦄ memory-IsDocumented swap_task 7 false fresh
      new_result {p = (7, 8)} refl allocated

allocate_router_swap_nonce-again_example :
    let s' = (allocate_router_swap_nonce ⦃d = memory⦄ swap_task 7 false fresh).1 in
    allocate_router_swap_nonce ⦃d = memory⦄ swap_task 9 true s' ≡ (
      err (
          if true && 9 == 0
          then new_error "swap nonce is alreay recycled"
          else sentinel err_forbid_update_nonce),
      s',
    )
allocate_router_swap_nonce-again_example =
    allocate_router_swap_nonce-again ⦃d = memory⦄ memory-IsDocumented swap_task swap_task 7 9 false
      true fresh new_result {p = (7, 8)} refl allocated (omega arith) refl

abbrev items : SwapResultUpdateItems
items = record {
  mpc = bytes "0xother";
  swap_tx = bytes "0xother";
  swap_height = 12;
  swap_time = 900;
  swap_value = [];
  swap_nonce = 8;
  status = keep_status;
  timestamp = 1000;
  memo = [];
  ttl = 0;
}

update_router_swap_result-nonce_example :
    Stored
      (λ r'. r'.swap_nonce ≡ paid_result.swap_nonce)
      (memory.find_result
        (update_router_swap_result ⦃d = memory⦄ (bytes "1") (bytes "0xa") 1 items paid).1.store
        (get_router_swap_key (bytes "1") (bytes "0xa") 1))
update_router_swap_result-nonce_example =
    update_router_swap_result-nonce ⦃d = memory⦄ memory-IsDocumented (bytes "1") (bytes "0xa") 1
      items paid paid_result refl (omega arith)

paid-is_listed : is_listed paid_result ≡ true
unfolding is_listed is_empty bytes
paid-is_listed = refl

added :
    (update_router_old_swap_txs ⦃d = memory⦄ (bytes "1") (bytes "0xa") 1 (bytes "0xb") paid).0
    ≡ ok tt
unfolding update_router_old_swap_txs find_router_swap_result read_reply set_result mgo_error_of
    is_empty bytes equal_fold text_eq to_lower mentions
added = refl

update_router_old_swap_txs-IsLaterThan_example : Stored (IsLaterThan paid_result (bytes "0xb")) (
    memory.find_result
      (update_router_old_swap_txs ⦃d = memory⦄
        (bytes "1")
        (bytes "0xa")
        1
        (bytes "0xb")
        paid).1.store
      (get_router_swap_key (bytes "1") (bytes "0xa") 1))
unfolding is_empty bytes
update_router_old_swap_txs-IsLaterThan_example =
    update_router_old_swap_txs-IsLaterThan ⦃d = memory⦄ memory-IsDocumented (bytes "1")
      (bytes "0xa") 1 (bytes "0xb") paid paid_result refl paid-is_listed refl added

abbrev failed_db : Db Memory
failed_db =
    holding (record new_swap { status = tx_processed })
      (record paid_result { status = match_tx_failed })

abbrev get_chain : Text → Option (Bridge (Db Memory))
get_chain c = some chain

reset : (router_admin_reswap ⦃d = memory⦄ get_chain (bytes "1") (bytes "0xa") 1 failed_db).0 ≡ ok tt
unfolding router_admin_reswap find_router_swap find_router_swap_result read_reply has_succeeded
    get_swap_results_tx_status update_router_swap_result_status update_router_swap_status set_result
    set_swap mgo_error_of is_empty bytes is_swap_tx_on_chain_and_failed
reset = refl

router_admin_reswap-ok_example :
    (tx_processed ≡ tx_processed)
    × (match_tx_failed ≡ match_tx_failed)
    × (has_succeeded
          (get_swap_results_tx_status chain (record paid_result { status = match_tx_failed }))
        ≡ false)
    × IsNonceUsed chain.get_pool_nonce (record paid_result { status = match_tx_failed })
    × (memory.find_result
          (router_admin_reswap ⦃d = memory⦄ get_chain (bytes "1") (bytes "0xa") 1 failed_db).1.store
          (get_router_swap_key (bytes "1") (bytes "0xa") 1)
        ≡ found (
            set_result_status reswapping failed_db.now []
              (record paid_result { status = match_tx_failed })))
router_admin_reswap-ok_example =
    router_admin_reswap-ok ⦃d = memory⦄ memory-IsDocumented get_chain (bytes "1") (bytes "0xa") 1
      chain failed_db (record new_swap { status = tx_processed })
      (record paid_result { status = match_tx_failed }) refl refl refl reset
