-- ===== src/Worker/Accept/Verify.antt =====
-- verifySignInfo and rebuildAndVerifyMsgHash of worker/accept.go.
pub mod Justified
pub mod Frame
use cross_chain_router.Prelude.{
  ℕ, Bool, true, false, not, ◌&&◌, Option, none, some, List, [], ◌∷◌, ltb, if◌then◌else◌,
}
use cross_chain_router.Prelude.Int.{eqb_ℤ}
use cross_chain_router.Text.{Text, is_empty, text_eq, equal_fold}
use cross_chain_router.Text.Number.{format_int}
use cross_chain_router.Tokens.Errors.{
  Error, Result, ok, err, Done, new_error, sentinel, runtime_panic, err_wrong_msg_context,
  err_identifier_mismatch, err_invalid_aggregate, err_initiator_mismatch,
  err_no_bridge_for_chain_id,
}
use cross_chain_router.Tokens.Types.{
  SwapInfo, AnyCallSwapInfo, SwapTxInfo, BuildTxArgs, is_valid_type, get_tx_nonce,
}
use cross_chain_router.Effect.{Act, pure, lift, ◌>>=◌, ◌>>◌, reject_if, continue}
use cross_chain_router.Worker.State.{TaskSet}
use cross_chain_router.Worker.Accept.State.{
  AcceptBridge, AcceptEnv, AcceptWorld, RecordStore, Saving, SignArgs, SignInfoData,
}
use cross_chain_router.Worker.Accept.Records.{check_accept_record}

-- filterSignInfo; an empty MsgContext is indexed out of range.
unfoldable pub filter_sign_info : AcceptEnv → SignInfoData → Result SignArgs
filter_sign_info env info = elim info.msg_context [
  | [] ↦ err (sentinel runtime_panic)
  | context ∷ rest ↦ elim (env.unmarshal context) [
    | none ↦ err (sentinel err_wrong_msg_context)
    | some a ↦
        if text_eq a.identifier env.get_identifier
        then ok a
        else if text_eq a.identifier env.aggregate_identifier
        then ok a
        else err (sentinel err_identifier_mismatch)
  ]
]

-- getBridges
unfoldable pub get_bridges : AcceptEnv → Text → Text → Result (AcceptBridge × AcceptBridge)
get_bridges env from_chain_id to_chain_id = elim (env.get_bridge_by_chain_id from_chain_id) [
  | none ↦ err (sentinel err_no_bridge_for_chain_id)
  | some src ↦ elim (env.get_bridge_by_chain_id to_chain_id) [
    | none ↦ err (sentinel err_no_bridge_for_chain_id)
    | some dst ↦ ok (src, dst)
  ]
]

-- The outcome of VerifyTransaction; a swap info that is nil is dereferenced.
unfoldable pub verified : Option SwapTxInfo × Option Error → Result SwapTxInfo
verified (info, some e) = err e
verified (some info, none) = ok info
verified (none, none) = err (sentinel runtime_panic)

-- The attestation of the request is taken over.
unfoldable pub with_attestation : SwapInfo → SwapInfo → SwapInfo
with_attestation verified_info args_info = elim verified_info.any_call [
  | none ↦ verified_info
  | some v ↦ elim args_info.any_call [
    | none ↦ verified_info
    | some a ↦
        if is_empty a.attestation
        then verified_info
        else record verified_info { any_call = some (record v { attestation = a.attestation }) }
  ]
]

-- buildTxArgs
unfoldable pub rebuilt : Text → BuildTxArgs → SwapTxInfo → SignArgs
unfolding with_attestation
rebuilt identifier args info = record {
  identifier = identifier;
  args = record {
    swap_info = with_attestation info.swap_info args.swap_info;
    swap_id = info.hash;
    swap_type = info.swap_type;
    bind = info.bind;
    log_index = info.log_index;
    from_chain_id = info.from_chain_id;
    to_chain_id = info.to_chain_id;
    reswapping = args.reswapping;
    from = args.from;
    origin_from = info.from;
    origin_tx_to = info.tx_to;
    origin_value = info.value;
    swap_value = none;
    extra = args.extra;
  };
}

unfoldable pub has_nonce : BuildTxArgs → Bool
has_nonce args = ltb 0 (get_tx_nonce args)

module _ ⦃t : TaskSet⦄ ⦃r : RecordStore⦄ where
  abbrev Node : Type 0
  Node = AcceptWorld t.Tasks r.Store

  -- The start of saveAcceptRecord.
  start_saving : Saving → Act Node Done
  unfolding has_nonce
  start_saving s w = elim w.records [
    | none ↦ (ok tt, w)
    | some db ↦
        if has_nonce s.sign_args.args
        then (ok tt, record w { saving = s ∷ w.saving })
        else (ok tt, w)
  ]

  -- The end of rebuildAndVerifyMsgHash.
  check_hash : AcceptBridge → SignInfoData → SignArgs → Text → Act Node Done
  unfolding start_saving
  check_hash dst info b raw_tx = do
    lift (dst.verify_msg_hash raw_tx info.msg_hash)
    start_saving (record { bridge = dst; key_id = info.key; sign_args = b; raw_tx = raw_tx })

  check_rebuilt : AcceptBridge → SignInfoData → SignArgs → Act Node Done
  unfolding check_hash
  check_rebuilt dst info b = do
    raw_tx ← lift (dst.build_raw_transaction b)
    check_hash dst info b raw_tx

  -- rebuildAndVerifyMsgHash from the verified swap info on.
  compare_swap : AcceptEnv → SignInfoData → BuildTxArgs → AcceptBridge → SwapTxInfo → Act Node Done
  unfolding check_rebuilt rebuilt
  compare_swap env info args dst swap_info = do
    reject_if (not (equal_fold args.bind swap_info.bind)) (new_error "bind mismatch")
    reject_if (not (eqb_ℤ args.to_chain_id swap_info.to_chain_id)) (new_error "toChainID mismatch")
    check_rebuilt dst info (rebuilt env.get_identifier args swap_info)

  -- rebuildAndVerifyMsgHash from the bridges on.
  verify_deposit :
      AcceptEnv → SignInfoData → BuildTxArgs → AcceptBridge × AcceptBridge → Act Node Done
  unfolding compare_swap
  verify_deposit env info args bridges = do
    swap_info ←
        lift (verified (bridges.0.verify_transaction args.swap_id args.swap_type args.log_index))
    compare_swap env info args bridges.1 swap_info

  -- rebuildAndVerifyMsgHash. saveAcceptRecord is started under the nonce of the request, which the
  -- rebuilt arguments share.
  unfoldable pub rebuild_and_verify_msg_hash :
      AcceptEnv → SignInfoData → BuildTxArgs → Act Node Done
  unfolding verify_deposit
  rebuild_and_verify_msg_hash env info args = do
    reject_if (not (is_valid_type args.swap_type)) (new_error "unknown router swap type")
    bridges ← lift (get_bridges env (format_int args.from_chain_id) (format_int args.to_chain_id))
    verify_deposit env info args bridges

  check_record : AcceptEnv → BuildTxArgs → Act Node Done
  unfolding has_nonce
  check_record env args w =
      if has_nonce args then (check_accept_record env args w.now w.records, w) else (ok tt, w)

  invalid_aggregate : Result Done → Act Node Done
  invalid_aggregate (ok u) w = (ok tt, w)
  invalid_aggregate (err e) w = (err (sentinel err_invalid_aggregate), w)

  -- verifySignInfo once the request is parsed.
  unfoldable pub verify_parsed : AcceptEnv → SignInfoData → SignArgs → Act Node Done
  unfolding check_record invalid_aggregate
  verify_parsed env info a = do
    reject_if (not (env.is_mpc_initiator info.account)) (sentinel err_initiator_mismatch)
    if text_eq a.identifier env.aggregate_identifier
        then invalid_aggregate (env.verify_aggregate info.msg_hash a)
        else (do check_record env a.args; rebuild_and_verify_msg_hash env info a.args)

  -- verifySignInfo, less the arguments that it returns for the log.
  unfoldable pub verify_sign_info : AcceptEnv → SignInfoData → Act Node Done
  verify_sign_info env info = do a ← lift (filter_sign_info env info); verify_parsed env info a
