-- ===== src/Worker/Accept.antt =====
-- worker/accept.go: a signing node verifies a sign request against a transaction that it rebuilds from
-- the source chain, and answers AGREE or DISAGREE.
pub mod State
pub mod Records
pub mod Verify
pub mod Answered
use cross_chain_router.Prelude.{
  ℕ, Bool, true, false, ◌&&◌, Option, none, some, List, [], ◌∷◌, ltb, leb, if◌then◌else◌, length,
  take,
}
use cross_chain_router.Text.{Text, bytes}
use cross_chain_router.Tokens.Errors.{
  runtime_panic, Error, Result, ok, err, Done, err_wrong_msg_context, err_identifier_mismatch,
  err_invalid_aggregate, err_initiator_mismatch, err_tx_with_wrong_contract,
  err_no_bridge_for_chain_id, err_tx_not_stable, err_tx_not_found, err_rpc_query_error,
  err_not_found,
}
use cross_chain_router.Worker.State.{TaskSet}
use cross_chain_router.Worker.Accept.State.{
  SignInfoData, SignArgs, AcceptEnv, AcceptWorld, Answer, RecordStore, accept_agree,
  accept_disagree, max_cached_accept_infos,
}
use cross_chain_router.Worker.Accept.Verify.{verify_sign_info}

-- The cases of the switch in processAcceptInfo; a panic of verifySignInfo does not come to it.
pub data Class : Type 0 where
  discarded unjudged config_problem judged panicked : Class

unfoldable pub class_of : Error → Class
class_of e = elim e.is [
  | err_wrong_msg_context ↦ discarded
  | err_identifier_mismatch ↦ discarded
  | err_invalid_aggregate ↦ discarded
  | err_tx_not_stable ↦ unjudged
  | err_tx_not_found ↦ unjudged
  | err_rpc_query_error ↦ unjudged
  | err_not_found ↦ unjudged
  | err_initiator_mismatch ↦ config_problem
  | err_tx_with_wrong_contract ↦ config_problem
  | err_no_bridge_for_chain_id ↦ config_problem
  | runtime_panic ↦ panicked
  | _ ↦ judged
]

-- The disagree reason
unfoldable pub cut_reason : Text → Text
cut_reason s = if ltb 1000 (length s) then take 1000 s else s

module _ ⦃t : TaskSet⦄ ⦃r : RecordStore⦄ where
  -- checkAndUpdateCachedAcceptInfoMap
  unfoldable pub check_and_update_cached_accept_info_map :
      Text → AcceptWorld t.Tasks r.Store → Bool × AcceptWorld t.Tasks r.Store
  check_and_update_cached_accept_info_map key w =
      let infos = w.cached_accept_infos in
      if t.contains infos key
      then (false, w)
      else let room =
          if leb max_cached_accept_infos (t.cardinality infos) then t.pop infos else infos in
        (true, record w { cached_accept_infos = t.add room key })

  -- The deferred function of processAcceptInfo.
  unfoldable pub uncache : Text → AcceptWorld t.Tasks r.Store → AcceptWorld t.Tasks r.Store
  uncache key w = record w { cached_accept_infos = t.remove w.cached_accept_infos key }

  answered :
      Text → Result Done → AcceptWorld t.Tasks r.Store → Result Done × AcceptWorld t.Tasks r.Store
  unfolding uncache
  answered key (ok u) w = (ok tt, w)
  answered key (err e) w = (err e, uncache key w)

  -- DoAcceptSign, and what processAcceptInfo does with its outcome.
  answer :
      AcceptEnv
      → SignInfoData
      → Text
      → List Text
      → AcceptWorld t.Tasks r.Store
      → Result Done × AcceptWorld t.Tasks r.Store
  unfolding answered
  answer env info result context w =
      answered info.key (env.do_accept_sign info.key result info.msg_hash context) (record w {
        answers =
            record {
              key_id = info.key;
              result = result;
              msg_hash = info.msg_hash;
              context = context;
            }
            ∷ w.answers;
      })

  -- After verifySignInfo; its panic runs the deferred function and ends the process.
  conclude :
      AcceptEnv
      → SignInfoData
      → Result Done
      → AcceptWorld t.Tasks r.Store
      → Result Done × AcceptWorld t.Tasks r.Store
  unfolding answer uncache class_of cut_reason
  conclude env info (ok u) w = answer env info accept_agree [] w
  conclude env info (err e) w =
      let disagree = answer env info accept_disagree (cut_reason e.message ∷ []) w in
      elim (class_of e) [
        | discarded ↦ (err e, w)
        | unjudged ↦ if env.pending_invalid_accept then (err e, uncache info.key w) else disagree
        | config_problem ↦ if env.pending_invalid_accept then (err e, w) else disagree
        | judged ↦ disagree
        | panicked ↦ (err e, uncache info.key w)
      ]

  -- processAcceptInfo
  unfoldable pub process_accept_info :
      AcceptEnv
      → SignInfoData
      → AcceptWorld t.Tasks r.Store
      → Result Done × AcceptWorld t.Tasks r.Store
  unfolding conclude check_and_update_cached_accept_info_map
  process_accept_info env info w =
      let (fresh, w1) = check_and_update_cached_accept_info_map info.key w in
      let (outcome, w2) = verify_sign_info env info w1 in
      if fresh then conclude env info outcome w2 else (ok tt, w)
