-- ===== src/Worker/Accept/Verify/Justified.antt =====
-- What a successful verification of a sign request has established.
use cross_chain_router.Prelude.{
  ℕ, true, false, ◌≡◌, ◌⊎◌, inl, inr, Option, none, some, arith, Bool-cases,
}
use cross_chain_router.Prelude.Int.{eqb_ℤ}
use cross_chain_router.Text.{text_eq, Text, equal_fold}
use cross_chain_router.Text.Number.{format_int}
use cross_chain_router.Tokens.Errors.{Error, ok}
use cross_chain_router.Tokens.Types.{is_valid_type, SwapTxInfo, BuildTxArgs}
use cross_chain_router.Effect.{continue}
use cross_chain_router.Effect.Succeeds.{continue-ok}
use cross_chain_router.Worker.State.{TaskSet}
use cross_chain_router.Worker.Accept.State.{
  AcceptBridge, AcceptEnv, AcceptWorld, RecordStore, SignArgs, SignInfoData,
}
use cross_chain_router.Worker.Accept.Records.{check_accept_record}
use cross_chain_router.Worker.Accept.Verify.{
  filter_sign_info, get_bridges, verified, rebuilt, has_nonce, check_hash, check_rebuilt,
  compare_swap, verify_deposit, rebuild_and_verify_msg_hash, check_record, invalid_aggregate,
  verify_parsed, verify_sign_info,
}

-- The source chain verifies the deposit, which agrees with the request on the receiver and on the
-- destination, and the hashes to sign are those of the transaction that the destination bridge builds
-- from the deposit.
pub record IsRebuilt (env : AcceptEnv) (info : SignInfoData) (args : BuildTxArgs) : Type 0 where
  pub src : AcceptBridge
  pub dst : AcceptBridge
  pub swap_info : SwapTxInfo
  pub raw_tx : Text
  pub src_found : env.get_bridge_by_chain_id (format_int args.from_chain_id) ≡ some src
  pub dst_found : env.get_bridge_by_chain_id (format_int args.to_chain_id) ≡ some dst
  pub deposit :
      src.verify_transaction args.swap_id args.swap_type args.log_index ≡ (some swap_info, none)
  pub same_bind : equal_fold args.bind swap_info.bind ≡ true
  pub same_chain : eqb_ℤ args.to_chain_id swap_info.to_chain_id ≡ true
  pub valid_type : is_valid_type args.swap_type ≡ true
  pub built : dst.build_raw_transaction (rebuilt env.get_identifier args swap_info) ≡ ok raw_tx
  pub hashed : dst.verify_msg_hash raw_tx info.msg_hash ≡ ok tt

-- The request has no nonce, or CheckAcceptRecord lets it pass: there is no record store, or every payout
-- that is recorded for its swap is settled.
abbrev pub PassesRecords : ⦃r : RecordStore⦄ → AcceptEnv → BuildTxArgs → ℕ → Option r.Store → Type 0
PassesRecords env args now records =
    (has_nonce args ≡ false) ⊎ (check_accept_record env args now records ≡ ok tt)

-- The request is one of this router, comes from an initiator, and is verified: as an aggregation, or as
-- a payout that the records let pass, where it has a nonce, and that is rebuilt from its deposit.
pub record IsJustified ⦃r : RecordStore⦄ (env : AcceptEnv) (info : SignInfoData) (now : ℕ)
    (records : Option r.Store) : Type 0 where
  pub request : SignArgs
  pub parsed : filter_sign_info env info ≡ ok request
  pub initiated : env.is_mpc_initiator info.account ≡ true
  pub reason :
      ((text_eq request.identifier env.aggregate_identifier ≡ true)
        × (env.verify_aggregate info.msg_hash request ≡ ok tt))
      ⊎ ((text_eq request.identifier env.aggregate_identifier ≡ false)
          × PassesRecords env request.args now records
          × IsRebuilt env info request.args)

get_bridges-ok :
    (env : AcceptEnv) (from to : Text) (p : AcceptBridge × AcceptBridge)
    → get_bridges env from to ≡ ok p
    → (env.get_bridge_by_chain_id from ≡ some p.0) × (env.get_bridge_by_chain_id to ≡ some p.1)
unfolding get_bridges
get_bridges-ok env from to p h = ground arith

verified-ok :
    (r : Option SwapTxInfo × Option Error) (i : SwapTxInfo) → verified r ≡ ok i → r ≡ (some i, none)
unfolding verified
verified-ok (i', some e) i h = absurd cc
verified-ok (some i', none) i h = ground arith
verified-ok (none, none) i h = absurd cc

module _ ⦃t : TaskSet⦄ ⦃r : RecordStore⦄ (env : AcceptEnv) (info : SignInfoData) where
  check_hash-ok :
      (dst : AcceptBridge) (b : SignArgs) (raw_tx : Text) (w : AcceptWorld t.Tasks r.Store)
      → (check_hash dst info b raw_tx w).0 ≡ ok tt
      → dst.verify_msg_hash raw_tx info.msg_hash ≡ ok tt
  unfolding check_hash
  check_hash-ok dst b raw_tx w h = ground arith

  compare_swap-ok :
      (args : BuildTxArgs) (dst : AcceptBridge) (i : SwapTxInfo) (w : AcceptWorld t.Tasks r.Store)
      → (compare_swap env info args dst i w).0 ≡ ok tt
      → (equal_fold args.bind i.bind ≡ true)
        × (eqb_ℤ args.to_chain_id i.to_chain_id ≡ true)
        × ((check_rebuilt dst info (rebuilt env.get_identifier args i) w).0 ≡ ok tt)
  unfolding compare_swap
  compare_swap-ok args dst i w h = ground arith

  rebuild-ok :
      (args : BuildTxArgs) (w : AcceptWorld t.Tasks r.Store)
      → (rebuild_and_verify_msg_hash env info args w).0 ≡ ok tt
      → (is_valid_type args.swap_type ≡ true)
        × ((continue
              (get_bridges env (format_int args.from_chain_id) (format_int args.to_chain_id))
              (verify_deposit env info args)
              w).0
            ≡ ok tt)
  unfolding rebuild_and_verify_msg_hash
  rebuild-ok args w h = ground arith

  rebuild-IsRebuilt :
      (args : BuildTxArgs) (w : AcceptWorld t.Tasks r.Store)
      → (rebuild_and_verify_msg_hash env info args w).0 ≡ ok tt
      → IsRebuilt env info args
  unfolding verify_deposit check_rebuilt
  rebuild-IsRebuilt args w h =
      let (valid, h0) = rebuild-ok args w h in
      let (bridges, (found, h1)) = continue-ok _ (verify_deposit env info args) w h0 in
      let (src_found, dst_found) = get_bridges-ok env _ _ bridges found in
      let (i, (is_verified, h2)) =
        continue-ok
          (verified (bridges.0.verify_transaction args.swap_id args.swap_type args.log_index))
          (compare_swap env info args bridges.1) w h1 in
      let (bind, chain, h3) = compare_swap-ok args bridges.1 i w h2 in
      let b = rebuilt env.get_identifier args i in
      let (raw_tx, (is_built, h4)) =
        continue-ok (bridges.1.build_raw_transaction b) (check_hash bridges.1 info b) w h3 in
      record {
        src = bridges.0;
        dst = bridges.1;
        swap_info = i;
        raw_tx = raw_tx;
        src_found = src_found;
        dst_found = dst_found;
        deposit = verified-ok _ i is_verified;
        same_bind = bind;
        same_chain = chain;
        valid_type = valid;
        built = is_built;
        hashed = check_hash-ok bridges.1 b raw_tx w h4;
      }

  check_record-PassesRecords :
      (args : BuildTxArgs) (w : AcceptWorld t.Tasks r.Store)
      → (check_record env args w).0 ≡ ok tt
      → PassesRecords env args w.now w.records
  unfolding check_record
  check_record-PassesRecords args w h = elim (Bool-cases (has_nonce args)) [
    | inl y ↦ inr (ground arith)
    | inr f ↦ inl f
  ]

  check_record-same :
      (args : BuildTxArgs) (w : AcceptWorld t.Tasks r.Store) → (check_record env args w).1 ≡ w
  unfolding check_record
  check_record-same args w = ground arith

  verify_parsed-ok :
      (a : SignArgs) (w : AcceptWorld t.Tasks r.Store)
      → (verify_parsed env info a w).0 ≡ ok tt
      → (env.is_mpc_initiator info.account ≡ true)
        × (((text_eq a.identifier env.aggregate_identifier ≡ true)
              × (env.verify_aggregate info.msg_hash a ≡ ok tt))
            ⊎ ((text_eq a.identifier env.aggregate_identifier ≡ false)
                × ((check_record env a.args w).0 ≡ ok tt)
                × ((rebuild_and_verify_msg_hash env info a.args (check_record env a.args w).1).0
                    ≡ ok tt)))
  unfolding verify_parsed invalid_aggregate
  verify_parsed-ok a w h = ground arith

  -- A sign request that verifySignInfo accepts is justified: it parses, is for this router, comes from
  -- an initiator, and is either a verified aggregation or a payout that has no nonce or that the records
  -- let pass, whose deposit the source chain verifies with the same receiver and destination, and whose rebuilt
  -- transaction has the hashes to sign.
  pub verify_sign_info-IsJustified :
      (w : AcceptWorld t.Tasks r.Store)
      → (verify_sign_info env info w).0 ≡ ok tt
      → IsJustified env info w.now w.records
  unfolding verify_sign_info
  verify_sign_info-IsJustified w h =
      let (a, (parsed, h1)) =
        continue-ok (filter_sign_info env info) (verify_parsed env info) w h in
      let (initiated, reason) = verify_parsed-ok a w h1 in
      record {
        request = a;
        parsed = parsed;
        initiated = initiated;
        reason = elim reason [
          | inl v ↦ inl v
          | inr p ↦ inr (
            p.0,
            check_record-PassesRecords a.args w p.1,
            rebuild-IsRebuilt a.args (check_record env a.args w).1 p.2,
          )
        ];
      }
