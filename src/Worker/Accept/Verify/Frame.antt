-- ===== src/Worker/Accept/Verify/Frame.antt =====
-- The verification of a sign request answers nothing and caches nothing.
use cross_chain_router.Prelude.{◌≡◌, List, ◌∷◌, arith}
use cross_chain_router.Text.{Text}
use cross_chain_router.Text.Number.{format_int}
use cross_chain_router.Tokens.Types.{SwapTxInfo, BuildTxArgs}
use cross_chain_router.Effect.Keeps.{continue-keeps}
use cross_chain_router.Worker.State.{TaskSet}
use cross_chain_router.Worker.Accept.State.{
  AcceptBridge, AcceptEnv, AcceptWorld, RecordStore, SignArgs, SignInfoData, Saving,
}
use cross_chain_router.Worker.Accept.Verify.{
  filter_sign_info, start_saving, check_hash, check_rebuilt, compare_swap, verify_deposit, rebuilt,
  verified, rebuild_and_verify_msg_hash, check_record, invalid_aggregate, verify_parsed,
  verify_sign_info, get_bridges,
}

-- `part` is any part of the state but the list of saves that are started.
module _ ⦃t : TaskSet⦄ ⦃r : RecordStore⦄ {X : Type 0} (part : AcceptWorld t.Tasks r.Store → X)
    (apart : (w : AcceptWorld t.Tasks r.Store) (s : List Saving)
      → part (record w { saving = s }) ≡ part w) where
  start_saving-part :
      (s : Saving) (w : AcceptWorld t.Tasks r.Store) → part (start_saving s w).1 ≡ part w
  unfolding start_saving
  start_saving-part s w = ground (arith, apart w (s ∷ w.saving))

  check_hash-part :
      (dst : AcceptBridge) (info : SignInfoData) (b : SignArgs) (raw_tx : Text)
      (w : AcceptWorld t.Tasks r.Store)
      → part (check_hash dst info b raw_tx w).1 ≡ part w
  unfolding check_hash
  check_hash-part dst info b raw_tx w =
      let s : Saving = record { bridge = dst; key_id = info.key; sign_args = b; raw_tx = raw_tx } in
      continue-keeps part (dst.verify_msg_hash raw_tx info.msg_hash) (λ u. start_saving s) w
        λ u. start_saving-part s w

  check_rebuilt-part :
      (dst : AcceptBridge) (info : SignInfoData) (b : SignArgs) (w : AcceptWorld t.Tasks r.Store)
      → part (check_rebuilt dst info b w).1 ≡ part w
  unfolding check_rebuilt
  check_rebuilt-part dst info b w =
      continue-keeps part (dst.build_raw_transaction b) (check_hash dst info b) w
        λ raw_tx. check_hash-part dst info b raw_tx w

  compare_swap-part :
      (env : AcceptEnv) (info : SignInfoData) (args : BuildTxArgs) (dst : AcceptBridge)
      (i : SwapTxInfo) (w : AcceptWorld t.Tasks r.Store)
      → part (compare_swap env info args dst i w).1 ≡ part w
  unfolding compare_swap
  compare_swap-part env info args dst i w =
      ground (arith, check_rebuilt-part dst info (rebuilt env.get_identifier args i) w)

  verify_deposit-part :
      (env : AcceptEnv) (info : SignInfoData) (args : BuildTxArgs)
      (bridges : AcceptBridge × AcceptBridge) (w : AcceptWorld t.Tasks r.Store)
      → part (verify_deposit env info args bridges w).1 ≡ part w
  unfolding verify_deposit
  verify_deposit-part env info args bridges w =
      continue-keeps part
        (verified (bridges.0.verify_transaction args.swap_id args.swap_type args.log_index))
        (compare_swap env info args bridges.1) w λ i. compare_swap-part env info args bridges.1 i w

  rebuild_and_verify_msg_hash-part :
      (env : AcceptEnv) (info : SignInfoData) (args : BuildTxArgs) (w : AcceptWorld t.Tasks r.Store)
      → part (rebuild_and_verify_msg_hash env info args w).1 ≡ part w
  unfolding rebuild_and_verify_msg_hash
  rebuild_and_verify_msg_hash-part env info args w =
      let kept =
        continue-keeps part
          (get_bridges env (format_int args.from_chain_id) (format_int args.to_chain_id))
          (verify_deposit env info args) w λ bridges. verify_deposit-part env info args bridges w in
      ground (arith, kept)

  verify_parsed-part :
      (env : AcceptEnv) (info : SignInfoData) (a : SignArgs) (w : AcceptWorld t.Tasks r.Store)
      → part (verify_parsed env info a w).1 ≡ part w
  unfolding verify_parsed check_record invalid_aggregate
  verify_parsed-part env info a w =
      ground (arith, rebuild_and_verify_msg_hash-part env info a.args w)

  pub verify_sign_info-part :
      (env : AcceptEnv) (info : SignInfoData) (w : AcceptWorld t.Tasks r.Store)
      → part (verify_sign_info env info w).1 ≡ part w
  unfolding verify_sign_info
  verify_sign_info-part env info w =
      continue-keeps part (filter_sign_info env info) (verify_parsed env info) w
        λ a. verify_parsed-part env info a w
