-- ===== src/Worker/Accept/Answered.antt =====
-- Which sign requests are answered, how, and how often.
pub mod Fate
use cross_chain_router.Prelude.{
  ap, ℕ, Bool, true, false, ◌≡◌, refl, ◌∙◌, ◌⊎◌, inl, inr, Option, List, [], ◌∷◌, arith, Bool-cases,
}
use cross_chain_router.Text.{Text}
use cross_chain_router.Tokens.Errors.{
  Error, Result, ok, err, Done, Sentinel, runtime_panic, err_wrong_msg_context,
  err_identifier_mismatch, err_invalid_aggregate, err_initiator_mismatch,
  err_tx_with_wrong_contract, err_no_bridge_for_chain_id, err_tx_not_stable, err_tx_not_found,
  err_rpc_query_error, err_not_found,
}
use cross_chain_router.Worker.State.{TaskSet, IsTaskSet}
use cross_chain_router.Worker.Accept.State.{
  AcceptEnv, AcceptWorld, Answer, RecordStore, SignInfoData, accept_agree, accept_disagree,
}
use cross_chain_router.Worker.Accept.Verify.{verify_sign_info}
use cross_chain_router.Worker.Accept.Verify.Frame.{verify_sign_info-part}
use cross_chain_router.Worker.Accept.Verify.Justified.{IsJustified, verify_sign_info-IsJustified}
use cross_chain_router.Worker.Accept.{
  Class, discarded, unjudged, config_problem, judged, panicked, class_of, cut_reason,
  check_and_update_cached_accept_info_map, uncache, answered, answer, conclude, process_accept_info,
}

module _ ⦃t : TaskSet⦄ ⦃r : RecordStore⦄ (env : AcceptEnv) (info : SignInfoData) where
  -- At most one answer is added, to the hashes of the request, and it is AGREE only for a request that
  -- the predicate holds of.
  pub record IsAnswer (P : Type 0) (w v : AcceptWorld t.Tasks r.Store) : Type 0 where
    pub added :
        (v.answers ≡ w.answers)
        ⊎ ((a : Answer) × ((v.answers ≡ a ∷ w.answers)
              × (a.key_id ≡ info.key)
              × (a.msg_hash ≡ info.msg_hash)
              × ((a.result ≡ accept_disagree) ⊎ ((a.result ≡ accept_agree) × P))))

  answer-answers :
      (result : Text) (context : List Text) (w : AcceptWorld t.Tasks r.Store)
      → (answer env info result context w).1.answers
        ≡ record { key_id = info.key; result = result; msg_hash = info.msg_hash; context = context }
          ∷ w.answers
  unfolding answer answered uncache
  answer-answers result context w = ground arith

  conclude-err :
      (x : Error) (w : AcceptWorld t.Tasks r.Store)
      → ((conclude env info (err x) w).1.answers ≡ w.answers)
        ⊎ ((conclude env info (err x) w).1.answers
            ≡ record {
              key_id = info.key;
              result = accept_disagree;
              msg_hash = info.msg_hash;
              context = cut_reason x.message ∷ [];
            }
              ∷ w.answers)
  unfolding conclude uncache
  conclude-err x w = ground (arith, answer-answers accept_disagree (cut_reason x.message ∷ []) w)

  conclude-IsAnswer :
      (P : Type 0) (o : Result Done) (w v : AcceptWorld t.Tasks r.Store)
      → w.answers ≡ v.answers
      → (o ≡ ok tt → P)
      → IsAnswer P v (conclude env info o w).1
  unfolding conclude
  conclude-IsAnswer P (ok u) w v e p = record {
    added = inr (
      record { key_id = info.key; result = accept_agree; msg_hash = info.msg_hash; context = [] },
      (rw (← e) (answer-answers accept_agree [] w), refl, refl, inr (refl, p refl)),
    );
  }
  conclude-IsAnswer P (err x) w v e p = record {
    added = elim (conclude-err x w) [
      | inl kept ↦ inl (rw (← e) kept)
      | inr more ↦ inr (
        record {
          key_id = info.key;
          result = accept_disagree;
          msg_hash = info.msg_hash;
          context = cut_reason x.message ∷ [];
        },
        (rw (← e) more, refl, refl, inl refl),
      )
    ];
  }

  -- The world once the key is in the cache.
  cached : AcceptWorld t.Tasks r.Store → AcceptWorld t.Tasks r.Store
  cached w = (check_and_update_cached_accept_info_map info.key w).1

  process-known :
      (w : AcceptWorld t.Tasks r.Store)
      → t.contains w.cached_accept_infos info.key ≡ true
      → process_accept_info env info w ≡ (ok tt, w)
  unfolding process_accept_info check_and_update_cached_accept_info_map
  process-known w h = ground arith

  process-fresh :
      (w : AcceptWorld t.Tasks r.Store)
      → t.contains w.cached_accept_infos info.key ≡ false
      → process_accept_info env info w
        ≡ conclude env info
            (verify_sign_info env info (cached w)).0
            (verify_sign_info env info (cached w)).1
  unfolding process_accept_info check_and_update_cached_accept_info_map cached
  process-fresh w h = ground arith

  cached-same :
      (w : AcceptWorld t.Tasks r.Store)
      → ((cached w).answers ≡ w.answers)
        × ((cached w).now ≡ w.now)
        × ((cached w).records ≡ w.records)
  unfolding cached check_and_update_cached_accept_info_map
  cached-same w = ground arith

  at_same :
      {n m : ℕ} {db store : Option r.Store}
      → n ≡ m
      → db ≡ store
      → IsJustified env info n db
      → IsJustified env info m store
  at_same e h j = rw (← e, ← h) j

  -- processAcceptInfo answers a request at most once, with AGREE only when the request is justified by
  -- the time and the records at hand, and otherwise with DISAGREE.
  pub process_accept_info-IsJustified :
      (w : AcceptWorld t.Tasks r.Store)
      → IsAnswer (IsJustified env info w.now w.records) w (process_accept_info env info w).1
  process_accept_info-IsJustified w =
      elim (Bool-cases (t.contains w.cached_accept_infos info.key)) [
        | inl y ↦ rw (process-known w y) (record { added = inl refl })
        | inr f ↦
            (let v = verify_sign_info env info (cached w) in
              let (answers, now, records) = cached-same w in
              rw (process-fresh w f) (
                conclude-IsAnswer (IsJustified env info w.now w.records) v.0 v.1 w
                  (verify_sign_info-part (λ u. u.answers) (λ u s. refl) env info (cached w)
                    ∙ answers)
                  λ h. at_same now records (verify_sign_info-IsJustified env info (cached w) h)))
      ]

  conclude-infos :
      (o : Result Done) (w : AcceptWorld t.Tasks r.Store)
      → (conclude env info o w).0 ≡ ok tt
      → (conclude env info o w).1.cached_accept_infos ≡ w.cached_accept_infos
  unfolding conclude answer answered
  conclude-infos o w h = ground arith

  cached-contains :
      (w : AcceptWorld t.Tasks r.Store)
      → IsTaskSet t
      → t.contains w.cached_accept_infos info.key ≡ false
      → t.contains (cached w).cached_accept_infos info.key ≡ true
  unfolding cached check_and_update_cached_accept_info_map
  cached-contains w s h = ground (
    arith,
    s.contains_add w.cached_accept_infos info.key,
    s.contains_add (t.pop w.cached_accept_infos) info.key,
  )

  processed-contains :
      (w : AcceptWorld t.Tasks r.Store)
      → IsTaskSet t
      → (process_accept_info env info w).0 ≡ ok tt
      → t.contains (process_accept_info env info w).1.cached_accept_infos info.key ≡ true
  processed-contains w s h = elim (Bool-cases (t.contains w.cached_accept_infos info.key)) [
    | inl y ↦ rw (process-known w y) y
    | inr f ↦
        (let v = verify_sign_info env info (cached w) in
          let same : v.1.cached_accept_infos ≡ (cached w).cached_accept_infos =
            verify_sign_info-part (λ u. u.cached_accept_infos) (λ u s. refl) env info (cached w) in
          let e = process-fresh w f in
          let kept = conclude-infos v.0 v.1 (rw (← e) h) in
          rw (e, kept, same) (cached-contains w s f))
  ]

  -- A request that processAcceptInfo has answered without an error is not answered again while it is in
  -- the cache: the next call changes nothing.
  pub process_accept_info-process_accept_info :
      (w : AcceptWorld t.Tasks r.Store)
      → IsTaskSet t
      → (process_accept_info env info w).0 ≡ ok tt
      → let v = (process_accept_info env info w).1 in process_accept_info env info v ≡ (ok tt, v)
  process_accept_info-process_accept_info w s h =
      process-known (process_accept_info env info w).1 (processed-contains w s h)
