-- ===== src/Worker/Accept/Answered/Fate.antt =====
-- What becomes of a request whose verification fails, for each error.
use cross_chain_router.Prelude.{
  ap, Bool, true, false, ◌≡◌, refl, ◌∙◌, inl, inr, [], ◌∷◌, arith, Bool-cases,
}
use cross_chain_router.Text.{Text}
use cross_chain_router.Tokens.Errors.{
  Error, Result, ok, err, Done, Sentinel, runtime_panic, err_wrong_msg_context,
  err_identifier_mismatch, err_invalid_aggregate, err_initiator_mismatch,
  err_tx_with_wrong_contract, err_no_bridge_for_chain_id, err_tx_not_stable, err_tx_not_found,
  err_rpc_query_error, err_not_found,
}
use cross_chain_router.Worker.State.{TaskSet, IsTaskSet}
use cross_chain_router.Worker.Accept.State.{
  AcceptEnv, AcceptWorld, Answer, RecordStore, SignInfoData, accept_disagree,
}
use cross_chain_router.Worker.Accept.Verify.{verify_sign_info}
use cross_chain_router.Worker.Accept.Verify.Frame.{verify_sign_info-part}
use cross_chain_router.Worker.Accept.{
  Class, discarded, unjudged, config_problem, judged, panicked, class_of, cut_reason,
  check_and_update_cached_accept_info_map, uncache, answered, answer, conclude, process_accept_info,
}
use cross_chain_router.Worker.Accept.Answered.{cached, process-fresh, cached-same, cached-contains}

-- What is to become of a request whose verification fails: it is answered DISAGREE, or left without an
-- answer and kept in the cache, or left to be processed again.
pub data Fate : Type 0 where
  disagreed ignored retried : Fate

-- The fate for each error, with or without PendingInvalidAccept.
abbrev pub fate_of : Bool → Sentinel → Fate
fate_of pending err_wrong_msg_context = ignored
fate_of pending err_identifier_mismatch = ignored
fate_of pending err_invalid_aggregate = ignored
fate_of true err_initiator_mismatch = ignored
fate_of true err_tx_with_wrong_contract = ignored
fate_of true err_no_bridge_for_chain_id = ignored
fate_of true err_tx_not_stable = retried
fate_of true err_tx_not_found = retried
fate_of true err_rpc_query_error = retried
fate_of true err_not_found = retried
fate_of pending runtime_panic = retried
fate_of pending x = disagreed

fate_of_class : Bool → Class → Fate
fate_of_class pending discarded = ignored
fate_of_class true config_problem = ignored
fate_of_class true unjudged = retried
fate_of_class pending panicked = retried
fate_of_class pending c = disagreed

fate_of-class :
    (pending : Bool) (x : Sentinel) (m : Text)
    → fate_of pending x ≡ fate_of_class pending (class_of (record { is = x; message = m }))
unfolding class_of fate_of_class
fate_of-class true x m = ground arith
fate_of-class false x m = ground arith

-- Whether there is no error.
abbrev pub is_ok : Result Done → Bool
is_ok (ok u) = true
is_ok (err e) = false

module _ ⦃t : TaskSet⦄ ⦃r : RecordStore⦄ (env : AcceptEnv) (info : SignInfoData) where
  -- The answer DISAGREE, with the error as its reason.
  abbrev pub disagreement : Error → Answer
  disagreement e = record {
    key_id = info.key;
    result = accept_disagree;
    msg_hash = info.msg_hash;
    context = cut_reason e.message ∷ [];
  }

  -- The outcome, the answers and whether the request is in the cache, by the fate of the request.
  abbrev pub IsFate :
      Fate
      → Error
      → AcceptWorld t.Tasks r.Store
      → Result Done × AcceptWorld t.Tasks r.Store
      → Type 0
  IsFate disagreed e w v =
      let reply =
        env.do_accept_sign info.key accept_disagree info.msg_hash (cut_reason e.message ∷ []) in
      (v.0 ≡ reply)
      × (v.1.answers ≡ disagreement e ∷ w.answers)
      × (t.contains v.1.cached_accept_infos info.key ≡ is_ok reply)
  IsFate ignored e w v =
      (v.0 ≡ err e)
      × (v.1.answers ≡ w.answers)
      × (t.contains v.1.cached_accept_infos info.key ≡ true)
  IsFate retried e w v =
      (v.0 ≡ err e)
      × (v.1.answers ≡ w.answers)
      × (t.contains v.1.cached_accept_infos info.key ≡ false)

  IsFate-from :
      (f : Fate) (e : Error) (v w : AcceptWorld t.Tasks r.Store)
      (o : Result Done × AcceptWorld t.Tasks r.Store)
      → v.answers ≡ w.answers
      → IsFate f e v o
      → IsFate f e w o
  IsFate-from disagreed e v w o h p = (p.0, p.1 ∙ ap (λ a. disagreement e ∷ a) h, p.2)
  IsFate-from ignored e v w o h p = (p.0, p.1 ∙ h, p.2)
  IsFate-from retried e v w o h p = (p.0, p.1 ∙ h, p.2)

  answer-IsFate :
      (e : Error) (w : AcceptWorld t.Tasks r.Store)
      → IsTaskSet t
      → t.contains w.cached_accept_infos info.key ≡ true
      → IsFate disagreed e w (answer env info accept_disagree (cut_reason e.message ∷ []) w)
  unfolding answer answered uncache
  answer-IsFate e w s c = ground (arith, s.contains_remove w.cached_accept_infos info.key)

  conclude-class :
      (k : Class) (e : Error) (w : AcceptWorld t.Tasks r.Store)
      → IsTaskSet t
      → t.contains w.cached_accept_infos info.key ≡ true
      → class_of e ≡ k
      → IsFate (fate_of_class env.pending_invalid_accept k) e w (conclude env info (err e) w)
  unfolding conclude uncache fate_of_class
  conclude-class discarded e w s c h = rw (conclude, h) (refl, refl, c)
  conclude-class judged e w s c h = rw (conclude, h) (answer-IsFate e w s c)
  conclude-class panicked e w s c h = rw (conclude, h) (refl, refl, s.contains_remove _ _)
  conclude-class unjudged e w s c h = elim (Bool-cases env.pending_invalid_accept) [
    | inl y ↦ rw (conclude, h, y) (refl, refl, s.contains_remove _ _)
    | inr n ↦ rw (conclude, h, n) (answer-IsFate e w s c)
  ]
  conclude-class config_problem e w s c h = elim (Bool-cases env.pending_invalid_accept) [
    | inl y ↦ rw (conclude, h, y) (refl, refl, c)
    | inr n ↦ rw (conclude, h, n) (answer-IsFate e w s c)
  ]

  -- When the verification of a request that is not in the cache ends with an error, processAcceptInfo
  -- does what the fate of the error says: it answers DISAGREE with the error, returns what DoAcceptSign
  -- returns and keeps the request in the cache if that is no error; or it answers nothing, returns the
  -- error and keeps the request in the cache; or it answers nothing, returns the error and takes the
  -- request out of the cache. The last is the fate of what cannot be judged, with PendingInvalidAccept,
  -- and of a panic.
  pub process_accept_info-IsFate :
      (w : AcceptWorld t.Tasks r.Store) (e : Error)
      → IsTaskSet t
      → t.contains w.cached_accept_infos info.key ≡ false
      → (verify_sign_info env info (check_and_update_cached_accept_info_map info.key w).1).0 ≡ err e
      → IsFate (fate_of env.pending_invalid_accept e.is) e w (process_accept_info env info w)
  unfolding cached
  process_accept_info-IsFate w e s f h =
      let v = verify_sign_info env info (cached env info w) in
      let same =
        verify_sign_info-part (λ u. u.answers) (λ u s. refl) env info (cached env info w)
        ∙ (cached-same env info w).0 in
      let infos : v.1.cached_accept_infos ≡ (cached env info w).cached_accept_infos =
        verify_sign_info-part (λ u. u.cached_accept_infos) (λ u s. refl) env info
          (cached env info w) in
      rw (process-fresh env info w f, h, fate_of-class env.pending_invalid_accept e.is e.message)
        (IsFate-from (fate_of_class env.pending_invalid_accept (class_of e)) e v.1 w _ same
          (conclude-class (class_of e) e v.1 s (rw (infos) (cached-contains env info w s f)) refl))
