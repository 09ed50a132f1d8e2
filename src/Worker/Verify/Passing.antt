-- ===== src/Worker/Verify/Passing.antt =====
-- When a registered swap is released to be paid out.
use cross_chain_router.Prelude.{
  ℕ, ◌≡◌, ◌≢◌, inl, inr, refl, Bool, true, false, leb, if◌then◌else◌, arith, Option, some, none, [],
}
use cross_chain_router.Text.{Text, bytes}
use cross_chain_router.Tokens.Errors.{Error, Result, ok, err, sentinel_text, err_swap_in_blacklist}
use cross_chain_router.Tokens.Types.{SwapTxInfo}
use cross_chain_router.Tokens.Bridge.{Bridge}
use cross_chain_router.Mongo.Driver.{Driver, IsDocumented}
use cross_chain_router.Mongo.Db.{Db, set_swap}
use cross_chain_router.Mongo.Key.{get_router_swap_key}
use cross_chain_router.Mongo.Status.{
  SwapStatus, tx_not_swapped, tx_verify_failed, swap_in_blacklist, swapout_forbidden,
  tx_with_big_value,
}
use cross_chain_router.Mongo.Tables.{MgoSwap}
use cross_chain_router.Mongo.Swaps.{
  update_router_swap_status, update_router_swap_height, set_swap_status,
}
use cross_chain_router.Mongo.Swaps.Frame.{set_result-find_swap}
use cross_chain_router.Mongo.Results.{
  add_router_swap_result, update_router_swap_result_status, set_result_status,
}
use cross_chain_router.Mongo.Results.Nonce.{Stored, Stored-found}
use cross_chain_router.Worker.State.{TaskSet, Env, World}
use cross_chain_router.Worker.Update.{add_initial_swap_result}
use cross_chain_router.Worker.Verify.{
  Verdict, passed, unstable, failed, forbidden, verdict_of, set_status, pass, note_height, give_up,
  save_special_swap_result, retry_or_give_up, apply_verdict, after_verdict,
  max_cached_verifying_swaps, verify_at, verify_cached, process_router_swap_verify,
}

module _ ⦃d : Driver⦄ (lawful : IsDocumented d) (swap : MgoSwap) where
  abbrev key : Text
  key = get_router_swap_key swap.from_chain_id swap.tx_id swap.log_index

  -- The stored swap is not released.
  abbrev IsHeld : Db d.Store → Type 0
  IsHeld s = Stored (λ x. x.status ≢ tx_not_swapped) (d.find_swap s.store key)

  set_swap-IsHeld :
      (f : MgoSwap → MgoSwap) (s : Db d.Store)
      → ((x : MgoSwap) → x.status ≢ tx_not_swapped → (f x).status ≢ tx_not_swapped)
      → IsHeld s
      → IsHeld (set_swap key f s).1
  unfolding set_swap
  set_swap-IsHeld f s k p =
      let (x, (e, q)) =
        Stored-found (λ (x : MgoSwap). x.status ≢ tx_not_swapped) (d.find_swap s.store key) p in
      elim (lawful.update_swap_either s.store key f) [
        | inl a ↦ rw a (rw e (k x q))
        | inr b ↦ rw b p
      ]

  set_status-IsHeld :
      (status : SwapStatus) (memo : Text) (s : Db d.Store)
      → status ≢ tx_not_swapped
      → IsHeld s
      → IsHeld (set_status swap status memo s).1
  unfolding set_status update_router_swap_status set_swap_status
  set_status-IsHeld status memo s n p =
      ground (arith, set_swap-IsHeld (set_swap_status status s.now memo) s (λ x q. n) p)

  note_height-IsHeld :
      (info : Option SwapTxInfo) (s : Db d.Store) → IsHeld s → IsHeld (note_height swap info s).1
  unfolding note_height update_router_swap_height
  note_height-IsHeld none s p = p
  note_height-IsHeld (some info) s p = ground (
    arith,
    set_swap-IsHeld (λ (x : MgoSwap). record x { tx_height = info.height }) s (λ x q. q) p,
  )

  set_result-IsHeld :
      (status timestamp : ℕ) (memo : Text) (s : Db d.Store)
      → IsHeld s
      → IsHeld
          (update_router_swap_result_status swap.from_chain_id swap.tx_id swap.log_index status
            timestamp memo s).1
  unfolding update_router_swap_result_status
  set_result-IsHeld status timestamp memo s p =
      rw (set_result-find_swap lawful key key (set_result_status status timestamp memo) s) p

  add_initial_swap_result-IsHeld :
      (info : SwapTxInfo) (status : SwapStatus) (s : Db d.Store)
      → IsHeld s
      → IsHeld (add_initial_swap_result info status s).1
  unfolding add_initial_swap_result add_router_swap_result
  add_initial_swap_result-IsHeld info status s p = rw (lawful.insert_result_swap s.store _ key) p

  give_up-IsHeld : (memo : Text) (s : Db d.Store) → IsHeld s → IsHeld (give_up swap memo s).1
  unfolding give_up
  give_up-IsHeld memo s p =
      set_result-IsHeld tx_verify_failed s.now memo (set_status swap tx_verify_failed memo s).1
        (set_status-IsHeld tx_verify_failed memo s (ground arith) p)

  retry_or_give_up-IsHeld :
      (info : Option SwapTxInfo) (memo : Text) (s : Db d.Store)
      → IsHeld s
      → IsHeld (retry_or_give_up swap info memo s).1
  unfolding retry_or_give_up
  retry_or_give_up-IsHeld info memo s p =
      let v = (note_height swap info s).1 in
      ground
        (arith, note_height-IsHeld info s p, give_up-IsHeld memo v (note_height-IsHeld info s p))

  save_special_swap_result-IsHeld :
      (info : SwapTxInfo) (s : Db d.Store)
      → IsHeld s
      → IsHeld (save_special_swap_result swap info swapout_forbidden s).1
  unfolding save_special_swap_result
  save_special_swap_result-IsHeld info s p =
      add_initial_swap_result-IsHeld info swapout_forbidden
        (set_status swap swapout_forbidden [] s).1
        (set_status-IsHeld swapout_forbidden [] s (ground arith) p)

  -- The transaction is verified, and its value is not big.
  abbrev pub IsPassed : Env d.Store → Option SwapTxInfo × Option Error → Type 0
  IsPassed env (info, some e) = ⊥
  IsPassed env (none, none) = ⊥
  IsPassed env (some info, none) = env.is_big_value_swap info ≡ false

  -- The switch over the verdict.
  IsFailing : Verdict → Type 0
  IsFailing passed = Unit
  IsFailing unstable = Unit
  IsFailing forbidden = Unit
  IsFailing (failed status) = status ≢ tx_not_swapped

  verdict_of-IsFailing : (e : Option Error) → IsFailing (verdict_of e)
  unfolding verdict_of IsFailing
  verdict_of-IsFailing none = tt
  verdict_of-IsFailing (some e) = ground arith

  apply_verdict-IsHeld :
      (env : Env d.Store) (info : Option SwapTxInfo) (memo : Text) (v : Verdict) (s : Db d.Store)
      → IsFailing v
      → (v ≡ passed → (i : SwapTxInfo) → info ≡ some i → env.is_big_value_swap i ≡ true)
      → IsHeld s
      → IsHeld (apply_verdict swap env info memo v s).1
  unfolding apply_verdict IsFailing pass
  apply_verdict-IsHeld env info memo unstable s f n p =
      ground (arith, retry_or_give_up-IsHeld info memo s p)
  apply_verdict-IsHeld env info memo (failed status) s f n p = set_status-IsHeld status memo s f p
  apply_verdict-IsHeld env none memo passed s f n p = p
  apply_verdict-IsHeld env (some info) memo passed s f n p = ground (
    arith,
    n refl info refl,
    set_status-IsHeld tx_with_big_value (bytes "big swap value") s (ground arith) p,
  )
  apply_verdict-IsHeld env none memo forbidden s f n p =
      set_status-IsHeld swapout_forbidden [] s (ground arith) p
  apply_verdict-IsHeld env (some info) memo forbidden s f n p =
      save_special_swap_result-IsHeld info s p

  module _ ⦃t : TaskSet⦄ (env : Env d.Store) (bridge : Bridge (Db d.Store)) where
    after_verdict-db :
        (e : Option Error) (p : Result Bool × World d.Store t.Tasks)
        → (after_verdict env swap e p).1.db ≡ p.1.db
    unfolding after_verdict
    after_verdict-db e (ok true, w) = refl
    after_verdict-db e (ok false, w) = refl
    after_verdict-db e (err x, w) = refl

    big_value :
        (r : Option SwapTxInfo × Option Error)
        → (IsPassed env r → ⊥)
        → verdict_of r.1 ≡ passed
        → (i : SwapTxInfo) → r.0 ≡ some i
        → env.is_big_value_swap i ≡ true
    unfolding verdict_of
    big_value (none, e) n v i h = cc
    big_value (some info, none) n v i h = ground (arith, n)
    big_value (some info, some e) n v i h = ground arith

    verify_at-IsHeld :
        (w : World d.Store t.Tasks)
        → (IsPassed env (bridge.verify_transaction swap.tx_id swap.swap_type swap.log_index) → ⊥)
        → IsHeld w.db
        → IsHeld (verify_at env swap bridge w).1.db
    unfolding verify_at
    verify_at-IsHeld w n p =
        let r = bridge.verify_transaction swap.tx_id swap.swap_type swap.log_index in
        rw (after_verdict-db r.1 _) (
          apply_verdict-IsHeld env r.0 _ (verdict_of r.1) w.db (verdict_of-IsFailing r.1)
            (big_value r n) p)

    verify_cached-IsHeld :
        (w : World d.Store t.Tasks)
        → env.get_bridge swap.from_chain_id ≡ some bridge
        → (IsPassed env (bridge.verify_transaction swap.tx_id swap.swap_type swap.log_index) → ⊥)
        → IsHeld w.db
        → IsHeld (verify_cached env swap w).1.db
    unfolding verify_cached
    verify_cached-IsHeld w b n p = ground (
      arith,
      verify_at-IsHeld w n p,
      set_status-IsHeld swap_in_blacklist (sentinel_text err_swap_in_blacklist) w.db (ground arith)
          p,
    )

    -- processRouterSwapVerify, where the source chain does not verify the transaction, or the value is
    -- big: a stored swap that is not TxNotSwapped is not made so, whatever comes of the writes.
    pub process_router_swap_verify-IsHeld :
        (w : World d.Store t.Tasks)
        → env.get_bridge swap.from_chain_id ≡ some bridge
        → (IsPassed env (bridge.verify_transaction swap.tx_id swap.swap_type swap.log_index) → ⊥)
        → Stored
            (λ x. x.status ≢ tx_not_swapped)
            (d.find_swap w.db.store
              (get_router_swap_key swap.from_chain_id swap.tx_id swap.log_index))
        → Stored
            (λ x. x.status ≢ tx_not_swapped)
            (d.find_swap
              (process_router_swap_verify env swap w).1.db.store
              (get_router_swap_key swap.from_chain_id swap.tx_id swap.log_index))
    unfolding process_router_swap_verify
    process_router_swap_verify-IsHeld w b n p =
        let room =
          if leb max_cached_verifying_swaps (t.cardinality w.cached_verifying_swaps)
          then t.pop w.cached_verifying_swaps
          else w.cached_verifying_swaps in
        ground (
          arith,
          verify_cached-IsHeld (record w { cached_verifying_swaps = t.add room swap.key }) b n p,
        )
