-- ===== src/Worker/Stable/Final.antt =====
-- When a payout becomes final.
use cross_chain_router.Prelude.{
  ℕ, ◌≡◌, ◌≢◌, refl, Bool, false, not, ◌&&◌, arith, [], ◌++◌, Option, some, none, ltb, leb, ◌==◌,
  if◌then◌else◌,
}
use cross_chain_router.Text.{Text, text_eq, bytes}
use cross_chain_router.Text.Number.{format_nat}
use cross_chain_router.Tokens.Errors.{Result, ok, err}
use cross_chain_router.Tokens.Types.{TxStatus, is_swap_tx_on_chain_and_failed}
use cross_chain_router.Tokens.Bridge.{Bridge, ReSwapable}
use cross_chain_router.Mongo.Driver.{Driver, IsDocumented}
use cross_chain_router.Mongo.Db.{Db, read_reply}
use cross_chain_router.Mongo.Key.{get_router_swap_key}
use cross_chain_router.Mongo.Status.{match_tx_stable, match_tx_failed, tx_need_reswap}
use cross_chain_router.Mongo.Tables.{MgoSwapResult, SwapResultUpdateItems}
use cross_chain_router.Mongo.Swaps.{find_router_swap_result}
use cross_chain_router.Mongo.Results.{
  set_result_status, set_items, update_router_swap_result_status, update_router_swap_result,
  check_router_swap_result_update,
}
use cross_chain_router.Mongo.Results.Nonce.{Stored, Stored-found, set_result-Stored}
use cross_chain_router.Worker.State.{Env}
use cross_chain_router.Worker.Update.{
  MatchTx, no_match, match_items, update_match, update_swap_tx, mark_swap_result_failed,
}
use cross_chain_router.Worker.Stable.{
  get_swap_tx_status, block_height, block_time, confirmations_of, reswap_if_timeout, mark_passed,
  nonce_passed, found_on_chain, check_if_swap_nonce_has_passed, not_on_chain, confirm, stable_with,
  process_router_swap_stable,
}

-- The chain has the payout in a block with enough blocks on it, and it has not failed.
unfoldable pub is_confirmed : {S : Type 0} → Bridge S → Option TxStatus → Bool
is_confirmed bridge st =
    ltb 0 (block_height st)
    && leb bridge.confirmations (confirmations_of st)
    && not (is_swap_tx_on_chain_and_failed st)

module _ ⦃d : Driver⦄ (lawful : IsDocumented d) (res : MgoSwapResult) where
  abbrev key : Text
  key = get_router_swap_key res.from_chain_id res.tx_id res.log_index

  -- The stored result is not final.
  abbrev pub IsOpen : Db d.Store → Type 0
  IsOpen s = Stored (λ r. r.status ≢ match_tx_stable) (d.find_result s.store key)

  set_result_status-IsOpen :
      (status timestamp : ℕ) (memo : Text) (s : Db d.Store)
      → status ≢ match_tx_stable
      → IsOpen s
      → IsOpen
          (update_router_swap_result_status res.from_chain_id res.tx_id res.log_index status
            timestamp memo s).1
  unfolding update_router_swap_result_status set_result_status
  set_result_status-IsOpen status timestamp memo s n p =
      set_result-Stored lawful (λ r. r.status ≢ match_tx_stable) key
        (set_result_status status timestamp memo) s (λ r q. ground arith) p

  update_router_swap_result-IsOpen :
      (items : SwapResultUpdateItems) (s : Db d.Store)
      → items.status ≢ match_tx_stable
      → IsOpen s
      → IsOpen (update_router_swap_result res.from_chain_id res.tx_id res.log_index items s).1
  unfolding update_router_swap_result find_router_swap_result read_reply
      check_router_swap_result_update set_items
  update_router_swap_result-IsOpen items s n p =
      let (r, (e, q)) =
        Stored-found (λ r. r.status ≢ match_tx_stable) (d.find_result s.store key) p in
      let p' =
        set_result-Stored lawful (λ r. r.status ≢ match_tx_stable) key (set_items items) s
          (λ r q. ground arith) p in
      ground (arith, p')

  match_items-IsOpen : (m : MatchTx) (now : ℕ) → (match_items m now).status ≢ match_tx_stable
  unfolding match_items
  match_items-IsOpen m now = ground arith

  update_match-IsOpen :
      (m : MatchTx) (s : Db d.Store)
      → IsOpen s
      → IsOpen (update_match res.from_chain_id res.tx_id res.log_index m s).1
  unfolding update_match
  update_match-IsOpen m s p =
      update_router_swap_result-IsOpen (match_items m s.now) s (match_items-IsOpen m s.now) p

  update_swap_tx-IsOpen :
      (tx : Text) (s : Db d.Store)
      → IsOpen s
      → IsOpen (update_swap_tx res.from_chain_id res.tx_id res.log_index tx s).1
  unfolding update_swap_tx
  update_swap_tx-IsOpen tx s p = update_router_swap_result-IsOpen _ s (ground arith) p

  mark_swap_result_failed-IsOpen :
      (s : Db d.Store)
      → IsOpen s
      → IsOpen (mark_swap_result_failed res.from_chain_id res.tx_id res.log_index s).1
  unfolding mark_swap_result_failed
  mark_swap_result_failed-IsOpen s p =
      set_result_status-IsOpen match_tx_failed s.now [] s (ground arith) p

  module _ (env : Env d.Store) (bridge : Bridge (Db d.Store)) where
    reswap_if_timeout-IsOpen :
        (s : Db d.Store) → IsOpen s → IsOpen (reswap_if_timeout env bridge res s).1
    unfolding reswap_if_timeout
    reswap_if_timeout-IsOpen s p = by_bridge bridge.re_swapable refl
      where
        by_threshold :
            (b : ReSwapable) (q : Result ℕ)
            → bridge.re_swapable ≡ some b
            → b.get_current_threshold ≡ q
            → IsOpen (reswap_if_timeout env bridge res s).1
        by_threshold b (err e) h g = ground arith
        by_threshold b (ok n) h g = ground (
          arith,
          set_result_status-IsOpen tx_need_reswap s.now
              (bytes "ttl:" ++ (format_nat n ++ (bytes " current:" ++ format_nat res.ttl))) s
              (ground arith) p,
        )

        by_bridge :
            (o : Option ReSwapable)
            → bridge.re_swapable ≡ o
            → IsOpen (reswap_if_timeout env bridge res s).1
        by_bridge none h = ground arith
        by_bridge (some b) h = by_threshold b b.get_current_threshold h refl

    check_if_swap_nonce_has_passed-IsOpen :
        (s : Db d.Store)
        → IsOpen s
        → IsOpen (check_if_swap_nonce_has_passed env bridge res false s).1
    unfolding check_if_swap_nonce_has_passed nonce_passed mark_passed found_on_chain
        find_router_swap_result
    check_if_swap_nonce_has_passed-IsOpen s p = ground (arith, mark_swap_result_failed-IsOpen s p)

    not_on_chain-IsOpen : (s : Db d.Store) → IsOpen s → IsOpen (not_on_chain env bridge res s).1
    unfolding not_on_chain
    not_on_chain-IsOpen s p = ground (
      arith,
      reswap_if_timeout-IsOpen s p,
      check_if_swap_nonce_has_passed-IsOpen s p,
      check_if_swap_nonce_has_passed-IsOpen (reswap_if_timeout env bridge res s).1
          (reswap_if_timeout-IsOpen s p),
    )

    confirm-IsOpen :
        (st : Option TxStatus) (tx : Text) (s : Db d.Store)
        → is_confirmed bridge st ≡ false
        → (block_height st == 0) ≡ false
        → IsOpen s
        → IsOpen (confirm env bridge res st tx s).1
    unfolding confirm is_confirmed
    confirm-IsOpen st tx s c b p = ground (
      arith,
      update_swap_tx-IsOpen tx s p,
      mark_swap_result_failed-IsOpen s p,
      mark_swap_result_failed-IsOpen
          (update_swap_tx res.from_chain_id res.tx_id res.log_index tx s).1
          (update_swap_tx-IsOpen tx s p),
    )

    stable_with-IsOpen :
        (st : Option TxStatus) (tx : Text) (s : Db d.Store)
        → is_confirmed bridge st ≡ false
        → IsOpen s
        → IsOpen (stable_with env bridge res st tx s).1
    unfolding stable_with
    stable_with-IsOpen st tx s c p = ground (
      arith,
      not_on_chain-IsOpen s p,
      confirm-IsOpen st tx s c,
      update_match-IsOpen
          (record no_match {
            swap_height = block_height st;
            swap_time = block_time st;
            swap_tx = if not (text_eq tx res.swap_tx) then tx else [];
          })
          s p,
    )

    -- processRouterSwapStable, where the chain of the destination does not confirm the payout: a stored
    -- result that is not MatchTxStable is not made so, whatever comes of the writes.
    pub process_router_swap_stable-IsOpen :
        (s : Db d.Store)
        → env.get_bridge res.to_chain_id ≡ some bridge
        → is_confirmed bridge (get_swap_tx_status bridge 0 res).0 ≡ false
        → Stored
            (λ r. r.status ≢ match_tx_stable)
            (d.find_result s.store (get_router_swap_key res.from_chain_id res.tx_id res.log_index))
        → Stored
            (λ r. r.status ≢ match_tx_stable)
            (d.find_result
              (process_router_swap_stable env res s).1.store
              (get_router_swap_key res.from_chain_id res.tx_id res.log_index))
    unfolding process_router_swap_stable
    process_router_swap_stable-IsOpen s b c p = ground (
      arith,
      stable_with-IsOpen (get_swap_tx_status bridge 0 res).0 (get_swap_tx_status bridge 0 res).1 s c
          p,
    )
