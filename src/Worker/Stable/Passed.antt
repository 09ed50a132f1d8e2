-- ===== src/Worker/Stable/Passed.antt =====
-- When a payout whose nonce has passed is given up.
use cross_chain_router.Prelude.{
  ℕ, ◌<◌, ◌≤◌, ◌≡◌, ◌⊎◌, inl, inr, refl, Bool, arith, some, ◌==◌, if◌then◌else◌,
}
use cross_chain_router.Text.{Text}
use cross_chain_router.Tokens.Errors.{Result, ok, err}
use cross_chain_router.Tokens.Bridge.{Bridge}
use cross_chain_router.Mongo.Driver.{Driver, found}
use cross_chain_router.Mongo.Db.{Db, read_reply}
use cross_chain_router.Mongo.Key.{get_router_swap_key}
use cross_chain_router.Mongo.Status.{reswapping}
use cross_chain_router.Mongo.Tables.{MgoSwapResult}
use cross_chain_router.Mongo.Swaps.{find_router_swap_result}
use cross_chain_router.Worker.State.{Env, get_sep_time_in_find}
use cross_chain_router.Worker.Stable.{
  get_swap_tx_status, block_height, mark_passed, nonce_passed, found_on_chain,
  check_if_swap_nonce_has_passed, treat_as_nonce_passed_interval,
}

module _ ⦃d : Driver⦄ (env : Env d.Store) (bridge : Bridge (Db d.Store)) (res : MgoSwapResult) where
  -- The time a result rests before its nonce counts as passed.
  abbrev pub rest_time : ℕ
  rest_time =
      let i = env.get_nonce_passed_confirm_interval res.to_chain_id in
      if i == 0 then treat_as_nonce_passed_interval else i

  -- The chain knows the payout, or the pool nonce is not above its nonce, or the nonce is 0, or the
  -- result has been touched of late, or an administrator has it paid out again.
  abbrev pub IsKept : (Text → Result ℕ) → MgoSwapResult → ℕ → Type 0
  IsKept get_pool_nonce r now =
      (0 < block_height (get_swap_tx_status bridge 1 res).0)
      ⊎ (((n : ℕ) → get_pool_nonce res.mpc ≡ ok n → n ≤ res.swap_nonce)
          ⊎ ((res.swap_nonce ≡ 0)
              ⊎ ((get_sep_time_in_find now rest_time ≤ res.timestamp) ⊎ (r.status ≡ reswapping))))

  pool_nonce_kept :
      (get_pool_nonce : Text → Result ℕ) (r : MgoSwapResult) (s : Db d.Store) (is_replace : Bool)
      → bridge.get_pool_nonce ≡ some get_pool_nonce
      → ((n : ℕ) → get_pool_nonce res.mpc ≡ ok n → n ≤ res.swap_nonce)
      → (check_if_swap_nonce_has_passed env bridge res is_replace s).1 ≡ s
  unfolding check_if_swap_nonce_has_passed found_on_chain
  pool_nonce_kept get_pool_nonce r s is_replace b h = by_nonce (get_pool_nonce res.mpc) refl
    where
      by_nonce :
          (q : Result ℕ)
          → get_pool_nonce res.mpc ≡ q
          → (check_if_swap_nonce_has_passed env bridge res is_replace s).1 ≡ s
      by_nonce (err e) g = ground arith
      by_nonce (ok n) g = ground (arith, h n g)

  -- checkIfSwapNonceHasPassed, with a bridge that tells pool nonces and a stored result, leaves the
  -- database as it is (so it marks no result as failed) in each of these cases: the chain knows the
  -- payout, the pool nonce is at most its nonce, its nonce is 0, it has been touched within the rest
  -- time, or the stored result is Reswapping.
  pub check_if_swap_nonce_has_passed-kept :
      (get_pool_nonce : Text → Result ℕ) (r : MgoSwapResult) (s : Db d.Store) (is_replace : Bool)
      → bridge.get_pool_nonce ≡ some get_pool_nonce
      → d.find_result s.store (get_router_swap_key res.from_chain_id res.tx_id res.log_index)
        ≡ found r
      → IsKept get_pool_nonce r s.now
      → (check_if_swap_nonce_has_passed env bridge res is_replace s).1 ≡ s
  unfolding check_if_swap_nonce_has_passed nonce_passed mark_passed found_on_chain
      find_router_swap_result read_reply
  check_if_swap_nonce_has_passed-kept get_pool_nonce r s is_replace b h (inl a) = ground arith
  check_if_swap_nonce_has_passed-kept get_pool_nonce r s is_replace b h (inr (inl a)) =
      pool_nonce_kept get_pool_nonce r s is_replace b a
  check_if_swap_nonce_has_passed-kept get_pool_nonce r s is_replace b h (inr (inr (inl a))) =
      ground arith
  check_if_swap_nonce_has_passed-kept get_pool_nonce r s is_replace b h (inr (inr (inr (inl a)))) =
      ground arith
  check_if_swap_nonce_has_passed-kept get_pool_nonce r s is_replace b h (inr (inr (inr (inr a)))) =
      ground arith
