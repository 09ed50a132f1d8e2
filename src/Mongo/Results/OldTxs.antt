-- ===== src/Mongo/Results/OldTxs.antt =====
-- When the transactions that were sent for a swap are not forgotten.
use cross_chain_router.Prelude.{
  ℕ, ◌≡◌, ◌≢◌, refl, Bool, true, false, ◌||◌, arith, List, [], ◌∷◌, ◌++◌,
}
use mathlib.Core.Bool.{Bool-discrete}
use cross_chain_router.Text.{Text, is_empty, equal_fold, to_lower, text_eq}
use cross_chain_router.Text.Equality.{text_eq_refl, text_eq→eq}
use cross_chain_router.Tokens.Errors.{ok}
use cross_chain_router.Mongo.Driver.{Driver, IsDocumented, found}
use cross_chain_router.Mongo.Db.{Db, read_reply, set_result}
use cross_chain_router.Mongo.Key.{get_router_swap_key}
use cross_chain_router.Mongo.Tables.{MgoSwapResult}
use cross_chain_router.Mongo.Swaps.{find_router_swap_result}
use cross_chain_router.Mongo.Results.{
  mentions, set_old_swap_txs, append_swap_tx, update_router_old_swap_txs,
}
use cross_chain_router.Mongo.Results.Nonce.{Stored, set_result-find}

-- The result names the transaction, as its last one or among the old ones.
unfoldable pub is_known : MgoSwapResult → Text → Bool
is_known r tx = equal_fold tx r.swap_tx || mentions tx r.old_swap_txs

mentions-append :
    (tx : Text) (ts us : List Text) → mentions tx (ts ++ us) ≡ (mentions tx ts || mentions tx us)
unfolding mentions
mentions-append tx [] us = refl
mentions-append tx (t ∷ ts) us = ground (arith, mentions-append tx ts us)

equal_fold_refl : (t : Text) → equal_fold t t ≡ true
unfolding equal_fold
equal_fold_refl t = text_eq_refl (to_lower t)

-- Texts that are equal up to case are mentioned together.
mentions-equal_fold :
    (t u : Text) (ts : List Text) → equal_fold t u ≡ true → mentions t ts ≡ mentions u ts
unfolding mentions equal_fold
mentions-equal_fold t u [] h = refl
mentions-equal_fold t u (v ∷ ts) h =
    ground (arith, mentions-equal_fold t u ts h, text_eq→eq (to_lower t) (to_lower u) h)

-- The last transaction, where there is one, stands among the old ones once there are any.
unfoldable pub is_listed : MgoSwapResult → Bool
is_listed r = is_empty r.swap_tx || no_txs r.old_swap_txs || mentions r.swap_tx r.old_swap_txs
  where
    no_txs : List Text → Bool
    no_txs [] = true
    no_txs (t ∷ ts) = false

equal_fold-empty : (t u : Text) → is_empty t ≡ false → is_empty u ≡ true → equal_fold t u ≡ false
unfolding equal_fold to_lower text_eq is_empty
equal_fold-empty [] u h k = cc
equal_fold-empty (c ∷ t) [] h k = refl
equal_fold-empty (c ∷ t) (d ∷ u) h k = cc

module _ (r : MgoSwapResult) (tx : Text) (now : ℕ) where
  set_old_swap_txs-new : is_known (set_old_swap_txs r tx now r) tx ≡ true
  unfolding is_known set_old_swap_txs mentions
  set_old_swap_txs-new =
      ground (arith, equal_fold_refl tx, mentions-append tx r.old_swap_txs (tx ∷ []))

  set_old_swap_txs-is_listed : is_listed r ≡ true → is_listed (set_old_swap_txs r tx now r) ≡ true
  unfolding is_listed set_old_swap_txs mentions is_empty
  set_old_swap_txs-is_listed h = ground (
    arith,
    equal_fold_refl tx,
    equal_fold_refl r.swap_tx,
    mentions-append tx r.old_swap_txs (tx ∷ []),
    mentions-append r.swap_tx r.old_swap_txs (tx ∷ []),
  )

  set_old_swap_txs-known :
      (t : Text)
      → is_empty t ≡ false
      → is_listed r ≡ true
      → is_known r t ≡ true
      → is_known (set_old_swap_txs r tx now r) t ≡ true
  unfolding is_listed is_known set_old_swap_txs mentions
  set_old_swap_txs-known t n h k = ground (
    arith,
    mentions-append t r.old_swap_txs (tx ∷ []),
    mentions-equal_fold t r.swap_tx r.old_swap_txs,
    equal_fold-empty t r.swap_tx n,
  )

-- The transactions of the first result, and the new one, are known to the second.
abbrev pub IsLaterThan : MgoSwapResult → Text → MgoSwapResult → Type 0
IsLaterThan r tx r' =
    (is_known r' tx ≡ true)
    × (is_listed r' ≡ true)
    × ((t : Text) → is_empty t ≡ false → is_known r t ≡ true → is_known r' t ≡ true)

module _ ⦃d : Driver⦄ where
  append_swap_tx-known :
      (key tx : Text) (s : Db d.Store) (r : MgoSwapResult)
      → is_known r tx ≡ true
      → append_swap_tx key tx r s ≡ (ok tt, s)
  unfolding append_swap_tx is_known
  append_swap_tx-known key tx s r h = ground arith

  append_swap_tx-new :
      (key tx : Text) (s : Db d.Store) (r : MgoSwapResult)
      → is_known r tx ≢ true
      → append_swap_tx key tx r s ≡ set_result key (set_old_swap_txs r tx s.now) s
  unfolding append_swap_tx is_known
  append_swap_tx-new key tx s r h = ground arith

module _ ⦃d : Driver⦄ where
  update_router_old_swap_txs-append :
      (from_chain_id tx_id : Text) (log_index : ℕ) (tx : Text) (s : Db d.Store) (r : MgoSwapResult)
      → d.find_result s.store (get_router_swap_key from_chain_id tx_id log_index) ≡ found r
      → is_empty tx ≡ false
      → update_router_old_swap_txs from_chain_id tx_id log_index tx s
        ≡ append_swap_tx (get_router_swap_key from_chain_id tx_id log_index) tx r s
  unfolding update_router_old_swap_txs find_router_swap_result read_reply
  update_router_old_swap_txs-append a x i tx s r h n = ground arith

module _ ⦃d : Driver⦄ (lawful : IsDocumented d) where
  append_swap_tx-IsLaterThan :
      (key tx : Text) (s : Db d.Store) (r : MgoSwapResult)
      → d.find_result s.store key ≡ found r
      → is_listed r ≡ true
      → (append_swap_tx key tx r s).0 ≡ ok tt
      → Stored (IsLaterThan r tx) (d.find_result (append_swap_tx key tx r s).1.store key)
  append_swap_tx-IsLaterThan key tx s r h l e = elim (Bool-discrete (is_known r tx) true) [
    | yes y ↦ rw (append_swap_tx-known key tx s r y) (rw h (y, l, λ t n k. k))
    | no n ↦
        let f = set_old_swap_txs r tx s.now in
        let e' : (set_result key f s).0 ≡ ok tt = ground (arith, append_swap_tx-new key tx s r n) in
        rw (append_swap_tx-new key tx s r n) (
          rw (set_result-find lawful key f s r h e') (
            set_old_swap_txs-new r tx s.now,
            set_old_swap_txs-is_listed r tx s.now l,
            λ t n k. set_old_swap_txs-known r tx s.now t n l k,
          ))
  ]

  -- UpdateRouterOldSwapTxs, where it succeeds for a transaction that is not empty, on a stored result
  -- whose last transaction is empty, or listed among the old ones if there are any: the result still names every transaction that it named, and the
  -- new one too, and it is of that form again.
  pub update_router_old_swap_txs-IsLaterThan :
      (from_chain_id tx_id : Text) (log_index : ℕ) (tx : Text) (s : Db d.Store) (r : MgoSwapResult)
      → d.find_result s.store (get_router_swap_key from_chain_id tx_id log_index) ≡ found r
      → is_listed r ≡ true
      → is_empty tx ≡ false
      → (update_router_old_swap_txs from_chain_id tx_id log_index tx s).0 ≡ ok tt
      → Stored (IsLaterThan r tx) (
          d.find_result
            (update_router_old_swap_txs from_chain_id tx_id log_index tx s).1.store
            (get_router_swap_key from_chain_id tx_id log_index))
  update_router_old_swap_txs-IsLaterThan a x i tx s r h l n e =
      let key = get_router_swap_key a x i in
      let same = update_router_old_swap_txs-append a x i tx s r h n in
      rw same (append_swap_tx-IsLaterThan key tx s r h l (ground (arith, same)))
