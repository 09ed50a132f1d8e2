-- ===== src/Tokens/NonceSetter/Calls/Refines.antt =====
-- Every call of the nonce setter is a step of each account.
use cross_chain_router.Prelude.{
  ℕ, ◌+◌, ◌%◌, ◌^◌, ◌≤◌, ◌≡◌, ◌≢◌, refl, Bool, true, false, Option, none, some, arith, ◌==◌, ◌||◌,
  if◌then◌else◌, inl, inr, ltb, Bool-cases,
}
use cross_chain_router.Text.{Text, to_lower, text_eq}
use cross_chain_router.Text.Equality.{text_eq→eq}
use cross_chain_router.Text.Keyed.{store_at}
use cross_chain_router.Tokens.Errors.{Error, Result, ok, err}
use cross_chain_router.Tokens.Types.{BuildTxArgs}
use cross_chain_router.Mongo.Driver.{Driver}
use cross_chain_router.Mongo.Db.{Db}
use cross_chain_router.Mongo.Results.{allocate_router_swap_nonce}
use cross_chain_router.Mongo.Results.Nonce.{allocate_router_swap_nonce-handed}
use cross_chain_router.Tokens.NonceSetter.{
  NonceSetterBase, RecycleNonceRecord, nonce_of, get_swap_nonce, ask_pool_nonce, retry_rpc_count,
  init_swap_nonce, set_nonce, recycle_swap_nonce, take_recycled, take_next, after_recycle,
  err_recycle_not_acked, allocate_nonce, try_allocate_recycle_nonce, recycle_ack_interval,
}
use cross_chain_router.Tokens.NonceSetter.Calls.{
  Account, spare_of, account_of, handed, returned, silent, Allowed, stay, raise, restarted, restart,
  init, hand_next, hand_spare, keep_spare, drop_spare, Call, set, recycle, allocate, meanwhile,
  step, handed_of, event_of,
}

module _ {S : Type 0} (k account : Text) (b : NonceSetterBase S) where
  -- The two maps after a change at one account, as the account of `k` sees them.
  next-store :
      (v : ℕ)
      → account_of k (record b { swap_nonce = store_at account (some v) b.swap_nonce })
        ≡ (if text_eq account k then record (account_of k b) { next = v } else account_of k b)
  unfolding account_of store_at nonce_of
  next-store v = ground arith

  spare-store :
      (rec : RecycleNonceRecord)
      → account_of k (record b { recycle_nonce = store_at account (some rec) b.recycle_nonce }) ≡ (
          if text_eq account k
          then record (account_of k b) { spare = rec.nonce }
          else account_of k b)
  unfolding account_of store_at spare_of
  spare-store rec = ground arith

  raised :
      (v : ℕ)
      → nonce_of (b.swap_nonce account) ≤ v
      → Allowed
          (account_of k b)
          (account_of k (record b { swap_nonce = store_at account (some v) b.swap_nonce }))
          silent
  unfolding account_of
  raised v h = elim (Bool-cases (text_eq account k)) [
    | inl y ↦ raise v (rw (← text_eq→eq account k y) h) (rw (next-store v, y) refl)
    | inr n ↦ stay (rw (next-store v, n) refl)
  ]

module _ {S : Type 0} (k address : Text) (n : ℕ) where
  set-Allowed :
      (b : NonceSetterBase S)
      → Allowed (account_of k b) (account_of k (set_nonce address n b)) silent
  unfolding set_nonce nonce_of
  set-Allowed b = go (b.swap_nonce (to_lower address)) refl
    where
      go :
          (o : Option ℕ)
          → b.swap_nonce (to_lower address) ≡ o
          → Allowed (account_of k b) (account_of k (set_nonce address n b)) silent
      go none e = rw (set_nonce, e) (raised k (to_lower address) b n (rw e (omega arith)))
      go (some old) e = elim (Bool-cases (ltb old n)) [
        | inl y ↦ rw (set_nonce, e, y) (raised k (to_lower address) b n (rw e (ground arith)))
        | inr f ↦ rw (set_nonce, e, f) (stay refl)
      ]

  init-Allowed :
      (ask : ℕ → Result ℕ) (b : NonceSetterBase S)
      → Allowed (account_of k b) (account_of k (init_swap_nonce ask address n b)) (
          if text_eq (to_lower address) k
          then restarted (ask_pool_nonce ask retry_rpc_count n)
          else silent)
  unfolding init_swap_nonce
  init-Allowed ask b =
      let v = ask_pool_nonce ask retry_rpc_count n in
      elim (Bool-cases (text_eq (to_lower address) k)) [
        | inl y ↦ rw y (restart v (rw (next-store k (to_lower address) b v, y) refl))
        | inr f ↦ rw f (stay (rw (next-store k (to_lower address) b v, f) refl))
      ]

  recycle-Allowed :
      (b : NonceSetterBase S)
      → Allowed
          (account_of k b)
          (account_of k (recycle_swap_nonce address n b))
          (if text_eq (to_lower address) k then returned n else silent)
  unfolding recycle_swap_nonce
  recycle-Allowed b = go (b.recycle_nonce (to_lower address)) refl
    where
      fresh : RecycleNonceRecord
      fresh = record { nonce = n; timestamp = b.db.now }

      stored :
          Allowed
            (account_of k b)
            (account_of k (record b {
              recycle_nonce = store_at (to_lower address) (some fresh) b.recycle_nonce;
            }))
            (if text_eq (to_lower address) k then returned n else silent)
      stored = elim (Bool-cases (text_eq (to_lower address) k)) [
        | inl y ↦ rw y (keep_spare n (rw (spare-store k (to_lower address) b fresh, y) refl))
        | inr f ↦ rw f (stay (rw (spare-store k (to_lower address) b fresh, f) refl))
      ]

      go :
          (o : Option RecycleNonceRecord)
          → b.recycle_nonce (to_lower address) ≡ o
          → Allowed
              (account_of k b)
              (account_of k (recycle_swap_nonce address n b))
              (if text_eq (to_lower address) k then returned n else silent)
      go none e = rw (recycle_swap_nonce, e) stored
      go (some rec) e = elim (Bool-cases (rec.nonce == 0 || ltb n rec.nonce)) [
        | inl y ↦ rw (recycle_swap_nonce, e, y) stored
        | inr f ↦ rw (recycle_swap_nonce, e, f) (drop_or_stay (text_eq (to_lower address) k))
      ]
        where
          drop_or_stay :
              (t : Bool)
              → Allowed (account_of k b) (account_of k b) (if t then returned n else silent)
          drop_or_stay true = drop_spare n refl
          drop_or_stay false = stay refl

hands_next :
    (a b : Account) (n : ℕ)
    → n ≡ a.next
    → b ≡ record a { next = (n + 1) % 2 ^ 64 }
    → Allowed a b (handed n)
hands_next a b n e h = rw e (hand_next (rw (← e) h))

hands_spare :
    (a b : Account) (n : ℕ)
    → n ≡ a.spare
    → n ≢ 0
    → b ≡ record a { spare = 0 }
    → Allowed a b (handed n)
hands_spare a b n e z h = rw e (hand_spare (rw (← e) z) h)

module _ ⦃d : Driver⦄ (k : Text) (args : BuildTxArgs) (b : NonceSetterBase d.Store) where
  account : Text
  account = to_lower args.from

  next : ℕ
  next = get_swap_nonce args.from b

  take_next-Allowed :
      (r : Result (ℕ × ℕ)) (db : Db d.Store)
      → ((p : ℕ × ℕ) → r ≡ ok p → p ≡ (next, (next + 1) % 2 ^ 64))
      → let t = take_next account next b (r, db) in
        Allowed (account_of k b) (account_of k t.1) (handed_of k args t.0)
  unfolding take_next account handed_of next get_swap_nonce account_of
  take_next-Allowed (err e) db h =
      stay (ground (arith, next-store k account b next, text_eq→eq account k))
  take_next-Allowed (ok p) db h = elim (Bool-cases (text_eq account k)) [
    | inl y ↦
        (let q = h p refl in
          rw (y, q)
            (hands_next (account_of k b) _ next (rw (text_eq→eq account k y) refl)
              (rw (next-store k account b ((next + 1) % 2 ^ 64), y) refl)))
    | inr f ↦ rw f (stay (rw (next-store k account b p.1, f) refl))
  ]

  take_recycled-Allowed :
      (rec : RecycleNonceRecord) (r : Result (ℕ × ℕ)) (db : Db d.Store)
      → b.recycle_nonce account ≡ some rec
      → ((p : ℕ × ℕ) → r ≡ ok p → (p ≡ (rec.nonce, 0)) × (rec.nonce ≢ 0))
      → let t = take_recycled account rec b (r, db) in
        Allowed (account_of k b) (account_of k t.1) (handed_of k args t.0)
  unfolding take_recycled account handed_of account_of spare_of
  take_recycled-Allowed rec (err e) db l h = stay refl
  take_recycled-Allowed rec (ok p) db l h = elim (Bool-cases (text_eq account k)) [
    | inl y ↦
        (let (q, z) = h p refl in
          rw (y, q)
            (hands_spare (account_of k b) _ rec.nonce (rw (← text_eq→eq account k y, l) refl) z
              (rw (spare-store k account b (record rec { nonce = 0 }), y) refl)))
    | inr f ↦ rw f (stay (rw (spare-store k account b (record rec { nonce = p.1 }), f) refl))
  ]

  -- AllocateNonce goes on to the counter when no nonce was recycled.
  after_recycle-Allowed :
      (e : Error) (db : Db d.Store)
      → let t = after_recycle args (err e) (record b { db = db }) in
        Allowed (account_of k b) (account_of k t.1) (handed_of k args t.0)
  unfolding after_recycle account next get_swap_nonce account_of
  after_recycle-Allowed e db =
      let (r, db') = allocate_router_swap_nonce args next false db in
      take_next-Allowed r db'
        λ p h. (allocate_router_swap_nonce-handed args next false db {p = p} h).0

  allocate-Allowed :
      Allowed
        (account_of k b)
        (account_of k (allocate_nonce args b).1)
        (handed_of k args (allocate_nonce args b).0)
  unfolding allocate_nonce try_allocate_recycle_nonce account handed_of
  allocate-Allowed = go (b.recycle_nonce account) refl
    where
      after :
          (rec : RecycleNonceRecord) (r : Result (ℕ × ℕ)) (db : Db d.Store)
          → b.recycle_nonce account ≡ some rec
          → ((p : ℕ × ℕ) → r ≡ ok p → (p ≡ (rec.nonce, 0)) × (rec.nonce ≢ 0))
          → let u = take_recycled account rec b (r, db) in
            let t = after_recycle args u.0 u.1 in
            Allowed (account_of k b) (account_of k t.1) (handed_of k args t.0)
      after rec (ok p) db l h = take_recycled-Allowed rec (ok p) db l h
      after rec (err e) db l h = after_recycle-Allowed e db

      handed_of_spare :
          (rec : RecycleNonceRecord) (p : ℕ × ℕ)
          → (allocate_router_swap_nonce args rec.nonce true b.db).0 ≡ ok p
          → (p ≡ (rec.nonce, 0)) × (rec.nonce ≢ 0)
      handed_of_spare rec p h =
          ground (arith, allocate_router_swap_nonce-handed args rec.nonce true b.db {p = p} h)

      go :
          (o : Option RecycleNonceRecord)
          → b.recycle_nonce account ≡ o
          → Allowed
              (account_of k b)
              (account_of k (allocate_nonce args b).1)
              (handed_of k args (allocate_nonce args b).0)
      go none e =
          rw (allocate_nonce, try_allocate_recycle_nonce, e)
            (after_recycle-Allowed err_recycle_not_acked b.db)
      go (some rec) e = elim (Bool-cases (ltb b.db.now (rec.timestamp + recycle_ack_interval))) [
        | inl y ↦
            rw (allocate_nonce, try_allocate_recycle_nonce, e, y)
              (after_recycle-Allowed err_recycle_not_acked b.db)
        | inr f ↦
            (let x = allocate_router_swap_nonce args rec.nonce true b.db in
              rw (allocate_nonce, try_allocate_recycle_nonce, e, f)
                (after rec x.0 x.1 e λ p h. handed_of_spare rec p h))
      ]

module _ ⦃d : Driver⦄ where
  -- SetNonce, InitSwapNonce, RecycleSwapNonce and AllocateNonce, whatever they are given, and a change of
  -- the database are allowed steps of the account of each address, for the event that the call means
  -- for it: InitSwapNonce starts the counter again at any nonce, and no other call lowers it but
  -- AllocateNonce at 2^64 - 1.
  pub step-Allowed :
      (k : Text) (c : Call d.Store) (b : NonceSetterBase d.Store)
      → Allowed (account_of k b) (account_of k (step c b)) (event_of k c b)
  unfolding step event_of account_of
  step-Allowed k (set address n) b = set-Allowed k address n b
  step-Allowed k (init ask address n) b = init-Allowed k address n ask b
  step-Allowed k (recycle sender n) b = recycle-Allowed k sender n b
  step-Allowed k (allocate args) b = allocate-Allowed k args b
  step-Allowed k (meanwhile db) b = stay refl
