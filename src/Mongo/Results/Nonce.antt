-- ===== src/Mongo/Results/Nonce.antt =====
-- The nonce of a swap result: who may set it, and how often.
use cross_chain_router.Prelude.{
  ℕ, ◌+◌, ◌%◌, ◌^◌, ◌≡◌, ◌≢◌, ◌⊎◌, inl, inr, refl, Bool, arith, ◌==◌, [], if◌then◌else◌, ◌&&◌,
  false,
}
use cross_chain_router.Text.{Text}
use cross_chain_router.Text.Equality.{text_eq_refl, is_empty_iff}
use cross_chain_router.Text.Number.{format_int}
use cross_chain_router.Tokens.Errors.{ok, err, new_error, sentinel, err_forbid_update_nonce}
use cross_chain_router.Tokens.Types.{BuildTxArgs}
use cross_chain_router.Mongo.Driver.{Driver, IsDocumented, Reply, found, no_documents, query_failed}
use cross_chain_router.Mongo.Db.{Db, read_reply, mgo_error_of, set_swap, set_result}
use cross_chain_router.Mongo.Key.{get_router_swap_key}
use cross_chain_router.Mongo.Status.{tx_processed}
use cross_chain_router.Mongo.Tables.{MgoSwap, MgoSwapResult, SwapResultUpdateItems}
use cross_chain_router.Mongo.Swaps.{find_router_swap_result}
use cross_chain_router.Mongo.Results.{
  check_router_swap_result_update, set_allocated, set_items, allocate, allocate_router_swap_nonce,
  update_router_swap_result,
}

-- The document is there and has the property.
abbrev pub Stored : {D : Type 0} → (D → Type 0) → Reply D → Type 0
Stored P (found x) = P x
Stored P no_documents = ⊥
Stored P (query_failed t) = ⊥

pub Stored-found :
    {D : Type 0} (P : D → Type 0) (a : Reply D) → Stored P a → (x : D) × ((a ≡ found x) × P x)
Stored-found P (found x) p = (x, (refl, p))
Stored-found P no_documents p = elim p [ ]
Stored-found P (query_failed t) p = elim p [ ]

module _ ⦃d : Driver⦄ (lawful : IsDocumented d) where
  -- An update of a result that succeeds leaves what its function makes of the document.
  pub set_result-find :
      (key : Text) (f : MgoSwapResult → MgoSwapResult) (s : Db d.Store) (r : MgoSwapResult)
      → d.find_result s.store key ≡ found r
      → (set_result key f s).0 ≡ ok tt
      → d.find_result (set_result key f s).1.store key ≡ found (f r)
  unfolding set_result mgo_error_of
  set_result-find key f s r h e =
      ground (arith, lawful.update_result_find s.store key key f, text_eq_refl key)

  -- Whatever comes of it, the document is the old one or the new one.
  pub set_result-either :
      (key : Text) (f : MgoSwapResult → MgoSwapResult) (s : Db d.Store) (r : MgoSwapResult)
      → d.find_result s.store key ≡ found r
      → (d.find_result (set_result key f s).1.store key ≡ found (f r))
        ⊎ (d.find_result (set_result key f s).1.store key ≡ found r)
  unfolding set_result
  set_result-either key f s r h = ground (arith, lawful.update_result_either s.store key f)

  -- What an update keeps is kept, whatever comes of the write.
  pub set_result-Stored :
      (P : MgoSwapResult → Type 0) (key : Text) (f : MgoSwapResult → MgoSwapResult) (s : Db d.Store)
      → ((r : MgoSwapResult) → P r → P (f r))
      → Stored P (d.find_result s.store key)
      → Stored P (d.find_result (set_result key f s).1.store key)
  set_result-Stored P key f s k p =
      let (r, (e, q)) = Stored-found P (d.find_result s.store key) p in
      elim (set_result-either key f s r e) [ inl a ↦ rw a (k r q) | inr b ↦ rw b q ]

  -- A nonce that is set is not changed by UpdateRouterSwapResult, whatever the items and the outcome.
  pub update_router_swap_result-nonce :
      (from_chain_id tx_id : Text) (log_index : ℕ) (items : SwapResultUpdateItems) (s : Db d.Store)
      (r : MgoSwapResult)
      → d.find_result s.store (get_router_swap_key from_chain_id tx_id log_index) ≡ found r
      → r.swap_nonce ≢ 0
      → Stored
          (λ r'. r'.swap_nonce ≡ r.swap_nonce)
          (d.find_result
            (update_router_swap_result from_chain_id tx_id log_index items s).1.store
            (get_router_swap_key from_chain_id tx_id log_index))
  unfolding update_router_swap_result find_router_swap_result read_reply
      check_router_swap_result_update set_items
  update_router_swap_result-nonce from tx i items s r h n =
      let key = get_router_swap_key from tx i in
      ground (arith, set_result-either key (set_items items) s r h)

module _ ⦃d : Driver⦄ where
  allocate-handed :
      (key : Text) (args : BuildTxArgs) (nonce : ℕ) (is_recycle : Bool) (s : Db d.Store) {p : ℕ × ℕ}
      → (allocate key args nonce is_recycle s).0 ≡ ok p
      → p ≡ (nonce, if is_recycle then 0 else (nonce + 1) % 2 ^ 64)
  unfolding allocate
  allocate-handed key args nonce is_recycle s h = ground arith

  -- What a successful allocation hands out, whatever the database holds.
  pub allocate_router_swap_nonce-handed :
      (args : BuildTxArgs) (nonce : ℕ) (is_recycle : Bool) (s : Db d.Store) {p : ℕ × ℕ}
      → (allocate_router_swap_nonce args nonce is_recycle s).0 ≡ ok p
      → (p ≡ (nonce, if is_recycle then 0 else (nonce + 1) % 2 ^ 64))
        × ((is_recycle && nonce == 0) ≡ false)
  unfolding allocate_router_swap_nonce find_router_swap_result check_router_swap_result_update
  allocate_router_swap_nonce-handed args nonce is_recycle s {p = p} h = ground (
    arith,
    allocate-handed
        (get_router_swap_key (format_int args.from_chain_id) args.swap_id args.log_index) args nonce
        is_recycle s {p = p},
  )

-- The key of the swap that the arguments name.
abbrev pub key_of : BuildTxArgs → Text
key_of args = get_router_swap_key (format_int args.from_chain_id) args.swap_id args.log_index

module _ ⦃d : Driver⦄ (lawful : IsDocumented d) where
  allocate-find :
      (key : Text) (args : BuildTxArgs) (nonce : ℕ) (is_recycle : Bool) (s : Db d.Store)
      (r : MgoSwapResult) {p : ℕ × ℕ}
      → d.find_result s.store key ≡ found r
      → (allocate key args nonce is_recycle s).0 ≡ ok p
      → d.find_result (allocate key args nonce is_recycle s).1.store key
        ≡ found (set_allocated args nonce s.now r)
  unfolding allocate set_swap
  allocate-find key args nonce is_recycle s r h e = ground (
    arith,
    set_result-find lawful key (set_allocated args nonce s.now) s r h,
    lawful.update_swap_result (set_result key (set_allocated args nonce s.now) s).1.store key key
        (λ (x : MgoSwap). record x { status = tx_processed; timestamp = s.now }),
  )

  -- A successful allocation returns the nonce, moves the pointer on (or clears a recycled nonce), and
  -- stores the nonce in a result that had none and no transaction.
  pub allocate_router_swap_nonce-ok :
      (args : BuildTxArgs) (nonce : ℕ) (is_recycle : Bool) (s : Db d.Store) (r : MgoSwapResult)
      {p : ℕ × ℕ}
      → d.find_result s.store (key_of args) ≡ found r
      → (allocate_router_swap_nonce args nonce is_recycle s).0 ≡ ok p
      → (p ≡ (nonce, if is_recycle then 0 else (nonce + 1) % 2 ^ 64))
        × (r.swap_nonce ≡ 0)
        × (r.swap_tx ≡ [])
        × (d.find_result (allocate_router_swap_nonce args nonce is_recycle s).1.store (key_of args)
            ≡ found (set_allocated args nonce s.now r))
  unfolding allocate_router_swap_nonce find_router_swap_result read_reply
      check_router_swap_result_update
  allocate_router_swap_nonce-ok args nonce is_recycle s r {p = p} h e = ground (
    arith,
    allocate-find (key_of args) args nonce is_recycle s r {p = p} h,
    is_empty_iff r.swap_tx,
  )

  set_allocated-nonce :
      (args : BuildTxArgs) (nonce now : ℕ) (r : MgoSwapResult)
      → nonce ≢ 0
      → (set_allocated args nonce now r).swap_nonce ≢ 0
  unfolding set_allocated
  set_allocated-nonce args nonce now r n = n

  allocate_router_swap_nonce-taken :
      (args : BuildTxArgs) (nonce : ℕ) (is_recycle : Bool) (s : Db d.Store) (r : MgoSwapResult)
      → d.find_result s.store (key_of args) ≡ found r
      → r.swap_nonce ≢ 0
      → allocate_router_swap_nonce args nonce is_recycle s ≡ (
        err (
            if is_recycle && nonce == 0
            then new_error "swap nonce is alreay recycled"
            else sentinel err_forbid_update_nonce),
        s,
      )
  unfolding allocate_router_swap_nonce find_router_swap_result read_reply
      check_router_swap_result_update
  allocate_router_swap_nonce-taken args nonce is_recycle s r h n = ground arith

  -- A nonce that is set is final: the next allocation for the same swap is refused and writes nothing.
  pub allocate_router_swap_nonce-again :
      (args args' : BuildTxArgs) (nonce nonce' : ℕ) (is_recycle is_recycle' : Bool) (s : Db d.Store)
      (r : MgoSwapResult) {p : ℕ × ℕ}
      → d.find_result s.store (key_of args) ≡ found r
      → (allocate_router_swap_nonce args nonce is_recycle s).0 ≡ ok p
      → nonce ≢ 0
      → key_of args' ≡ key_of args
      → let s' = (allocate_router_swap_nonce args nonce is_recycle s).1 in
        allocate_router_swap_nonce args' nonce' is_recycle' s' ≡ (
          err (
              if is_recycle' && nonce' == 0
              then new_error "swap nonce is alreay recycled"
              else sentinel err_forbid_update_nonce),
          s',
        )
  allocate_router_swap_nonce-again args args' nonce nonce' is_recycle is_recycle' s r {p = p} h e n
        k =
      let s' = (allocate_router_swap_nonce args nonce is_recycle s).1 in
      let (_, _, _, stored) = allocate_router_swap_nonce-ok args nonce is_recycle s r {p = p} h e in
      allocate_router_swap_nonce-taken args' nonce' is_recycle' s'
        (set_allocated args nonce s.now r) (rw k stored) (set_allocated-nonce args nonce s.now r n)
