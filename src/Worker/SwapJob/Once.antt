-- ===== src/Worker/SwapJob/Once.antt =====
-- A swap whose result shows a payout is not paid out again.
use cross_chain_router.Prelude.{
  ℕ, ◌≡◌, ◌≢◌, ◌⊎◌, inl, inr, refl, ap, ◌∙◌, true, ◌||◌, arith, List, [], ◌∷◌,
}
use cross_chain_router.Prelude.{Bool-cases}
use mathlib.Core.Bool.{Bool-discrete}
use cross_chain_router.Text.{Text, text_eq}
use cross_chain_router.Text.Equality.{text_eq→eq}
use cross_chain_router.Tokens.Errors.{Error, Result, ok, err, Done}
use cross_chain_router.Effect.{Act, continue}
use cross_chain_router.Mongo.Driver.{Driver, IsDocumented, found}
use cross_chain_router.Mongo.Db.{Db, set_result, read_reply}
use cross_chain_router.Mongo.Key.{get_router_swap_key}
use cross_chain_router.Mongo.Status.{swap_in_blacklist, tx_not_stable}
use cross_chain_router.Mongo.Tables.{MgoSwap, MgoSwapResult}
use cross_chain_router.Mongo.Swaps.{update_router_swap_status, find_router_swap_result}
use cross_chain_router.Mongo.Swaps.Frame.{update_router_swap_status-find_result}
use cross_chain_router.Mongo.Results.{set_result_status, update_router_swap_result_status}
use cross_chain_router.Mongo.Results.Nonce.{Stored, Stored-found, set_result-either}
use cross_chain_router.Worker.State.{TaskSet, Env, World, on_db}
use cross_chain_router.Worker.History.{is_non_empty, is_pending_swap_status, prevent_reswap}
use cross_chain_router.Worker.History.Guard.{
  prevent_reswap-paid, prevent_reswap-frame, prevent_reswap-find_result,
}
use cross_chain_router.Worker.SwapJob.{
  build_task, wait_or_build, process_found, not_found, reject_black, recounted, process_router_swap,
  swap_producer_round, producer_step, log_error,
}

module _ ⦃d : Driver⦄ where
  -- The stored result under the key shows a payout.
  abbrev pub IsPaid : Db d.Store → Text → Type 0
  IsPaid s key = Stored (λ r. is_non_empty r ≡ true) (d.find_result s.store key)

module _ ⦃d : Driver⦄ (lawful : IsDocumented d) where
  update_router_swap_status-IsPaid :
      (from_chain_id tx_id : Text) (log_index status timestamp : ℕ) (memo : Text) (s : Db d.Store)
      (j : Text)
      → IsPaid s j
      → IsPaid (update_router_swap_status from_chain_id tx_id log_index status timestamp memo s).1 j
  update_router_swap_status-IsPaid a x i status timestamp memo s j p =
      rw (update_router_swap_status-find_result lawful a x i status timestamp memo s j) p

  set_result_status-is_non_empty :
      (now : ℕ) (memo : Text) (r : MgoSwapResult)
      → is_non_empty (set_result_status swap_in_blacklist now memo r) ≡ true
  unfolding is_non_empty set_result_status is_pending_swap_status
  set_result_status-is_non_empty now memo r = ground arith

  set_result-other :
      (key j : Text) (f : MgoSwapResult → MgoSwapResult) (s : Db d.Store)
      → text_eq key j ≢ true
      → d.find_result (set_result key f s).1.store j ≡ d.find_result s.store j
  unfolding set_result
  set_result-other key j f s h = lawful.update_result_other s.store key j f (ground arith)

  set_result-IsPaid-same :
      (key : Text) (f : MgoSwapResult → MgoSwapResult) (s : Db d.Store)
      → ((r : MgoSwapResult) → is_non_empty (f r) ≡ true)
      → IsPaid s key
      → IsPaid (set_result key f s).1 key
  set_result-IsPaid-same key f s h p =
      let (r, (e, q)) =
        Stored-found (λ (r : MgoSwapResult). is_non_empty r ≡ true) (d.find_result s.store key) p in
      elim (set_result-either lawful key f s r e) [ inl a ↦ rw a (h r) | inr b ↦ rw b q ]

  set_result-IsPaid :
      (key j : Text) (f : MgoSwapResult → MgoSwapResult) (s : Db d.Store)
      → ((r : MgoSwapResult) → is_non_empty (f r) ≡ true)
      → IsPaid s j
      → IsPaid (set_result key f s).1 j
  set_result-IsPaid key j f s h p = elim (Bool-discrete (text_eq key j) true) [
    | no n ↦ rw (set_result-other key j f s n) p
    | yes y ↦ let k = text_eq→eq key j y in rw (← k) (set_result-IsPaid-same key f s h (rw k p))
  ]

  update_router_swap_result_status-IsPaid :
      (from_chain_id tx_id : Text) (log_index timestamp : ℕ) (memo : Text) (s : Db d.Store)
      (j : Text)
      → IsPaid s j
      → IsPaid
          (update_router_swap_result_status from_chain_id tx_id log_index swap_in_blacklist
            timestamp memo s).1
          j
  unfolding update_router_swap_result_status
  update_router_swap_result_status-IsPaid a x i timestamp memo s j p =
      set_result-IsPaid (get_router_swap_key a x i) j
        (set_result_status swap_in_blacklist timestamp memo) s
        (set_result_status-is_non_empty timestamp memo) p

  -- No task is queued, and what shows a payout still does.
  abbrev IsQuiet : {T : Type 0} → World d.Store T → World d.Store T → Type 0
  IsQuiet w w' =
      (w'.swap_task_queue ≡ w.swap_task_queue) × ((j : Text) → IsPaid w.db j → IsPaid w'.db j)

  module _ ⦃t : TaskSet⦄ (env : Env d.Store) (swap : MgoSwap) (w : World d.Store t.Tasks) where
    reject_black-IsQuiet : IsQuiet w (reject_black env swap w).1
    unfolding reject_black
    reject_black-IsQuiet = (
      refl,
      λ j p.
          update_router_swap_result_status-IsPaid swap.from_chain_id swap.tx_id swap.log_index _ _ _
            j
            (update_router_swap_status-IsPaid swap.from_chain_id swap.tx_id swap.log_index _ _ _ _ j
              p),
    )

    not_found-world :
        (e : Error)
        → ((not_found env swap e w).1 ≡ w)
          ⊎ ((not_found env swap e w).1
              ≡ (on_db {T = t.Tasks}
                  (update_router_swap_status swap.from_chain_id swap.tx_id swap.log_index
                    tx_not_stable w.db.now [])
                  w).1)
    unfolding not_found
    not_found-world e = ground arith

    not_found-IsQuiet : (e : Error) → IsQuiet w (not_found env swap e w).1
    not_found-IsQuiet e = elim (not_found-world e) [
      | inl a ↦ rw a (refl, λ j p. p)
      | inr b ↦ rw b (
        refl,
        λ j p.
            update_router_swap_status-IsPaid swap.from_chain_id swap.tx_id swap.log_index _ _ _ _ j
              p,
      )
    ]

    prevent_reswap-IsQuiet : (r : MgoSwapResult) → IsQuiet w (prevent_reswap r w).1
    prevent_reswap-IsQuiet r = (
      ap (λ (x : World d.Store t.Tasks). x.swap_task_queue) (prevent_reswap-frame r w),
      λ j p. rw (prevent_reswap-find_result lawful r w j) p,
    )

    build_task-world :
        (r : MgoSwapResult)
        → is_non_empty r ≡ true
        → ((build_task env swap r w).1 ≡ w) ⊎ ((build_task env swap r w).1 ≡ (prevent_reswap r w).1)
    unfolding build_task
    build_task-world r h = ground (arith, prevent_reswap-paid r w h)

    build_task-IsQuiet :
        (r : MgoSwapResult) → is_non_empty r ≡ true → IsQuiet w (build_task env swap r w).1
    build_task-IsQuiet r h = elim (build_task-world r h) [
      | inl a ↦ rw a (refl, λ j p. p)
      | inr b ↦ rw b (prevent_reswap-IsQuiet r)
    ]

  module _ ⦃t : TaskSet⦄ (env : Env d.Store) (swap : MgoSwap) where
    process_found-world :
        (r : MgoSwapResult) (w : World d.Store t.Tasks)
        → ((process_found env swap r w).1 ≡ w)
          ⊎ (((process_found env swap r w).1 ≡ (build_task env swap r w).1)
              ⊎ ((process_found env swap r w).1
                  ≡ (build_task env swap r (
                      recounted env
                        (get_router_swap_key swap.from_chain_id swap.tx_id swap.log_index)
                        w)).1))
    unfolding process_found wait_or_build recounted
    process_found-world r w = ground arith

    recounted-IsQuiet : (k : Text) (w : World d.Store t.Tasks) → IsQuiet w (recounted env k w)
    unfolding recounted
    recounted-IsQuiet k w = (refl, λ j p. p)

    IsQuiet-trans : (u v w : World d.Store t.Tasks) → IsQuiet u v → IsQuiet v w → IsQuiet u w
    IsQuiet-trans u v w (a, f) (b, g) = (b ∙ a, λ j p. g j (f j p))

    process_found-IsQuiet :
        (r : MgoSwapResult) (w : World d.Store t.Tasks)
        → is_non_empty r ≡ true
        → IsQuiet w (process_found env swap r w).1
    process_found-IsQuiet r w h = elim (process_found-world r w) [
      | inl a ↦ rw a (refl, λ j p. p)
      | inr (inl b) ↦ rw b (build_task-IsQuiet env swap w r h)
      | inr (inr c) ↦
          let v =
            recounted env (get_router_swap_key swap.from_chain_id swap.tx_id swap.log_index) w in
          rw c (
            IsQuiet-trans w v (build_task env swap r v).1
              (recounted-IsQuiet (get_router_swap_key swap.from_chain_id swap.tx_id swap.log_index)
                w)
              (build_task-IsQuiet env swap v r h))
    ]

    process_router_swap-world :
        (r : MgoSwapResult) (w : World d.Store t.Tasks)
        → d.find_result w.db.store
            (get_router_swap_key swap.from_chain_id swap.tx_id swap.log_index)
          ≡ found r
        → ((process_router_swap env swap w).1 ≡ w)
          ⊎ (((process_router_swap env swap w).1 ≡ (reject_black env swap w).1)
              ⊎ ((process_router_swap env swap w).1 ≡ (process_found env swap r w).1))
    unfolding process_router_swap find_router_swap_result read_reply
    process_router_swap-world r w h = ground arith

    process_router_swap-IsQuiet :
        (w : World d.Store t.Tasks)
        → IsPaid w.db (get_router_swap_key swap.from_chain_id swap.tx_id swap.log_index)
        → IsQuiet w (process_router_swap env swap w).1
    process_router_swap-IsQuiet w p =
        let key = get_router_swap_key swap.from_chain_id swap.tx_id swap.log_index in
        let (r, (e, q)) =
          Stored-found (λ (r : MgoSwapResult). is_non_empty r ≡ true) (d.find_result w.db.store key)
            p in
        elim (process_router_swap-world r w e) [
          | inl a ↦ rw a (refl, λ j p. p)
          | inr (inl b) ↦ rw b (reject_black-IsQuiet env swap w)
          | inr (inr c) ↦ rw c (process_found-IsQuiet r w q)
        ]

  -- The stored result of each swap of the list shows a payout.
  abbrev pub ArePaid : Db d.Store → List MgoSwap → Type 0
  ArePaid s [] = Unit
  ArePaid s (swap ∷ swaps) =
      IsPaid s (get_router_swap_key swap.from_chain_id swap.tx_id swap.log_index) × ArePaid s swaps

  module _ ⦃t : TaskSet⦄ (env : Env d.Store) where
    IsQuiet-ArePaid :
        (v w : World d.Store t.Tasks) (swaps : List MgoSwap)
        → IsQuiet v w
        → ArePaid v.db swaps
        → ArePaid w.db swaps
    IsQuiet-ArePaid v w [] q p = tt
    IsQuiet-ArePaid v w (swap ∷ swaps) q p = (q.1 _ p.0, IsQuiet-ArePaid v w swaps q p.1)

    log_error-world : (r : Result Done × World d.Store t.Tasks) → (log_error r).1 ≡ r.1
    unfolding log_error
    log_error-world (ok u, w) = refl
    log_error-world (err e, w) = ground arith

    producer_step-IsQuiet :
        (swap : MgoSwap) (w : World d.Store t.Tasks)
        → IsPaid w.db (get_router_swap_key swap.from_chain_id swap.tx_id swap.log_index)
        → IsQuiet w (producer_step env swap w).1
    unfolding producer_step
    producer_step-IsQuiet swap w p =
        elim (Bool-cases
          (t.contains w.swap_tasks_in_queue swap.key || t.contains w.cached_swap_tasks swap.key)) [
            | inl y ↦ rw (producer_step, y) (refl, λ j p. p)
            | inr f ↦
                rw (producer_step, f, log_error-world (process_router_swap env swap w))
                  (process_router_swap-IsQuiet env swap w p)
          ]

    continue-IsQuiet :
        (r : Result Done) (m : Act (World d.Store t.Tasks) Done) (w v : World d.Store t.Tasks)
        → IsQuiet w v
        → IsQuiet v (m v).1
        → IsQuiet w (continue r (λ u. m) v).1
    continue-IsQuiet (ok u) m w v q n = (n.0 ∙ q.0, λ j p. n.1 j (q.1 j p))
    continue-IsQuiet (err e) m w v q n = q

    -- A round of startSwapProducer over swaps whose stored results all show a payout queues no task,
    -- whatever the router, the chains and the outcome of the writes, and the results show it still.
    pub swap_producer_round-IsPaid :
        (swaps : List MgoSwap) (w : World d.Store t.Tasks)
        → ArePaid w.db swaps
        → ((swap_producer_round env swaps w).1.swap_task_queue ≡ w.swap_task_queue)
          × ((j : Text) → IsPaid w.db j → IsPaid (swap_producer_round env swaps w).1.db j)
    unfolding swap_producer_round
    swap_producer_round-IsPaid [] w p = (refl, λ j p. p)
    swap_producer_round-IsPaid (swap ∷ swaps) w (p, ps) =
        let v = producer_step env swap w in
        let q = producer_step-IsQuiet swap w p in
        continue-IsQuiet v.0 (swap_producer_round env swaps) w v.1 q
          (swap_producer_round-IsPaid swaps v.1 (IsQuiet-ArePaid w v.1 swaps q ps))
