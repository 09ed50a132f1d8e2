-- ===== src/Tokens/NonceSetter/Calls.antt =====
-- tokens/base/noncesetter.go as one account sees it: the counter, the spare nonce, and what a call
-- hands out or takes back. The abstract account forgets the database, the times and the other accounts.
pub mod Refines
pub mod Distinct
use cross_chain_router.Prelude.{
  ℕ, ◌+◌, ◌%◌, ◌^◌, ◌≤◌, ◌≡◌, ◌≢◌, Option, none, some, List, [], ◌∷◌, true, false, ◌==◌,
  if◌then◌else◌,
}
use cross_chain_router.Text.{Text, to_lower, text_eq}
use cross_chain_router.Tokens.Errors.{Result, ok, err}
use cross_chain_router.Tokens.Types.{BuildTxArgs}
use cross_chain_router.Mongo.Driver.{Driver}
use cross_chain_router.Mongo.Db.{Db}
use cross_chain_router.Tokens.NonceSetter.{
  NonceSetterBase, RecycleNonceRecord, nonce_of, ask_pool_nonce, retry_rpc_count, init_swap_nonce,
  set_nonce, recycle_swap_nonce, allocate_nonce,
}

-- `spare` is 0 when no nonce waits to be used again.
pub record Account : Type 0 where
  pub next : ℕ
  pub spare : ℕ

unfoldable pub spare_of : Option RecycleNonceRecord → ℕ
spare_of none = 0
spare_of (some rec) = rec.nonce

-- The account of a lower-case address.
unfoldable pub account_of : {S : Type 0} → Text → NonceSetterBase S → Account
unfolding nonce_of spare_of
account_of k b = record { next = nonce_of (b.swap_nonce k); spare = spare_of (b.recycle_nonce k) }

pub data Event : Type 0 where
  handed : ℕ → Event
  returned : ℕ → Event
  restarted : ℕ → Event
  silent : Event

-- What an account may do.
pub data Allowed (a : Account) (b : Account) : Event → Type 0 where
  stay : a ≡ b → Allowed a b silent
  raise : (n : ℕ) → a.next ≤ n → b ≡ record a { next = n } → Allowed a b silent
  hand_next : b ≡ record a { next = (a.next + 1) % 2 ^ 64 } → Allowed a b (handed a.next)
  hand_spare : a.spare ≢ 0 → b ≡ record a { spare = 0 } → Allowed a b (handed a.spare)
  keep_spare : (n : ℕ) → b ≡ record a { spare = n } → Allowed a b (returned n)
  restart : (n : ℕ) → b ≡ record a { next = n } → Allowed a b (restarted n)
  drop_spare : (n : ℕ) → a ≡ b → Allowed a b (returned n)

-- The calls of the setter that change it: SetNonce, InitSwapNonce with the answers of GetPoolNonce,
-- RecycleSwapNonce and AllocateNonce; the database changes under it, and time passes.
pub data Call (S : Type 0) : Type 0 where
  set : Text → ℕ → Call S
  init : (ℕ → Result ℕ) → Text → ℕ → Call S
  recycle : Text → ℕ → Call S
  allocate : BuildTxArgs → Call S
  meanwhile : Db S → Call S

handed_of : Text → BuildTxArgs → Result ℕ → Event
handed_of k args (err e) = silent
handed_of k args (ok n) = if text_eq (to_lower args.from) k then handed n else silent

module _ ⦃d : Driver⦄ where
  unfoldable pub step : Call d.Store → NonceSetterBase d.Store → NonceSetterBase d.Store
  step (set address n) b = set_nonce address n b
  step (init ask address n) b = init_swap_nonce ask address n b
  step (recycle sender n) b = recycle_swap_nonce sender n b
  step (allocate args) b = (allocate_nonce args b).1
  step (meanwhile db) b = record b { db = db }

  -- What the call means for the account of `k`.
  unfoldable pub event_of : Text → Call d.Store → NonceSetterBase d.Store → Event
  unfolding handed_of
  event_of k (set address n) b = silent
  event_of k (init ask address n) b =
      if text_eq (to_lower address) k
      then restarted (ask_pool_nonce ask retry_rpc_count n)
      else silent
  event_of k (recycle sender n) b = if text_eq (to_lower sender) k then returned n else silent
  event_of k (allocate args) b = handed_of k args (allocate_nonce args b).0
  event_of k (meanwhile db) b = silent
