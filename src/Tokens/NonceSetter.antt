-- ===== src/Tokens/NonceSetter.antt =====
-- tokens/base/noncesetter.go: the nonces of the accounts that pay swaps out, one counter for each
-- account, and at most one nonce that waits to be used again. The two locks make each operation one
-- step.
pub mod Calls
pub mod Bounds
use cross_chain_router.Prelude.{
  ℕ, suc, zero, ◌+◌, ◌*◌, ◌%◌, ◌^◌, true, false, Option, none, some, ltb, ◌||◌, ◌==◌, if◌then◌else◌,
}
use cross_chain_router.Text.{Text, to_lower}
use cross_chain_router.Text.Keyed.{store_at}
use cross_chain_router.Tokens.Errors.{Error, Result, ok, err, new_error}
use cross_chain_router.Tokens.Types.{BuildTxArgs}
use cross_chain_router.Effect.{Act}
use cross_chain_router.Mongo.Driver.{Driver}
use cross_chain_router.Mongo.Db.{Db}
use cross_chain_router.Mongo.Results.{allocate_router_swap_nonce}

-- recycleNonceRecord
pub record RecycleNonceRecord : Type 0 where
  pub nonce : ℕ
  pub timestamp : ℕ

-- NonceSetterBase over the database, whose clock the setter reads too.
pub record NonceSetterBase (S : Type 0) : Type 0 where
  pub swap_nonce : Text → Option ℕ
  pub recycle_nonce : Text → Option RecycleNonceRecord
  pub db : Db S

abbrev pub retry_rpc_count : ℕ
retry_rpc_count = 3

abbrev pub recycle_ack_interval : ℕ
recycle_ack_interval = 300

unfoldable pub nonce_of : Option ℕ → ℕ
nonce_of none = 0
nonce_of (some n) = n

-- The loop of InitSwapNonce: `n` rounds are left, and `ask` is GetPoolNonce in one of them.
unfoldable pub ask_pool_nonce : (ℕ → Result ℕ) → ℕ → ℕ → ℕ
ask_pool_nonce ask zero nonce = nonce
ask_pool_nonce ask (suc n) nonce =
    let rest = ask_pool_nonce ask n nonce in
    elim (ask n) [ ok p ↦ if ltb nonce p then p else nonce | err e ↦ rest ]

module _ {S : Type 0} where
  -- GetSwapNonce
  unfoldable pub get_swap_nonce : Text → NonceSetterBase S → ℕ
  unfolding nonce_of
  get_swap_nonce address b = nonce_of (b.swap_nonce (to_lower address))

  -- AdjustNonce
  unfoldable pub adjust_nonce : Text → ℕ → NonceSetterBase S → ℕ
  unfolding get_swap_nonce
  adjust_nonce address value b =
      let old = get_swap_nonce address b in
      if ltb ((2 * old + 1000) % 2 ^ 64) value then old else if ltb value old then old else value

  -- InitSwapNonce
  unfoldable pub init_swap_nonce : (ℕ → Result ℕ) → Text → ℕ → NonceSetterBase S → NonceSetterBase S
  unfolding ask_pool_nonce
  init_swap_nonce ask address nonce b = record b {
    swap_nonce =
        store_at (to_lower address) (some (ask_pool_nonce ask retry_rpc_count nonce)) b.swap_nonce;
  }

  -- SetNonce
  unfoldable pub set_nonce : Text → ℕ → NonceSetterBase S → NonceSetterBase S
  unfolding nonce_of
  set_nonce address value b =
      let account = to_lower address in
      elim (b.swap_nonce account) [
        | some old ↦
            if ltb old value
            then record b { swap_nonce = store_at account (some value) b.swap_nonce }
            else b
        | none ↦ record b { swap_nonce = store_at account (some value) b.swap_nonce }
      ]

  -- RecycleSwapNonce
  unfoldable pub recycle_swap_nonce : Text → ℕ → NonceSetterBase S → NonceSetterBase S
  recycle_swap_nonce sender nonce b =
      let account = to_lower sender in
      let fresh : RecycleNonceRecord = record { nonce = nonce; timestamp = b.db.now } in
      let stored = record b { recycle_nonce = store_at account (some fresh) b.recycle_nonce } in
      elim (b.recycle_nonce account) [
        | none ↦ stored
        | some rec ↦ if rec.nonce == 0 || ltb nonce rec.nonce then stored else b
      ]

unfoldable pub err_recycle_not_acked : Error
err_recycle_not_acked = new_error "recycle timestamp does not pass ack interval"

module _ ⦃d : Driver⦄ where
  -- The outcome of AllocateRouterSwapNonce(args, &rec.nonce, true): an error leaves rec as it was.
  take_recycled :
      Text
      → RecycleNonceRecord
      → NonceSetterBase d.Store
      → Result (ℕ × ℕ) × Db d.Store
      → Result ℕ × NonceSetterBase d.Store
  take_recycled account rec b (err e, db) = (err e, record b { db = db })
  take_recycled account rec b (ok p, db) = (
    ok p.0,
    record b {
      recycle_nonce = store_at account (some (record rec { nonce = p.1 })) b.recycle_nonce;
      db = db;
    },
  )

  -- TryAllocateRecycleNonce; the lifetime is in seconds.
  unfoldable pub try_allocate_recycle_nonce : BuildTxArgs → ℕ → Act (NonceSetterBase d.Store) ℕ
  unfolding take_recycled
  try_allocate_recycle_nonce args lifetime b =
      let refused : Result ℕ = err err_recycle_not_acked in
      elim (b.recycle_nonce (to_lower args.from)) [
        | none ↦ (refused, b)
        | some rec ↦
            if ltb b.db.now (rec.timestamp + lifetime)
            then (refused, b)
            else take_recycled (to_lower args.from) rec b
                (allocate_router_swap_nonce args rec.nonce true b.db)
      ]

  -- The outcome of AllocateRouterSwapNonce(args, allocNonce, false): an error leaves *allocNonce.
  take_next :
      Text
      → ℕ
      → NonceSetterBase d.Store
      → Result (ℕ × ℕ) × Db d.Store
      → Result ℕ × NonceSetterBase d.Store
  take_next account old b (err e, db) =
      (err e, record b { swap_nonce = store_at account (some old) b.swap_nonce; db = db })
  take_next account old b (ok p, db) =
      (ok p.0, record b { swap_nonce = store_at account (some p.1) b.swap_nonce; db = db })

  -- AllocateNonce after TryAllocateRecycleNonce
  after_recycle : BuildTxArgs → Result ℕ → Act (NonceSetterBase d.Store) ℕ
  unfolding take_next get_swap_nonce
  after_recycle args (ok n) b = (ok n, b)
  after_recycle args (err e) b =
      let old = get_swap_nonce args.from b in
      take_next (to_lower args.from) old b (allocate_router_swap_nonce args old false b.db)

  -- AllocateNonce
  unfoldable pub allocate_nonce : BuildTxArgs → Act (NonceSetterBase d.Store) ℕ
  unfolding try_allocate_recycle_nonce after_recycle
  allocate_nonce args b =
      let (r, b') = try_allocate_recycle_nonce args recycle_ack_interval b in
      after_recycle args r b'
