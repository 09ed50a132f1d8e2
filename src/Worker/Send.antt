-- ===== src/Worker/Send.antt =====
-- sendSignedTransaction of worker/common.go. The goroutine that goes on sending is recorded in `sent`.
pub mod Frame
use cross_chain_router.Prelude.{
  ℕ, zero, suc, ◌+◌, ◌*◌, ◌%◌, ◌^◌, Bool, true, false, not, ◌&&◌, ◌||◌, Option, none, some, List,
  [], ◌∷◌, ◌++◌, ◌==◌, if◌then◌else◌,
}
use cross_chain_router.Text.{Text, bytes, contains, equal_fold}
use cross_chain_router.Text.Number.{format_int}
use cross_chain_router.Tokens.Errors.{Error, Result, ok, err, Done}
use cross_chain_router.Tokens.Types.{BuildTxArgs, get_tx_nonce}
use cross_chain_router.Tokens.Bridge.{Bridge}
use cross_chain_router.Effect.{Act, pure, fail, lift, attempt, continue, ◌>>=◌, ◌>>◌}
use cross_chain_router.Mongo.Db.{Db}
use cross_chain_router.Worker.State.{Env, World, Sent, set_nonce, send_tx, send_tx_loop}

-- needRetrySendTx
unfoldable pub need_retry_send_tx : Error → Bool
need_retry_send_tx e =
    contains e.message (bytes "Client.Timeout exceeded while awaiting headers")
    || contains e.message (bytes "json-rpc error -32000, internal")
    || equal_fold e.message (bytes "json-rpc error -32000, ")

module _ {S : Type 0} (b : Bridge S) (tx : Text) where
  -- The inner loop: the rounds left, and the number of the round.
  send_rounds : ℕ → ℕ → Error → Result Text
  send_rounds zero i e = err e
  send_rounds (suc k) i e = elim (b.send_transaction i tx) [
    | ok hash ↦ ok hash
    | err e' ↦ send_rounds k (i + 1) e'
  ]

  -- `for i := 0; i < 3; i++`, whose first round stands here
  send_thrice : ℕ → Result Text
  unfolding send_rounds
  send_thrice i = elim (b.send_transaction i tx) [
    | ok hash ↦ ok hash
    | err e ↦ send_rounds 2 (i + 1) e
  ]

  -- SENDTX_LOOP: the loops left, and the number of the loop.
  send_loops : ℕ → ℕ → Result Text
  unfolding send_thrice
  send_loops zero loop = ok []
  send_loops (suc k) loop = elim (send_thrice (loop * 3)) [
    | ok hash ↦ ok hash
    | err e ↦ if not (need_retry_send_tx e) || k == 0 then err e else send_loops k (loop + 1)
  ]

emit : {S T : Type 0} → List Sent → World S T → World S T
emit out w = record w { sent = w.sent ++ out }

module _ {S : Type 0} (env : Env S) (bridge : Bridge (Db S)) (args : BuildTxArgs) where
  -- nonceSetter.SetNonce(args.From, swapTxNonce+1), if the bridge is a NonceSetter
  advance_nonce : List Sent
  advance_nonce = elim bridge.get_pool_nonce [
    | none ↦ []
    | some n ↦ set_nonce args.from ((get_tx_nonce args + 1) % 2 ^ 64) ∷ []
  ]

  -- The nonce is set before the test of the error, or after it.
  nonce_before : List Sent
  nonce_before =
      if env.increase_nonce_when_send_tx (format_int args.to_chain_id)
        && not env.is_parallel_swap_enabled
      then advance_nonce
      else []

  nonce_after : List Sent
  nonce_after =
      if not (env.increase_nonce_when_send_tx (format_int args.to_chain_id))
        && not env.is_parallel_swap_enabled
      then advance_nonce
      else []

  keep_sending : Text → Text → List Sent
  keep_sending hash tx =
      if env.send_tx_loop_disabled (format_int args.to_chain_id)
      then []
      else send_tx_loop hash tx args ∷ []

  after_send : {T : Type 0} → Text → Result Text → Act (World S T) Text
  unfolding emit nonce_before nonce_after keep_sending advance_nonce
  after_send tx (err e) w = (err e, emit nonce_before w)
  after_send tx (ok hash) w =
      (ok hash, emit (send_tx hash ∷ (nonce_before ++ (nonce_after ++ keep_sending hash tx))) w)

  -- sendSignedTransaction
  unfoldable pub send_signed_transaction : {T : Type 0} → Text → Act (World S T) Text
  unfolding after_send send_loops
  send_signed_transaction tx =
      let count = env.retry_send_tx_loop_count (format_int args.to_chain_id) in
      after_send tx (send_loops bridge tx (if count == 0 then 2 else count) 0)
