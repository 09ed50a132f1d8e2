-- ===== src/Worker/Send/Frame.antt =====
-- Sending adds to what is sent, and changes nothing else.
use cross_chain_router.Prelude.{◌≡◌, arith}
use cross_chain_router.Text.{Text}
use cross_chain_router.Tokens.Types.{BuildTxArgs}
use cross_chain_router.Tokens.Bridge.{Bridge}
use cross_chain_router.Mongo.Db.{Db}
use cross_chain_router.Worker.State.{Env, World}
use cross_chain_router.Worker.Send.{send_signed_transaction, after_send, emit}

module _ {S T : Type 0} (env : Env S) (bridge : Bridge (Db S)) (args : BuildTxArgs) where
  pub send_signed_transaction-frame :
      (tx : Text) (w : World S T)
      → let w' = (send_signed_transaction env bridge args tx w).1 in
        w' ≡ record w { sent = w'.sent }
  unfolding send_signed_transaction after_send emit
  send_signed_transaction-frame tx w = ground arith
