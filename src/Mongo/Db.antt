-- ===== src/Mongo/Db.antt =====
-- mongodb/errors.go, and the state of the package: the store behind the driver, and the clock.
use cross_chain_router.Prelude.{ℕ, ◌++◌}
use cross_chain_router.Text.{Text}
use cross_chain_router.Tokens.Errors.{
  Error, Result, ok, err, Done, sentinel, sentinel_text, mgo_error, err_item_not_found,
  err_item_is_dup,
}
use cross_chain_router.Effect.{Act}
use cross_chain_router.Mongo.Driver.{
  Driver, Reply, found, no_documents, query_failed, Written, written, duplicate_key, write_failed,
}
use cross_chain_router.Mongo.Tables.{MgoSwap, MgoSwapResult}

-- One call of an operation sees one time, in seconds and in milliseconds.
pub record Db (S : Type 0) : Type 0 where
  pub store : S
  pub now : ℕ
  pub now_milli : ℕ

mgo_fault : Text → Error
mgo_fault t = record { is = mgo_error; message = sentinel_text mgo_error ++ t }

-- mgoError, on the outcome of FindOne
unfoldable pub read_reply : {D : Type 0} → Reply D → Result D
unfolding mgo_fault
read_reply (found x) = ok x
read_reply no_documents = err (sentinel err_item_not_found)
read_reply (query_failed t) = err (mgo_fault t)

-- mgoError, on the outcome of a write
unfoldable pub mgo_error_of : Written → Result Done
unfolding mgo_fault
mgo_error_of written = ok tt
mgo_error_of duplicate_key = err (sentinel err_item_is_dup)
mgo_error_of (write_failed t) = err (mgo_fault t)

module _ ⦃d : Driver⦄ where
  -- collRouterSwap.UpdateByID
  unfoldable pub set_swap : Text → (MgoSwap → MgoSwap) → Act (Db d.Store) Done
  set_swap key f s =
      let (w, store) = d.update_swap s.store key f in (mgo_error_of w, record s { store = store })

  -- collRouterSwapResult.UpdateByID
  unfoldable pub set_result : Text → (MgoSwapResult → MgoSwapResult) → Act (Db d.Store) Done
  set_result key f s =
      let (w, store) = d.update_result s.store key f in (mgo_error_of w, record s { store = store })
