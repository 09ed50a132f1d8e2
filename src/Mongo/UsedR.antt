-- ===== src/Mongo/UsedR.antt =====
-- AddUsedRValue of mongodb/api.go: an r value of a signature is used once.
use cross_chain_router.Prelude.{◌++◌, ◌∷◌}
use cross_chain_router.Text.{Text, to_lower}
use cross_chain_router.Tokens.Errors.{ok, err, Done, sentinel, err_item_is_dup}
use cross_chain_router.Effect.{Act}
use cross_chain_router.Mongo.Driver.{
  Driver, Reply, found, Written, written, duplicate_key, write_failed,
}
use cross_chain_router.Mongo.Db.{Db, mgo_error_of}
use cross_chain_router.Mongo.Tables.{MgoUsedRValue}

module _ ⦃d : Driver⦄ where
  retry_insert : MgoUsedRValue → Reply MgoUsedRValue → Act (Db d.Store) Done
  retry_insert mr (found r) s = (err (sentinel err_item_is_dup), s)
  retry_insert mr none_found s =
      let (w, store) = d.insert_used_r s.store mr in (mgo_error_of w, record s { store = store })

  after_insert : MgoUsedRValue → Written → Act (Db d.Store) Done
  unfolding retry_insert
  after_insert mr written s = (ok tt, s)
  after_insert mr duplicate_key s = (err (sentinel err_item_is_dup), s)
  after_insert mr (write_failed t) s = retry_insert mr (d.find_used_r s.store mr.key) s

  -- AddUsedRValue
  unfoldable pub add_used_r_value : Text → Text → Act (Db d.Store) Done
  unfolding after_insert
  add_used_r_value pubkey r s =
      let mr : MgoUsedRValue = record {
        key = to_lower (r ++ (b':' ∷ pubkey));
        timestamp = s.now_milli;
      } in
      let (w, store) = d.insert_used_r s.store mr in after_insert mr w (record s { store = store })
