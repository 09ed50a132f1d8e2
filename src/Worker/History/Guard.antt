-- ===== src/Worker/History/Guard.antt =====
-- What preventReswap lets through.
use cross_chain_router.Prelude.{◌≡◌, ◌⊎◌, refl, true, false, arith, List, [], ◌∷◌}
use cross_chain_router.Text.{Text}
use cross_chain_router.Text.Equality.{is_empty_iff}
use cross_chain_router.Tokens.Errors.{ok, err, sentinel, err_already_swapped}
use cross_chain_router.Mongo.Driver.{Driver, IsDocumented}
use cross_chain_router.Mongo.Status.{match_tx_empty, reswapping, tx_processed}
use cross_chain_router.Mongo.Tables.{MgoSwapResult}
use cross_chain_router.Mongo.Swaps.Frame.{update_router_swap_status-find_result}
use cross_chain_router.Worker.State.{World}
use cross_chain_router.Worker.History.{
  is_non_empty, is_pending_swap_status, has_old_txs, already_processed,
  process_non_empty_swap_result, process_history, prevent_reswap,
}

-- The result is as it was registered, or reset: no transaction, no nonce and no height.
abbrev pub IsUnpaid : MgoSwapResult → Type 0
IsUnpaid r =
    (r.swap_nonce ≡ 0)
    × (r.swap_tx ≡ [])
    × (r.swap_height ≡ 0)
    × (r.old_swap_txs ≡ [])
    × ((r.status ≡ match_tx_empty) ⊎ (r.status ≡ reswapping))

has_old_txs-nil : (ts : List Text) → has_old_txs ts ≡ false → ts ≡ []
unfolding has_old_txs
has_old_txs-nil [] h = refl
has_old_txs-nil (t ∷ ts) h = cc

pub is_non_empty-IsUnpaid : (r : MgoSwapResult) → is_non_empty r ≡ false → IsUnpaid r
unfolding is_non_empty is_pending_swap_status
is_non_empty-IsUnpaid r h = ground (arith, is_empty_iff r.swap_tx, has_old_txs-nil r.old_swap_txs)

module _ ⦃d : Driver⦄ {T : Type 0} where
  -- preventReswap lets only results through that have no nonce, no transaction, no height and no old
  -- transactions, and are MatchTxEmpty or Reswapping; it then changes nothing.
  pub prevent_reswap-ok :
      (r : MgoSwapResult) (w : World d.Store T)
      → (prevent_reswap r w).0 ≡ ok tt
      → IsUnpaid r × (prevent_reswap r w ≡ (ok tt, w))
  unfolding prevent_reswap process_non_empty_swap_result process_history already_processed
      is_non_empty is_pending_swap_status
  prevent_reswap-ok r w h = ground (arith, is_non_empty-IsUnpaid r)

  -- The history of swaps plays no part in preventReswap: the test before it has settled the question.
  pub prevent_reswap-process_history :
      (r : MgoSwapResult) (w : World d.Store T)
      → prevent_reswap r w ≡ process_non_empty_swap_result r w
  unfolding prevent_reswap process_non_empty_swap_result process_history already_processed
      is_non_empty is_pending_swap_status
  prevent_reswap-process_history r w = ground arith

  pub prevent_reswap-paid :
      (r : MgoSwapResult) (w : World d.Store T)
      → is_non_empty r ≡ true
      → (prevent_reswap r w).0 ≡ err (sentinel err_already_swapped)
  unfolding prevent_reswap process_non_empty_swap_result process_history already_processed
  prevent_reswap-paid r w h = ground arith

  -- The queues, caches, histories and messages are not touched.
  pub prevent_reswap-frame :
      (r : MgoSwapResult) (w : World d.Store T)
      → let w' = (prevent_reswap r w).1 in w' ≡ record w { db = w'.db }
  unfolding prevent_reswap process_non_empty_swap_result process_history already_processed
  prevent_reswap-frame r w = ground arith

module _ ⦃d : Driver⦄ (lawful : IsDocumented d) {T : Type 0} where
  pub prevent_reswap-find_result :
      (r : MgoSwapResult) (w : World d.Store T) (j : Text)
      → d.find_result (prevent_reswap r w).1.db.store j ≡ d.find_result w.db.store j
  unfolding process_non_empty_swap_result already_processed
  prevent_reswap-find_result r w j = rw (prevent_reswap-process_history r w) (
      ground (
        arith,
        update_router_swap_status-find_result lawful r.from_chain_id r.tx_id r.log_index
            tx_processed w.db.now [] w.db j,
      ))
