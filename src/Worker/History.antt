-- ===== src/Worker/History.antt =====
-- The ring of swap histories, and the tests against a second payout, of worker/swap.go.
pub mod Guard
use cross_chain_router.Prelude.{
  ℕ, Bool, true, false, not, ◌&&◌, ◌||◌, Option, none, some, List, [], ◌∷◌, ◌++◌, length, ltb, ◌==◌,
  if◌then◌else◌,
}
use mathlib.Core.List.{reverse}
use cross_chain_router.Text.{Text, is_empty, text_eq}
use cross_chain_router.Tokens.Errors.{Result, ok, err, Done, sentinel, err_already_swapped}
use cross_chain_router.Effect.{Act, pure, fail, attempt, continue, ◌>>=◌, ◌>>◌, ignore}
use cross_chain_router.Mongo.Driver.{Driver}
use cross_chain_router.Mongo.Status.{SwapStatus, match_tx_empty, reswapping, tx_processed}
use cross_chain_router.Mongo.Tables.{MgoSwapResult}
use cross_chain_router.Mongo.Swaps.{update_router_swap_status}
use cross_chain_router.Worker.State.{TaskSet, World, SwapHistory, on_db}

abbrev pub swap_ring_max_size : ℕ
swap_ring_max_size = 1000

drop_oldest : List SwapHistory → List SwapHistory
drop_oldest [] = []
drop_oldest (h ∷ hs) = hs

-- addSwapHistory: a full ring loses its oldest item.
unfoldable pub add_swap_history : SwapHistory → List SwapHistory → List SwapHistory
unfolding drop_oldest
add_swap_history item ring =
    if length ring == swap_ring_max_size then drop_oldest ring ++ item ∷ [] else ring ++ item ∷ []

find_history : Text → Text → ℕ → List SwapHistory → Option SwapHistory
find_history chain_id tx_id log_index [] = none
find_history chain_id tx_id log_index (h ∷ hs) =
    if text_eq h.tx_id tx_id && text_eq h.chain_id chain_id && h.log_index == log_index
    then some h
    else find_history chain_id tx_id log_index hs

-- getSwapHistory: from the oldest item the walk goes to the newest, and on to older ones.
unfoldable pub get_swap_history : Text → Text → ℕ → List SwapHistory → Option SwapHistory
unfolding find_history
get_swap_history chain_id tx_id log_index [] = none
get_swap_history chain_id tx_id log_index (h ∷ hs) =
    find_history chain_id tx_id log_index (h ∷ reverse hs)

-- isPendingSwapStatus
unfoldable pub is_pending_swap_status : SwapStatus → Bool
is_pending_swap_status s = s == match_tx_empty || s == reswapping

has_old_txs : List Text → Bool
has_old_txs [] = false
has_old_txs (t ∷ ts) = true

-- The condition of processNonEmptySwapResult.
unfoldable pub is_non_empty : MgoSwapResult → Bool
unfolding is_pending_swap_status has_old_txs is_empty
is_non_empty r =
    ltb 0 r.swap_nonce
    || not (is_pending_swap_status r.status)
    || not (is_empty r.swap_tx)
    || not (r.swap_height == 0)
    || has_old_txs r.old_swap_txs

module _ ⦃d : Driver⦄ {T : Type 0} where
  -- The swap is marked as processed, and the caller is told that it is.
  unfoldable pub already_processed : MgoSwapResult → Act (World d.Store T) Done
  already_processed res w =
      (do
        ignore (
            on_db (
              update_router_swap_status res.from_chain_id res.tx_id res.log_index tx_processed
                w.db.now []))
        fail (sentinel err_already_swapped))
        w

  -- processNonEmptySwapResult
  unfoldable pub process_non_empty_swap_result : MgoSwapResult → Act (World d.Store T) Done
  process_non_empty_swap_result res = if is_non_empty res then already_processed res else pure tt

  history_found : MgoSwapResult → Option SwapHistory → Act (World d.Store T) Done
  history_found res none = pure tt
  history_found res (some h) = already_processed res

  -- processHistory
  unfoldable pub process_history : MgoSwapResult → Act (World d.Store T) Done
  unfolding history_found
  process_history res w =
      if is_pending_swap_status res.status && res.swap_nonce == 0
      then (ok tt, w)
      else history_found res
          (get_swap_history res.from_chain_id res.tx_id res.log_index w.swap_ring) w

  -- preventReswap
  unfoldable pub prevent_reswap : MgoSwapResult → Act (World d.Store T) Done
  prevent_reswap res = do process_non_empty_swap_result res; process_history res
