-- ===== src/Mongo/Swaps/Frame.antt =====
-- What the operations on swaps leave alone.
use cross_chain_router.Prelude.{ℕ, ◌≡◌, arith}
use cross_chain_router.Text.{Text}
use cross_chain_router.Mongo.Driver.{Driver, IsDocumented}
use cross_chain_router.Mongo.Db.{Db, set_swap, set_result}
use cross_chain_router.Mongo.Key.{get_router_swap_key}
use cross_chain_router.Mongo.Status.{SwapStatus}
use cross_chain_router.Mongo.Tables.{MgoSwap, MgoSwapResult}
use cross_chain_router.Mongo.Swaps.{update_router_swap_status, set_swap_status}

module _ ⦃d : Driver⦄ (lawful : IsDocumented d) where
  pub set_swap-find_result :
      (key j : Text) (f : MgoSwap → MgoSwap) (s : Db d.Store)
      → d.find_result (set_swap key f s).1.store j ≡ d.find_result s.store j
  unfolding set_swap
  set_swap-find_result key j f s = lawful.update_swap_result s.store key j f

  pub set_result-find_swap :
      (key j : Text) (f : MgoSwapResult → MgoSwapResult) (s : Db d.Store)
      → d.find_swap (set_result key f s).1.store j ≡ d.find_swap s.store j
  unfolding set_result
  set_result-find_swap key j f s = lawful.update_result_swap s.store key j f

  pub update_router_swap_status-find_result :
      (from_chain_id tx_id : Text) (log_index : ℕ) (status : SwapStatus) (timestamp : ℕ)
      (memo : Text) (s : Db d.Store) (j : Text)
      → d.find_result
          (update_router_swap_status from_chain_id tx_id log_index status timestamp memo s).1.store
          j
        ≡ d.find_result s.store j
  unfolding update_router_swap_status
  update_router_swap_status-find_result a x i status timestamp memo s j = ground (
    arith,
    set_swap-find_result (get_router_swap_key a x i) j (set_swap_status status timestamp memo) s,
  )
