-- ===== src/Worker/State.antt =====
-- What the jobs of the package worker share: the configuration and the router that they ask, and the
-- variables of the package.
use cross_chain_router.Prelude.{
  ℕ, ◌-◌, Bool, true, false, ◌||◌, Option, none, some, List, ltb, if◌then◌else◌, ◌≡◌,
}
use cross_chain_router.Text.{Text}
use cross_chain_router.Tokens.Errors.{Result, ok, err, sentinel, err_no_bridge_for_chain_id}
use cross_chain_router.Tokens.Types.{SwapTxInfo, BuildTxArgs}
use cross_chain_router.Tokens.Bridge.{Bridge}
use cross_chain_router.Effect.{Act}
use cross_chain_router.Mongo.Db.{Db}
use cross_chain_router.Mongo.Tables.{MgoSwap, MgoSwapResult, get_token_id}

-- The sets of github.com/deckarep/golang-set. Pop removes an element of the set's choice.
pub record TaskSet : Type 1 where
  pub Tasks : Type 0
  pub contains : Tasks → Text → Bool
  pub add : Tasks → Text → Tasks
  pub remove : Tasks → Text → Tasks
  pub pop : Tasks → Tasks
  pub cardinality : Tasks → ℕ

-- What the code relies on: an element is in the set from its addition to its removal.
pub record IsTaskSet (t : TaskSet) : Type 0 where
  pub contains_add : (s : t.Tasks) (k : Text) → t.contains (t.add s k) k ≡ true
  pub contains_remove : (s : t.Tasks) (k : Text) → t.contains (t.remove s k) k ≡ false

-- The packages params and router, as far as the jobs ask them.
pub record Env (S : Type 0) : Type 0 where
  pub get_bridge : Text → Option (Bridge (Db S))
  pub is_chain_id_paused : Text → Bool
  pub is_chain_id_in_black_list : Text → Bool
  pub is_token_id_in_black_list : Text → Bool
  pub is_token_id_in_black_list_on_chain : Text → Text → Bool
  pub is_account_in_black_list : Text → Bool
  pub is_big_value_swap : SwapTxInfo → Bool
  pub get_router_mpc : Text → Text → Result Text
  pub is_reswap_supported : Text → Bool
  pub is_nonce_supported : Text → Bool
  pub get_cached_latest_block_number : Text → ℕ
  pub is_parallel_swap_enabled : Bool
  pub increase_nonce_when_send_tx : Text → Bool
  pub retry_send_tx_loop_count : Text → ℕ
  pub send_tx_loop_disabled : Text → Bool
  pub get_nonce_passed_confirm_interval : Text → ℕ
  pub wait_time_to_replace : ℕ
  pub max_replace_count : ℕ
  pub max_replace_distance : ℕ

-- The values in the map disagreeRecords: `disagreeCount+1` is stored as a uint64, the constant 0 as an
-- int.
pub data DisagreeRecord : Type 0 where
  as_uint64 : ℕ → DisagreeRecord
  as_int : ℕ → DisagreeRecord

-- An entry of swapRing.
pub record SwapHistory : Type 0 where
  pub chain_id : Text
  pub tx_id : Text
  pub log_index : ℕ
  pub match_tx : Text

-- What goes out to the chains and their bridges.
pub data Sent : Type 0 where
  set_nonce : Text → ℕ → Sent
  recycle_nonce : Text → ℕ → Sent
  send_tx : Text → Sent
  send_tx_loop : Text → Text → BuildTxArgs → Sent

-- Goroutines that a job starts.
pub data Spawned : Type 0 where
  sign_and_send : Text → BuildTxArgs → Spawned
  sign_and_send_replace : Text → BuildTxArgs → MgoSwapResult → Spawned
  sign_and_send_reswap : Text → BuildTxArgs → MgoSwapResult → Spawned

-- The variables of the package over the database. The ring of swap histories stands oldest first.
pub record World (S T : Type 0) : Type 0 where
  pub db : Db S
  pub cached_swap_tasks : T
  pub cached_verifying_swaps : T
  pub swap_tasks_in_queue : T
  pub replace_tasks_in_queue : T
  pub swap_task_queue : Text → Option (List BuildTxArgs)
  pub replace_task_queue : Text → Option (List MgoSwapResult)
  pub disagree_records : Text → Option DisagreeRecord
  pub swap_ring : List SwapHistory
  pub sent : List Sent
  pub spawned : List Spawned

-- A database operation of a job.
abbrev pub on_db : {S T A : Type 0} → Act (Db S) A → Act (World S T) A
on_db m w = let (r, s) = m w.db in (r, record w { db = s })

-- getSepTimeInFind of worker/utils.go
unfoldable pub get_sep_time_in_find : ℕ → ℕ → ℕ
get_sep_time_in_find now dist = if ltb dist now then now - dist else 0

abbrev pub or_no_bridge : {B : Type 0} → Option B → Result B
or_no_bridge none = err (sentinel err_no_bridge_for_chain_id)
or_no_bridge (some b) = ok b

-- isBlacked of worker/verify.go
unfoldable pub is_blacked : {S : Type 0} → Env S → MgoSwap → Bool
is_blacked env swap =
    let token_id = get_token_id swap.swap_info in
    env.is_chain_id_in_black_list swap.from_chain_id
    || env.is_chain_id_in_black_list swap.to_chain_id
    || env.is_token_id_in_black_list token_id
    || env.is_token_id_in_black_list_on_chain swap.from_chain_id token_id
    || env.is_token_id_in_black_list_on_chain swap.to_chain_id token_id
    || env.is_account_in_black_list swap.from
    || env.is_account_in_black_list swap.bind
    || env.is_account_in_black_list swap.tx_to
