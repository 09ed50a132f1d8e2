-- ===== src/Router/Tables.antt =====
-- The tables of router/types.go: bridges, tokens of a token id on each chain, router infos, public keys of
-- the signing nodes, and paused chains. `B` is a bridge; a sync.Map is the function that looks a key up,
-- and no two token ids share the map of their tokens.
pub mod Lookup
use cross_chain_router.Prelude.{
  Bool, true, false, ◌||◌, Option, none, some, List, [], ◌∷◌, ◌++◌, if◌then◌else◌,
}
use cross_chain_router.Text.{Text, to_lower, text_eq, is_empty}
use cross_chain_router.Text.Keyed.{store_at}
use cross_chain_router.Text.Number.{parse_big256}
use cross_chain_router.Tokens.Errors.{
  Result, ok, err, sentinel, err_no_bridge_for_chain_id, err_miss_token_config,
  err_miss_router_info,
}

-- SwapRouterInfo
pub record SwapRouterInfo : Type 0 where
  pub router_mpc : Text
  pub router_pda : Text
  pub router_w_native : Text
  pub router_security : Text

pub record Tables (B : Type 0) : Type 0 where
  pub router_bridges : Text → Option B
  pub multichain_tokens : Text → Option (Text → Option Text)
  pub router_infos : Text → Option SwapRouterInfo
  pub mpc_public_keys : Text → Option Text
  pub paused_chain_ids : Text → Bool

unfoldable pub or_no_text : Option Text → Text
or_no_text none = []
or_no_text (some s) = s

unfoldable pub or_no_tokens : Option (Text → Option Text) → Text → Option Text
or_no_tokens none c = none
or_no_tokens (some m) c = m c

-- fmt.Sprintf("%s:%s", router, chainID) in lower case
unfoldable pub router_key : Text → Text → Text
router_key router chain_id = to_lower (router ++ b':' ∷ chain_id)

-- The loops of AddPausedChainIDs and RemovePausedChainIDs.
unfoldable pub pause_each : List Text → Bool → (Text → Bool) → Text → Bool
pause_each [] b s = s
pause_each (x ∷ xs) b s =
    let skipped = pause_each xs b s in
    let taken = pause_each xs b λ k. if text_eq x k then b else s k in
    elim (parse_big256 x) [ none ↦ skipped | some z ↦ if is_empty x then skipped else taken ]

module _ {B : Type 0} where
  -- SetBridge
  unfoldable pub set_bridge : Text → Option B → Tables B → Tables B
  unfolding store_at
  set_bridge chain_id bridge t = record t {
    router_bridges = store_at chain_id bridge t.router_bridges;
  }

  -- GetBridgeByChainID
  unfoldable pub get_bridge_by_chain_id : Text → Tables B → Option B
  get_bridge_by_chain_id chain_id t = t.router_bridges chain_id

  -- SetRouterInfo
  unfoldable pub set_router_info : Text → Text → SwapRouterInfo → Tables B → Tables B
  unfolding store_at router_key
  set_router_info router chain_id info t = record t {
    router_infos = store_at (router_key router chain_id) (some info) t.router_infos;
  }

  -- GetRouterInfo
  unfoldable pub get_router_info : Text → Text → Tables B → Option SwapRouterInfo
  unfolding router_key
  get_router_info router chain_id t = t.router_infos (router_key router chain_id)

  -- SetMPCPublicKey
  unfoldable pub set_mpc_public_key : Text → Text → Tables B → Tables B
  unfolding store_at
  set_mpc_public_key mpc pubkey t = record t {
    mpc_public_keys = store_at (to_lower mpc) (some pubkey) t.mpc_public_keys;
  }

  -- GetMPCPublicKey
  unfoldable pub get_mpc_public_key : Text → Tables B → Text
  unfolding or_no_text
  get_mpc_public_key mpc t = or_no_text (t.mpc_public_keys (to_lower mpc))

  -- SetMultichainTokens; a nil map deletes the entry.
  unfoldable pub set_multichain_tokens : Text → Option (Text → Option Text) → Tables B → Tables B
  unfolding store_at
  set_multichain_tokens token_id tokens_map t = record t {
    multichain_tokens = store_at (to_lower token_id) tokens_map t.multichain_tokens;
  }

  -- GetCachedMultichainTokens
  unfoldable pub get_cached_multichain_tokens : Text → Tables B → Option (Text → Option Text)
  get_cached_multichain_tokens token_id t = t.multichain_tokens (to_lower token_id)

  -- SetMultichainToken
  unfoldable pub set_multichain_token : Text → Text → Text → Tables B → Tables B
  unfolding store_at get_cached_multichain_tokens or_no_tokens
  set_multichain_token token_id chain_id token_addr t =
      let others = or_no_tokens (get_cached_multichain_tokens token_id t) in
      record t {
        multichain_tokens =
            store_at (to_lower token_id) (some (store_at chain_id (some token_addr) others))
              t.multichain_tokens;
      }

  -- GetCachedMultichainToken
  unfoldable pub get_cached_multichain_token : Text → Text → Tables B → Text
  unfolding get_cached_multichain_tokens or_no_text
  get_cached_multichain_token token_id chain_id t = elim (get_cached_multichain_tokens token_id t) [
    | none ↦ []
    | some m ↦ or_no_text (m chain_id)
  ]

  -- AddPausedChainIDs
  unfoldable pub add_paused_chain_ids : List Text → Tables B → Tables B
  unfolding pause_each
  add_paused_chain_ids chain_ids t = record t {
    paused_chain_ids = pause_each chain_ids true t.paused_chain_ids;
  }

  -- RemovePausedChainIDs
  unfoldable pub remove_paused_chain_ids : List Text → Tables B → Tables B
  unfolding pause_each
  remove_paused_chain_ids chain_ids t = record t {
    paused_chain_ids = pause_each chain_ids false t.paused_chain_ids;
  }

  -- IsChainIDPaused
  unfoldable pub is_chain_id_paused : Text → Tables B → Bool
  is_chain_id_paused chain_id t = t.paused_chain_ids chain_id

  module _ (is_any_call_router : Bool) (get_router_contract : B → Text → Text) where
    -- The end of GetTokenRouterContract.
    unfoldable pub router_contract_of : B → Text → Result Text
    router_contract_of b token =
        let contract = get_router_contract b token in
        if is_empty contract then err (sentinel err_miss_router_info) else ok contract

    -- GetTokenRouterContract
    unfoldable pub get_token_router_contract : Text → Text → Tables B → Result Text
    unfolding router_contract_of get_bridge_by_chain_id get_cached_multichain_token
    get_token_router_contract token_id chain_id t = elim (get_bridge_by_chain_id chain_id t) [
      | none ↦ err (sentinel err_no_bridge_for_chain_id)
      | some b ↦
          (let token = get_cached_multichain_token token_id chain_id t in
            if is_any_call_router
            then router_contract_of b []
            else if is_empty token
            then err (sentinel err_miss_token_config)
            else router_contract_of b token)
    ]

    -- GetTokenRouterInfo
    unfoldable pub get_token_router_info : Text → Text → Tables B → Result SwapRouterInfo
    unfolding get_token_router_contract get_router_info
    get_token_router_info token_id chain_id t =
        elim (get_token_router_contract token_id chain_id t) [
          | err e ↦ err e
          | ok contract ↦ elim (get_router_info contract chain_id t) [
            | none ↦ err (sentinel err_miss_router_info)
            | some info ↦ ok info
          ]
        ]

    -- GetRouterMPC
    unfoldable pub get_router_mpc : Text → Text → Tables B → Result Text
    unfolding get_token_router_info
    get_router_mpc token_id chain_id t = elim (get_token_router_info token_id chain_id t) [
      | err e ↦ err e
      | ok info ↦ ok info.router_mpc
    ]
