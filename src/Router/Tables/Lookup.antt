-- ===== src/Router/Tables/Lookup.antt =====
-- What the setters store, the getters find.
use cross_chain_router.Prelude.{false, ◌≡◌, refl, some, arith}
use cross_chain_router.Text.{Text, to_lower, is_empty}
use cross_chain_router.Text.Keyed.{store_at-same}
use cross_chain_router.Text.Equality.{text_eq_refl}
use cross_chain_router.Tokens.Errors.{ok}
use cross_chain_router.Router.Tables.{
  SwapRouterInfo, Tables, get_bridge_by_chain_id, get_cached_multichain_token,
  get_cached_multichain_tokens, get_router_info, get_router_mpc, get_token_router_contract,
  get_token_router_info, or_no_text, router_contract_of, router_key, set_bridge,
  set_multichain_token, set_router_info,
}

module _ {B : Type 0} where
  -- The token of a token id on a chain is the one that was set, whatever the case of the id.
  pub get_cached_multichain_token-set_multichain_token :
      (token_id id chain_id addr : Text) (t : Tables B)
      → to_lower token_id ≡ to_lower id
      → get_cached_multichain_token id chain_id (set_multichain_token token_id chain_id addr t)
        ≡ addr
  unfolding get_cached_multichain_token get_cached_multichain_tokens set_multichain_token or_no_text
  get_cached_multichain_token-set_multichain_token token_id id chain_id addr t e =
      rw (get_cached_multichain_token, e, text_eq_refl, store_at-same) refl

  contract_found :
      (get_router_contract : B → Text → Text) (b : B) (token_id id chain_id addr : Text)
      (info : SwapRouterInfo) (t : Tables B)
      → to_lower token_id ≡ to_lower id
      → is_empty addr ≡ false
      → is_empty (get_router_contract b addr) ≡ false
      → get_token_router_contract false get_router_contract id chain_id (
          set_router_info
            (get_router_contract b addr)
            chain_id
            info
            (set_multichain_token token_id chain_id addr (set_bridge chain_id (some b) t)))
        ≡ ok (get_router_contract b addr)
  unfolding get_token_router_contract router_contract_of set_router_info set_bridge
      get_bridge_by_chain_id get_cached_multichain_token get_cached_multichain_tokens
      set_multichain_token or_no_text
  contract_found get_router_contract b token_id id chain_id addr info t e a c = ground (
    arith,
    e,
    a,
    c,
    text_eq_refl chain_id,
    text_eq_refl (to_lower id),
    text_eq_refl (to_lower token_id),
  )

  info_found :
      (router chain_id : Text) (info : SwapRouterInfo) (t : Tables B)
      → get_router_info router chain_id (set_router_info router chain_id info t) ≡ some info
  unfolding get_router_info set_router_info
  info_found router chain_id info t = ground (arith, text_eq_refl (router_key router chain_id))

  -- GetRouterMPC of a router that is not for anycall finds the router info of the contract that the
  -- bridge has for the token, once bridge, token and info are set, whatever the case of the token id.
  pub get_router_mpc-set_router_info :
      (get_router_contract : B → Text → Text) (b : B) (token_id id chain_id addr : Text)
      (info : SwapRouterInfo) (t : Tables B)
      → to_lower token_id ≡ to_lower id
      → is_empty addr ≡ false
      → is_empty (get_router_contract b addr) ≡ false
      → get_router_mpc false get_router_contract id chain_id (
          set_router_info
            (get_router_contract b addr)
            chain_id
            info
            (set_multichain_token token_id chain_id addr (set_bridge chain_id (some b) t)))
        ≡ ok info.router_mpc
  unfolding get_router_mpc get_token_router_info get_token_router_contract router_contract_of
      get_router_info set_router_info set_bridge get_bridge_by_chain_id get_cached_multichain_token
      get_cached_multichain_tokens set_multichain_token or_no_text
  get_router_mpc-set_router_info get_router_contract b token_id id chain_id addr info t e a c =
      rw
        (
          get_router_mpc,
          get_token_router_info,
          contract_found get_router_contract b token_id id chain_id addr info t e a c,
          info_found (get_router_contract b addr) chain_id info,
        )
        refl
