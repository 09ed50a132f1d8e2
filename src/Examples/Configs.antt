-- ===== src/Examples/Configs.antt =====
-- The theorems on the configuration at concrete configurations.
use cross_chain_router.Prelude.{
  if◌then◌else◌, ◌≡◌, refl, true, false, ◌||◌, none, some, List, [], ◌∷◌,
}
use cross_chain_router.Text.{Text, bytes, text_eq, has_prefix, is_empty}
use cross_chain_router.Text.Number.{parse_big256}
use cross_chain_router.Tokens.Errors.{ok}
use cross_chain_router.Worker.State.{is_blacked}
use cross_chain_router.Params.State.{
  Set, ExtraConfig, ExtraSets, Formats, Params, RouterConfig, chain_key, collect, no_keys,
}
use cross_chain_router.Params.Blacklist.{add_or_remove_account_black_list, check_blacklist_config}
use cross_chain_router.Params.Blacklist.Listed.{
  is_among, is_blacked-add_or_remove_account_black_list, with_black_lists,
}
use cross_chain_router.Params.Extra.{
  check_extra_config, init_extra, init_from, is_dynamic_fee_tx_enabled,
}
use cross_chain_router.Params.Load.{check_config, reload_router_config}
use cross_chain_router.Params.Load.Stale.{reload_router_config-stale}
use cross_chain_router.Examples.Data.{new_swap, network, chain}

abbrev decimal : Formats
decimal = record {
  set_string_base0 = λ x. parse_big256 x;
  is_hex_address = λ x. true;
  is_hex_hash = λ x. true;
}

abbrev extra_with : List Text → ExtraConfig
extra_with chains = record {
  call_by_contract_whitelist = [];
  call_by_contract_code_hash_whitelist = [];
  big_value_whitelist = [];
  dynamic_fee_tx_enabled_chains = chains;
  enable_check_tx_block_hash_chains = [];
  enable_check_tx_block_index_chains = [];
  disable_use_from_chain_id_in_receipt_chains = [];
  use_fast_mpc_chains = [];
  increase_nonce_when_send_tx_chains = [];
  dont_check_received_token_ids = [];
  dont_check_balance_token_ids = [];
  dont_check_total_supply_token_ids = [];
  check_token_balance_enabled_chains = [];
  ignore_anycall_fallback_app_ids = [];
  local_chain_config = [];
  use_pending_balance = false;
  base_fee_percent = [];
}

abbrev config_with : ExtraConfig → RouterConfig
config_with e = record {
  identifier = bytes "routerswap-a";
  swap_type = bytes "erc20swap";
  swap_sub_type = bytes "";
  chain_id_black_list = [];
  token_id_black_list = [];
  token_id_black_list_on_chain = [];
  account_black_list = [];
  extra = some e;
}

abbrev no_sets : ExtraSets
no_sets = record {
  call_by_contract_whitelist = λ k. none;
  call_by_contract_code_hash_whitelist = λ k. none;
  big_value_whitelist = λ k. none;
  dynamic_fee_tx_enabled_chains = no_keys;
  enable_check_tx_block_hash_chains = no_keys;
  enable_check_tx_block_index_chains = no_keys;
  disable_use_from_chain_id_in_receipt_chains = no_keys;
  use_fast_mpc_chains = no_keys;
  increase_nonce_when_send_tx_chains = no_keys;
  dont_check_received_token_ids = no_keys;
  dont_check_balance_token_ids = no_keys;
  dont_check_total_supply_token_ids = no_keys;
  check_token_balance_enabled_chains = no_keys;
  ignore_anycall_fallback_app_ids = no_keys;
}

-- The variables after a first load in which chain 5 has dynamic fees.
abbrev loaded : Params
loaded = record {
  router_config = config_with (extra_with (bytes "5" ∷ []));
  is_reload = false;
  chain_id_blacklist_map = no_keys;
  token_id_blacklist_map = no_keys;
  token_id_blacklist_on_chain_map = λ k. none;
  account_blacklist_map = no_keys;
  extra_sets = record no_sets { dynamic_fee_tx_enabled_chains = text_eq (bytes "5") };
  pending_balance = false;
}

abbrev edited : RouterConfig
edited = config_with (extra_with (bytes "7" ∷ []))

check_config-edited :
    (check_config decimal edited (ok tt) (record loaded { is_reload = true })).0 ≡ ok tt
unfolding check_config has_prefix bytes text_eq is_empty check_blacklist_config check_extra_config
    init_from collect chain_key parse_big256
check_config-edited = refl

reload_router_config-stale_example :
    ((reload_router_config decimal edited (ok tt) loaded).router_config ≡ edited)
    × ((reload_router_config decimal edited (ok tt) loaded).extra_sets
        ≡ (init_extra decimal loaded).1.extra_sets)
reload_router_config-stale_example =
    reload_router_config-stale decimal edited (ok tt) (extra_with (bytes "7" ∷ [])) loaded tt refl
      check_config-edited

-- Chain 7, which the reload was to enable, is not enabled.
reloaded-chain :
    is_dynamic_fee_tx_enabled (reload_router_config decimal edited (ok tt) loaded) (bytes "7")
    ≡ false
unfolding reload_router_config is_dynamic_fee_tx_enabled has_prefix bytes text_eq is_empty
    check_blacklist_config check_extra_config init_from collect chain_key parse_big256
reloaded-chain = refl

abbrev in_order : Set → List Text
in_order s = if s new_swap.bind then new_swap.bind ∷ [] else []

is_blacked-add_or_remove_account_black_list_example :
    is_blacked
      (with_black_lists
        (network chain)
        (add_or_remove_account_black_list in_order (new_swap.bind ∷ []) true loaded))
      new_swap
    ≡ (is_blacked (with_black_lists (network chain) loaded) new_swap
        || is_among (new_swap.bind ∷ []) new_swap.from
        || is_among (new_swap.bind ∷ []) new_swap.bind
        || is_among (new_swap.bind ∷ []) new_swap.tx_to)
is_blacked-add_or_remove_account_black_list_example =
    is_blacked-add_or_remove_account_black_list (network chain) in_order (new_swap.bind ∷ []) loaded
      new_swap
