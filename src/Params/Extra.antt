-- ===== src/Params/Extra.antt =====
-- ExtraConfig.CheckConfig of params/checkconfig.go, with the init functions of params/config.go. These
-- read the configuration that GetExtraConfig returns, not the one that is checked.
pub mod Alike
use cross_chain_router.Prelude.{
  ℕ, Bool, true, false, not, ◌&&◌, ◌||◌, Option, none, some, List, [], ◌∷◌, ltb, if◌then◌else◌,
}
use cross_chain_router.Prelude.Int.{ℤ, pos, negsuc, ltb_ℤ}
use cross_chain_router.Text.{Text, to_lower}
use cross_chain_router.Tokens.Errors.{Result, ok, err, Done, new_error}
use cross_chain_router.Effect.{Act, continue, ◌>>=◌, ◌>>◌, lift, pure}
use cross_chain_router.Params.State.{
  Set, SetMap, no_keys, has_key, ExtraConfig, ExtraSets, LocalChainConfig, Params, Formats, bind,
  fatal, collect, collect_map, any_key, lower_key, chain_key, filled_key,
}

finish_init : {V : Type 0} → (V → ExtraSets → ExtraSets) → Result V → Act Params Done
finish_init store (err e) p = (err e, p)
finish_init store (ok v) p = (ok tt, record p { extra_sets = store v p.extra_sets })

init_list :
    {A V : Type 0} → (List A → Result V) → (V → ExtraSets → ExtraSets) → List A → Act Params Done
unfolding finish_init
init_list make store [] p = (ok tt, p)
init_list make store (x ∷ xs) p = finish_init store (make (x ∷ xs)) p

init_with :
    {A V : Type 0}
    → (ExtraConfig → List A)
    → (List A → Result V)
    → (V → ExtraSets → ExtraSets)
    → Option ExtraConfig
    → Act Params Done
unfolding init_list
init_with list make store none p = (ok tt, p)
init_with list make store (some e) p = init_list make store (list e) p

-- An init function: nothing happens without an extra configuration or with an empty list.
unfoldable pub init_from :
    {A V : Type 0}
    → (ExtraConfig → List A)
    → (List A → Result V)
    → (V → ExtraSets → ExtraSets)
    → Act Params Done
unfolding init_with
init_from list make store p = init_with list make store p.router_config.extra p

abbrev set_from : (Text → Result Text) → List Text → Result Set
set_from key xs = collect key xs no_keys

abbrev map_from :
    (Text → Result Text) → (Text → Result Text) → List (Text × List Text) → Result SetMap
map_from key inner xs = collect_map key inner xs λ k. none

address_key : Formats → Text → Result Text
address_key f x = if f.is_hex_address x then ok (to_lower x) else fatal

hash_key : Formats → Text → Result Text
hash_key f x = if f.is_hex_hash x then ok x else fatal

init_call_by_contract_whitelist : Formats → Act Params Done
init_call_by_contract_whitelist f =
    init_from (λ e. e.call_by_contract_whitelist) (map_from chain_key (address_key f))
      λ v s. record s { call_by_contract_whitelist = v }

init_call_by_contract_code_hash_whitelist : Formats → Act Params Done
init_call_by_contract_code_hash_whitelist f =
    init_from (λ e. e.call_by_contract_code_hash_whitelist) (map_from chain_key (hash_key f))
      λ v s. record s { call_by_contract_code_hash_whitelist = v }

init_big_value_whitelist : Act Params Done
init_big_value_whitelist =
    init_from (λ e. e.big_value_whitelist) (map_from any_key filled_key)
      λ v s. record s { big_value_whitelist = v }

init_dynamic_fee_tx_enabled_chains : Act Params Done
init_dynamic_fee_tx_enabled_chains =
    init_from (λ e. e.dynamic_fee_tx_enabled_chains) (set_from chain_key)
      λ v s. record s { dynamic_fee_tx_enabled_chains = v }

init_enable_check_tx_block_hash_chains : Act Params Done
init_enable_check_tx_block_hash_chains =
    init_from (λ e. e.enable_check_tx_block_hash_chains) (set_from chain_key)
      λ v s. record s { enable_check_tx_block_hash_chains = v }

init_enable_check_tx_block_index_chains : Act Params Done
init_enable_check_tx_block_index_chains =
    init_from (λ e. e.enable_check_tx_block_index_chains) (set_from chain_key)
      λ v s. record s { enable_check_tx_block_index_chains = v }

init_disable_use_from_chain_id_in_receipt_chains : Act Params Done
init_disable_use_from_chain_id_in_receipt_chains =
    init_from (λ e. e.disable_use_from_chain_id_in_receipt_chains) (set_from chain_key)
      λ v s. record s { disable_use_from_chain_id_in_receipt_chains = v }

init_use_fast_mpc_chains : Act Params Done
init_use_fast_mpc_chains =
    init_from (λ e. e.use_fast_mpc_chains) (set_from any_key)
      λ v s. record s { use_fast_mpc_chains = v }

init_increase_nonce_when_send_tx_chains : Act Params Done
init_increase_nonce_when_send_tx_chains =
    init_from (λ e. e.increase_nonce_when_send_tx_chains) (set_from any_key)
      λ v s. record s { increase_nonce_when_send_tx_chains = v }

init_dont_check_received_token_ids : Act Params Done
init_dont_check_received_token_ids =
    init_from (λ e. e.dont_check_received_token_ids) (set_from lower_key)
      λ v s. record s { dont_check_received_token_ids = v }

init_dont_check_balance_token_ids : Act Params Done
init_dont_check_balance_token_ids =
    init_from (λ e. e.dont_check_balance_token_ids) (set_from lower_key)
      λ v s. record s { dont_check_balance_token_ids = v }

init_dont_check_total_supply_token_ids : Act Params Done
init_dont_check_total_supply_token_ids =
    init_from (λ e. e.dont_check_total_supply_token_ids) (set_from lower_key)
      λ v s. record s { dont_check_total_supply_token_ids = v }

init_check_token_balance_enabled_chains : Act Params Done
init_check_token_balance_enabled_chains =
    init_from (λ e. e.check_token_balance_enabled_chains) (set_from chain_key)
      λ v s. record s { check_token_balance_enabled_chains = v }

init_ignore_anycall_fallback_app_ids : Act Params Done
init_ignore_anycall_fallback_app_ids =
    init_from (λ e. e.ignore_anycall_fallback_app_ids) (set_from any_key)
      λ v s. record s { ignore_anycall_fallback_app_ids = v }

-- The calls of the init functions in ExtraConfig.CheckConfig.
unfoldable pub init_extra : Formats → Act Params Done
unfolding init_call_by_contract_whitelist init_call_by_contract_code_hash_whitelist
    init_big_value_whitelist init_dynamic_fee_tx_enabled_chains
    init_enable_check_tx_block_hash_chains init_enable_check_tx_block_index_chains
    init_disable_use_from_chain_id_in_receipt_chains init_use_fast_mpc_chains
    init_increase_nonce_when_send_tx_chains init_dont_check_received_token_ids
    init_dont_check_balance_token_ids init_dont_check_total_supply_token_ids
    init_check_token_balance_enabled_chains init_ignore_anycall_fallback_app_ids address_key
    hash_key
init_extra f = do
  init_call_by_contract_whitelist f
  init_call_by_contract_code_hash_whitelist f
  init_big_value_whitelist
  init_dynamic_fee_tx_enabled_chains
  init_enable_check_tx_block_hash_chains
  init_enable_check_tx_block_index_chains
  init_disable_use_from_chain_id_in_receipt_chains
  init_use_fast_mpc_chains
  init_increase_nonce_when_send_tx_chains
  init_dont_check_received_token_ids
  init_dont_check_balance_token_ids
  init_dont_check_total_supply_token_ids
  init_check_token_balance_enabled_chains
  init_ignore_anycall_fallback_app_ids

-- LocalChainConfig.CheckConfig, for each chain
unfoldable pub check_local_chains : List (Text × LocalChainConfig) → Result Done
check_local_chains [] = ok tt
check_local_chains ((cid, c) ∷ rest) =
    let others = check_local_chains rest in
    if ltb 100 c.big_value_discount
    then err (new_error "'BigValueDiscount' is larger than 100")
    else others

unfoldable pub check_base_fees : Formats → List (Text × ℤ) → Result Done
check_base_fees f [] = ok tt
check_base_fees f ((cid, percent) ∷ rest) =
    let others = check_base_fees f rest in
    elim (f.set_string_base0 cid) [
      | none ↦ err (new_error "wrong chain id in 'BaseFeePercent'")
      | some z ↦
          if ltb_ℤ percent (negsuc 89) || ltb_ℤ (pos 500) percent
          then err (new_error "'BaseFeePercent' must be in range [-90, 500]")
          else others
    ]

unfoldable pub set_pending : Bool → Act Params Done
set_pending b p = (ok tt, if b then record p { pending_balance = true } else p)

-- ExtraConfig.CheckConfig
unfoldable pub check_extra_config : Formats → ExtraConfig → Act Params Done
unfolding init_extra check_local_chains check_base_fees set_pending
check_extra_config f e = do
  init_extra f
  lift (check_local_chains e.local_chain_config)
  set_pending e.use_pending_balance
  lift (check_base_fees f e.base_fee_percent)

-- IsDynamicFeeTxEnabled
unfoldable pub is_dynamic_fee_tx_enabled : Params → Text → Bool
is_dynamic_fee_tx_enabled p chain_id = p.extra_sets.dynamic_fee_tx_enabled_chains chain_id

-- IncreaseNonceWhenSendTx
unfoldable pub increase_nonce_when_send_tx : Params → Text → Bool
increase_nonce_when_send_tx p chain_id = p.extra_sets.increase_nonce_when_send_tx_chains chain_id

-- IsInCallByContractWhitelist
unfoldable pub is_in_call_by_contract_whitelist : Params → Text → Text → Bool
is_in_call_by_contract_whitelist p chain_id caller =
    has_key p.extra_sets.call_by_contract_whitelist chain_id (to_lower caller)

-- IsInBigValueWhitelist
unfoldable pub is_in_big_value_whitelist : Params → Text → Text → Bool
is_in_big_value_whitelist p token_id caller =
    has_key p.extra_sets.big_value_whitelist token_id (to_lower caller)
