-- ===== src/Params/State.antt =====
-- The configuration, and the variables of the package params.
use cross_chain_router.Prelude.{
  ℕ, Bool, true, false, Option, none, some, List, [], ◌∷◌, if◌then◌else◌,
}
use cross_chain_router.Prelude.Int.{ℤ}
use cross_chain_router.Text.{Text, text_eq, to_lower, is_empty}
use cross_chain_router.Text.Number.{parse_big256}
use cross_chain_router.Tokens.Errors.{Result, ok, err, sentinel, runtime_panic}

-- map[string]struct{}
abbrev pub Set : Type 0
Set = Text → Bool

abbrev pub no_keys : Set
no_keys k = false

-- m[key] = struct{}{}, and delete(m, key)
unfoldable pub put_key : Text → Bool → Set → Set
put_key key b s k = if text_eq key k then b else s k

abbrev pub SetMap : Type 0
SetMap = Text → Option Set

unfoldable pub has_key : SetMap → Text → Text → Bool
has_key m a k = elim (m a) [ none ↦ false | some s ↦ s k ]

-- LocalChainConfig, as far as it is checked.
pub record LocalChainConfig : Type 0 where
  pub big_value_discount : ℕ

-- ExtraConfig, less what only getters read. A map stands as the list of its entries.
pub record ExtraConfig : Type 0 where
  pub call_by_contract_whitelist : List (Text × List Text)
  pub call_by_contract_code_hash_whitelist : List (Text × List Text)
  pub big_value_whitelist : List (Text × List Text)
  pub dynamic_fee_tx_enabled_chains : List Text
  pub enable_check_tx_block_hash_chains : List Text
  pub enable_check_tx_block_index_chains : List Text
  pub disable_use_from_chain_id_in_receipt_chains : List Text
  pub use_fast_mpc_chains : List Text
  pub increase_nonce_when_send_tx_chains : List Text
  pub dont_check_received_token_ids : List Text
  pub dont_check_balance_token_ids : List Text
  pub dont_check_total_supply_token_ids : List Text
  pub check_token_balance_enabled_chains : List Text
  pub ignore_anycall_fallback_app_ids : List Text
  pub local_chain_config : List (Text × LocalChainConfig)
  pub use_pending_balance : Bool
  pub base_fee_percent : List (Text × ℤ)

-- RouterConfig: its black lists and its extra part; a nil Extra is `none`.
pub record RouterConfig : Type 0 where
  pub identifier : Text
  pub swap_type : Text
  pub swap_sub_type : Text
  pub chain_id_black_list : List Text
  pub token_id_black_list : List Text
  pub token_id_black_list_on_chain : List (Text × List Text)
  pub account_black_list : List Text
  pub extra : Option ExtraConfig

-- The sets that ExtraConfig.CheckConfig derives.
pub record ExtraSets : Type 0 where
  pub call_by_contract_whitelist : SetMap
  pub call_by_contract_code_hash_whitelist : SetMap
  pub big_value_whitelist : SetMap
  pub dynamic_fee_tx_enabled_chains : Set
  pub enable_check_tx_block_hash_chains : Set
  pub enable_check_tx_block_index_chains : Set
  pub disable_use_from_chain_id_in_receipt_chains : Set
  pub use_fast_mpc_chains : Set
  pub increase_nonce_when_send_tx_chains : Set
  pub dont_check_received_token_ids : Set
  pub dont_check_balance_token_ids : Set
  pub dont_check_total_supply_token_ids : Set
  pub check_token_balance_enabled_chains : Set
  pub ignore_anycall_fallback_app_ids : Set

-- The variables; `router_config` is what GetRouterConfig returns.
pub record Params : Type 0 where
  pub router_config : RouterConfig
  pub is_reload : Bool
  pub chain_id_blacklist_map : Set
  pub token_id_blacklist_map : Set
  pub token_id_blacklist_on_chain_map : SetMap
  pub account_blacklist_map : Set
  pub extra_sets : ExtraSets
  pub pending_balance : Bool

-- What the package calls of math/big and of common: SetString at base 0, IsHexAddress, IsHexHash.
pub record Formats : Type 0 where
  pub set_string_base0 : Text → Option ℤ
  pub is_hex_address : Text → Bool
  pub is_hex_hash : Text → Bool

abbrev pub bind : {A B : Type 0} → Result A → (A → Result B) → Result B
bind (ok a) f = f a
bind (err e) f = err e

-- A set from a list, by the key of each element, which may be refused.
unfoldable pub collect : (Text → Result Text) → List Text → Set → Result Set
unfolding put_key
collect key [] s = ok s
collect key (x ∷ xs) s = bind (key x) λ k. collect key xs (put_key k true s)

-- A map of such sets.
unfoldable pub collect_map :
    (Text → Result Text) → (Text → Result Text) → List (Text × List Text) → SetMap → Result SetMap
unfolding collect
collect_map key inner [] m = ok m
collect_map key inner ((a, xs) ∷ rest) m = bind (key a) λ k.
    bind (collect inner xs no_keys)
      λ s. collect_map key inner rest λ j. if text_eq k j then some s else m j

abbrev pub fatal : {A : Type 0} → Result A
fatal = err (sentinel runtime_panic)

-- The keys: as it is, in lower case, a chain id that GetBigIntFromStr reads, and the like.
unfoldable pub any_key : Text → Result Text
any_key x = ok x

unfoldable pub lower_key : Text → Result Text
lower_key x = ok (to_lower x)

unfoldable pub chain_key : Text → Result Text
chain_key x = elim (parse_big256 x) [ none ↦ fatal | some z ↦ ok x ]

unfoldable pub filled_key : Text → Result Text
filled_key x = if is_empty x then fatal else ok (to_lower x)
