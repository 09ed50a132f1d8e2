-- ===== src/Tokens/Fees.antt =====
-- tokens/base.go: the conversion between decimals, the fee of a swap and what is left of its value.
-- Amounts are big.Int, decimals are uint8, rates are uint64.
pub mod Convert
pub mod Bounds
pub mod Threshold
use cross_chain_router.Prelude.{
  ℕ, ◌+◌, ◌-◌, ◌%◌, ◌^◌, Bool, true, false, not, ◌&&◌, ◌||◌, Option, none, some, ltb, leb, ◌==◌,
  if◌then◌else◌,
}
use cross_chain_router.Prelude.Int.{ℤ, pos, negsuc, ◌+ℤ◌, ◌-ℤ◌, ◌*ℤ◌, ltb_ℤ, eqb_ℤ, scale, quotient}
use cross_chain_router.Text.{Text}
use cross_chain_router.Text.Number.{format_int}
use cross_chain_router.Tokens.Types.{SwapTxInfo, get_token_id}

-- FeeConfig and SwapConfig of tokens/config.go, with amounts at 18 decimals.
pub record FeeConfig : Type 0 where
  pub swap_fee_rate_per_million : ℕ
  pub maximum_swap_fee : ℤ
  pub minimum_swap_fee : ℤ

pub record SwapConfig : Type 0 where
  pub maximum_swap : ℤ
  pub minimum_swap : ℤ
  -- A pointer; several configs may share it.
  pub big_value_threshold : ℕ

-- OnchainCustomConfig
pub record OnchainCustomConfig : Type 0 where
  pub additional_src_chain_swap_fee_rate : ℕ
  pub additional_src_minimum_swap_fee : ℤ
  pub additional_src_maximum_swap_fee : ℤ

-- A sync.Map of values by token, source chain and destination chain.
abbrev pub ConfigMap : Type 0 → Type 0
ConfigMap V = Text → Option (Text → Option (Text → Option V))

-- The variables of tokens/base.go, and what it asks of the package params.
pub record Config : Type 0 where
  pub is_erc20_router : Bool
  pub swap_config_map : ConfigMap SwapConfig
  pub fee_config_map : ConfigMap FeeConfig
  pub onchain_custom_cfg : Text → Option (Text → Option OnchainCustomConfig)
  pub is_in_big_value_whitelist : Text → Text → Bool
  pub get_base_fee_percent : Text → ℤ
  pub big_value_discount : Text → ℕ

load : {V : Type 0} → ConfigMap V → Text → Text → Text → Option V
load m token_id from_chain_id to_chain_id = elim (m token_id) [
  | none ↦ none
  | some mm ↦ elim (mm from_chain_id) [ none ↦ none | some mmm ↦ mmm to_chain_id ]
]

-- GetSwapConfig
unfoldable pub get_swap_config : Config → Text → Text → Text → Option SwapConfig
unfolding load
get_swap_config c = load c.swap_config_map

-- GetFeeConfig
unfoldable pub get_fee_config : Config → Text → Text → Text → Option FeeConfig
unfolding load
get_fee_config c = load c.fee_config_map

-- GetOnchainCustomConfig
pub get_onchain_custom_config : Config → Text → Text → Option OnchainCustomConfig
get_onchain_custom_config c chain_id token_id = elim (c.onchain_custom_cfg chain_id) [
  | none ↦ none
  | some mm ↦ mm token_id
]

-- cmath.BigMax
unfoldable pub big_max : ℤ → ℤ → ℤ
big_max x y = if ltb_ℤ x y then y else x

-- ConvertTokenValue, of a value that is not nil
unfoldable pub convert_token_value : ℤ → ℕ → ℕ → ℤ
convert_token_value value from_decimals to_decimals =
    if from_decimals == to_decimals
    then value
    else if ltb to_decimals from_decimals
    then quotient value (10 ^ (from_decimals - to_decimals))
    else scale value (10 ^ (to_decimals - from_decimals))

-- The terms of CalcSwapValue: the rate, the two limits, and whether the fee is fixed.
pub record FeeTerms : Type 0 where
  pub rate : ℕ
  pub minimum : ℤ
  pub maximum : ℤ
  pub use_fixed_fee : Bool

is_fixed : FeeConfig → Bool
is_fixed cfg = ltb_ℤ (pos 0) cfg.minimum_swap_fee && eqb_ℤ cfg.minimum_swap_fee cfg.maximum_swap_fee

pub fee_terms : FeeConfig → Option OnchainCustomConfig → FeeTerms
unfolding is_fixed
fee_terms cfg none = record {
  rate = if is_fixed cfg then 0 else cfg.swap_fee_rate_per_million;
  minimum = cfg.minimum_swap_fee;
  maximum = cfg.maximum_swap_fee;
  use_fixed_fee = is_fixed cfg;
}
fee_terms cfg (some src) = record {
  rate =
      ((if is_fixed cfg then 0 else cfg.swap_fee_rate_per_million)
        + src.additional_src_chain_swap_fee_rate)
      % 2 ^ 64;
  minimum = big_max cfg.minimum_swap_fee src.additional_src_minimum_swap_fee;
  maximum = big_max cfg.maximum_swap_fee src.additional_src_maximum_swap_fee;
  use_fixed_fee = is_fixed cfg;
}

-- The fee by rate, raised to the fixed fee if there is one.
pub raw_fee : FeeConfig → FeeTerms → ℤ → ℕ → ℤ
raw_fee cfg terms value from_decimals =
    let by_rate = if ltb 0 terms.rate then quotient (scale value terms.rate) 1000000 else pos 0 in
    if terms.use_fixed_fee
    then big_max by_rate (convert_token_value cfg.minimum_swap_fee 18 from_decimals)
    else by_rate

-- The fee within the limits.
pub limit_fee : FeeTerms → ℤ → ℕ → ℤ
limit_fee terms fee from_decimals =
    let low = convert_token_value terms.minimum 18 from_decimals in
    let high = convert_token_value terms.maximum 18 from_decimals in
    if ltb_ℤ fee low then low else if ltb_ℤ high fee then high else fee

-- The base fee of the destination chain, a percentage of the least fee, may be negative.
pub adjust_fee : ℤ → ℤ → ℤ → ℤ
adjust_fee percent low fee =
    if not (eqb_ℤ percent (pos 0)) && ltb_ℤ (pos 0) low
    then (let adjusted = fee +ℤ quotient (low *ℤ percent) 100 in
        if ltb_ℤ adjusted (pos 0) then pos 0 else adjusted)
    else fee

-- swapFee of CalcSwapValue; accounts in the whitelist pay the least fee.
pub swap_fee : FeeConfig → FeeTerms → Bool → ℤ → ℤ → ℕ → ℤ
swap_fee cfg terms whitelisted percent value from_decimals =
    let low = convert_token_value terms.minimum 18 from_decimals in
    if whitelisted
    then low
    else adjust_fee percent low
        (limit_fee terms (raw_fee cfg terms value from_decimals) from_decimals)

-- CalcSwapValue once the fee config is found.
pub value_left : FeeConfig → FeeTerms → Bool → ℤ → ℤ → ℕ → ℕ → ℤ
value_left cfg terms whitelisted percent value from_decimals to_decimals =
    let fee = swap_fee cfg terms whitelisted percent value from_decimals in
    if ltb 0 terms.rate || terms.use_fixed_fee
    then (if not (ltb_ℤ fee value)
        then pos 0
        else convert_token_value (value -ℤ fee) from_decimals to_decimals)
    else convert_token_value value from_decimals to_decimals

-- CalcSwapValue
pub calc_swap_value : Config → Text → Text → Text → ℤ → ℕ → ℕ → Text → Text → ℤ
calc_swap_value c token_id from_chain_id to_chain_id value from_decimals to_decimals origin_from
      origin_tx_to =
    if not c.is_erc20_router
    then value
    else elim (get_fee_config c token_id from_chain_id to_chain_id) [
      | none ↦ pos 0
      | some cfg ↦
          value_left cfg (fee_terms cfg (get_onchain_custom_config c from_chain_id token_id))
            (c.is_in_big_value_whitelist token_id origin_from
              || c.is_in_big_value_whitelist token_id origin_tx_to)
            (c.get_base_fee_percent to_chain_id) value from_decimals to_decimals
    ]

in_range : Config → SwapTxInfo → SwapConfig → ℤ → ℕ → Bool
in_range c info cfg value from_decimals =
    let token_id = get_token_id info.swap_info in
    not (ltb_ℤ value (convert_token_value cfg.minimum_swap 18 from_decimals))
    && not (
        ltb_ℤ (convert_token_value cfg.maximum_swap 18 from_decimals) value
        && not (c.is_in_big_value_whitelist token_id info.from)
        && not (c.is_in_big_value_whitelist token_id info.tx_to))

check_value : Config → SwapTxInfo → ℕ → ℕ → ℤ → Bool
unfolding in_range
check_value c info from_decimals to_decimals value =
    let token_id = get_token_id info.swap_info in
    let from_chain_id = format_int info.from_chain_id in
    let to_chain_id = format_int info.to_chain_id in
    if not (ltb_ℤ (pos 0) value)
    then false
    else elim (get_swap_config c token_id from_chain_id to_chain_id) [
      | none ↦ false
      | some cfg ↦
          in_range c info cfg value from_decimals
          && ltb_ℤ (pos 0) (
              calc_swap_value c token_id from_chain_id to_chain_id value from_decimals to_decimals
                info.from info.tx_to)
    ]

-- CheckTokenSwapValue
pub check_token_swap_value : Config → SwapTxInfo → ℕ → ℕ → Bool
unfolding check_value
check_token_swap_value c info from_decimals to_decimals =
    if not c.is_erc20_router
    then true
    else elim info.value [ none ↦ false | some v ↦ check_value c info from_decimals to_decimals v ]
