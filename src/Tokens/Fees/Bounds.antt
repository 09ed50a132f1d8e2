-- ===== src/Tokens/Fees/Bounds.antt =====
-- Bounds on the fee and on what CalcSwapValue leaves.
use cross_chain_router.Prelude.{ℕ, ◌≡◌, ◌⊎◌, ◌↔◌, Bool, true, false, Option, none, some, arith}
use cross_chain_router.Prelude.Int.{ℤ, pos, ◌≤ℤ◌, ◌-ℤ◌, ltb_ℤ}
use cross_chain_router.Text.{Text}
use cross_chain_router.Text.Number.{format_int}
use cross_chain_router.Tokens.Types.{SwapTxInfo, get_token_id}
use cross_chain_router.Tokens.Fees.{
  Config, FeeConfig, OnchainCustomConfig, FeeTerms, get_fee_config, get_onchain_custom_config,
  big_max, fee_terms, convert_token_value, limit_fee, adjust_fee, swap_fee, value_left,
  calc_swap_value, SwapConfig, get_swap_config, check_token_swap_value,
}
use cross_chain_router.Tokens.Fees.Convert.{convert_token_value_mono, convert_token_value_nonneg}

-- The limits of the configured fee are not negative.
pub record IsSane (cfg : FeeConfig) : Type 0 where
  pub minimum : pos 0 ≤ℤ cfg.minimum_swap_fee
  pub maximum : pos 0 ≤ℤ cfg.maximum_swap_fee

abbrev pub LimitsNonneg : FeeTerms → Type 0
LimitsNonneg terms = (pos 0 ≤ℤ terms.minimum) × (pos 0 ≤ℤ terms.maximum)

fee_terms-LimitsNonneg :
    (cfg : FeeConfig) (src : Option OnchainCustomConfig)
    → IsSane cfg
    → LimitsNonneg (fee_terms cfg src)
unfolding fee_terms big_max
fee_terms-LimitsNonneg cfg none h = (h.minimum, h.maximum)
fee_terms-LimitsNonneg cfg (some src) h = ground arith

-- The fee lies between the limits.
pub limit_fee_bounds :
    (terms : FeeTerms) (fee : ℤ) (decimals : ℕ)
    → terms.minimum ≤ℤ terms.maximum
    → (convert_token_value terms.minimum 18 decimals ≤ℤ limit_fee terms fee decimals)
      × (limit_fee terms fee decimals ≤ℤ convert_token_value terms.maximum 18 decimals)
unfolding limit_fee
limit_fee_bounds terms fee n h =
    ground (arith, convert_token_value_mono terms.minimum terms.maximum 18 n h)

limit_fee_nonneg :
    (terms : FeeTerms) (fee : ℤ) (decimals : ℕ)
    → LimitsNonneg terms
    → pos 0 ≤ℤ limit_fee terms fee decimals
unfolding limit_fee
limit_fee_nonneg terms fee n h = ground (
  arith,
  convert_token_value_nonneg terms.minimum 18 n h.0,
  convert_token_value_nonneg terms.maximum 18 n h.1,
)

adjust_fee_nonneg : (percent low fee : ℤ) → pos 0 ≤ℤ fee → pos 0 ≤ℤ adjust_fee percent low fee
unfolding adjust_fee
adjust_fee_nonneg percent low fee h = ground arith

swap_fee_nonneg :
    (cfg : FeeConfig) (terms : FeeTerms) (whitelisted : Bool) (percent value : ℤ) (decimals : ℕ)
    → LimitsNonneg terms
    → pos 0 ≤ℤ swap_fee cfg terms whitelisted percent value decimals
unfolding swap_fee
swap_fee_nonneg cfg terms true percent value n h = convert_token_value_nonneg terms.minimum 18 n h.0
swap_fee_nonneg cfg terms false percent value n h =
    adjust_fee_nonneg percent _ _ (limit_fee_nonneg terms _ n h)

sub_bounds :
    (value fee : ℤ)
    → pos 0 ≤ℤ fee
    → ltb_ℤ fee value ≡ true
    → (pos 0 ≤ℤ value -ℤ fee) × (value -ℤ fee ≤ℤ value)
unfolding ◌-ℤ◌
sub_bounds value fee h l = ground arith

-- Nothing negative is left, and no more than the value itself converts to.
pub value_left_bounds :
    (cfg : FeeConfig) (terms : FeeTerms) (whitelisted : Bool) (percent value : ℤ) (m n : ℕ)
    → LimitsNonneg terms
    → pos 0 ≤ℤ value
    → (pos 0 ≤ℤ value_left cfg terms whitelisted percent value m n)
      × (value_left cfg terms whitelisted percent value m n ≤ℤ convert_token_value value m n)
unfolding value_left
value_left_bounds cfg terms whitelisted percent value m n h v =
    let fee = swap_fee cfg terms whitelisted percent value m in
    ground (
      arith,
      swap_fee_nonneg cfg terms whitelisted percent value m h,
      sub_bounds value fee,
      convert_token_value_nonneg value m n v,
      convert_token_value_nonneg (value -ℤ fee) m n,
      convert_token_value_mono (value -ℤ fee) value m n,
    )

-- In an ERC20 router with a fee config whose limits are not negative, a deposit of a value that is not
-- negative pays out no negative amount, and at most what the value is worth on the other side.
pub calc_swap_value_bounds :
    (c : Config) (token_id from_chain_id to_chain_id : Text) (value : ℤ) (m n : ℕ)
    (from tx_to : Text) {cfg : FeeConfig}
    → c.is_erc20_router ≡ true
    → get_fee_config c token_id from_chain_id to_chain_id ≡ some cfg
    → IsSane cfg
    → pos 0 ≤ℤ value
    → (pos 0 ≤ℤ calc_swap_value c token_id from_chain_id to_chain_id value m n from tx_to)
      × (calc_swap_value c token_id from_chain_id to_chain_id value m n from tx_to
          ≤ℤ convert_token_value value m n)
unfolding calc_swap_value get_fee_config convert_token_value
calc_swap_value_bounds c token_id from_chain to_chain value m n from tx_to {cfg} e found sane v =
    rw (e, found, calc_swap_value)
      (value_left_bounds cfg _ _ _ value m n
        (fee_terms-LimitsNonneg cfg (get_onchain_custom_config c from_chain token_id) sane) v)

-- The conditions under which CheckTokenSwapValue accepts a value.
pub record IsAccepted (c : Config) (info : SwapTxInfo) (cfg : SwapConfig) (v : ℤ) (m n : ℕ)
    : Type 0 where
  pub positive : pos 1 ≤ℤ v
  pub large_enough : convert_token_value cfg.minimum_swap 18 m ≤ℤ v
  pub small_enough :
      (v ≤ℤ convert_token_value cfg.maximum_swap 18 m)
      ⊎ ((c.is_in_big_value_whitelist (get_token_id info.swap_info) info.from ≡ true)
          ⊎ (c.is_in_big_value_whitelist (get_token_id info.swap_info) info.tx_to ≡ true))
  pub pays_out :
      pos 1
      ≤ℤ calc_swap_value c
          (get_token_id info.swap_info)
          (format_int info.from_chain_id)
          (format_int info.to_chain_id)
          v
          m
          n
          info.from
          info.tx_to

check_token_swap_value_sound :
    (c : Config) (info : SwapTxInfo) (cfg : SwapConfig) (v : ℤ) (m n : ℕ)
    → c.is_erc20_router ≡ true
    → info.value ≡ some v
    → get_swap_config c
        (get_token_id info.swap_info)
        (format_int info.from_chain_id)
        (format_int info.to_chain_id)
      ≡ some cfg
    → check_token_swap_value c info m n ≡ true
    → IsAccepted c info cfg v m n
unfolding check_token_swap_value
check_token_swap_value_sound c info cfg v m n e x found h = ground arith

check_token_swap_value_complete :
    (c : Config) (info : SwapTxInfo) (cfg : SwapConfig) (v : ℤ) (m n : ℕ)
    → c.is_erc20_router ≡ true
    → info.value ≡ some v
    → get_swap_config c
        (get_token_id info.swap_info)
        (format_int info.from_chain_id)
        (format_int info.to_chain_id)
      ≡ some cfg
    → IsAccepted c info cfg v m n
    → check_token_swap_value c info m n ≡ true
unfolding check_token_swap_value
check_token_swap_value_complete c info cfg v m n e x found h = ground arith

-- In an ERC20 router, with a swap config, CheckTokenSwapValue accepts a value exactly where it is
-- positive, not below the minimum, not above the maximum (unless the sender or the receiving contract
-- is in the whitelist of big values), and leaves something to pay out.
pub check_token_swap_value_iff :
    (c : Config) (info : SwapTxInfo) (cfg : SwapConfig) (v : ℤ) (m n : ℕ)
    → c.is_erc20_router ≡ true
    → info.value ≡ some v
    → get_swap_config c
        (get_token_id info.swap_info)
        (format_int info.from_chain_id)
        (format_int info.to_chain_id)
      ≡ some cfg
    → (check_token_swap_value c info m n ≡ true) ↔ IsAccepted c info cfg v m n
check_token_swap_value_iff c info cfg v m n e x found = (
  check_token_swap_value_sound c info cfg v m n e x found,
  check_token_swap_value_complete c info cfg v m n e x found,
)
