-- ===== src/Examples/Thresholds.antt =====
-- The threshold of big values at a concrete swap.
use cross_chain_router.Prelude.{[], ℕ, ◌-◌, ◌≤◌, ◌≡◌, refl, false, true, none, some, arith}
use cross_chain_router.Prelude.Int.{pos, ltb_ℤ}
use cross_chain_router.Text.{bytes}
use cross_chain_router.Tokens.Errors.{ok}
use cross_chain_router.Tokens.Types.{Erc20SwapInfo, SwapTxInfo}
use cross_chain_router.Tokens.Fees.{Config, SwapConfig, get_swap_config}
use cross_chain_router.Tokens.Fees.Threshold.{Heap}
use cross_chain_router.Router.BigValue.{Decimals, after_calls, is_big_value_swap}
use cross_chain_router.Router.BigValue.Shrinks.{IsDiscounted, is_big_value_swap-reduced, reduced}
use cross_chain_router.Examples.Data.{swap_info}

abbrev erc20_info : Erc20SwapInfo
erc20_info = record {
  token = bytes "0xt";
  token_id = bytes "t";
  swapout_id = [];
  call_proxy = [];
  call_data = [];
}

abbrev deposit : SwapTxInfo
deposit = record swap_info {
  swap_info = record { erc20 = some erc20_info; nft = none; any_call = none };
}

abbrev limits : SwapConfig
limits = record { maximum_swap = pos 1000; minimum_swap = pos 1; big_value_threshold = 7 }

-- A discount of 50 percent on every chain.
abbrev halving : Config
halving = record {
  is_erc20_router = true;
  swap_config_map = λ t. some (λ c. some (λ d. some limits));
  fee_config_map = λ t. none;
  onchain_custom_cfg = λ c. none;
  is_in_big_value_whitelist = λ t a. false;
  get_base_fee_percent = λ c. pos 0;
  big_value_discount = λ t. 50;
}

abbrev eighteen : Decimals
eighteen = λ c. some (λ t. some 18)

abbrev thresholds : Heap
thresholds = λ a. pos 40

halving-IsDiscounted : IsDiscounted halving eighteen deposit (pos 5) 7 50
unfolding get_swap_config
halving-IsDiscounted = record {
  erc20_info = erc20_info;
  token_decimals = λ t. some 18;
  config = limits;
  erc20 = refl;
  swap_type = refl;
  from_free = refl;
  to_free = refl;
  bridge = refl;
  eighteen = refl;
  configured = refl;
  address = refl;
  discount = refl;
  positive = omega arith;
  partial = omega arith;
  value = refl;
}

is_big_value_swap-reduced_example :
    ((is_big_value_swap halving eighteen deposit
        (after_calls halving eighteen deposit 3 thresholds)).0
      ≡ ok (ltb_ℤ (pos (reduced 50 40 4)) (pos 5)))
    × (reduced 50 40 3 ≤ 40 - 3)
is_big_value_swap-reduced_example =
    is_big_value_swap-reduced halving eighteen deposit (pos 5) 7 50 halving-IsDiscounted 3 40
      thresholds refl

-- The first call does not hold the swap as big, the fourth does.
abbrev turns : ℕ → ℕ
turns n = reduced 50 40 n

turns_big : (turns 1 ≡ 20) × (turns 4 ≡ 2)
unfolding reduced
turns_big = (refl, refl)
