-- ===== src/Examples/Numbers.antt =====
-- The theorems on amounts, texts and keys at concrete values.
use cross_chain_router.Prelude.{
  ℕ, ◌-◌, ◌^◌, ◌≡◌, ◌≢◌, ◌↔◌, refl, true, false, some, none, [], ◌∷◌, arith,
}
use cross_chain_router.Prelude.Int.{pos, negsuc, ◌≤ℤ◌, ◌+ℤ◌}
use cross_chain_router.Text.{bytes, lower, to_lower}
use cross_chain_router.Text.Number.{format_int, parse_big256}
use cross_chain_router.Text.Number.RoundTrip.{parse_big256-format_int}
use cross_chain_router.Text.Hex.{to_hex, from_hex}
use cross_chain_router.Text.Hex.RoundTrip.{from_hex-to_hex}
use cross_chain_router.Tokens.Errors.{
  ok, sentinel, err_verify_tx_unsafe, err_miss_token_config, should_register_router_swap_for_error,
}
use cross_chain_router.Tokens.Types
use cross_chain_router.Tokens.Fees.{
  Config, FeeConfig, SwapConfig, calc_swap_value, check_token_swap_value, convert_token_value,
  get_fee_config, get_swap_config,
}
use cross_chain_router.Tokens.Fees.Convert.{
  convert_token_value_loss, convert_token_value-convert_token_value,
}
use cross_chain_router.Tokens.Fees.Bounds.{
  calc_swap_value_bounds, check_token_swap_value_iff, IsAccepted,
}
use cross_chain_router.Mongo.Key.{get_router_swap_key}
use cross_chain_router.Mongo.Key.Injective.{get_router_swap_key_inj}
use cross_chain_router.Mongo.Converts.{convert_to_swap_info, convert_from_swap_info}
use cross_chain_router.Mongo.Converts.RoundTrip.{
  convert_from_swap_info-convert_to_swap_info, read_back,
}
use cross_chain_router.Mongo.Status.Registration.{should_register_router_swap_for_error_iff}
use cross_chain_router.Mongo.Status.{get_router_swap_status_by_verify_error, tx_verify_failed}
use cross_chain_router.Worker.Verify.{verdict_of}
use cross_chain_router.Worker.Verify.Agreement.{
  IsStatusOf, verdict_of-get_router_swap_status_by_verify_error,
}
use cross_chain_router.Examples.Data.{swap_info}

parse_big256-format_int_example : parse_big256 (format_int (negsuc 41)) ≡ some (negsuc 41)
parse_big256-format_int_example = parse_big256-format_int (negsuc 41) (omega arith)

from_hex-to_hex_example : from_hex (to_hex (1 ∷ 255 ∷ [])) ≡ 1 ∷ 255 ∷ []
from_hex-to_hex_example = from_hex-to_hex (1 ∷ 255 ∷ []) (omega arith, (omega arith, tt))

convert_token_value_loss_example :
    (convert_token_value (convert_token_value (pos 1234567) 6 4) 4 6 ≤ℤ pos 1234567)
    × (pos 1234567
        ≤ℤ convert_token_value (convert_token_value (pos 1234567) 6 4) 4 6 +ℤ pos (10 ^ (6 - 4)))
convert_token_value_loss_example = convert_token_value_loss 1234567 6 4 (omega arith)

convert_token_value-convert_token_value_example :
    convert_token_value (convert_token_value (pos 7) 6 18) 18 6 ≡ pos 7
convert_token_value-convert_token_value_example =
    convert_token_value-convert_token_value 7 6 18 (omega arith)

abbrev fee_config : FeeConfig
fee_config = record {
  swap_fee_rate_per_million = 1000;
  maximum_swap_fee = pos 1000;
  minimum_swap_fee = pos 10;
}

abbrev swap_config : SwapConfig
swap_config = record { maximum_swap = pos 1000000; minimum_swap = pos 100; big_value_threshold = 7 }

abbrev config : Config
config = record {
  is_erc20_router = true;
  swap_config_map = λ t. some (λ c. some (λ d. some swap_config));
  fee_config_map = λ t. some (λ c. some (λ d. some fee_config));
  onchain_custom_cfg = λ c. none;
  is_in_big_value_whitelist = λ t a. false;
  get_base_fee_percent = λ c. pos 0;
  big_value_discount = λ t. 0;
}

found_fee_config : get_fee_config config (bytes "t") (bytes "1") (bytes "2") ≡ some fee_config
unfolding get_fee_config
found_fee_config = refl

found_swap_config :
    get_swap_config config
      (Types.get_token_id swap_info.swap_info)
      (format_int (pos 1))
      (format_int (pos 2))
    ≡ some swap_config
unfolding get_swap_config
found_swap_config = refl

calc_swap_value_bounds_example :
    (pos 0 ≤ℤ calc_swap_value config (bytes "t") (bytes "1") (bytes "2") (pos 5000) 6 18 [] [])
    × (calc_swap_value config (bytes "t") (bytes "1") (bytes "2") (pos 5000) 6 18 [] []
        ≤ℤ convert_token_value (pos 5000) 6 18)
calc_swap_value_bounds_example =
    calc_swap_value_bounds config (bytes "t") (bytes "1") (bytes "2") (pos 5000) 6 18 [] []
      {cfg = fee_config} refl found_fee_config
      (record { minimum = omega arith; maximum = omega arith }) (omega arith)

check_token_swap_value_iff_example :
    (check_token_swap_value config swap_info 6 18 ≡ true)
    ↔ IsAccepted config swap_info swap_config (pos 5) 6 18
check_token_swap_value_iff_example =
    check_token_swap_value_iff config swap_info swap_config (pos 5) 6 18 refl refl found_swap_config

same_key :
    get_router_swap_key (bytes "56") (bytes "0xA") 3
    ≡ get_router_swap_key (bytes "56") (bytes "0xa") 3
unfolding get_router_swap_key to_lower lower bytes
same_key = refl

abbrev three : ℕ
three = 3

get_router_swap_key_inj_example :
    (to_lower (bytes "56") ≡ to_lower (bytes "56"))
    × (to_lower (bytes "0xA") ≡ to_lower (bytes "0xa"))
    × (three ≡ three)
unfolding bytes
get_router_swap_key_inj_example =
    get_router_swap_key_inj (bytes "56") (bytes "56") (bytes "0xA") (bytes "0xa") three three
      (omega arith, (omega arith, tt)) (omega arith, (omega arith, tt))
      (omega arith, (omega arith, (omega arith, tt)))
      (omega arith, (omega arith, (omega arith, tt))) same_key

should_register_router_swap_for_error_iff_example :
    (should_register_router_swap_for_error (some (sentinel err_verify_tx_unsafe)) ≡ true) ↔ (
      get_router_swap_status_by_verify_error (some (sentinel err_verify_tx_unsafe))
      ≢ tx_verify_failed)
should_register_router_swap_for_error_iff_example =
    should_register_router_swap_for_error_iff (some (sentinel err_verify_tx_unsafe))

verdict_of-get_router_swap_status_by_verify_error_example :
    IsStatusOf
      (verdict_of (some (sentinel err_miss_token_config)))
      (get_router_swap_status_by_verify_error (some (sentinel err_miss_token_config)))
verdict_of-get_router_swap_status_by_verify_error_example =
    verdict_of-get_router_swap_status_by_verify_error (some (sentinel err_miss_token_config))

abbrev call_info : Types.SwapInfo
call_info = record Types.no_swap_info {
  nft = some (record {
    token = bytes "0xt";
    token_id = bytes "t";
    ids = pos 1 ∷ pos 2 ∷ [];
    amounts = pos 7 ∷ [];
    batch = true;
    payload = 17 ∷ [];
  });
}

convert_from_swap_info-convert_to_swap_info_example :
    convert_from_swap_info (convert_to_swap_info call_info) ≡ ok (read_back call_info)
convert_from_swap_info-convert_to_swap_info_example =
    convert_from_swap_info-convert_to_swap_info call_info
      ((omega arith, (omega arith, tt)), (omega arith, tt))
