-- ===== src/Mongo/Converts.antt =====
-- mongodb/converts.go: between the swap info of the package tokens and the stored one.
pub mod RoundTrip
use cross_chain_router.Prelude.{
  ℕ, Bool, true, false, Option, none, some, List, [], ◌∷◌, map, if◌then◌else◌,
}
use cross_chain_router.Prelude.Int.{ℤ}
use cross_chain_router.Text.{Text, is_empty}
use cross_chain_router.Text.Number.{format_int, parse_big256}
use cross_chain_router.Text.Hex.{to_hex, from_hex}
use cross_chain_router.Tokens.Errors.{Result, ok, err, new_error}
use cross_chain_router.Tokens.Types
use cross_chain_router.Mongo.Tables
use cross_chain_router.Mongo.Tables.{SwapInfo, MgoSwap, MgoSwapResult, no_swap_info, to_swap_result}

-- convertToSwapResults
unfoldable pub convert_to_swap_results : List MgoSwap → List MgoSwapResult
convert_to_swap_results = map to_swap_result

-- fromBigIntSlice
unfoldable pub from_big_int_slice : List ℤ → List Text
from_big_int_slice = map format_int

cons_parsed : Option ℤ → Option (List ℤ) → Option (List ℤ)
cons_parsed (some z) (some zs) = some (z ∷ zs)
cons_parsed (some z) none = none
cons_parsed none zs = none

-- toBigIntSlice
unfoldable pub to_big_int_slice : List Text → Option (List ℤ)
unfolding cons_parsed
to_big_int_slice [] = some []
to_big_int_slice (t ∷ ts) = cons_parsed (parse_big256 t) (to_big_int_slice ts)

to_erc20 : Types.Erc20SwapInfo → Tables.Erc20SwapInfo
to_erc20 i = record {
  token = i.token;
  token_id = i.token_id;
  swapout_id = i.swapout_id;
  call_proxy = if is_empty i.call_proxy then [] else i.call_proxy;
  call_data =
      if is_empty i.call_proxy
      then []
      else (if is_empty i.call_data then [] else to_hex i.call_data);
}

to_nft : Types.NftSwapInfo → Tables.NftSwapInfo
to_nft i = record {
  token = i.token;
  token_id = i.token_id;
  ids = from_big_int_slice i.ids;
  amounts = from_big_int_slice i.amounts;
  batch = i.batch;
  payload = to_hex i.payload;
}

to_any_call : Types.AnyCallSwapInfo → Tables.AnyCallSwapInfo
to_any_call i = record {
  call_from = i.call_from;
  call_to = i.call_to;
  call_data = to_hex i.call_data;
  fallback = i.fallback;
  flags = i.flags;
  app_id = i.app_id;
  nonce = i.nonce;
  ext_data = to_hex i.ext_data;
  message = to_hex i.message;
  attestation = to_hex i.attestation;
}

-- ConvertToSwapInfo. A nil CallData and an empty one are not told apart.
unfoldable pub convert_to_swap_info : Types.SwapInfo → SwapInfo
unfolding to_erc20 to_nft to_any_call
convert_to_swap_info info = elim info.erc20 [
  | some i ↦ record no_swap_info { erc20 = some (to_erc20 i) }
  | none ↦ elim info.nft [
    | some i ↦ record no_swap_info { nft = some (to_nft i) }
    | none ↦ elim info.any_call [
      | some i ↦ record no_swap_info { any_call = some (to_any_call i) }
      | none ↦ no_swap_info
    ]
  ]
]

from_erc20 : Tables.Erc20SwapInfo → Types.Erc20SwapInfo
from_erc20 i = record {
  token = i.token;
  token_id = i.token_id;
  swapout_id = i.swapout_id;
  call_proxy = if is_empty i.call_proxy then [] else i.call_proxy;
  call_data = if is_empty i.call_proxy then [] else from_hex i.call_data;
}

with_numbers : Tables.NftSwapInfo → Option (List ℤ) → Option (List ℤ) → Result Types.NftSwapInfo
with_numbers i none amounts = err (new_error "wrong ids")
with_numbers i (some ids) none = err (new_error "wrong amounts")
with_numbers i (some ids) (some amounts) = ok (record {
  token = i.token;
  token_id = i.token_id;
  ids = ids;
  amounts = amounts;
  batch = i.batch;
  payload = i.payload;
})

from_nft : Tables.NftSwapInfo → Result Types.NftSwapInfo
unfolding with_numbers
from_nft i = with_numbers i (to_big_int_slice i.ids) (to_big_int_slice i.amounts)

from_any_call : Tables.AnyCallSwapInfo → Types.AnyCallSwapInfo
from_any_call i = record {
  call_from = i.call_from;
  call_to = i.call_to;
  call_data = from_hex i.call_data;
  fallback = i.fallback;
  flags = i.flags;
  app_id = i.app_id;
  nonce = i.nonce;
  ext_data = from_hex i.ext_data;
  message = from_hex i.message;
  attestation = from_hex i.attestation;
}

as_nft : Result Types.NftSwapInfo → Result Types.SwapInfo
as_nft (err e) = err e
as_nft (ok i) = ok (record Types.no_swap_info { nft = some i })

-- ConvertFromSwapInfo. The data of an NFT swap is taken over as it stands, not decoded.
unfoldable pub convert_from_swap_info : SwapInfo → Result Types.SwapInfo
unfolding from_erc20 from_nft from_any_call as_nft
convert_from_swap_info info = elim info.erc20 [
  | some i ↦ ok (record Types.no_swap_info { erc20 = some (from_erc20 i) })
  | none ↦ elim info.nft [
    | some i ↦ as_nft (from_nft i)
    | none ↦ elim info.any_call [
      | some i ↦ ok (record Types.no_swap_info { any_call = some (from_any_call i) })
      | none ↦ ok Types.no_swap_info
    ]
  ]
]
