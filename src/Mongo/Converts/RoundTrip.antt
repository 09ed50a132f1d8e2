-- ===== src/Mongo/Converts/RoundTrip.antt =====
-- What is stored of a swap's info is read back.
use cross_chain_router.Prelude.{◌+◌, ◌^◌, ◌<◌, ◌≡◌, refl, Option, none, some, List, [], ◌∷◌, arith}
use cross_chain_router.Prelude.Int.{ℤ, pos_part, neg_part}
use cross_chain_router.Text.{is_empty}
use cross_chain_router.Text.Equality.{is_empty_iff}
use cross_chain_router.Text.Number.RoundTrip.{parse_big256-format_int}
use cross_chain_router.Text.Hex.{to_hex}
use cross_chain_router.Text.Hex.RoundTrip.{IsBytes, from_hex-to_hex, from_hex-nil}
use cross_chain_router.Tokens.Errors.{ok}
use cross_chain_router.Tokens.Types
use cross_chain_router.Mongo.Converts.{
  convert_to_swap_info, convert_from_swap_info, to_big_int_slice, from_big_int_slice, cons_parsed,
  to_erc20, from_erc20, to_any_call, from_any_call, to_nft, from_nft, with_numbers, as_nft,
}

-- Every integer of the list fits in 256 bits.
abbrev pub Fit256 : List ℤ → Type 0
Fit256 [] = Unit
Fit256 (z ∷ zs) = (pos_part z + neg_part z < 2 ^ 256) × Fit256 zs

-- A slice of 256 bit integers that is printed is read back.
pub to_big_int_slice-from_big_int_slice :
    (zs : List ℤ) → Fit256 zs → to_big_int_slice (from_big_int_slice zs) ≡ some zs
unfolding to_big_int_slice from_big_int_slice cons_parsed
to_big_int_slice-from_big_int_slice [] h = refl
to_big_int_slice-from_big_int_slice (z ∷ zs) h =
    ground (arith, parse_big256-format_int z h.0, to_big_int_slice-from_big_int_slice zs h.1)

erc20-round :
    (i : Types.Erc20SwapInfo)
    → IsBytes i.call_data
    → (i.call_proxy ≡ [] → i.call_data ≡ [])
    → from_erc20 (to_erc20 i) ≡ i
unfolding from_erc20 to_erc20 is_empty
erc20-round i b h = ground (
  arith,
  from_hex-to_hex i.call_data b,
  from_hex-nil,
  is_empty_iff i.call_proxy,
  is_empty_iff i.call_data,
)

any_call-round :
    (i : Types.AnyCallSwapInfo)
    → IsBytes i.call_data
    → IsBytes i.ext_data
    → IsBytes i.message
    → IsBytes i.attestation
    → from_any_call (to_any_call i) ≡ i
unfolding from_any_call to_any_call
any_call-round i a b c d = ground (
  arith,
  from_hex-to_hex i.call_data a,
  from_hex-to_hex i.ext_data b,
  from_hex-to_hex i.message c,
  from_hex-to_hex i.attestation d,
)

-- What an NFT swap is read back as: its payload is the hexadecimal text that was stored.
nft-round :
    (i : Types.NftSwapInfo)
    → Fit256 i.ids
    → Fit256 i.amounts
    → from_nft (to_nft i) ≡ ok (record i { payload = to_hex i.payload })
unfolding from_nft to_nft with_numbers
nft-round i a b = ground (
  arith,
  to_big_int_slice-from_big_int_slice i.ids a,
  to_big_int_slice-from_big_int_slice i.amounts b,
)

-- The bytes of the info are bytes, its integers fit, and call data has a call proxy beside it.
abbrev pub IsStorable : Types.SwapInfo → Type 0
IsStorable info = elim info.erc20 [
  | some i ↦ IsBytes i.call_data × (i.call_proxy ≡ [] → i.call_data ≡ [])
  | none ↦ elim info.nft [
    | some i ↦ Fit256 i.ids × Fit256 i.amounts
    | none ↦ elim info.any_call [
      | some i ↦
          IsBytes i.call_data × (IsBytes i.ext_data × (IsBytes i.message × IsBytes i.attestation))
      | none ↦ Unit
    ]
  ]
]

-- The info with which a swap is to come back, where it is one of the three kinds.
abbrev pub read_back : Types.SwapInfo → Types.SwapInfo
read_back info = elim info.erc20 [
  | some i ↦ record Types.no_swap_info { erc20 = some i }
  | none ↦ elim info.nft [
    | some i ↦ record Types.no_swap_info { nft = some (record i { payload = to_hex i.payload }) }
    | none ↦ record Types.no_swap_info { any_call = info.any_call }
  ]
]

round_trip :
    (e : Option Types.Erc20SwapInfo) (n : Option Types.NftSwapInfo)
    (c : Option Types.AnyCallSwapInfo)
    → IsStorable (record { erc20 = e; nft = n; any_call = c })
    → convert_from_swap_info (convert_to_swap_info (record { erc20 = e; nft = n; any_call = c }))
      ≡ ok (read_back (record { erc20 = e; nft = n; any_call = c }))
unfolding convert_from_swap_info convert_to_swap_info as_nft
round_trip (some i) n c h = ground (arith, erc20-round i h.0 h.1)
round_trip none (some i) c h = ground (arith, nft-round i h.0 h.1)
round_trip none none (some i) h = ground (arith, any_call-round i h.0 h.1.0 h.1.1.0 h.1.1.1)
round_trip none none none h = refl

-- An info whose bytes are bytes, whose integers have at most 256 bits and which has no call data without
-- a call proxy is stored and comes back as it was, but for the infos of other kinds beside the one that
-- is stored, and for the payload of an NFT swap, which comes back as the hexadecimal text of its bytes.
pub convert_from_swap_info-convert_to_swap_info :
    (info : Types.SwapInfo)
    → IsStorable info
    → convert_from_swap_info (convert_to_swap_info info) ≡ ok (read_back info)
convert_from_swap_info-convert_to_swap_info info h = round_trip info.erc20 info.nft info.any_call h
