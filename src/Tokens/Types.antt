-- ===== src/Tokens/Types.antt =====
-- tokens/types.go: the values that bridges and workers pass to one another.
use cross_chain_router.Prelude.{
  ℕ, Bool, false, ◌&&◌, not, Option, none, some, List, [], ltb, if◌then◌else◌,
}
use cross_chain_router.Prelude.Int.{ℤ}
use cross_chain_router.Text.{Text}

-- A SwapType is its uint32.
abbrev pub erc20_swap_type : ℕ
erc20_swap_type = 1

abbrev pub nft_swap_type : ℕ
nft_swap_type = 2

abbrev pub any_call_swap_type : ℕ
any_call_swap_type = 3

abbrev pub erc20_swap_type_mix_pool : ℕ
erc20_swap_type_mix_pool = 4

abbrev pub sapphire_rpc_type : ℕ
sapphire_rpc_type = 5

abbrev pub max_valid_swap_type : ℕ
max_valid_swap_type = 6

-- SwapType.IsValidType
unfoldable pub is_valid_type : ℕ → Bool
is_valid_type s = ltb 0 s && ltb s max_valid_swap_type

pub record Erc20SwapInfo : Type 0 where
  pub token : Text
  pub token_id : Text
  pub swapout_id : Text
  pub call_proxy : Text
  pub call_data : Text

pub record NftSwapInfo : Type 0 where
  pub token : Text
  pub token_id : Text
  pub ids : List ℤ
  pub amounts : List ℤ
  pub batch : Bool
  pub payload : Text

pub record AnyCallSwapInfo : Type 0 where
  pub call_from : Text
  pub call_to : Text
  pub call_data : Text
  pub fallback : Text
  pub flags : Text
  pub app_id : Text
  pub nonce : Text
  pub ext_data : Text
  pub message : Text
  pub attestation : Text

pub record SwapInfo : Type 0 where
  pub erc20 : Option Erc20SwapInfo
  pub nft : Option NftSwapInfo
  pub any_call : Option AnyCallSwapInfo

abbrev pub no_swap_info : SwapInfo
no_swap_info = record { erc20 = none; nft = none; any_call = none }

-- SwapInfo.GetTokenID
unfoldable pub get_token_id : SwapInfo → Text
get_token_id s = elim s.erc20 [
  | some i ↦ i.token_id
  | none ↦ elim s.nft [ some i ↦ i.token_id | none ↦ [] ]
]

-- SwapTxInfo: what VerifyTransaction reports of a deposit. A nil Value is `none`.
pub record SwapTxInfo : Type 0 where
  pub swap_info : SwapInfo
  pub swap_type : ℕ
  pub hash : Text
  pub height : ℕ
  pub timestamp : ℕ
  pub from : Text
  pub tx_to : Text
  pub to : Text
  pub bind : Text
  pub value : Option ℤ
  pub log_index : ℕ
  pub from_chain_id : ℤ
  pub to_chain_id : ℤ

-- `receipt_ok` is what IsStatusOk says of a Receipt that has it.
pub record TxStatus : Type 0 where
  pub receipt_ok : Option Bool
  pub confirmations : ℕ
  pub block_height : ℕ
  pub block_time : ℕ

-- TxStatus.IsSwapTxOnChain; a nil status is `none`.
unfoldable pub is_swap_tx_on_chain : Option TxStatus → Bool
is_swap_tx_on_chain none = false
is_swap_tx_on_chain (some s) = ltb 0 s.block_height

receipt_failed : Option Bool → Bool
receipt_failed none = false
receipt_failed (some b) = not b

-- TxStatus.IsSwapTxOnChainAndFailed
unfoldable pub is_swap_tx_on_chain_and_failed : Option TxStatus → Bool
unfolding receipt_failed is_swap_tx_on_chain
is_swap_tx_on_chain_and_failed none = false
is_swap_tx_on_chain_and_failed (some s) =
    if not (is_swap_tx_on_chain (some s)) then false else receipt_failed s.receipt_ok

-- The fields of AllExtras that the workers use.
pub record AllExtras : Type 0 where
  pub gas_price : Option ℤ
  pub sequence : Option ℕ
  pub replace_num : ℕ
  pub ttl : Option ℕ

-- BuildTxArgs with its embedded SwapArgs. Extra is never nil in the workers.
pub record BuildTxArgs : Type 0 where
  pub swap_info : SwapInfo
  pub swap_id : Text
  pub swap_type : ℕ
  pub bind : Text
  pub log_index : ℕ
  pub from_chain_id : ℤ
  pub to_chain_id : ℤ
  pub reswapping : Bool
  pub from : Text
  pub origin_from : Text
  pub origin_tx_to : Text
  pub origin_value : Option ℤ
  pub swap_value : Option ℤ
  pub extra : AllExtras

-- BuildTxArgs.GetTxNonce
unfoldable pub get_tx_nonce : BuildTxArgs → ℕ
get_tx_nonce args = elim args.extra.sequence [ none ↦ 0 | some n ↦ n ]
