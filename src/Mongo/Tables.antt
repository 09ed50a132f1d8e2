-- ===== src/Mongo/Tables.antt =====
-- mongodb/tables.go: the documents of the collections.
use cross_chain_router.Prelude.{
  ℕ, Bool, true, false, not, ◌||◌, Option, none, some, List, [], ◌==◌, if◌then◌else◌,
}
use cross_chain_router.Text.{Text, is_empty}
use cross_chain_router.Tokens.Types.{
  is_valid_type, erc20_swap_type, erc20_swap_type_mix_pool, nft_swap_type, any_call_swap_type,
}
use cross_chain_router.Mongo.Status.{SwapStatus}

pub record Erc20SwapInfo : Type 0 where
  pub token : Text
  pub token_id : Text
  pub swapout_id : Text
  pub call_proxy : Text
  pub call_data : Text

pub record NftSwapInfo : Type 0 where
  pub token : Text
  pub token_id : Text
  pub ids : List Text
  pub amounts : List Text
  pub batch : Bool
  pub payload : Text

pub record AnyCallSwapInfo : Type 0 where
  pub call_from : Text
  pub call_to : Text
  pub call_data : Text
  pub fallback : Text
  pub flags : Text
  pub app_id : Text
  pub nonce : Text
  pub ext_data : Text
  pub message : Text
  pub attestation : Text

pub record SwapInfo : Type 0 where
  pub erc20 : Option Erc20SwapInfo
  pub nft : Option NftSwapInfo
  pub any_call : Option AnyCallSwapInfo

abbrev pub no_swap_info : SwapInfo
no_swap_info = record { erc20 = none; nft = none; any_call = none }

-- SwapInfo.GetTokenID
unfoldable pub get_token_id : SwapInfo → Text
get_token_id s = elim s.erc20 [
  | some i ↦ i.token_id
  | none ↦ elim s.nft [ some i ↦ i.token_id | none ↦ [] ]
]

-- MgoSwap: a registered swap.
pub record MgoSwap : Type 0 where
  pub key : Text
  pub swap_type : ℕ
  pub tx_id : Text
  pub tx_to : Text
  pub tx_height : ℕ
  pub from : Text
  pub bind : Text
  pub value : Text
  pub log_index : ℕ
  pub from_chain_id : Text
  pub to_chain_id : Text
  pub swap_info : SwapInfo
  pub status : SwapStatus
  pub init_time : ℕ
  pub timestamp : ℕ
  pub memo : Text

-- MgoSwapResult: a verified swap and the transaction that pays it out.
pub record MgoSwapResult : Type 0 where
  pub key : Text
  pub swap_type : ℕ
  pub tx_id : Text
  pub tx_to : Text
  pub tx_height : ℕ
  pub tx_time : ℕ
  pub from : Text
  pub to : Text
  pub bind : Text
  pub value : Text
  pub log_index : ℕ
  pub from_chain_id : Text
  pub to_chain_id : Text
  pub swap_info : SwapInfo
  pub swap_tx : Text
  pub old_swap_txs : List Text
  pub swap_height : ℕ
  pub swap_time : ℕ
  pub swap_value : Text
  pub swap_nonce : ℕ
  pub status : SwapStatus
  pub init_time : ℕ
  pub timestamp : ℕ
  pub memo : Text
  pub mpc : Text
  pub ttl : ℕ

-- MgoUsedRValue
pub record MgoUsedRValue : Type 0 where
  pub key : Text
  pub timestamp : ℕ

-- SwapResultUpdateItems
pub record SwapResultUpdateItems : Type 0 where
  pub mpc : Text
  pub swap_tx : Text
  pub swap_height : ℕ
  pub swap_time : ℕ
  pub swap_value : Text
  pub swap_nonce : ℕ
  pub status : SwapStatus
  pub timestamp : ℕ
  pub memo : Text
  pub ttl : ℕ

is_none {ℓ} : {A : Type ℓ} → Option A → Bool
is_none none = true
is_none (some a) = false

-- MgoSwap.IsValid
unfoldable pub is_valid : MgoSwap → Bool
unfolding is_none is_valid_type is_empty
is_valid s =
    let t = s.swap_type in
    if not (is_valid_type t)
      || is_empty s.from_chain_id
      || is_empty s.to_chain_id
      || is_empty s.tx_id
      || is_empty s.value
    then false
    else if t == erc20_swap_type || t == erc20_swap_type_mix_pool
    then not (is_none s.swap_info.erc20 || is_empty s.from || is_empty s.bind)
    else if t == nft_swap_type
    then not (is_none s.swap_info.nft || is_empty s.from || is_empty s.bind)
    else if t == any_call_swap_type
    then not (is_none s.swap_info.any_call)
    else false

-- MgoSwap.ToSwapResult
unfoldable pub to_swap_result : MgoSwap → MgoSwapResult
to_swap_result s = record {
  key = s.key;
  swap_type = s.swap_type;
  tx_id = s.tx_id;
  tx_to = s.tx_to;
  tx_height = s.tx_height;
  tx_time = 0;
  from = s.from;
  to = [];
  bind = s.bind;
  value = s.value;
  log_index = s.log_index;
  from_chain_id = s.from_chain_id;
  to_chain_id = s.to_chain_id;
  swap_info = s.swap_info;
  swap_tx = [];
  old_swap_txs = [];
  swap_height = 0;
  swap_time = 0;
  swap_value = [];
  swap_nonce = 0;
  status = s.status;
  init_time = s.init_time;
  timestamp = s.timestamp;
  memo = s.memo;
  mpc = [];
  ttl = 0;
}
