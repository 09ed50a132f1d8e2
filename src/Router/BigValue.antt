-- ===== src/Router/BigValue.antt =====
-- IsBigValueSwap of router/types.go, with the thresholds that it reads and changes.
pub mod Shrinks
use cross_chain_router.Prelude.{
  ℕ, zero, suc, Bool, true, false, not, ◌||◌, Option, none, some, ◌==◌, if◌then◌else◌,
}
use cross_chain_router.Prelude.Int.{ℤ, ltb_ℤ}
use cross_chain_router.Text.{Text}
use cross_chain_router.Text.Number.{format_int}
use cross_chain_router.Tokens.Errors.{Result, ok, err, sentinel, runtime_panic}
use cross_chain_router.Tokens.Types.{SwapTxInfo, erc20_swap_type, get_token_id}
use cross_chain_router.Tokens.Fees.{Config}
use cross_chain_router.Tokens.Fees.Threshold.{Heap, get_big_value_threshold}
use cross_chain_router.Effect.{Act}

-- The bridges by chain id; of a bridge, the decimals of GetTokenConfig.
abbrev pub Decimals : Type 0
Decimals = Text → Option (Text → Option ℕ)

-- swapInfo.Value.Cmp(bigValueThreshold) > 0; a nil value is dereferenced.
unfoldable pub is_above : Option ℤ → ℤ × Heap → Result Bool × Heap
is_above none (t, h) = (err (sentinel runtime_panic), h)
is_above (some v) (t, h) = (ok (ltb_ℤ t v), h)

-- IsBigValueSwap from the bridge on; an ERC20SwapInfo that is nil is dereferenced.
unfoldable pub is_big_at : Config → SwapTxInfo → (Text → Option ℕ) → Act Heap Bool
unfolding is_above get_big_value_threshold
is_big_at c info token_decimals h = elim info.swap_info.erc20 [
  | none ↦ (err (sentinel runtime_panic), h)
  | some i ↦ elim (token_decimals i.token) [
    | none ↦ (ok false, h)
    | some d ↦ is_above info.value (
        get_big_value_threshold c i.token_id (format_int info.from_chain_id)
          (format_int info.to_chain_id) d h)
  ]
]

-- IsBigValueSwap
unfoldable pub is_big_value_swap : Config → Decimals → SwapTxInfo → Act Heap Bool
unfolding is_big_at get_token_id
is_big_value_swap c decimals info h =
    let token_id = get_token_id info.swap_info in
    if not (info.swap_type == erc20_swap_type)
    then (ok false, h)
    else if c.is_in_big_value_whitelist token_id info.from
        || c.is_in_big_value_whitelist token_id info.tx_to
    then (ok false, h)
    else elim (decimals (format_int info.from_chain_id)) [
      | none ↦ (ok false, h)
      | some token_decimals ↦ is_big_at c info token_decimals h
    ]

-- What `n` calls leave.
unfoldable pub after_calls : Config → Decimals → SwapTxInfo → ℕ → Heap → Heap
unfolding is_big_value_swap
after_calls c decimals info zero h = h
after_calls c decimals info (suc n) h =
    (is_big_value_swap c decimals info (after_calls c decimals info n h)).1
