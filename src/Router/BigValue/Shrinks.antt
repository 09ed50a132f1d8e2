-- ===== src/Router/BigValue/Shrinks.antt =====
-- With a discount and 18 decimals, each call of IsBigValueSwap lowers the threshold that the next call reads.
use cross_chain_router.Prelude.{
  ℕ, zero, suc, ◌-◌, ◌*◌, ◌/◌, ◌≤◌, ◌<◌, ◌≡◌, refl, ap, ◌∙◌, ◌⊎◌, inl, inr, false, Option, some,
  arith,
}
use cross_chain_router.Prelude.Int.{ℤ, pos, ltb_ℤ, scale, quotient}
use cross_chain_router.Text.{Text}
use cross_chain_router.Text.Number.{format_int}
use cross_chain_router.Tokens.Errors.{ok}
use cross_chain_router.Tokens.Types.{SwapTxInfo, Erc20SwapInfo, erc20_swap_type, get_token_id}
use cross_chain_router.Tokens.Fees.{Config, SwapConfig, get_swap_config, convert_token_value}
use cross_chain_router.Tokens.Fees.Threshold.{Heap, get_big_value_threshold, write}
use cross_chain_router.Router.BigValue.{
  Decimals, is_above, is_big_at, is_big_value_swap, after_calls,
}

-- The threshold t after n discounts of d percent.
unfoldable pub reduced : ℕ → ℕ → ℕ → ℕ
reduced d t zero = t
reduced d t (suc n) = reduced d t n * d / 100

mul_mono : (t m n : ℕ) → m ≤ n → t * m ≤ t * n
mul_mono t m n p = grind arith

percent_lt : (t d : ℕ) → d < 100 → 0 < t → t * d / 100 < t
percent_lt t d h p = let most : t * d ≤ t * 99 = mul_mono t d 99 (omega arith) in omega arith

positive_or_zero : (n : ℕ) → (n ≡ 0) ⊎ (0 < n)
positive_or_zero n = omega arith

reduced_bound : (d t n : ℕ) → d < 100 → reduced d t n ≤ t - n
unfolding reduced
reduced_bound d t zero h = omega arith
reduced_bound d t (suc n) h = elim (positive_or_zero (reduced d t n)) [
  | inl z ↦ rw (z) (omega arith)
  | inr p ↦ omega (arith, percent_lt (reduced d t n) d h p, reduced_bound d t n h)
]

-- An ERC20 swap of value v, from a token of 18 decimals on a chain with a discount, that no whitelist
-- spares, with its threshold at the address a.
pub record IsDiscounted (c : Config) (decimals : Decimals) (info : SwapTxInfo) (v : ℤ) (a d : ℕ)
    : Type 0 where
  pub erc20_info : Erc20SwapInfo
  pub token_decimals : Text → Option ℕ
  pub config : SwapConfig
  pub erc20 : info.swap_info.erc20 ≡ some erc20_info
  pub swap_type : info.swap_type ≡ erc20_swap_type
  pub from_free : c.is_in_big_value_whitelist erc20_info.token_id info.from ≡ false
  pub to_free : c.is_in_big_value_whitelist erc20_info.token_id info.tx_to ≡ false
  pub bridge : decimals (format_int info.from_chain_id) ≡ some token_decimals
  pub eighteen : token_decimals erc20_info.token ≡ some 18
  pub configured :
      get_swap_config c erc20_info.token_id
        (format_int info.from_chain_id)
        (format_int info.to_chain_id)
      ≡ some config
  pub address : config.big_value_threshold ≡ a
  pub discount : c.big_value_discount (format_int info.from_chain_id) ≡ d
  pub positive : 0 < d
  pub partial : d < 100
  pub value : info.value ≡ some v

token_id_of :
    (info : SwapTxInfo) (i : Erc20SwapInfo)
    → info.swap_info.erc20 ≡ some i
    → get_token_id info.swap_info ≡ i.token_id
unfolding get_token_id
token_id_of info i e = ground (arith, e)

reach :
    (c : Config) (decimals : Decimals) (info : SwapTxInfo) (i : Erc20SwapInfo)
    (td : Text → Option ℕ) (h : Heap)
    → info.swap_info.erc20 ≡ some i
    → info.swap_type ≡ erc20_swap_type
    → c.is_in_big_value_whitelist i.token_id info.from ≡ false
    → c.is_in_big_value_whitelist i.token_id info.tx_to ≡ false
    → decimals (format_int info.from_chain_id) ≡ some td
    → td i.token ≡ some 18
    → is_big_value_swap c decimals info h
      ≡ is_above info.value (
          get_big_value_threshold c i.token_id
            (format_int info.from_chain_id)
            (format_int info.to_chain_id)
            18
            h)
unfolding is_big_value_swap is_big_at
reach c decimals info i td h e t f o b d =
    rw (is_big_value_swap, token_id_of info i e, t, f, o, b, is_big_at, e, d) refl

module _ (c : Config) (decimals : Decimals) (info : SwapTxInfo) (v : ℤ) (a d : ℕ)
    (s : IsDiscounted c decimals info v a d) where
  threshold-lowered :
      (h : Heap) (t : ℕ)
      → h a ≡ pos t
      → get_big_value_threshold c s.erc20_info.token_id
          (format_int info.from_chain_id)
          (format_int info.to_chain_id)
          18
          h
        ≡ (pos (t * d / 100), write a (pos (t * d / 100)) h)
  unfolding get_big_value_threshold convert_token_value scale quotient
  threshold-lowered h t e =
      rw (get_big_value_threshold, s.configured, s.discount, s.address, e)
        (ground (arith, s.positive, s.partial))

  reaches :
      (h : Heap)
      → is_big_value_swap c decimals info h
        ≡ is_above info.value (
            get_big_value_threshold c s.erc20_info.token_id
              (format_int info.from_chain_id)
              (format_int info.to_chain_id)
              18
              h)
  reaches h =
      reach c decimals info s.erc20_info s.token_decimals h s.erc20 s.swap_type s.from_free
        s.to_free s.bridge s.eighteen

  one_call :
      (h : Heap) (t : ℕ)
      → h a ≡ pos t
      → is_big_value_swap c decimals info h
        ≡ (ok (ltb_ℤ (pos (t * d / 100)) v), write a (pos (t * d / 100)) h)
  unfolding is_above
  one_call h t e = reaches h ∙ rw (s.value, threshold-lowered h t e) refl

  write-same : (z : ℤ) (h : Heap) → write a z h a ≡ z
  unfolding write
  write-same z h = ground arith

  lowered :
      (n : ℕ) (h : Heap) (t : ℕ)
      → h a ≡ pos t
      → after_calls c decimals info n h a ≡ pos (reduced d t n)
  unfolding after_calls reduced
  lowered zero h t e = e
  lowered (suc n) h t e =
      rw (after_calls, one_call (after_calls c decimals info n h) (reduced d t n) (lowered n h t e))
        (write-same _ (after_calls c decimals info n h))

  -- When a discount is configured and the token has 18 decimals, the threshold falls with every call:
  -- after n calls the next one compares the value with the threshold t discounted n + 1 times, and t
  -- discounted n times is at most t - n.
  pub is_big_value_swap-reduced :
      (n t : ℕ) (h : Heap)
      → h a ≡ pos t
      → ((is_big_value_swap c decimals info (after_calls c decimals info n h)).0
          ≡ ok (ltb_ℤ (pos (reduced d t (suc n))) v))
        × (reduced d t n ≤ t - n)
  unfolding reduced
  is_big_value_swap-reduced n t h e = (
    ap (λ r. r.0) (one_call (after_calls c decimals info n h) (reduced d t n) (lowered n h t e)),
    reduced_bound d t n s.partial,
  )
