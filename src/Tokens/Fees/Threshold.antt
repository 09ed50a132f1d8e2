-- ===== src/Tokens/Fees/Threshold.antt =====
-- GetBigValueThreshold of tokens/base.go, with the configuration that it may change.
use cross_chain_router.Prelude.{ℕ, ◌&&◌, none, some, ltb, ◌==◌, if◌then◌else◌}
use cross_chain_router.Prelude.Int.{ℤ, pos, scale, quotient}
use cross_chain_router.Text.{Text}
use cross_chain_router.Tokens.Fees.{Config, get_swap_config, convert_token_value}

-- The big.Int that the variables point to.
abbrev pub Heap : Type 0
Heap = ℕ → ℤ

unfoldable pub write : ℕ → ℤ → Heap → Heap
write a z h k = if a == k then z else h k

-- GetBigValueThreshold: ConvertTokenValue gives the pointer back when the decimals are 18 already, and
-- value.Mul and value.Div then change what the config points to.
unfoldable pub get_big_value_threshold : Config → Text → Text → Text → ℕ → Heap → ℤ × Heap
unfolding get_swap_config convert_token_value write
get_big_value_threshold c token_id from_chain_id to_chain_id from_decimals h =
    elim (get_swap_config c token_id from_chain_id to_chain_id) [
      | none ↦ (pos 0, h)
      | some cfg ↦
          (let value = convert_token_value (h cfg.big_value_threshold) 18 from_decimals in
            let discount = c.big_value_discount from_chain_id in
            let reduced = quotient (scale value discount) 100 in
            if ltb 0 discount && ltb discount 100
            then (
              reduced,
              if from_decimals == 18 then write cfg.big_value_threshold reduced h else h,
            )
            else (value, h))
    ]
