-- ===== src/Params/Extra/Alike.antt =====
-- The init functions depend on the extra configuration that is in force, and on the sets they change.
use cross_chain_router.Prelude.{◌≡◌, refl, ap, Option, none, some, List, [], ◌∷◌}
use cross_chain_router.Tokens.Errors.{Result, ok, err, Done}
use cross_chain_router.Effect.{Act, continue, ◌>>◌}
use cross_chain_router.Params.State.{ExtraConfig, ExtraSets, Params, Formats}
use cross_chain_router.Params.Extra.{
  finish_init, init_list, init_with, init_from, init_extra, init_call_by_contract_whitelist,
  init_call_by_contract_code_hash_whitelist, init_big_value_whitelist,
  init_dynamic_fee_tx_enabled_chains, init_enable_check_tx_block_hash_chains,
  init_enable_check_tx_block_index_chains, init_disable_use_from_chain_id_in_receipt_chains,
  init_use_fast_mpc_chains, init_increase_nonce_when_send_tx_chains,
  init_dont_check_received_token_ids, init_dont_check_balance_token_ids,
  init_dont_check_total_supply_token_ids, init_check_token_balance_enabled_chains,
  init_ignore_anycall_fallback_app_ids,
}

-- The same extra configuration in force, and the same sets.
pub record IsSame (p : Params) (q : Params) : Type 0 where
  pub extra : p.router_config.extra ≡ q.router_config.extra
  pub sets : p.extra_sets ≡ q.extra_sets

-- A step with the same outcome from such states.
abbrev pub IsAlike : Act Params Done → Type 0
IsAlike m = (p q : Params) → IsSame p q → ((m p).0 ≡ (m q).0) × IsSame (m p).1 (m q).1

continue-IsAlike :
    (n : Act Params Done) (r r' : Result Done) (p q : Params)
    → IsAlike n
    → r ≡ r'
    → IsSame p q
    → ((continue r (λ u. n) p).0 ≡ (continue r' (λ u. n) q).0)
      × IsSame (continue r (λ u. n) p).1 (continue r' (λ u. n) q).1
continue-IsAlike n (ok u) (ok u') p q a e s = a p q s
continue-IsAlike n (ok u) (err x) p q a e s = absurd cc
continue-IsAlike n (err x) (ok u) p q a e s = absurd cc
continue-IsAlike n (err x) (err x') p q a e s = (e, s)

then-IsAlike : (m n : Act Params Done) → IsAlike m → IsAlike n → IsAlike (m >> n)
then-IsAlike m n a b p q s =
    let (r, t) = a p q s in continue-IsAlike n (m p).0 (m q).0 (m p).1 (m q).1 b r t

module _ {A V : Type 0} (make : List A → Result V) (store : V → ExtraSets → ExtraSets) where
  finish_init-IsAlike : (v : Result V) → IsAlike (finish_init store v)
  unfolding finish_init
  finish_init-IsAlike (err e) p q s = (refl, s)
  finish_init-IsAlike (ok v) p q s = (refl, record { extra = s.extra; sets = ap (store v) s.sets })

  init_list-IsAlike : (xs : List A) → IsAlike (init_list make store xs)
  unfolding init_list
  init_list-IsAlike [] p q s = (refl, s)
  init_list-IsAlike (x ∷ xs) p q s = finish_init-IsAlike (make (x ∷ xs)) p q s

  init_with-IsAlike :
      (list : ExtraConfig → List A) (o : Option ExtraConfig) → IsAlike (init_with list make store o)
  unfolding init_with
  init_with-IsAlike list none p q s = (refl, s)
  init_with-IsAlike list (some e) p q s = init_list-IsAlike (list e) p q s

  init_with-IsSame :
      (list : ExtraConfig → List A) (o o' : Option ExtraConfig) (p q : Params)
      → o ≡ o'
      → IsSame p q
      → ((init_with list make store o p).0 ≡ (init_with list make store o' q).0)
        × IsSame (init_with list make store o p).1 (init_with list make store o' q).1
  init_with-IsSame list o o' p q e s = rw (← e) (init_with-IsAlike list o p q s)

init_from-IsAlike :
    {A V : Type 0} (list : ExtraConfig → List A) (make : List A → Result V)
    (store : V → ExtraSets → ExtraSets)
    → IsAlike (init_from list make store)
unfolding init_from
init_from-IsAlike list make store p q s = init_with-IsSame make store list _ _ p q s.extra s

-- The init functions do the same for states with the same extra configuration and the same sets.
pub init_extra-IsAlike : (f : Formats) → IsAlike (init_extra f)
unfolding init_extra init_call_by_contract_whitelist init_call_by_contract_code_hash_whitelist
    init_big_value_whitelist init_dynamic_fee_tx_enabled_chains
    init_enable_check_tx_block_hash_chains init_enable_check_tx_block_index_chains
    init_disable_use_from_chain_id_in_receipt_chains init_use_fast_mpc_chains
    init_increase_nonce_when_send_tx_chains init_dont_check_received_token_ids
    init_dont_check_balance_token_ids init_dont_check_total_supply_token_ids
    init_check_token_balance_enabled_chains init_ignore_anycall_fallback_app_ids
init_extra-IsAlike f = then-IsAlike _ _ (init_from-IsAlike _ _ _) (
    then-IsAlike _ _ (init_from-IsAlike _ _ _) (
      then-IsAlike _ _ (init_from-IsAlike _ _ _) (
        then-IsAlike _ _ (init_from-IsAlike _ _ _) (
          then-IsAlike _ _ (init_from-IsAlike _ _ _) (
            then-IsAlike _ _ (init_from-IsAlike _ _ _) (
              then-IsAlike _ _ (init_from-IsAlike _ _ _) (
                then-IsAlike _ _ (init_from-IsAlike _ _ _) (
                  then-IsAlike _ _ (init_from-IsAlike _ _ _) (
                    then-IsAlike _ _ (init_from-IsAlike _ _ _) (
                      then-IsAlike _ _ (init_from-IsAlike _ _ _) (
                        then-IsAlike _ _ (init_from-IsAlike _ _ _) (
                          then-IsAlike _ _ (init_from-IsAlike _ _ _)
                            (init_from-IsAlike _ _ _)))))))))))))
