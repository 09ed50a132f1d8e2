-- ===== src/Params/Load/Stale.antt =====
-- What a reload makes of the sets that are derived from the extra configuration.
use cross_chain_router.Prelude.{Bool, true, false, ◌≡◌, refl, ◌∙◌, some, arith}
use cross_chain_router.Tokens.Errors.{Result, ok, err, Done}
use cross_chain_router.Effect.{Act, ◌>>◌, lift}
use cross_chain_router.Effect.Keeps.{continue-keeps}
use cross_chain_router.Effect.Succeeds.{continue-ok}
use cross_chain_router.Params.State.{RouterConfig, ExtraConfig, Params, Formats}
use cross_chain_router.Params.Blacklist.{check_blacklist_config}
use cross_chain_router.Params.Extra.{
  init_extra, set_pending, check_local_chains, check_base_fees, check_extra_config,
}
use cross_chain_router.Params.Extra.Alike.{IsSame, init_extra-IsAlike}
use cross_chain_router.Params.Load.{
  check_identifier, check_extra, check_extra_and_rest, check_lists_and_rest, check_config, adopt,
  reload_router_config,
}

check_blacklist-IsSame :
    (f : Formats) (config : RouterConfig) (p : Params)
    → IsSame (check_blacklist_config f config p).1 p
unfolding check_blacklist_config
check_blacklist-IsSame f config p = record { extra = ground arith; sets = ground arith }

set_pending-sets : (b : Bool) (q : Params) → (set_pending b q).1.extra_sets ≡ q.extra_sets
unfolding set_pending
set_pending-sets true q = refl
set_pending-sets false q = refl

then-sets :
    (m n : Act Params Done)
    → ((q : Params) → (m q).1.extra_sets ≡ q.extra_sets)
    → ((q : Params) → (n q).1.extra_sets ≡ q.extra_sets)
    → (q : Params) → ((m >> n) q).1.extra_sets ≡ q.extra_sets
then-sets m n a b q = continue-keeps (λ p. p.extra_sets) (m q).0 (λ _. n) (m q).1 (λ _. b _) ∙ a q

abbrev later_checks : Formats → ExtraConfig → Act Params Done
later_checks f e =
    lift (check_local_chains e.local_chain_config)
    >> (set_pending e.use_pending_balance >> lift (check_base_fees f e.base_fee_percent))

-- After the init functions, CheckConfig leaves the sets as they are.
check_extra_config-sets :
    (f : Formats) (e : ExtraConfig) (q : Params)
    → (check_extra_config f e q).1.extra_sets ≡ (init_extra f q).1.extra_sets
unfolding check_extra_config
check_extra_config-sets f e q =
    continue-keeps (λ p. p.extra_sets) (init_extra f q).0 (λ _. later_checks f e) (init_extra f q).1
      λ _.
        then-sets (lift (check_local_chains e.local_chain_config))
          (set_pending e.use_pending_balance >> lift (check_base_fees f e.base_fee_percent))
          (λ _. refl)
          (then-sets (set_pending e.use_pending_balance)
            (lift (check_base_fees f e.base_fee_percent)) (set_pending-sets _) (λ _. refl))
          (init_extra f q).1

check_extra_and_rest-sets :
    (f : Formats) (config : RouterConfig) (rest : Result Done) (e : ExtraConfig) (q : Params)
    → config.extra ≡ some e
    → (check_extra_and_rest f config rest q).1.extra_sets ≡ (init_extra f q).1.extra_sets
unfolding check_extra_and_rest check_extra
check_extra_and_rest-sets f config rest e q h = rw (h) (
    continue-keeps (λ p. p.extra_sets) (check_extra_config f e q).0 (λ _. lift rest)
      (check_extra_config f e q).1 (λ _. refl)
    ∙ check_extra_config-sets f e q)

-- A check of the whole configuration that succeeds derives the sets from the configuration in force.
check_config-sets :
    (f : Formats) (config : RouterConfig) (rest : Result Done) (e : ExtraConfig) (p : Params)
    (u : Done)
    → config.extra ≡ some e
    → (check_config f config rest p).0 ≡ ok u
    → (check_config f config rest p).1.extra_sets ≡ (init_extra f p).1.extra_sets
unfolding check_config check_lists_and_rest
check_config-sets f config rest e p u h o =
    let (a, (i, l)) =
      continue-ok (check_identifier config) (λ _. check_lists_and_rest f config rest) p o in
    let (b, (k, m)) =
      continue-ok (check_blacklist_config f config p).0 (λ _. check_extra_and_rest f config rest)
        (check_blacklist_config f config p).1 l in
    rw (i, k)
      (check_extra_and_rest-sets f config rest e _ h
        ∙ (init_extra-IsAlike f _ _ (check_blacklist-IsSame f config p)).1.sets)

adopt-config :
    (config : RouterConfig) (r : Result Done) (q : Params) (u : Done)
    → r ≡ ok u
    → ((adopt config (r, q)).router_config ≡ config)
      × ((adopt config (r, q)).extra_sets ≡ q.extra_sets)
unfolding adopt
adopt-config config (ok v) q u e = (refl, refl)
adopt-config config (err x) q u e = absurd cc

-- A reload whose configuration has an extra part and passes the check puts the configuration in force,
-- while the sets of the extra part are those that the init functions derive from the configuration that
-- was in force before.
pub reload_router_config-stale :
    (f : Formats) (config : RouterConfig) (rest : Result Done) (e : ExtraConfig) (p : Params)
    (u : Done)
    → config.extra ≡ some e
    → (check_config f config rest (record p { is_reload = true })).0 ≡ ok u
    → ((reload_router_config f config rest p).router_config ≡ config)
      × ((reload_router_config f config rest p).extra_sets ≡ (init_extra f p).1.extra_sets)
unfolding reload_router_config
reload_router_config-stale f config rest e p u h o =
    let (a, b) =
      adopt-config config (check_config f config rest (record p { is_reload = true })).0
        (check_config f config rest (record p { is_reload = true })).1 u o in
    (
      a,
      b
          ∙ check_config-sets f config rest e (record p { is_reload = true }) u h o
          ∙ (init_extra-IsAlike f (record p { is_reload = true }) p
              (record { extra = refl; sets = refl })).1.sets,
    )
