-- ===== src/Params/Load.antt =====
-- LoadRouterConfig and ReloadRouterConfig of params/config.go, on the configuration that the file holds.
-- `rest` is the outcome of the checks of CheckConfig that are not modelled: those of the server or
-- oracle, of the signing nodes and of the onchain contract, which change other variables at most.
-- Gateways and CustomizeConfigFunc, a hook, are part of the configuration that is given.
pub mod Stale
use cross_chain_router.Prelude.{
  Bool, true, false, not, ◌&&◌, ◌||◌, Option, none, some, List, [], ◌∷◌, if◌then◌else◌,
}
use cross_chain_router.Text.{Text, bytes, is_empty, text_eq, has_prefix}
use cross_chain_router.Tokens.Errors.{Error, Result, ok, err, Done, new_error}
use cross_chain_router.Effect.{Act, continue, ◌>>=◌, ◌>>◌, lift, pure, reject_if}
use cross_chain_router.Params.State.{RouterConfig, ExtraConfig, Params, Formats}
use cross_chain_router.Params.Blacklist.{check_blacklist_config}
use cross_chain_router.Params.Extra.{check_extra_config}

-- RouterSwapPrefixID
abbrev pub router_swap_prefix_id : Text
router_swap_prefix_id = bytes "routerswap"

unfoldable pub check_identifier : RouterConfig → Result Done
check_identifier c =
    if not (has_prefix c.identifier router_swap_prefix_id)
      || text_eq c.identifier router_swap_prefix_id
    then err (new_error "wrong identifier")
    else if is_empty c.swap_type
    then err (new_error "empty router swap type")
    else if text_eq c.swap_type (bytes "anycallswap") && is_empty c.swap_sub_type
    then err (new_error "anycall must config 'SwapSubType'")
    else ok tt

check_extra : Formats → Option ExtraConfig → Act Params Done
check_extra f none = pure tt
check_extra f (some e) = check_extra_config f e

-- RouterConfig.CheckConfig from the extra configuration on.
check_extra_and_rest : Formats → RouterConfig → Result Done → Act Params Done
unfolding check_extra
check_extra_and_rest f config rest = check_extra f config.extra >> lift rest

-- RouterConfig.CheckConfig from the black lists on.
check_lists_and_rest : Formats → RouterConfig → Result Done → Act Params Done
unfolding check_extra_and_rest
check_lists_and_rest f config rest =
    check_blacklist_config f config >> check_extra_and_rest f config rest

-- RouterConfig.CheckConfig
unfoldable pub check_config : Formats → RouterConfig → Result Done → Act Params Done
unfolding check_identifier check_lists_and_rest
check_config f config rest = lift (check_identifier config) >> check_lists_and_rest f config rest

-- LoadRouterConfig with `check`: an error ends the process.
unfoldable pub load_router_config : Formats → RouterConfig → Result Done → Act Params Done
load_router_config f config rest p =
    check_config f config rest (record p { router_config = config })

-- The end of ReloadRouterConfig: the new configuration only after a check without an error.
adopt : RouterConfig → Result Done × Params → Params
adopt config (ok u, p) = record p { router_config = config; is_reload = false }
adopt config (err e, p) = record p { is_reload = false }

-- ReloadRouterConfig
unfoldable pub reload_router_config : Formats → RouterConfig → Result Done → Params → Params
unfolding adopt check_config
reload_router_config f config rest p =
    adopt config (check_config f config rest (record p { is_reload = true }))
