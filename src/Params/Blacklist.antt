-- ===== src/Params/Blacklist.antt =====
-- The black lists: CheckBlacklistConfig of params/checkconfig.go, and the queries and commands of
-- params/config.go.
pub mod Listed
use cross_chain_router.Prelude.{
  ℕ, Bool, true, false, not, ◌&&◌, ◌||◌, Option, none, some, List, [], ◌∷◌, if◌then◌else◌,
}
use cross_chain_router.Prelude.Int.{ℤ}
use cross_chain_router.Text.{Text, text_eq, to_lower, is_empty}
use cross_chain_router.Text.Number.{format_int}
use cross_chain_router.Tokens.Errors.{Result, ok, err, Done, new_error}
use cross_chain_router.Effect.{Act, continue, ◌>>=◌, ◌>>◌, lift, pure}
use cross_chain_router.Params.State.{
  Set, SetMap, no_keys, put_key, has_key, RouterConfig, Params, Formats, bind,
}

-- The loops of CheckBlacklistConfig: the set, unless a key is refused or, at the first load, repeated.
unfoldable pub check_list : Bool → (Text → Result Text) → List Text → Set → Result Set
unfolding put_key
check_list is_reload key [] s = ok s
check_list is_reload key (x ∷ xs) s = bind (key x) λ k.
    let rest = check_list is_reload key xs (put_key k true s) in
    if not is_reload && s k then err (new_error "duplicate in black list") else rest

unfoldable pub chain_id_key : Formats → Text → Result Text
chain_id_key f x = elim (f.set_string_base0 x) [
  | none ↦ err (new_error "wrong chain id in black list")
  | some z ↦ ok (format_int z)
]

unfoldable pub listed_key : Text → Result Text
listed_key x = if is_empty x then err (new_error "empty entry in black list") else ok (to_lower x)

unfoldable pub check_lists : Bool → List (Text × List Text) → SetMap → Result SetMap
unfolding check_list listed_key
check_lists is_reload [] m = ok m
check_lists is_reload ((cid, xs) ∷ rest) m =
    bind (check_list is_reload listed_key xs no_keys)
      λ s. check_lists is_reload rest λ j. if text_eq cid j then some s else m j

set_chains : Set → Act Params Done
set_chains s p = (ok tt, record p { chain_id_blacklist_map = s })

set_tokens_on_chain : SetMap → Act Params Done
set_tokens_on_chain m p = (ok tt, record p { token_id_blacklist_on_chain_map = m })

set_tokens : Set → Act Params Done
set_tokens s p = (ok tt, record p { token_id_blacklist_map = s })

set_accounts : Set → Act Params Done
set_accounts s p = (ok tt, record p { account_blacklist_map = s })

-- CheckBlacklistConfig: a list that is refused leaves the sets before it changed.
unfoldable pub check_blacklist_config : Formats → RouterConfig → Act Params Done
unfolding check_list check_lists chain_id_key set_chains set_tokens_on_chain set_tokens set_accounts
check_blacklist_config f config p =
    (do
      chains ← lift (check_list p.is_reload (chain_id_key f) config.chain_id_black_list no_keys)
      set_chains chains
      on_chain ← lift (check_lists p.is_reload config.token_id_black_list_on_chain λ k. none)
      set_tokens_on_chain on_chain
      tokens ← lift (check_list p.is_reload listed_key config.token_id_black_list no_keys)
      set_tokens tokens
      accounts ← lift (check_list p.is_reload listed_key config.account_black_list no_keys)
      set_accounts accounts)
      p

-- IsChainIDInBlackList
unfoldable pub is_chain_id_in_black_list : Params → Text → Bool
is_chain_id_in_black_list p chain_id = p.chain_id_blacklist_map chain_id

-- IsTokenIDInBlackListOnChain
unfoldable pub is_token_id_in_black_list_on_chain : Params → Text → Text → Bool
unfolding has_key
is_token_id_in_black_list_on_chain p chain_id token_id =
    has_key p.token_id_blacklist_on_chain_map chain_id (to_lower token_id)

-- IsTokenIDInBlackList
unfoldable pub is_token_id_in_black_list : Params → Text → Bool
is_token_id_in_black_list p token_id = p.token_id_blacklist_map (to_lower token_id)

-- IsAccountInBlackList
unfoldable pub is_account_in_black_list : Params → Text → Bool
is_account_in_black_list p account = p.account_blacklist_map (to_lower account)

-- The loops of AddOrRemoveChainIDBlackList, AddOrRemoveTokenIDBlackList and AddOrRemoveAccountBlackList.
unfoldable pub put_keys : (Text → Text) → List Text → Bool → Set → Set
unfolding put_key
put_keys key [] is_add s = s
put_keys key (x ∷ xs) is_add s = put_keys key xs is_add (put_key (key x) is_add s)

-- The three commands change the set and write its keys back into the configuration; `range` says in
-- which order a loop over a map visits the keys.
module _ (range : Set → List Text) where
  -- AddOrRemoveChainIDBlackList
  unfoldable pub add_or_remove_chain_id_black_list : List Text → Bool → Params → Params
  unfolding put_keys
  add_or_remove_chain_id_black_list chain_ids is_add p =
      let keys = put_keys (λ x. x) chain_ids is_add p.chain_id_blacklist_map in
      record p {
        chain_id_blacklist_map = keys;
        router_config = record p.router_config { chain_id_black_list = range keys };
      }

  -- AddOrRemoveTokenIDBlackList
  unfoldable pub add_or_remove_token_id_black_list : List Text → Bool → Params → Params
  unfolding put_keys
  add_or_remove_token_id_black_list token_ids is_add p =
      let keys = put_keys to_lower token_ids is_add p.token_id_blacklist_map in
      record p {
        token_id_blacklist_map = keys;
        router_config = record p.router_config { token_id_black_list = range keys };
      }

  -- AddOrRemoveAccountBlackList
  unfoldable pub add_or_remove_account_black_list : List Text → Bool → Params → Params
  unfolding put_keys
  add_or_remove_account_black_list accounts is_add p =
      let keys = put_keys to_lower accounts is_add p.account_blacklist_map in
      record p {
        account_blacklist_map = keys;
        router_config = record p.router_config { account_black_list = range keys };
      }
