-- ===== src/Params/Blacklist/Listed.antt =====
-- What the commands on the black list of accounts make of the queries, and of the test of a swap.
use cross_chain_router.Prelude.{
  Bool, true, false, ◌||◌, ◌≡◌, refl, ◌∙◌, List, [], ◌∷◌, if◌then◌else◌, arith,
}
use cross_chain_router.Text.{Text, to_lower, equal_fold}
use cross_chain_router.Mongo.Tables.{MgoSwap, get_token_id}
use cross_chain_router.Worker.State.{Env, is_blacked}
use cross_chain_router.Params.State.{Set, put_key, Params}
use cross_chain_router.Params.Blacklist.{
  put_keys, is_chain_id_in_black_list, is_token_id_in_black_list_on_chain,
  is_token_id_in_black_list, is_account_in_black_list, add_or_remove_account_black_list,
}

-- The account is among these, up to the case of letters.
unfoldable pub is_among : List Text → Text → Bool
unfolding equal_fold
is_among [] a = false
is_among (x ∷ xs) a = equal_fold x a || is_among xs a

put_keys-is_among :
    (xs : List Text) (is_add : Bool) (s : Set) (a : Text)
    → put_keys to_lower xs is_add s (to_lower a)
      ≡ (if is_among xs a then is_add else s (to_lower a))
unfolding put_keys put_key is_among equal_fold
put_keys-is_among [] is_add s a = refl
put_keys-is_among (x ∷ xs) is_add s a =
    put_keys-is_among xs is_add (put_key (to_lower x) is_add s) a ∙ ground arith

-- After AddOrRemoveAccountBlackList, the accounts of the list, whatever the case of their letters, are
-- black listed or not as the command says, and every other account is what it was.
pub is_account_in_black_list-add_or_remove_account_black_list :
    (range : Set → List Text) (xs : List Text) (is_add : Bool) (p : Params) (a : Text)
    → is_account_in_black_list (add_or_remove_account_black_list range xs is_add p) a
      ≡ (if is_among xs a then is_add else is_account_in_black_list p a)
unfolding is_account_in_black_list add_or_remove_account_black_list
is_account_in_black_list-add_or_remove_account_black_list range xs is_add p a =
    put_keys-is_among xs is_add p.account_blacklist_map a

added : (b s : Bool) → (if b then true else s) ≡ (s || b)
added true true = refl
added true false = refl
added false true = refl
added false false = refl

adding :
    (range : Set → List Text) (xs : List Text) (p : Params) (a : Text)
    → is_account_in_black_list (add_or_remove_account_black_list range xs true p) a
      ≡ (is_account_in_black_list p a || is_among xs a)
adding range xs p a =
    is_account_in_black_list-add_or_remove_account_black_list range xs true p a
    ∙ added (is_among xs a) (is_account_in_black_list p a)

gather :
    (c1 c2 c3 c4 c5 f b t f' b' t' : Bool)
    → (c1 || c2 || c3 || c4 || c5 || (f || f') || (b || b') || (t || t'))
      ≡ ((c1 || c2 || c3 || c4 || c5 || f || b || t) || f' || b' || t')
gather c1 c2 c3 c4 c5 f b t f' b' t' = ground arith

-- The workers with the black lists of the package params.
unfoldable pub with_black_lists : {S : Type 0} → Env S → Params → Env S
with_black_lists env p = record env {
  is_chain_id_in_black_list = is_chain_id_in_black_list p;
  is_token_id_in_black_list = is_token_id_in_black_list p;
  is_token_id_in_black_list_on_chain = is_token_id_in_black_list_on_chain p;
  is_account_in_black_list = is_account_in_black_list p;
}

-- Black listing accounts makes exactly the swaps that name one of them as sender, receiver or contract,
-- whatever the case of the letters, black listed too.
pub is_blacked-add_or_remove_account_black_list :
    {S : Type 0} (env : Env S) (range : Set → List Text) (xs : List Text) (p : Params)
    (swap : MgoSwap)
    → is_blacked (with_black_lists env (add_or_remove_account_black_list range xs true p)) swap ≡ (
        is_blacked (with_black_lists env p) swap
        || is_among xs swap.from
        || is_among xs swap.bind
        || is_among xs swap.tx_to)
unfolding is_blacked with_black_lists add_or_remove_account_black_list is_chain_id_in_black_list
    is_token_id_in_black_list is_token_id_in_black_list_on_chain
is_blacked-add_or_remove_account_black_list env range xs p swap =
    rw (adding range xs p swap.from, adding range xs p swap.bind, adding range xs p swap.tx_to)
      (gather (is_chain_id_in_black_list p swap.from_chain_id)
        (is_chain_id_in_black_list p swap.to_chain_id)
        (is_token_id_in_black_list p (get_token_id swap.swap_info))
        (is_token_id_in_black_list_on_chain p swap.from_chain_id (get_token_id swap.swap_info))
        (is_token_id_in_black_list_on_chain p swap.to_chain_id (get_token_id swap.swap_info))
        (is_account_in_black_list p swap.from) (is_account_in_black_list p swap.bind)
        (is_account_in_black_list p swap.tx_to) (is_among xs swap.from) (is_among xs swap.bind)
        (is_among xs swap.tx_to))
