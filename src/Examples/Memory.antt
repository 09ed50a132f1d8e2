-- ===== src/Examples/Memory.antt =====
-- A driver over maps in memory whose writes succeed, and a task set over a list.
use cross_chain_router.Prelude.{
  ◌≡◌, inl, refl, Bool, false, ◌||◌, List, [], ◌∷◌, arith, if◌then◌else◌, length,
}
use cross_chain_router.Text.{Text, text_eq}
use cross_chain_router.Text.Equality.{text_eq_refl}
use cross_chain_router.Mongo.Driver.{
  Driver, IsDocumented, Reply, found, no_documents, query_failed, Written, written, duplicate_key,
  map_reply,
}
use cross_chain_router.Mongo.Tables.{MgoSwap, MgoSwapResult, MgoUsedRValue}
use cross_chain_router.Worker.State.{TaskSet, IsTaskSet}

pub record Memory : Type 0 where
  pub swaps : Text → Reply MgoSwap
  pub results : Text → Reply MgoSwapResult
  pub used_rs : Text → Reply MgoUsedRValue

abbrev put : {D : Type 0} → Text → Reply D → (Text → Reply D) → Text → Reply D
put k x m j = if text_eq k j then x else m j

abbrev insert : {D : Type 0} → Text → D → (Text → Reply D) → Written × (Text → Reply D)
insert k x m = elim (m k) [
  | found y ↦ (duplicate_key, m)
  | no_documents ↦ (written, put k (found x) m)
  | query_failed t ↦ (duplicate_key, m)
]

abbrev pub memory : Driver
memory = record {
  Store = Memory;
  find_swap = λ s k. s.swaps k;
  insert_swap = λ s x. let (w, m) = insert x.key x s.swaps in (w, record s { swaps = m });
  update_swap = λ s k f. (written, record s { swaps = put k (map_reply f (s.swaps k)) s.swaps });
  find_result = λ s k. s.results k;
  insert_result = λ s x. let (w, m) = insert x.key x s.results in (w, record s { results = m });
  update_result =
      λ s k f. (written, record s { results = put k (map_reply f (s.results k)) s.results });
  find_used_r = λ s k. s.used_rs k;
  insert_used_r = λ s x. let (w, m) = insert x.key x s.used_rs in (w, record s { used_rs = m });
}

put-same : {D : Type 0} (k : Text) (x : Reply D) (m : Text → Reply D) → put k x m k ≡ x
put-same k x m = ground (arith, text_eq_refl k)

insert-find :
    {D : Type 0} (k : Text) (x : D) (m : Text → Reply D) (j : Text)
    → (insert k x m).0 ≡ written
    → (insert k x m).1 j ≡ (if text_eq k j then found x else m j)
insert-find k x m j h = ground arith

pub memory-IsDocumented : IsDocumented memory
memory-IsDocumented = record {
  update_swap_find = λ s k j f h. refl;
  update_swap_either = λ s k f. inl (put-same k (map_reply f (s.swaps k)) s.swaps);
  update_swap_result = λ s k j f. refl;
  update_result_find = λ s k j f h. refl;
  update_result_either = λ s k f. inl (put-same k (map_reply f (s.results k)) s.results);
  update_result_other = λ s k j f h. rw h refl;
  update_result_swap = λ s k j f. refl;
  insert_result_find = λ s r j h. insert-find r.key r s.results j h;
  insert_result_swap = λ s r j. refl;
}

abbrev member : List Text → Text → Bool
member [] k = false
member (j ∷ js) k = text_eq j k || member js k

abbrev without : List Text → Text → List Text
without [] k = []
without (j ∷ js) k = let rest = without js k in if text_eq j k then rest else j ∷ rest

abbrev drop_first : List Text → List Text
drop_first [] = []
drop_first (j ∷ js) = js

abbrev pub task_list : TaskSet
task_list = record {
  Tasks = List Text;
  contains = member;
  add = λ js k. k ∷ js;
  remove = without;
  pop = drop_first;
  cardinality = length;
}

member-without : (js : List Text) (k : Text) → member (without js k) k ≡ false
member-without [] k = refl
member-without (j ∷ js) k = ground (arith, member-without js k)

pub task_list-IsTaskSet : IsTaskSet task_list
task_list-IsTaskSet = record {
  contains_add = λ s k. ground (arith, text_eq_refl k);
  contains_remove = member-without;
}
