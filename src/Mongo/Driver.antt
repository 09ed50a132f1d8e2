-- ===== src/Mongo/Driver.antt =====
-- The part of go.mongodb.org/mongo-driver that the program calls, as an interface: FindOne by _id,
-- InsertOne and UpdateByID on the collections of swaps and of swap results.
use cross_chain_router.Prelude.{◌≡◌, if◌then◌else◌, ◌⊎◌, false}
use cross_chain_router.Text.{Text, text_eq}
use cross_chain_router.Mongo.Tables.{MgoSwap, MgoSwapResult, MgoUsedRValue}

-- The outcome of FindOne and Decode.
pub data Reply (D : Type 0) : Type 0 where
  found : D → Reply D
  no_documents : Reply D
  query_failed : Text → Reply D

-- The outcome of a write. An update that matches no document is no error.
pub data Written : Type 0 where
  written : Written
  duplicate_key : Written
  write_failed : Text → Written

abbrev pub map_reply : {D : Type 0} → (D → D) → Reply D → Reply D
map_reply f (found x) = found (f x)
map_reply f no_documents = no_documents
map_reply f (query_failed t) = query_failed t

-- An update is given as the function that its $set and $push stand for.
pub record Driver : Type 1 where
  pub Store : Type 0
  pub find_swap : Store → Text → Reply MgoSwap
  pub insert_swap : Store → MgoSwap → Written × Store
  pub update_swap : Store → Text → (MgoSwap → MgoSwap) → Written × Store
  pub find_result : Store → Text → Reply MgoSwapResult
  pub insert_result : Store → MgoSwapResult → Written × Store
  pub update_result : Store → Text → (MgoSwapResult → MgoSwapResult) → Written × Store
  pub find_used_r : Store → Text → Reply MgoUsedRValue
  pub insert_used_r : Store → MgoUsedRValue → Written × Store

-- What the documentation of the driver promises: an acknowledged write is read back under its _id, and
-- one that fails may have been carried out or not. Other documents and collections stay.
pub record IsDocumented (d : Driver) : Type 0 where
  pub update_swap_find :
      (s : d.Store) (k j : Text) (f : MgoSwap → MgoSwap)
      → (d.update_swap s k f).0 ≡ written
      → d.find_swap (d.update_swap s k f).1 j
        ≡ (if text_eq k j then map_reply f (d.find_swap s k) else d.find_swap s j)
  pub update_swap_either :
      (s : d.Store) (k : Text) (f : MgoSwap → MgoSwap)
      → (d.find_swap (d.update_swap s k f).1 k ≡ map_reply f (d.find_swap s k))
        ⊎ (d.find_swap (d.update_swap s k f).1 k ≡ d.find_swap s k)
  pub update_swap_result :
      (s : d.Store) (k j : Text) (f : MgoSwap → MgoSwap)
      → d.find_result (d.update_swap s k f).1 j ≡ d.find_result s j
  pub update_result_find :
      (s : d.Store) (k j : Text) (f : MgoSwapResult → MgoSwapResult)
      → (d.update_result s k f).0 ≡ written
      → d.find_result (d.update_result s k f).1 j
        ≡ (if text_eq k j then map_reply f (d.find_result s k) else d.find_result s j)
  pub update_result_either :
      (s : d.Store) (k : Text) (f : MgoSwapResult → MgoSwapResult)
      → (d.find_result (d.update_result s k f).1 k ≡ map_reply f (d.find_result s k))
        ⊎ (d.find_result (d.update_result s k f).1 k ≡ d.find_result s k)
  pub update_result_other :
      (s : d.Store) (k j : Text) (f : MgoSwapResult → MgoSwapResult)
      → text_eq k j ≡ false
      → d.find_result (d.update_result s k f).1 j ≡ d.find_result s j
  pub update_result_swap :
      (s : d.Store) (k j : Text) (f : MgoSwapResult → MgoSwapResult)
      → d.find_swap (d.update_result s k f).1 j ≡ d.find_swap s j
  pub insert_result_find :
      (s : d.Store) (r : MgoSwapResult) (j : Text)
      → (d.insert_result s r).0 ≡ written
      → d.find_result (d.insert_result s r).1 j
        ≡ (if text_eq r.key j then found r else d.find_result s j)
  pub insert_result_swap :
      (s : d.Store) (r : MgoSwapResult) (j : Text)
      → d.find_swap (d.insert_result s r).1 j ≡ d.find_swap s j
