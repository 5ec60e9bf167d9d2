-- ===== src/LruCache.antt =====
-- internal/cache/lru_cache/lru_cache.go: the cache as a Go map from keys to nodes beside the list
-- of lru_list.go. A method is one critical section of the cache's mutex. It returns the new map with
-- its result, and writes the memory of the list.
pub mod Find
pub mod Spec
pub mod Refine
pub mod Store
pub mod Drop
pub mod Client
pub mod Flush
pub mod Walk
pub mod Trace
pub mod Kept
use wb_l.Base.Int.{ℤ}
use wb_l.Base.{ℕ, some, ◌==◌, [], is_some, List, none, Option, ◌∷◌, map, Bool, if◌then◌else◌}
use wb_l.Base.Dict.{lookup, put, delete}
use mathlib.Core.Option
use wb_l.Base.Int.{pos, negsuc}
use wb_l.LruList.{◌>>◌, Cmd, Result, ListError, Ptr, ◌>>=◌, load_key, load_value}
use wb_l.LruList.Code.{remove, pop_back, push_front, move_to_front}
use wb_l.LruList.{ListError, Result, pointer_of, error_of, Cmd, pure, ◌>>=◌, ◌>>◌, Ptr}
use wb_l.LruList.Code.{size, new_list}

pub record Cache {ℓ} (K : Type ℓ) : Type ℓ where
  pub lru_list : Ptr
  pub cache : List (K × Ptr)
  pub capacity : ℕ

-- `NewLRUCache` refuses a negative capacity; `negsuc n` is -(n + 1).
pub data CacheError {ℓ} (K : Type ℓ) : Type ℓ where
  negative_capacity : ℤ → CacheError K
  no_such_key : K → CacheError K
  list_error : ListError → CacheError K

pub data Made {ℓ} (K : Type ℓ) : Type ℓ where
  made : Cache K → Made K
  refused : CacheError K → Made K

module _ {ℓ} {K V : Type ℓ} where
  unfoldable pub new_cache : ℤ → Cmd K V (Made K)
  new_cache (negsuc n) = pure (refused (negative_capacity (negsuc n)))
  new_cache (pos n) = do
    l ← new_list
    pure (made (record { lru_list = l; cache = []; capacity = n }))

  unfoldable pub cache_size : Cache K → Cmd K V ℕ
  cache_size c = size c.lru_list

  unfoldable pub cache_empty : Cache K → Cmd K V Bool
  cache_empty c = do n ← size c.lru_list; pure (n == 0)

  -- The loop of `Flush` over the nodes, in the order in which `range` yields them.
  unfoldable pub remove_all : Ptr → List (K × Ptr) → Cmd K V (Unit {0})
  remove_all l [] = pure tt
  remove_all l ((_, node) ∷ rest) = do remove l node; remove_all l rest

  unfoldable pub flush : Cache K → (order : List (K × Ptr)) → Cmd K V (Cache K)
  unfolding remove_all
  flush c order = do remove_all c.lru_list order; pure (record c { cache = [] })

  drop_old : Cache K → Option Ptr → Cmd K V (Unit {0})
  drop_old c none = pure tt
  drop_old c (some node) = do remove c.lru_list node; pure tt

  hit : Cache K → Option Ptr → Cmd K V (Option V)
  hit c none = pure none
  hit c (some node) = do move_to_front c.lru_list node; v ← load_value node; pure (some v)

  module _ (dec : Discrete K) where
    evict : Cache K → Cmd K V (List (K × Ptr))
    evict c = do
      r ← pop_back c.lru_list
      key ← load_key (pointer_of r)
      pure (delete dec key c.cache)

    unfoldable pub set : Cache K → K → V → Cmd K V (Cache K)
    unfolding drop_old evict load_key
    set c key value = do
      drop_old c (lookup dec key c.cache)
      n ← size c.lru_list
      kept ← (if n == c.capacity then evict c else pure c.cache)
      node ← push_front c.lru_list key value
      pure (record c { cache = put dec key node kept })

    unfoldable pub get : Cache K → K → Cmd K V (Option V)
    unfolding hit load_value
    get c key = hit c (lookup dec key c.cache)

    drop_node : Cache K → K → Option Ptr → Cmd K V (Cache K × Option (CacheError K))
    drop_node c key none = pure (c, some (no_such_key key))
    drop_node c key (some node) = do
      r ← remove c.lru_list node
      pure (record c { cache = delete dec key c.cache }, Option.map list_error (error_of r))

    unfoldable pub delete_key : Cache K → K → Cmd K V (Cache K × Option (CacheError K))
    unfolding drop_node
    delete_key c key = drop_node c key (lookup dec key c.cache)

-- `Capacity`
unfoldable pub cache_capacity {ℓ} : {K : Type ℓ} → Cache K → ℕ
cache_capacity c = c.capacity

unfoldable pub contains {ℓ} : {K : Type ℓ} → Discrete K → Cache K → K → Bool
contains dec c key = is_some (lookup dec key c.cache)
