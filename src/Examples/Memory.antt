-- ===== src/Examples/Memory.antt =====
-- A memory with a list of two nodes, and a cache over it that is full.
use wb_l.LruCache.Find.{find}
use wb_l.Base.Dict.{lookup}
use wb_l.LruCache.{Cache}
use wb_l.LruList.{Heap}
use wb_l.LruCache.Refine.{IsCache}
use wb_l.Base.{[], refl, arith, ℕ, ◌∷◌}
use wb_l.LruList.Ring.{insert_behind}
use wb_l.LruList.Rep.{Rep, inserted, inserted-Rep}
use wb_l.LruList.Fresh.{IsFresh, listed, created, listed-Rep, created-Rep, created-IsFree}
use native.Mathlib.Decide.{ℕ_discrete}

abbrev pub blank_memory : Heap ℕ ℕ
blank_memory = record {
  next = λ _. 0;
  prev = λ _. 0;
  list = λ _. 0;
  len = λ _. 0;
  key = λ _. 0;
  value = λ _. 0;
  top = 1;
}

pub blank_memory-IsFresh : IsFresh blank_memory
blank_memory-IsFresh = record { pos = omega arith; unused = λ p. omega arith }

-- The list at 1 with no node.
abbrev pub no_nodes : Heap ℕ ℕ
no_nodes = listed blank_memory

pub no_nodes-Rep : Rep no_nodes 1 []
no_nodes-Rep = listed-Rep blank_memory blank_memory-IsFresh

-- Node 2 with key 10, and node 3 with key 20 in front of it.
abbrev pub one_node : Heap ℕ ℕ
one_node = inserted 1 2 1 (created 10 100 no_nodes)

pub one_node-Rep : Rep one_node 1 (2 ∷ [])
unfolding insert_behind
one_node-Rep =
    inserted-Rep (created-Rep no_nodes-Rep 10 100) 2 1
      (created-IsFree 10 100 no_nodes (omega arith)) refl

abbrev pub two_nodes : Heap ℕ ℕ
two_nodes = inserted 1 3 2 (created 20 200 one_node)

pub two_nodes-Rep : Rep two_nodes 1 (2 ∷ 3 ∷ [])
unfolding insert_behind
two_nodes-Rep =
    inserted-Rep (created-Rep one_node-Rep 20 200) 3 2
      (created-IsFree 20 200 one_node (omega arith)) refl

-- A cache of two entries that has room for two.
abbrev pub full_cache : Cache ℕ
full_cache = record { lru_list = 1; cache = (10, 2) ∷ (20, 3) ∷ []; capacity = 2 }

pub full_cache-IsCache : IsCache ℕ_discrete two_nodes full_cache (2 ∷ 3 ∷ [])
unfolding lookup find ℕ_discrete
full_cache-IsCache = record {
  rep = two_nodes-Rep;
  index = λ k. refl;
  distinct = (refl, (refl, tt));
  fits = omega arith;
}

-- A cache without room.
abbrev pub zero_cache : Cache ℕ
zero_cache = record { lru_list = 1; cache = []; capacity = 0 }

pub zero_cache-IsCache : IsCache ℕ_discrete no_nodes zero_cache []
unfolding lookup find ℕ_discrete
zero_cache-IsCache = record {
  rep = no_nodes-Rep;
  index = λ k. refl;
  distinct = tt;
  fits = omega arith;
}
