-- ===== src/Examples/Caches.antt =====
-- The theorems on lru_cache.go at the full cache with the keys 10 and 20.
use wb_l.Base.Lists.{length}
use wb_l.LruCache.Walk.{each_once, each_once-IsRange}
use wb_l.LruCache.Trace.{
  empties, sizes, flushes, asks, specified_all, deletes, sets, perform_all, gets, CacheCall,
  Implements, perform_all-specified_all,
}
use wb_l.LruList.Fresh.{entries}
use wb_l.Base.Dict.{lookup}
use wb_l.LruCache.Spec.{without, touched, stored}
use wb_l.LruCache.Refine.{IsCache, get-refines}
use wb_l.LruCache.Store.{set-refines}
use wb_l.Base.{◌≤◌, arith, ◌∷◌, refl, [], ◌≡◌, List, some, ℕ}
use wb_l.LruCache.{get, set, Cache}
use wb_l.LruList.{ok, Ptr, Heap}
use native.Mathlib.Decide.{ℕ_discrete}
use wb_l.Examples.Memory.{two_nodes, full_cache, full_cache-IsCache}

set-refines_example :
    (h' : Heap ℕ ℕ) × (c' : Cache ℕ) × (qs : List Ptr) × (set ℕ_discrete full_cache 30 300 two_nodes
      ≡ ok c' h')
    × IsCache ℕ_discrete h' c' qs
    × (entries h' qs ≡ (20, 200) ∷ (30, 300) ∷ [])
    × (c'.capacity ≡ 2)
    × (c'.lru_list ≡ 1)
unfolding stored without ℕ_discrete
set-refines_example =
    set-refines ℕ_discrete 30 300 two_nodes full_cache (2 ∷ 3 ∷ []) full_cache-IsCache (omega arith)

get-refines_example :
    (h' : Heap ℕ ℕ) × (qs : List Ptr) × (get ℕ_discrete full_cache 10 two_nodes ≡ ok (some 100) h')
    × IsCache ℕ_discrete h' full_cache qs
    × (entries h' qs ≡ (20, 200) ∷ (10, 100) ∷ [])
unfolding touched without lookup ℕ_discrete
get-refines_example = get-refines ℕ_discrete two_nodes full_cache 10 (2 ∷ 3 ∷ []) full_cache-IsCache

two_entries : Implements ℕ_discrete two_nodes full_cache 2 ((10, 100) ∷ (20, 200) ∷ [])
two_entries = record {
  nodes = 2 ∷ 3 ∷ [];
  cache = full_cache-IsCache;
  held = refl;
  room = omega arith;
  same_capacity = refl;
}

abbrev some_calls : List (CacheCall ℕ ℕ)
some_calls = gets 10 ∷ sets 30 300 ∷ deletes 20 ∷ asks 30 ∷ flushes ∷ sizes ∷ empties ∷ []

perform_all-specified_all_example :
    (h' : Heap ℕ ℕ) × (c' : Cache ℕ) × (perform_all ℕ_discrete
        (each_once ℕ_discrete)
        full_cache
        some_calls
        two_nodes
      ≡ ok (c', (specified_all ℕ_discrete 2 ((10, 100) ∷ (20, 200) ∷ []) some_calls).1) h')
    × Implements ℕ_discrete h' c' 2
        (specified_all ℕ_discrete 2 ((10, 100) ∷ (20, 200) ∷ []) some_calls).0
    × (length (specified_all ℕ_discrete 2 ((10, 100) ∷ (20, 200) ∷ []) some_calls).0 ≤ 2)
perform_all-specified_all_example =
    perform_all-specified_all ℕ_discrete (each_once ℕ_discrete) (each_once-IsRange ℕ_discrete)
      two_nodes full_cache 2 ((10, 100) ∷ (20, 200) ∷ []) some_calls two_entries
