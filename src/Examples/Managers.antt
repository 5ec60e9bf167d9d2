-- ===== src/Examples/Managers.antt =====
-- The theorems on manager.go at an empty LRU cache of capacity 2 and a repository that fails to save.
use wb_l.LruCache.Spec.{stored}
use wb_l.LruList.Ring.{insert_behind}
use wb_l.LruList.Rep.{inserted, inserted-Rep}
use wb_l.LruCache.Find.{find}
use wb_l.Base.Text.{text_dec, Text}
use wb_l.LruCache.Walk.{each_once, each_once-IsRange}
use wb_l.Manager.Lru.{lru_laws, lru_methods, IsLru, LruState}
use wb_l.Manager.Calls.{manager_get-miss, get_after_manager_set, stored_all, warm_cache-stored_all}
use wb_l.Manager.{manager_get, warm_cache, manager_set, CacheMethods, Repository}
use wb_l.Models.{Order}
use wb_l.Base.{◌∷◌, ◌+◌, [], some, ◌≡◌, arith, none, ℕ, refl}
use wb_l.LruList.{Heap}
use wb_l.Examples.Orders.{mascaras_order}
use wb_l.Base.Dict.{lookup}
use wb_l.LruList.Fresh.{created, created-Rep, created-IsFree, listed, listed-Rep, IsFresh}
use wb_l.Manager.Laws.{CacheLaws}
use wb_l.LruCache.{cache_capacity, CacheError}

abbrev pub blank : Heap Text Order
blank = record {
  next = λ _. 0;
  prev = λ _. 0;
  list = λ _. 0;
  len = λ _. 0;
  key = λ _. [];
  value = λ _. mascaras_order;
  top = 1;
}

abbrev pub fresh_cache : LruState
fresh_cache = (record { lru_list = 1; cache = []; capacity = 2 }, listed blank)

pub blank-IsFresh : IsFresh blank
blank-IsFresh = record { pos = omega arith; unused = λ p. omega arith }

pub fresh_cache-IsLru : IsLru fresh_cache []
unfolding lookup find
fresh_cache-IsLru = record {
  nodes = [];
  cache = record {
    rep = listed-Rep blank blank-IsFresh;
    index = λ k. refl;
    distinct = tt;
    fits = omega arith;
  };
  held = refl;
  room = omega arith;
}

abbrev pub methods : CacheMethods LruState (CacheError Text)
methods = lru_methods (each_once text_dec)

abbrev pub laws : CacheLaws methods IsLru
laws = lru_laws (each_once text_dec) (each_once-IsRange text_dec)

-- The state of the database is the number of calls. A context and an error are numbers. It finds one order, and
-- an error for every other.
abbrev pub repository : Repository ℕ ℕ ℕ
repository = record {
  save_order = λ ctx order r. (some 7, r + 1);
  get_order = λ ctx uid r. elim (text_dec uid mascaras_order.order_uid) [
    | yes _ ↦ (some mascaras_order, none, r + 1)
    | no _ ↦ (none, some 9, r + 1)
  ];
  get_n_orders = λ ctx n r. (mascaras_order ∷ [], some 8, r + 1);
}

get_after_manager_set_example :
    (s' : LruState) × (s'' : LruState) × (manager_set methods repository 0 1 mascaras_order
        (fresh_cache, 0)
      ≡ some (s', 1))
    × (manager_get methods repository 0 2 mascaras_order.order_uid (s', 1)
        ≡ some (some mascaras_order, none, s'', 1))
get_after_manager_set_example =
    get_after_manager_set laws repository 0 fresh_cache-IsLru 0 1 mascaras_order 2

abbrev one_order : LruState
one_order = (
  record { lru_list = 1; cache = (mascaras_order.order_uid, 2) ∷ []; capacity = 2 },
  inserted 1 2 1 (created mascaras_order.order_uid mascaras_order (listed blank)),
)

one_order-IsLru : IsLru one_order ((mascaras_order.order_uid, mascaras_order) ∷ [])
unfolding lookup find insert_behind
one_order-IsLru = record {
  nodes = 2 ∷ [];
  cache = record {
    rep =
        inserted-Rep
          (created-Rep (listed-Rep blank blank-IsFresh) mascaras_order.order_uid mascaras_order) 2 1
          (created-IsFree mascaras_order.order_uid mascaras_order (listed blank) (omega arith))
          refl;
    index = λ k. refl;
    distinct = (refl, tt);
    fits = omega arith;
  };
  held = refl;
  room = omega arith;
}

warm_cache-stored_all_example :
    (s' : LruState) × (warm_cache methods repository 0 1 (fresh_cache, 0) ≡ some (none, s', 1))
    × IsLru s' (stored_all 2 (mascaras_order ∷ []) [])
    × (s'.0.capacity ≡ 2)
unfolding lru_methods cache_capacity
warm_cache-stored_all_example =
    warm_cache-stored_all laws repository 0 fresh_cache-IsLru 0 1 (mascaras_order ∷ []) (some 8) 1
      refl

manager_get-miss_example :
    (s' : LruState) × (s'' : LruState) × (manager_get methods repository 0 1
        mascaras_order.order_uid
        (fresh_cache, 0)
      ≡ some (some mascaras_order, none, s', 1))
    × IsLru s' (stored text_dec 2 mascaras_order.order_uid mascaras_order [])
    × (manager_get methods repository 0 2 mascaras_order.order_uid (s', 1)
        ≡ some (some mascaras_order, none, s'', 1))
unfolding lru_methods cache_capacity lookup text_dec
manager_get-miss_example =
    manager_get-miss laws repository 0 fresh_cache-IsLru 0 1 mascaras_order.order_uid refl 1
      mascaras_order 2 refl
