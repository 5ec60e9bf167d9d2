-- ===== src/Manager/Lru.antt =====
-- The LRU cache of internal/cache/lru_cache as the manager's cache. A state is the cache with the memory of its
-- list. `walk` is the order in which `range` yields the entries of the map.
use wb_l.LruCache.Client.{entries-Distinct}
use wb_l.LruCache.Flush.{IsRange, flush-IsCache}
use wb_l.Manager.Laws.{CacheLaws}
use wb_l.LruList.Fresh.{entries}
use wb_l.LruCache.Refine.{IsCache, get-refines}
use wb_l.LruCache.Store.{set-refines}
use wb_l.LruCache.Drop.{
  contains_lem, cache_empty_lem, cache_size_lem, delete_key-miss, delete_key-hit,
}
use wb_l.Base.Text.{text_dec, Text}
use wb_l.Models.{Order}
use wb_l.Manager.{CacheMethods}
use wb_l.Base.{
  ◌∙◌, ap, arith, ◌<◌, refl, Option-cases, is_some, inr, not, inl, ◌∷◌, ◌≡◌, [], Option, none, some,
  List,
}
use wb_l.LruCache.{no_such_key, Cache, set, get, CacheError}
use wb_l.Base.Dict.{lookup}
use wb_l.LruCache.Spec.{without, touched, stored}
use wb_l.LruList.{Ptr, Heap, Run, ok, panic}
use wb_l.LruCache
use mathlib.Core.Option

abbrev pub LruState : Type 0
LruState = LruCache.Cache Text × Heap Text Order

-- A run that may panic, as an `Option`.
abbrev pub finished {κ} : {A : Type κ} → Run Text Order A → Option (A × Heap Text Order)
finished (ok a h) = some (a, h)
finished panic = none

abbrev pub Walk : Type 0
Walk = List (Text × Ptr) → List (Text × Ptr)

module _ (walk : Walk) where
  unfoldable pub lru_methods : CacheMethods LruState (CacheError Text)
  lru_methods = record {
    set = λ uid order (c, h). finished (LruCache.set text_dec c uid order h);
    get = λ uid (c, h).
        Option.map (λ (o, h'). (o, (c, h'))) (finished (LruCache.get text_dec c uid h));
    delete = λ uid (c, h).
        Option.map (λ ((c', e), h'). (e, (c', h')))
          (finished (LruCache.delete_key text_dec c uid h));
    contains = λ uid (c, h). LruCache.contains text_dec c uid;
    flush = λ (c, h). finished (LruCache.flush c (walk c.cache) h);
    size = λ (c, h). Option.map (λ p. p.0) (finished (LruCache.cache_size c h));
    capacity = λ (c, h). LruCache.cache_capacity c;
    empty = λ (c, h). Option.map (λ p. p.0) (finished (LruCache.cache_empty c h));
  }

-- The cache has room for an entry, satisfies its invariant, and its nodes hold the entries.
pub record IsLru (s : LruState) (es : List (Text × Order)) : Type 0 where
  pub nodes : List Ptr
  pub cache : IsCache text_dec s.1 s.0 nodes
  pub held : entries s.1 nodes ≡ es
  pub room : 0 < s.0.capacity

without-none :
    (uid : Text) (es : List (Text × Order))
    → lookup text_dec uid es ≡ none
    → without text_dec uid es ≡ es
unfolding lookup without
without-none uid [] e = refl
without-none uid ((j, o) ∷ es) e = ground (arith, without-none uid es)

module _ (walk : Walk) (s : LruState) (es : List (Text × Order)) (i : IsLru s es) where
  lru_set :
      (uid : Text) (order : Order)
      → (s' : LruState) × ((lru_methods walk).set uid order s ≡ some s')
        × IsLru s' (stored text_dec (LruCache.cache_capacity s.0) uid order es)
        × (LruCache.cache_capacity s'.0 ≡ LruCache.cache_capacity s.0)
  unfolding lru_methods LruCache.cache_capacity
  lru_set uid order =
      let (h', c', qs, ran, i', held, cap, list) =
        set-refines text_dec uid order s.1 s.0 i.nodes i.cache i.room in
      (
        (c', h'),
        rw ran,
        record { nodes = qs; cache = i'; held = rw (i.held) at held; room = rw cap i.room },
        cap,
      )

  lru_get :
      (uid : Text)
      → (s' : LruState) × ((lru_methods walk).get uid s ≡ some (lookup text_dec uid es, s'))
        × IsLru s' (touched text_dec uid es)
        × (LruCache.cache_capacity s'.0 ≡ LruCache.cache_capacity s.0)
  unfolding lru_methods LruCache.cache_capacity
  lru_get uid =
      let (h', qs, ran, i', held) = get-refines text_dec s.1 s.0 uid i.nodes i.cache in
      (
        (s.0, h'),
        rw (ran, i.held),
        record { nodes = qs; cache = i'; held = rw (i.held) at held; room = i.room },
        refl,
      )

  lru_delete :
      (uid : Text)
      → (e : Option (CacheError Text)) × (s' : LruState) × ((lru_methods walk).delete uid s
          ≡ some (e, s'))
        × IsLru s' (without text_dec uid es)
        × (is_some e ≡ not (is_some (lookup text_dec uid es)))
  unfolding lru_methods
  lru_delete uid = elim (Option-cases (lookup text_dec uid es)) [
    | inl miss ↦
        let out : lookup text_dec uid (entries s.1 i.nodes) ≡ none = rw i.held miss in
        (
          some (no_such_key uid),
          s,
          rw (delete_key-miss text_dec i.cache uid out),
          rw (without-none uid es miss) i,
          rw miss refl,
        )
    | inr (order, hit) ↦
        let inside : lookup text_dec uid (entries s.1 i.nodes) ≡ some order = rw i.held hit in
        let (h', c', qs, ran, i', held, cap) = delete_key-hit text_dec i.cache uid order inside in
        (
          none,
          (c', h'),
          rw ran,
          record { nodes = qs; cache = i'; held = rw (i.held) at held; room = rw cap i.room },
          rw hit refl,
        )
  ]

-- What the manager relies on, for the LRU cache: `walk` yields each entry of the map.
pub lru_laws :
    (walk : Walk)
    → ((m : List (Text × Ptr)) → IsRange text_dec m (walk m))
    → CacheLaws (lru_methods walk) IsLru
unfolding lru_methods LruCache.cache_capacity
lru_laws walk range = record {
  distinct = λ s es i. rw i.held at (entries-Distinct text_dec s.1 i.nodes i.cache.distinct);
  set_law = λ s es uid order i. lru_set walk s es i uid order;
  get_law = λ s es uid i. lru_get walk s es i uid;
  delete_law = λ s es uid i. lru_delete walk s es i uid;
  contains_law = λ s es uid i.
      contains_lem text_dec i.cache uid ∙ ap (λ x. is_some (lookup text_dec uid x)) i.held;
  flush_law = λ s es i.
      let (h', ran, i') = flush-IsCache text_dec i.cache (walk s.0.cache) (range s.0.cache) in
      (
        (record s.0 { cache = [] }, h'),
        rw ran,
        record { nodes = []; cache = i'; held = refl; room = i.room },
      );
  size_law = λ s es i. rw (cache_size_lem text_dec i.cache, i.held);
  empty_law = λ s es i. rw (cache_empty_lem text_dec i.cache, i.held);
}
