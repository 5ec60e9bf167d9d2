-- ===== src/Manager/Calls.antt =====
-- What a client of the manager sees, over any cache that keeps the laws and any repository.
use wb_l.LruCache.Client.{lookup-without, lookup-stored_self}
use wb_l.Models.{Order}
use wb_l.Base.Text.{text_dec, Text}
use wb_l.Manager.{
  empty_cache, size_cache, contains_cache, flush_cache, delete_cache, fill, warm_cache, store_all,
  manager_get, manager_set, Repository, CacheMethods,
}
use wb_l.Manager.Laws.{CacheLaws}
use wb_l.Base.{
  ap, not, ◌&&◌, arith, false, is_some, true, ◌∙◌, Bool, ℕ, none, ◌∷◌, [], refl, List, Option, ◌≡◌,
  some,
}
use wb_l.Base.Dict.{lookup}
use wb_l.LruCache.Spec.{touched, stored}

-- The entries after a store of each order in turn.
unfoldable pub stored_all : ℕ → List Order → List (Text × Order) → List (Text × Order)
stored_all cap [] fs = fs
stored_all cap (order ∷ orders) fs =
    stored_all cap orders (stored text_dec cap order.order_uid order fs)

-- Whether a decision is `yes`.
abbrev pub decided {ℓ} : {P : Type ℓ} → Dec P → Bool
decided (yes _) = true
decided (no _) = false

module _ {S D Ctx E R : Type 0} {cache : CacheMethods S D}
    {Holds : S → List (Text × Order) → Type 0} (laws : CacheLaws cache Holds)
    (repo : Repository Ctx E R) (background : Ctx) {s : S} {es : List (Text × Order)}
    (holds : Holds s es) (r : R) (ctx : Ctx) where
  -- Over a cache that keeps the laws: after `Manager.Set` of an order, whether or not the
  -- repository saved it, `Manager.Get` of its UID returns the order with no error and does not ask
  -- the repository.
  pub get_after_manager_set :
      (order : Order) (later : Ctx)
      → (s' : S) × (s'' : S) × (manager_set cache repo background ctx order (s, r)
          ≡ some (s', (repo.save_order ctx order r).1))
        × (manager_get cache repo background later order.order_uid
              (s', (repo.save_order ctx order r).1)
            ≡ some (some order, none, s'', (repo.save_order ctx order r).1))
  unfolding manager_set manager_get
  get_after_manager_set order later =
      let (s', ran, held, cap) = laws.set_law s es order.order_uid order holds in
      let (s'', ran', held', cap') = laws.get_law s' _ order.order_uid held in
      let read =
        lookup-stored_self text_dec (cache.capacity s) order.order_uid order es
          (laws.distinct s es holds) in
      (s', s'', rw (manager_set, ran), rw (manager_get, ran', read))

  -- Over a cache that keeps the laws: `Manager.Get` of a cached UID returns the order with no
  -- error, does not ask the repository, and makes the entry the most recent one.
  pub manager_get-hit :
      (uid : Text) (order : Order)
      → lookup text_dec uid es ≡ some order
      → (s' : S) × (manager_get cache repo background ctx uid (s, r)
          ≡ some (some order, none, s', r))
        × Holds s' (touched text_dec uid es)
  unfolding manager_get
  manager_get-hit uid order hit =
      let (s', ran, held, cap) = laws.get_law s es uid holds in
      (s', rw (manager_get, ran, hit), held)

  module _ (uid : Text) (miss : lookup text_dec uid es ≡ none) (r' : R) where
    untouched : touched text_dec uid es ≡ es
    unfolding touched
    untouched = rw (touched, miss)

    -- Over a cache that keeps the laws: on a miss that the repository answers with an order,
    -- `Manager.Get` returns the order, stores it in the cache, and a `Get` of the same UID right
    -- after it does not ask the repository.
    pub manager_get-miss :
        (order : Order) (later : Ctx)
        → repo.get_order ctx uid r ≡ (some order, none, r')
        → (s' : S) × (s'' : S) × (manager_get cache repo background ctx uid (s, r)
            ≡ some (some order, none, s', r'))
          × Holds s' (stored text_dec (cache.capacity s) uid order es)
          × (manager_get cache repo background later uid (s', r')
              ≡ some (some order, none, s'', r'))
    unfolding manager_get fill
    manager_get-miss order later found =
        let (s1, ran, held, cap) = laws.get_law s es uid holds in
        let held1 = rw untouched at held in
        let (s', ran', held', cap') = laws.set_law s1 es uid order held1 in
        let (s'', ran'', held'', cap'') = laws.get_law s' _ uid held' in
        let read =
          lookup-stored_self text_dec (cache.capacity s1) uid order es (laws.distinct s es holds) in
        (
          s',
          s'',
          rw (manager_get, ran, miss, found, ran'),
          rw cap at held',
          rw (manager_get, ran'', read),
        )

    -- Over a cache that keeps the laws: on a miss where the repository fails, `Manager.Get`
    -- returns no order and the error, and the cache keeps its entries.
    pub manager_get-error :
        (order : Option Order) (e : E)
        → repo.get_order ctx uid r ≡ (order, some e, r')
        → (s' : S) × (manager_get cache repo background ctx uid (s, r)
            ≡ some (none, some e, s', r'))
          × Holds s' es
    unfolding manager_get fill
    manager_get-error order e failed =
        let (s', ran, held, cap) = laws.get_law s es uid holds in
        (s', rw (manager_get, ran, miss, failed), rw untouched at held)

  store_all-stored_all :
      (t : S) (fs : List (Text × Order)) (orders : List Order)
      → Holds t fs
      → (t' : S) × (store_all cache repo background orders t ≡ some t')
        × Holds t' (stored_all (cache.capacity t) orders fs)
        × (cache.capacity t' ≡ cache.capacity t)
  unfolding store_all stored_all
  store_all-stored_all t fs [] h = (t, refl, h, refl)
  store_all-stored_all t fs (order ∷ orders) h =
      let (t1, ran, h1, cap) = laws.set_law t fs order.order_uid order h in
      let (t2, ran2, h2, cap2) = store_all-stored_all t1 _ orders h1 in
      (t2, rw (store_all, ran, ran2), rw cap at h2, cap2 ∙ cap)

  -- Over a cache that keeps the laws: `WarmCache` asks the repository for as many orders as the
  -- capacity, returns no error, even where the repository fails, and stores the orders that it
  -- got, one after the other, in a cache of the same capacity.
  pub warm_cache-stored_all :
      (orders : List Order) (err : Option E) (r' : R)
      → repo.get_n_orders background (cache.capacity s) r ≡ (orders, err, r')
      → (s' : S) × (warm_cache cache repo background ctx (s, r) ≡ some (none, s', r'))
        × Holds s' (stored_all (cache.capacity s) orders es)
        × (cache.capacity s' ≡ cache.capacity s)
  unfolding warm_cache
  warm_cache-stored_all orders err r' got =
      let (s', ran, h, cap) = store_all-stored_all s es orders holds in
      (s', rw (warm_cache, got, ran), h, cap)

  -- Over a cache that keeps the laws: after `DeleteCache` of a UID, `ContainsCache` is false of it
  -- and as before of every other UID.
  pub contains_cache-delete_cache :
      (uid : Text)
      → (s' : S) × (delete_cache cache repo background uid s ≡ some s')
        × ((j : Text)
            → contains_cache cache repo background j s'
              ≡ (is_some (lookup text_dec j es) && not (decided (text_dec uid j))))
  unfolding delete_cache contains_cache
  contains_cache-delete_cache uid =
      let (e, s', ran, held, reported) = laws.delete_law s es uid holds in
      (
        s',
        rw (delete_cache, ran),
        λ j.
            laws.contains_law s' _ j held
            ∙ ap is_some (lookup-without text_dec j uid es (laws.distinct s es holds))
            ∙ ground arith,
      )

  -- Over a cache that keeps the laws: after `FlushCache` the size is 0, the cache is empty and
  -- contains no UID.
  pub size_cache-flush_cache :
      (s' : S) × (flush_cache cache repo background s ≡ some s')
      × (size_cache cache repo background s' ≡ some 0)
      × (empty_cache cache repo background s' ≡ some true)
      × ((j : Text) → contains_cache cache repo background j s' ≡ false)
  unfolding flush_cache size_cache empty_cache contains_cache lookup
  size_cache-flush_cache =
      let (s', ran, held) = laws.flush_law s es holds in
      (
        s',
        ran,
        laws.size_law s' [] held,
        laws.empty_law s' [] held,
        λ j. laws.contains_law s' [] j held,
      )
