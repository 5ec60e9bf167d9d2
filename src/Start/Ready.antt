-- ===== src/Start/Ready.antt =====
-- What cmd/order_service/main.go is left with once it has started: the cache that the service works on.
use wb_l.Base.Int.{pos}
use wb_l.Config.{config_validate, ConfigError, Config}
use wb_l.LruList.Fresh.{IsFresh}
use wb_l.Config.Capacity.{config_validate-IsLru}
use wb_l.LruCache.{cache_capacity}
use wb_l.Service.{warm_request, service_warm_cache}
use wb_l.Manager.Calls.{stored_all, warm_cache-stored_all}
use wb_l.LruCache.Flush.{IsRange}
use wb_l.Manager.Lru.{lru_laws, lru_methods, IsLru, Walk, LruState}
use wb_l.Models.{Order}
use wb_l.Manager.{Repository}
use wb_l.Breaker.{BreakerLaws, Execute}
use wb_l.LruList.{Heap, Ptr}
use wb_l.Base.Text.{text_dec, Text}
use wb_l.Base.{some, Option, none, ◌⊎◌, inr, [], inl, ℕ, ◌≡◌, refl, List}
use wb_l.Start.{not_valid, exits, with_cache, start_up, warmed, ready}

module _ {Ctx E R B : Type 0} (walk : Walk)
    (range : (m : List (Text × Ptr)) → IsRange text_dec m (walk m)) (repo : Repository Ctx E R)
    (background : Ctx) {execute : Execute Order E B (LruState × R)} (breaker : BreakerLaws execute)
    (with_timeout : ℕ → Ctx → Ctx) where
  -- The cache is empty, or holds the orders that the database returned.
  warmed_lem :
      (ctx : Ctx) (b : B) (s : LruState) (r : R)
      → IsLru s []
      → (b' : B) × (s' : LruState) × (r' : R) × (warmed walk repo background execute with_timeout (
            service_warm_cache (lru_methods walk) repo background execute with_timeout ctx b (s, r))
          ≡ ready (b', (s', r')))
        × (IsLru s' []
            ⊎ IsLru s' (stored_all s.0.capacity (repo.get_n_orders background s.0.capacity r).0 []))
        × (s'.0.capacity ≡ s.0.capacity)
  unfolding warmed service_warm_cache warm_request lru_methods cache_capacity
  warmed_lem ctx b s r i =
      let (s', ran, held, cap) =
        warm_cache-stored_all (lru_laws walk range) repo background i r (with_timeout 120 ctx) _ _ _
          refl in
      elim (breaker.either
        (warm_request (lru_methods walk) repo background execute with_timeout
          (with_timeout 120 ctx))
        b (s, r)) [
          | inl (e, b', rejected) ↦
              (b', s, r, rw (service_warm_cache, rejected, warmed) refl, inl i, refl)
          | inr (b', through) ↦ (
            b',
            s',
            (repo.get_n_orders background s.0.capacity r).2,
            rw (service_warm_cache, through, warm_request, ran, warmed) refl,
            inr held,
            cap,
          )
        ]

  -- From a configuration that `Validate` accepts, with a database that can be reached, so that
  -- neither `NewDBWithConfig` nor `NewOrderRepo` fails, and a breaker that runs or rejects a
  -- request, the start neither exits nor panics. The service then has a cache of the configured
  -- capacity that satisfies its invariant, and that is empty or holds what storing the orders that
  -- the database returned leaves in it.
  pub start_up-ready :
      (config : Config) (h : Heap Text Order) (ctx : Ctx) (b : B) (r : R)
      → config_validate config ≡ none
      → IsFresh h
      → (n : ℕ) × (b' : B) × (s : LruState) × (r' : R) × (start_up walk repo background execute
            with_timeout
            (inl config)
            none
            none
            h
            ctx
            b
            r
          ≡ ready (b', (s, r')))
        × (pos n ≡ config.cache.capacity)
        × (s.0.capacity ≡ n)
        × (IsLru s [] ⊎ IsLru s (stored_all n (repo.get_n_orders background n r).0 []))
  unfolding start_up with_cache
  start_up-ready config h ctx b r valid unused =
      let (h', c, makes, i, cap) = config_validate-IsLru config h valid unused in
      let (b', s, r', ran, held, same) = warmed_lem ctx b (c, h') r i in
      (c.capacity, b', s, r', rw (start_up, valid, makes, with_cache) ran, cap, same, held)

  -- With a configuration that is not valid nothing is made.
  pub start_up-not_valid :
      (config : Config) (database_error repository_error : Option E) (h : Heap Text Order)
      (ctx : Ctx) (b : B) (r : R)
      → (e : ConfigError) → config_validate config ≡ some e
      → start_up walk repo background execute with_timeout
          (inl config)
          database_error
          repository_error
          h
          ctx
          b
          r
        ≡ exits (not_valid e)
  unfolding start_up
  start_up-not_valid config database_error repository_error h ctx b r e bad =
      rw (start_up, bad) refl
