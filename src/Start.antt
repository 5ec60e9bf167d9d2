-- ===== src/Start.antt =====
-- cmd/order_service/main.go: what it makes before it waits. The results of the libraries are parameters: the
-- configuration that was loaded, the errors of `NewDBWithConfig` and `NewOrderRepo`, and the repository.
pub mod Ready
pub mod Components
pub mod Endings
pub mod Shutdown
use wb_l.Service.{service_warm_cache}
use wb_l.Manager.{Repository}
use wb_l.Models.{Order}
use wb_l.Base.Text.{Text}
use wb_l.Breaker.{Execute}
use wb_l.Manager.Lru.{lru_methods, Walk, LruState}
use wb_l.Base.{◌⊎◌, ℕ, inl, none, Option, inr, some}
use mathlib.Core.Option
use wb_l.Config.{config_validate, Config, ConfigError}
use wb_l.LruCache.{Made, refused, made, new_cache, CacheError}
use wb_l.LruList.{ok, panic, Heap, Run}

-- Why the process exits.
pub data Exit (E : Type 0) : Type 0 where
  not_loaded no_database no_repository : E → Exit E
  not_valid : ConfigError → Exit E
  no_cache : CacheError Text → Exit E

-- A state is the breaker of the service with the cache and the database.
pub data StartUp (E S : Type 0) : Type 0 where
  exits : Exit E → StartUp E S
  panics : StartUp E S
  ready : S → StartUp E S

module _ {Ctx E R B : Type 0} (walk : Walk) (repo : Repository Ctx E R) (background : Ctx)
    (execute : Execute Order E B (LruState × R)) (with_timeout : ℕ → Ctx → Ctx) where
  -- An error of `WarmCache` is only logged.
  unfoldable pub warmed :
      {A : Type 0} → Option (A × B × (LruState × R)) → StartUp E (B × (LruState × R))
  warmed none = panics
  warmed (some (err, b, st)) = ready (b, st)

  unfoldable pub with_cache :
      Ctx → B → R → Run Text Order (Made Text) → StartUp E (B × (LruState × R))
  unfolding warmed
  with_cache ctx b r panic = panics
  with_cache ctx b r (ok (refused e) h) = exits (no_cache e)
  with_cache ctx b r (ok (made c) h) =
      warmed (
        service_warm_cache (lru_methods walk) repo background execute with_timeout ctx b
          ((c, h), r))

  unfoldable pub start_up :
      Config ⊎ E
      → (database_error repository_error : Option E) → Heap Text Order
      → Ctx
      → B
      → R
      → StartUp E (B × (LruState × R))
  unfolding with_cache
  start_up (inr e) database_error repository_error h ctx b r = exits (not_loaded e)
  start_up (inl config) database_error repository_error h ctx b r = elim (config_validate config) [
    | some e ↦ exits (not_valid e)
    | none ↦ elim database_error [
      | some e ↦ exits (no_database e)
      | none ↦ elim repository_error [
        | some e ↦ exits (no_repository e)
        | none ↦ with_cache ctx b r (new_cache config.cache.capacity h)
      ]
    ]
  ]
