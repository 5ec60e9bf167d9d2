-- ===== src/Manager.antt =====
-- internal/cache/manager.go: the manager in front of a cache and a repository, which are the interfaces
-- `Cache` of internal/interfaces/cache.go, at orders by UID, and `Repository` of
-- internal/interfaces/repo.go. The repository is a parameter: `R` is the state of the database, `Ctx` a
-- `context.Context`, and `E` an `error`. The mutex makes each method one step. `none` is a panic.
pub mod Laws
pub mod Lru
pub mod Calls
pub mod Kept
use wb_l.Base.{Option, ℕ, some, Bool, none, map, ◌∷◌, [], List}
use wb_l.Base.Text.{Text}
use wb_l.Models.{Order}
use mathlib.Core.Option

-- `Delete` of a cache returns an error, or `none`, of the type `D`.
pub record CacheMethods (S D : Type 0) : Type 0 where
  pub set : Text → Order → S → Option S
  pub get : Text → S → Option (Option Order × S)
  pub delete : Text → S → Option (Option D × S)
  pub contains : Text → S → Bool
  pub flush : S → Option S
  pub size : S → Option ℕ
  pub capacity : S → ℕ
  pub empty : S → Option Bool

-- The methods that the manager calls. A pointer that may be nil is an `Option`.
pub record Repository (Ctx E R : Type 0) : Type 0 where
  pub save_order : Ctx → Order → R → Option E × R
  pub get_order : Ctx → Text → R → Option Order × Option E × R
  pub get_n_orders : Ctx → ℕ → R → List Order × Option E × R

module _ {S D Ctx E R : Type 0} (cache : CacheMethods S D) (repo : Repository Ctx E R)
    (background : Ctx) where
  -- The loop of `WarmCache`.
  unfoldable pub store_all : List Order → S → Option S
  store_all [] s = some s
  store_all (order ∷ orders) s = elim (cache.set order.order_uid order s) [
    | none ↦ none
    | some s' ↦ store_all orders s'
  ]

  -- `WarmCache` returns nil whatever the repository says, and does not look at its context.
  unfoldable pub warm_cache : Ctx → S × R → Option (Option E × S × R)
  unfolding store_all
  warm_cache ctx (s, r) =
      let (orders, err, r') = repo.get_n_orders background (cache.capacity s) r in
      Option.map (λ s'. (none, s', r')) (store_all orders s)

  unfoldable pub manager_set : Ctx → Order → S × R → Option (S × R)
  manager_set ctx order (s, r) =
      let (err, r') = repo.save_order ctx order r in
      Option.map (λ s'. (s', r')) (cache.set order.order_uid order s)

  -- The rest of `Get` after a miss: the order and the error that the repository returned.
  unfoldable fill :
      Text → Option Order → Option E → S × R → Option (Option Order × Option E × S × R)
  fill uid found (some err) (s, r) = some (none, some err, s, r)
  fill uid none none (s, r) = some (none, none, s, r)
  fill uid (some order) none (s, r) =
      Option.map (λ s'. (some order, none, s', r)) (cache.set uid order s)

  -- The order, the error, and the states.
  unfoldable pub manager_get : Ctx → Text → S × R → Option (Option Order × Option E × S × R)
  unfolding fill
  manager_get ctx uid (s, r) = elim (cache.get uid s) [
    | none ↦ none
    | some (some order, s') ↦ some (some order, none, s', r)
    | some (none, s') ↦
        let (found, err, r') = repo.get_order ctx uid r in fill uid found err (s', r')
  ]

  unfoldable pub delete_cache : Text → S → Option S
  delete_cache uid s = Option.map (λ p. p.1) (cache.delete uid s)

  unfoldable pub contains_cache : Text → S → Bool
  contains_cache uid s = cache.contains uid s

  unfoldable pub flush_cache : S → Option S
  flush_cache s = cache.flush s

  unfoldable pub size_cache : S → Option ℕ
  size_cache s = cache.size s

  unfoldable pub empty_cache : S → Option Bool
  empty_cache s = cache.empty s
