-- ===== src/Manager/Kept.antt =====
-- A predicate of the orders that the cache of the manager holds, through the methods of
-- internal/cache/manager.go.
use wb_l.Base.Dict.{lookup}
use wb_l.Manager.Laws.{CacheLaws}
use wb_l.LruCache.Kept.{All-touched, All-stored, All-lookup}
use wb_l.Base.Text.{text_dec, Text}
use wb_l.Manager.{fill, warm_cache, store_all, manager_set, manager_get, CacheMethods, Repository}
use wb_l.Models.{Order}
use wb_l.Base.{some, inl, Option, List, ℕ, ◌∷◌, inr, none, Option-cases, refl, ◌≡◌, []}
use wb_l.Base.Lists.{All}

-- What is found under a UID has the predicate.
abbrev pub Found : (Text × Order → Type 0) → Text → Option Order → Type 0
Found P uid none = Unit
Found P uid (some o) = P (uid, o)

-- The same, where there is no error.
abbrev pub Retrieved :
    {E : Type 0} → (Text × Order → Type 0) → Text → Option Order → Option E → Type 0
Retrieved P uid found none = Found P uid found
Retrieved P uid found (some e) = Unit

-- What the repository returns without an error has the predicate.
pub record Sources {Ctx E R : Type 0} (repo : Repository Ctx E R) (P : Text × Order → Type 0)
    : Type 0 where
  pub got :
      (ctx : Ctx) (uid : Text) (r : R)
      → Retrieved P uid ((repo.get_order ctx uid r).0) ((repo.get_order ctx uid r).1)
  pub listed :
      (ctx : Ctx) (n : ℕ) (r : R) → All (λ o. P (o.order_uid, o)) (repo.get_n_orders ctx n r).0

module _ {S D Ctx E R : Type 0} {cache : CacheMethods S D}
    {Holds : S → List (Text × Order) → Type 0} (laws : CacheLaws cache Holds)
    (repo : Repository Ctx E R) (background : Ctx) {P : Text × Order → Type 0}
    (sources : Sources repo P) where
  -- The cache holds orders with the predicate.
  abbrev pub HoldsAll : S → Type 0
  HoldsAll s = (es : List (Text × Order)) × Holds s es × All P es

  fill-HoldsAll :
      (uid : Text) (found : Option Order) (err : Option E) (s : S) (r : R)
      → Retrieved P uid found err
      → HoldsAll s
      → (found' : Option Order) × (s' : S) × (fill cache repo background uid found err (s, r)
          ≡ some (found', err, s', r))
        × Retrieved P uid found' err
        × HoldsAll s'
  unfolding fill
  fill-HoldsAll uid found (some e) s r known h = (none, s, refl, tt, h)
  fill-HoldsAll uid none none s r known h = (none, s, refl, tt, h)
  fill-HoldsAll uid (some o) none s r known (es, holds, all) =
      let (s', ran, held, cap) = laws.set_law s es uid o holds in
      (
        some o,
        s',
        rw ran refl,
        known,
        (_, held, All-stored text_dec P (cache.capacity s) uid o es all known),
      )

  pub manager_get-HoldsAll :
      (ctx : Ctx) (uid : Text) (s : S) (r : R)
      → HoldsAll s
      → (found : Option Order) × (err : Option E) × (s' : S) × (r' : R) × (manager_get cache repo
            background ctx uid
            (s, r)
          ≡ some (found, err, s', r'))
        × Retrieved P uid found err
        × HoldsAll s'
  unfolding manager_get
  manager_get-HoldsAll ctx uid s r (es, holds, all) =
      let (s1, ran, held, cap) = laws.get_law s es uid holds in
      let kept = All-touched text_dec P uid es all in
      elim (Option-cases (lookup text_dec uid es)) [
        | inr (o, hit) ↦ (
          some o,
          none,
          s1,
          r,
          rw (manager_get, ran, hit) refl,
          All-lookup text_dec P uid o es all hit,
          (_, held, kept),
        )
        | inl miss ↦
            let (found, err, r') = repo.get_order ctx uid r in
            let (found', s', filled, known, h) =
              fill-HoldsAll uid found err s1 r' (sources.got ctx uid r) (_, held, kept) in
            (found', err, s', r', rw (manager_get, ran, miss) filled, known, h)
      ]

  pub manager_set-HoldsAll :
      (ctx : Ctx) (o : Order) (s : S) (r : R)
      → P (o.order_uid, o)
      → HoldsAll s
      → (s' : S) × (r' : R) × (manager_set cache repo background ctx o (s, r) ≡ some (s', r'))
        × HoldsAll s'
  unfolding manager_set
  manager_set-HoldsAll ctx o s r known (es, holds, all) =
      let (s', ran, held, cap) = laws.set_law s es o.order_uid o holds in
      (
        s',
        (repo.save_order ctx o r).1,
        rw (manager_set, ran) refl,
        (_, held, All-stored text_dec P (cache.capacity s) o.order_uid o es all known),
      )

  store_all-HoldsAll :
      (os : List Order) (s : S)
      → All (λ o. P (o.order_uid, o)) os
      → HoldsAll s
      → (s' : S) × (store_all cache repo background os s ≡ some s') × HoldsAll s'
  unfolding store_all
  store_all-HoldsAll [] s known h = (s, refl, h)
  store_all-HoldsAll (o ∷ os) s (known, rest) (es, holds, all) =
      let (s1, ran, held, cap) = laws.set_law s es o.order_uid o holds in
      let (s', more, h) =
        store_all-HoldsAll os s1 rest
          (_, held, All-stored text_dec P (cache.capacity s) o.order_uid o es all known) in
      (s', rw (store_all, ran) more, h)

  pub warm_cache-HoldsAll :
      (ctx : Ctx) (s : S) (r : R)
      → HoldsAll s
      → (s' : S) × (r' : R) × (warm_cache cache repo background ctx (s, r) ≡ some (none, s', r'))
        × HoldsAll s'
  unfolding warm_cache
  warm_cache-HoldsAll ctx s r h =
      let (s', ran, h') =
        store_all-HoldsAll _ s (sources.listed background (cache.capacity s) r) h in
      (s', (repo.get_n_orders background (cache.capacity s) r).2, rw (warm_cache, ran) refl, h')
