-- ===== src/Service/Kept.antt =====
-- What the cache of the service of internal/service/order_service.go holds, and what `GetOrder` returns of it.
use wb_l.Service.{ServiceError, not_retrieved, empty_uid, retrieved, get_request, get_order}
use wb_l.Breaker.{BreakerLaws, Execute}
use wb_l.Base.Text.{is_blank, Text}
use wb_l.Models.{Order}
use wb_l.Manager.{Repository, CacheMethods}
use wb_l.Manager.Laws.{CacheLaws}
use wb_l.Base.{◌≡◌, inr, inl, refl, Bool-cases, some, Option, none, ℕ, List}
use wb_l.Base.Lists.{All-map}
use wb_l.Manager.Kept.{HoldsAll, manager_get-HoldsAll, Sources, Retrieved}

Retrieved-map :
    {E : Type 0} (P Q : Text × Order → Type 0) (f : (x : Text × Order) → P x → Q x) (uid : Text)
    (found : Option Order) (err : Option E)
    → Retrieved P uid found err
    → Retrieved Q uid found err
Retrieved-map P Q f uid found (some e) h = tt
Retrieved-map P Q f uid none none h = tt
Retrieved-map P Q f uid (some o) none h = f (uid, o) h

pub Sources-map :
    {Ctx E R : Type 0} {repo : Repository Ctx E R} (P Q : Text × Order → Type 0)
    → ((x : Text × Order) → P x → Q x)
    → Sources repo P
    → Sources repo Q
Sources-map P Q f sources = record {
  got = λ ctx uid r. Retrieved-map P Q f uid _ _ (sources.got ctx uid r);
  listed = λ ctx n r. All-map _ _ _ (λ o. f (o.order_uid, o)) (sources.listed ctx n r);
}

module _ {S D Ctx E R B : Type 0} {cache : CacheMethods S D}
    {Holds : S → List (Text × Order) → Type 0} (laws : CacheLaws cache Holds)
    (repo : Repository Ctx E R) (background : Ctx) {execute : Execute Order E B (S × R)}
    (breaker : BreakerLaws execute) (with_timeout : ℕ → Ctx → Ctx) {P : Text × Order → Type 0}
    (sources : Sources repo P) where
  retrieved-Retrieved :
      (uid : Text) (found : Option Order) (err : Option E)
      → Retrieved P uid found err
      → Retrieved P uid
          (retrieved cache repo background execute with_timeout found err).0
          (retrieved cache repo background execute with_timeout found err).1
  retrieved-Retrieved uid found (some e) k = tt
  retrieved-Retrieved uid none none k = tt
  retrieved-Retrieved uid (some o) none k = k

  -- What `GetOrder` returns has the predicate, and so have the orders in the cache after it.
  pub get_order-HoldsAll :
      (ctx : Ctx) (uid : Text) (b : B) (s : S) (r : R)
      → HoldsAll laws repo background sources s
      → (found : Option Order) × (err : Option (ServiceError E)) × (b' : B) × (s' : S) × (r' : R)
        × (get_order cache repo background execute with_timeout ctx uid b (s, r)
            ≡ some ((found, err), b', (s', r')))
        × Retrieved P uid found err
        × HoldsAll laws repo background sources s'
  unfolding get_order get_request
  get_order-HoldsAll ctx uid b s r h = elim (Bool-cases (is_blank uid)) [
    | inl blank ↦ (none, some empty_uid, b, s, r, rw (get_order, blank) refl, tt, h)
    | inr shown ↦
        let (found, err, s', r', ran, fits, kept) =
          manager_get-HoldsAll laws repo background sources (with_timeout 15 ctx) uid s r h in
        let answers : get_request cache repo background execute with_timeout (with_timeout 15 ctx)
              uid (s, r)
            ≡ some (found, err, (s', r')) =
          rw (get_request, ran) refl in
        elim (breaker.either
          (get_request cache repo background execute with_timeout (with_timeout 15 ctx) uid) b
          (s, r)) [
            | inl (e, b', rejected) ↦ (
              none,
              some (not_retrieved e),
              b',
              s,
              r,
              rw (get_order, shown, rejected) refl,
              tt,
              h,
            )
            | inr (b', through) ↦ (
              (retrieved cache repo background execute with_timeout found err).0,
              (retrieved cache repo background execute with_timeout found err).1,
              b',
              s',
              r',
              rw (get_order, shown, through, answers) refl,
              retrieved-Retrieved uid found err fits,
              kept,
            )
          ]
  ]
