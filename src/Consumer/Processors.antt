-- ===== src/Consumer/Processors.antt =====
-- The order service of internal/service/order_service.go as the `OrderProcessor` of
-- internal/interfaces/kafka.go that the loop of consumer.go calls.
use wb_l.LruCache.Spec.{stored}
use wb_l.Models.Orders.{IsValidOrder, validate_iff}
use wb_l.Models.Validate.{validate}
use wb_l.Models.Messages.{model_text}
use wb_l.Base.Time.{Time}
use wb_l.Models.{Order}
use wb_l.Base.Text.{text_dec, codes, Text}
use wb_l.Breaker.{Execute, BreakerLaws}
use wb_l.Manager.Laws.{CacheLaws}
use wb_l.Consumer.Processing.{ProcessorLaws}
use wb_l.Base.{
  is_some, refl, true, ◌⊎◌, ◌∙◌, sym, none, ◌++◌, Option-cases, ◌+◌, inr, Option, ◌≡◌, some, ℕ,
  List, inl,
}
use wb_l.Service.Outcomes.{process_order-either}
use wb_l.Consumer.{Processor}
use wb_l.Manager.{Repository, CacheMethods}
use mathlib.Core.Option
use mathlib.Core.Option.{some-injective}
use mathlib.Core.Path.{subst}
use wb_l.Models.Orders.{IsValidOrder}
use wb_l.Service.{
  dated, process_order, ServiceError, nil_order, empty_uid, invalid, not_processed, not_retrieved,
  not_warmed,
}

-- The text of an error of the service, from that of the error that it wraps.
unfoldable pub service_error_text : {E : Type 0} → (E → Text) → ServiceError E → Text
unfolding model_text
service_error_text text nil_order = codes "order cannot be nil"
service_error_text text empty_uid = codes "order UID cannot be empty"
service_error_text text (invalid e) = codes "order validation failed: " ++ model_text e
service_error_text text (not_processed e) = codes "failed to process order: " ++ text e
service_error_text text (not_retrieved e) = codes "failed to retrieve order: " ++ text e
service_error_text text (not_warmed e) = codes "failed to warm cache: " ++ text e

-- The state of the service, and what its clock still has to show.
pub record Processing (S R B : Type 0) : Type 0 where
  pub clock : ℕ → Time
  pub breaker : B
  pub stores : S × R

module _ {S D Ctx E R B : Type 0} (text : E → Text) (cache : CacheMethods S D)
    (repo : Repository Ctx E R) (background : Ctx) (execute : Execute Order E B (S × R))
    (with_timeout : ℕ → Ctx → Ctx) where
  -- `ProcessOrder` on an order that is not nil. It reads the clock three times.
  unfoldable pub process : Processor Ctx (Processing S R B)
  unfolding process_order service_error_text
  process ctx o p =
      Option.map
        (λ (err, b, st). (
          Option.map (service_error_text text) err,
          record { clock = λ n. p.clock (n + 3); breaker = b; stores = st },
        ))
        (process_order cache repo background execute with_timeout (p.clock 0) (p.clock 1)
          (p.clock 2) ctx (some o) p.breaker p.stores)

module _ {S D Ctx E R B : Type 0} (text : E → Text) {cache : CacheMethods S D}
    {Holds : S → List (Text × Order) → Type 0} (laws : CacheLaws cache Holds)
    (repo : Repository Ctx E R) (background : Ctx) {execute : Execute Order E B (S × R)}
    (breaker : BreakerLaws execute) (with_timeout : ℕ → Ctx → Ctx) where
  -- The cache of the service holds some orders.
  abbrev pub HoldsSome : Processing S R B → Type 0
  HoldsSome p = (es : List (Text × Order)) × Holds p.stores.0 es

  -- The order was refused and changed nothing, or it was valid by the clock of the service, and stands in
  -- its cache.
  abbrev pub Placed :
      Order → Processing S R B → List (Text × Order) → Option Text → Processing S R B → Type 0
  Placed o p es err p' =
      ((is_some err ≡ true) × (p'.stores ≡ p.stores))
      ⊎ ((err ≡ none)
          × IsValidOrder (p.clock 0) (p.clock 1) o
          × Holds p'.stores.0 (
              stored text_dec (cache.capacity p.stores.0) (dated (p.clock 2) o).order_uid
                (dated (p.clock 2) o) es))

  process_result :
      (ctx : Ctx) (o : Order) (p : Processing S R B) (es : List (Text × Order))
      → Holds p.stores.0 es
      → (err : Option Text) × (p' : Processing S R B) × (process text cache repo background execute
            with_timeout ctx o p
          ≡ some (err, p'))
        × Placed o p es err p'
  unfolding process process_order service_error_text
  process_result ctx o p es holds = elim (Option-cases (validate (p.clock 0) (p.clock 1) o)) [
    | inr (e, bad) ↦ (
      some (service_error_text text (invalid e)),
      record { clock = λ n. p.clock (n + 3); breaker = p.breaker; stores = p.stores },
      rw (process, process_order, bad),
      inl (refl, refl),
    )
    | inl good ↦
        let valid = (validate_iff _ _ o).0 good in
        elim (process_order-either laws repo background breaker with_timeout holds p.stores.1 ctx
          p.breaker (p.clock 0) (p.clock 1) (p.clock 2) o valid) [
            | inl (e, b, ran) ↦ (
              some (service_error_text text (not_processed e)),
              record { clock = λ n. p.clock (n + 3); breaker = b; stores = p.stores },
              rw (process, ran),
              inl (refl, refl),
            )
            | inr (b, s, ran, held) ↦ (
              none,
              record {
                clock = λ n. p.clock (n + 3);
                breaker = b;
                stores =
                    (s, (repo.save_order (with_timeout 30 ctx) (dated (p.clock 2) o) p.stores.1).1);
              },
              rw (process, ran),
              inr (refl, valid, held),
            )
          ]
  ]

  -- The same of a result that is known.
  pub process-Placed :
      (ctx : Ctx) (o : Order) (p p' : Processing S R B) (es : List (Text × Order))
      (err : Option Text)
      → Holds p.stores.0 es
      → process text cache repo background execute with_timeout ctx o p ≡ some (err, p')
      → Placed o p es err p'
  process-Placed ctx o p p' es err holds ran =
      let (err', p'', ran', placed) = process_result ctx o p es holds in
      let same = some-injective (err', p'') (err, p') (sym ran' ∙ ran) in
      subst (λ (x : Option Text × Processing S R B). Placed o p es x.0 x.1) same placed

  process_lem :
      (ctx : Ctx) (o : Order) (p : Processing S R B)
      → HoldsSome p
      → (err : Option Text) × (p' : Processing S R B) × (process text cache repo background execute
            with_timeout ctx o p
          ≡ some (err, p'))
        × HoldsSome p'
  process_lem ctx o p (es, holds) =
      let (err, p', ran, placed) = process_result ctx o p es holds in
      (
        err,
        p',
        ran,
        elim placed [
          | inl (failed, same) ↦ (es, subst (λ (x : S × R). Holds x.0 es) (sym same) holds)
          | inr (done, valid, held) ↦ (_, held)
        ],
      )

  -- The order service, over a cache that keeps the laws and a breaker that runs or rejects a
  -- request, is an order processor as the consumer relies on it: from any state whose cache holds
  -- some entries, `ProcessOrder` returns, and leaves such a state.
  pub process-ProcessorLaws :
      ProcessorLaws (process text cache repo background execute with_timeout) HoldsSome
  process-ProcessorLaws = record { returns = process_lem }
