-- ===== src/Service/Sourced.antt =====
-- Where the orders come from that the service of internal/service/order_service.go returns.
use wb_l.Service.Kept.{get_order-HoldsAll, Sources-map}
use wb_l.Models.Validate.{validate}
use wb_l.Base.Time.{Time}
use wb_l.Service.Outcomes.{order_uid-dated}
use wb_l.Models.Orders.{validate_iff, IsValidOrder}
use wb_l.Service.Traces.{
  cache_warmed, submits, Submitted-cons, processed, got, warms, retrieves, perform_calls,
  perform_call, Fits, ServiceReply, AllFit, ServiceCall, Known,
}
use wb_l.Service.{
  ServiceError, invalid, nil_order, not_processed, not_warmed, dated, warm_request, set_request,
  service_warm_cache, process_order,
}
use wb_l.Breaker.{BreakerLaws, Execute}
use wb_l.Base.Text.{Text}
use wb_l.Models.{Order}
use wb_l.Manager.{Repository, CacheMethods}
use wb_l.Manager.Laws.{CacheLaws}
use wb_l.Base.{ap, Option-cases, ◌≡◌, inr, inl, refl, [], ◌∷◌, some, Option, none, ℕ, List}
use wb_l.Base.Lists.{All, All-map}
use wb_l.Manager.Kept.{manager_set-HoldsAll, warm_cache-HoldsAll, Sources, Retrieved}

module _ {S D Ctx E R B : Type 0} {cache : CacheMethods S D}
    {Holds : S → List (Text × Order) → Type 0} (laws : CacheLaws cache Holds)
    (repo : Repository Ctx E R) (background : Ctx) {execute : Execute Order E B (S × R)}
    (breaker : BreakerLaws execute) (with_timeout : ℕ → Ctx → Ctx) (Stored : Text × Order → Type 0)
    (sources : Sources repo Stored) where
  -- The cache holds what was submitted before, or what the database has.
  abbrev Kept : List (ServiceCall Ctx) → S → Type 0
  Kept before s = (es : List (Text × Order)) × Holds s es × All (Known Stored before) es

  -- A call returns a reply that fits, and leaves such a cache.
  abbrev Returns : List (ServiceCall Ctx) → ServiceCall Ctx → B → S × R → Type 0
  Returns before c b st =
      (reply : ServiceReply E) × (b' : B) × (s' : S) × (r' : R) × (perform_call cache repo
          background execute with_timeout c b st
        ≡ some (reply, b', (s', r')))
      × Fits Stored before c reply
      × Kept (c ∷ before) s'

  Known-cons :
      (before : List (ServiceCall Ctx)) (c : ServiceCall Ctx) (x : Text × Order)
      → Known Stored before x
      → Known Stored (c ∷ before) x
  Known-cons before c x (inl h) = inl (Submitted-cons c before x h)
  Known-cons before c x (inr h) = inr h

  Kept-cons :
      (before : List (ServiceCall Ctx)) (c : ServiceCall Ctx) (s : S)
      → Kept before s
      → Kept (c ∷ before) s
  Kept-cons before c s (es, holds, all) = (es, holds, All-map _ _ es (Known-cons before c) all)

  known : (before : List (ServiceCall Ctx)) → Sources repo (Known Stored before)
  known before = Sources-map Stored (Known Stored before) (λ x h. inr h) sources

  got-Fits :
      (ctx : Ctx) (before : List (ServiceCall Ctx)) (uid : Text) (found : Option Order)
      (err : Option (ServiceError E))
      → Retrieved (Known Stored before) uid found err
      → Fits Stored before (retrieves ctx uid) (got found err)
  got-Fits ctx before uid none none k = tt
  got-Fits ctx before uid none (some e) k = tt
  got-Fits ctx before uid (some o) none k = k
  got-Fits ctx before uid (some o) (some e) k = tt

  module _ (before : List (ServiceCall Ctx)) (b : B) (s : S) (r : R) where
    process-Returns :
        (now later stamp : Time) (ctx : Ctx) (o : Order)
        → IsValidOrder now later o
        → Kept before s
        → Returns before (submits now later stamp ctx (some o)) b (s, r)
    unfolding perform_call process_order set_request
    process-Returns now later stamp ctx o valid h =
        let c = submits now later stamp ctx (some o) in
        let d = dated stamp o in
        let h' = Kept-cons before c s h in
        let new : Known Stored (c ∷ before) (d.order_uid, d) =
          inl (inl (valid, ap (λ u. (u, d)) (order_uid-dated stamp o))) in
        let (s', r', ran, kept) =
          manager_set-HoldsAll laws repo background (known (c ∷ before)) (with_timeout 30 ctx) d s r
            new h' in
        let ok = (validate_iff now later o).1 valid in
        elim (breaker.either
          (set_request cache repo background execute with_timeout (with_timeout 30 ctx) d) b
          (s, r)) [
            | inl (e, b', rejected) ↦ (
              processed (some (not_processed e)),
              b',
              s,
              r,
              rw (perform_call, process_order, ok, rejected) refl,
              tt,
              h',
            )
            | inr (b', through) ↦ (
              processed none,
              b',
              s',
              r',
              rw (perform_call, process_order, ok, through, set_request, ran) refl,
              valid,
              kept,
            )
          ]

    retrieves-Returns :
        (ctx : Ctx) (uid : Text) → Kept before s → Returns before (retrieves ctx uid) b (s, r)
    unfolding perform_call
    retrieves-Returns ctx uid h =
        let (found, err, b', s', r', ran, fits, kept) =
          get_order-HoldsAll laws repo background breaker with_timeout (known before) ctx uid b s r
            h in
        (
          got found err,
          b',
          s',
          r',
          rw (perform_call, ran) refl,
          got-Fits ctx before uid found err fits,
          kept,
        )

    warm-Returns : (ctx : Ctx) → Kept before s → Returns before (warms ctx) b (s, r)
    unfolding perform_call service_warm_cache warm_request
    warm-Returns ctx h =
        let (s', r', ran, kept) =
          warm_cache-HoldsAll laws repo background (known before) (with_timeout 120 ctx) s r h in
        elim (breaker.either
          (warm_request cache repo background execute with_timeout (with_timeout 120 ctx)) b
          (s, r)) [
            | inl (e, b', rejected) ↦ (
              cache_warmed (some (not_warmed e)),
              b',
              s,
              r,
              rw (perform_call, service_warm_cache, rejected) refl,
              tt,
              h,
            )
            | inr (b', through) ↦ (
              cache_warmed none,
              b',
              s',
              r',
              rw (perform_call, service_warm_cache, through, warm_request, ran) refl,
              tt,
              kept,
            )
          ]

    perform_call-Returns : (c : ServiceCall Ctx) → Kept before s → Returns before c b (s, r)
    unfolding perform_call process_order
    perform_call-Returns (submits now later stamp ctx none) h =
        (processed (some nil_order), b, s, r, refl, tt, h)
    perform_call-Returns (submits now later stamp ctx (some o)) h =
        elim (Option-cases (validate now later o)) [
          | inr (e, bad) ↦ (
            processed (some (invalid e)),
            b,
            s,
            r,
            rw (perform_call, process_order, bad) refl,
            tt,
            Kept-cons before (submits now later stamp ctx (some o)) s h,
          )
          | inl good ↦ process-Returns now later stamp ctx o ((validate_iff now later o).0 good) h
        ]
    perform_call-Returns (retrieves ctx uid) h = retrieves-Returns ctx uid h
    perform_call-Returns (warms ctx) h = warm-Returns ctx h

  perform_calls-AllFit :
      (calls before : List (ServiceCall Ctx)) (b : B) (s : S) (r : R)
      → Kept before s
      → (replies : List (ServiceReply E)) × (b' : B) × (st : S × R) × (perform_calls cache repo
            background execute with_timeout calls b
            (s, r)
          ≡ some (replies, b', st))
        × AllFit Stored before calls replies
  unfolding perform_calls
  perform_calls-AllFit [] before b s r h = ([], b, (s, r), refl, tt)
  perform_calls-AllFit (c ∷ calls) before b s r h =
      let (reply, b1, s1, r1, ran, fits, kept) = perform_call-Returns before b s r c h in
      let (replies, b', st, rest, all) = perform_calls-AllFit calls (c ∷ before) b1 s1 r1 kept in
      (reply ∷ replies, b', st, rw (perform_calls, ran, rest) refl, (fits, all))

  -- Over an empty cache that keeps the laws and a breaker that runs or rejects a request: any
  -- sequence of calls of the service returns. An order that was processed without an error was
  -- valid. An order that `GetOrder` returns without an error was processed before in the sequence,
  -- valid and under this UID, with the date of the clock if it had none, or the repository has it
  -- under this UID, where the predicate `Stored` says which orders the repository returns.
  pub perform_calls-Known :
      (calls : List (ServiceCall Ctx)) (b : B) (s : S) (r : R)
      → Holds s []
      → (replies : List (ServiceReply E)) × (b' : B) × (st : S × R) × (perform_calls cache repo
            background execute with_timeout calls b
            (s, r)
          ≡ some (replies, b', st))
        × AllFit Stored [] calls replies
  perform_calls-Known calls b s r empty = perform_calls-AllFit calls [] b s r ([], empty, tt)
