-- ===== src/Service/Traces.antt =====
-- Any sequence of calls of the interface `OrderService` of internal/interfaces/service.go, whatever goroutines make
-- them: where the orders come from that `GetOrder` returns.
use wb_l.Models.Orders.{IsValidOrder}
use wb_l.Base.Time.{Time}
use wb_l.Base.Text.{Text}
use wb_l.Models.{Order}
use wb_l.Manager.{CacheMethods, Repository}
use wb_l.Base.{◌≡◌, some, ◌∷◌, Option, List, inr, [], none, ◌⊎◌, ℕ}
use wb_l.Breaker.{Execute}
use mathlib.Core.Option
use wb_l.Service.{ServiceError, process_order, get_order, service_warm_cache, dated}

-- A call, with what it reads of the clock.
pub data ServiceCall (Ctx : Type 0) : Type 0 where
  submits : (now later stamp : Time) → Ctx → Option Order → ServiceCall Ctx
  retrieves : Ctx → Text → ServiceCall Ctx
  warms : Ctx → ServiceCall Ctx

pub data ServiceReply (E : Type 0) : Type 0 where
  processed : Option (ServiceError E) → ServiceReply E
  got : Option Order → Option (ServiceError E) → ServiceReply E
  cache_warmed : Option (ServiceError E) → ServiceReply E

module _ {S D Ctx E R B : Type 0} (cache : CacheMethods S D) (repo : Repository Ctx E R)
    (background : Ctx) (execute : Execute Order E B (S × R)) (with_timeout : ℕ → Ctx → Ctx) where
  unfoldable pub perform_call : ServiceCall Ctx → B → S × R → Option (ServiceReply E × B × (S × R))
  unfolding process_order get_order service_warm_cache
  perform_call (submits now later stamp ctx o) b st =
      Option.map (λ (err, b', st'). (processed err, b', st'))
        (process_order cache repo background execute with_timeout now later stamp ctx o b st)
  perform_call (retrieves ctx uid) b st =
      Option.map (λ ((o, err), b', st'). (got o err, b', st'))
        (get_order cache repo background execute with_timeout ctx uid b st)
  perform_call (warms ctx) b st =
      Option.map (λ (err, b', st'). (cache_warmed err, b', st'))
        (service_warm_cache cache repo background execute with_timeout ctx b st)

  unfoldable pub perform_calls :
      List (ServiceCall Ctx) → B → S × R → Option (List (ServiceReply E) × B × (S × R))
  unfolding perform_call
  perform_calls [] b st = some ([], b, st)
  perform_calls (c ∷ cs) b st = elim (perform_call c b st) [
    | none ↦ none
    | some (reply, b', st') ↦
        Option.map (λ (replies, b'', st''). (reply ∷ replies, b'', st'')) (perform_calls cs b' st')
  ]

module _ {Ctx : Type 0} where
  -- One of the calls was `ProcessOrder` of an order that was valid then. It is the order, with the date of
  -- the clock if it had none, and its UID.
  abbrev pub Submitted : List (ServiceCall Ctx) → Text × Order → Type 0
  Submitted [] x = ⊥
  Submitted (submits now later stamp ctx (some o) ∷ calls) x =
      (IsValidOrder now later o × (x ≡ (o.order_uid, dated stamp o))) ⊎ Submitted calls x
  Submitted (submits now later stamp ctx none ∷ calls) x = Submitted calls x
  Submitted (retrieves ctx uid ∷ calls) x = Submitted calls x
  Submitted (warms ctx ∷ calls) x = Submitted calls x

  pub Submitted-cons :
      (c : ServiceCall Ctx) (calls : List (ServiceCall Ctx)) (x : Text × Order)
      → Submitted calls x
      → Submitted (c ∷ calls) x
  Submitted-cons (submits now later stamp ctx (some o)) calls x h = inr h
  Submitted-cons (submits now later stamp ctx none) calls x h = h
  Submitted-cons (retrieves ctx uid) calls x h = h
  Submitted-cons (warms ctx) calls x h = h

  -- The order was submitted before, or is one that the database has under the UID.
  abbrev pub Known : (Text × Order → Type 0) → List (ServiceCall Ctx) → Text × Order → Type 0
  Known Stored before x = Submitted before x ⊎ Stored x

  -- What a reply says of its call, after the calls before it.
  abbrev pub Fits :
      {E : Type 0}
      → (Text × Order → Type 0)
      → List (ServiceCall Ctx)
      → ServiceCall Ctx
      → ServiceReply E
      → Type 0
  Fits Stored before (submits now later stamp ctx (some o)) (processed none) =
      IsValidOrder now later o
  Fits Stored before (submits now later stamp ctx o) (processed (some e)) = Unit
  Fits Stored before (retrieves ctx uid) (got (some o) none) = Known Stored before (uid, o)
  Fits Stored before (retrieves ctx uid) (got o (some e)) = Unit
  Fits Stored before (retrieves ctx uid) (got none none) = Unit
  Fits Stored before (warms ctx) (cache_warmed err) = Unit
  Fits Stored before c reply = ⊥

  abbrev pub AllFit :
      {E : Type 0}
      → (Text × Order → Type 0)
      → List (ServiceCall Ctx)
      → List (ServiceCall Ctx)
      → List (ServiceReply E)
      → Type 0
  AllFit Stored before [] [] = Unit
  AllFit Stored before (c ∷ calls) (reply ∷ replies) =
      Fits Stored before c reply × AllFit Stored (c ∷ before) calls replies
  AllFit Stored before calls replies = ⊥
