-- ===== src/System.antt =====
-- The order service of cmd/order_service/main.go while it runs: one order service, the loop of the consumer that
-- gives it orders, and the server that asks it for them. A run is a list of events, in the order in which the
-- two goroutines take turns: a round of the loop, or a request. `none` is the end of the process.

pub mod Provenance
pub mod Turns
pub mod Requests
pub mod Runs
pub mod Program
use wb_l.Server.Orders.{asked}
use wb_l.DeadLetters.{Bytes}
use wb_l.Consumer.Processors.{process, Processing}
use wb_l.Base.Text.{Text}
use wb_l.Consumer.{Message, Decoded, Readings}
use wb_l.Models.{Order}
use wb_l.Server.Writer.{Call}
use wb_l.Consumer.Loop.{round, LoopState, Retry, Turn}
use wb_l.Manager.{Repository, CacheMethods}
use wb_l.Breaker.{Execute, Request}
use wb_l.Server.{Handled, Json, Encoded}
use wb_l.Base.{map, Option, none, ◌∷◌, some, false, Bool, ℕ, List, true, [], if◌then◌else◌}
use mathlib.Core.Option
use wb_l.Consumer.Loop.{stopped, again}
use wb_l.Server.{panicked, returned}
use wb_l.Server.Routes.{HttpRequest, Mux, route}
use wb_l.Server.Middleware.{Race, answered, panicking, crashed, serve}

-- A request comes with its context, the clock that `handleHealth` reads, and the end of its race with the
-- deadline.
pub data Event (Ctx : Type 0) : Type 0 where
  turn : Readings → Event Ctx
  asks : Ctx → (now : Text) → HttpRequest → Race → Event Ctx

pub data Output : Type 0 where
  turned : Turn → Output
  sent : HttpRequest → List Call → Output
  idle : Output

-- Whether the loop is still there.
pub record Running (S R B BK K : Type 0) : Type 0 where
  pub is_looping : Bool
  pub loop : LoopState BK K (Processing S R B)

-- The goroutine of the loop after a round.
abbrev pub loops_on : Turn → Bool
loops_on stopped = false
loops_on (again m) = true

module _ {S D Ctx E R B BK K : Type 0} (text : E → Text) (is_sentinel : E → Bool)
    (decode : Bytes → Decoded) (encode : Json → Encoded) (cache : CacheMethods S D)
    (repo : Repository Ctx E R) (background : Ctx) (execute : Execute Order E B (S × R))
    (with_timeout : ℕ → Ctx → Ctx) (execute_fetch : Execute Message Text BK K)
    (fetch : Ctx → Request Message Text K) (commit : Ctx → Message → K → Option Text × K)
    (retry : Retry Ctx K) (group_id : Text) (mux : Mux) (files other : HttpRequest → List Call)
    (ctx : Ctx) where
  -- A round of the consumer, whose order processor is the service.
  unfoldable pub take_turn : Readings → Running S R B BK K → Option (Output × Running S R B BK K)
  unfolding round process
  take_turn t s =
      if s.is_looping
      then Option.map (λ (tn, l). (turned tn, record { is_looping = loops_on tn; loop = l }))
          (round decode (process text cache repo background execute with_timeout) with_timeout
            execute_fetch fetch commit retry group_id t ctx s.loop)
      else some (idle, s)

  -- The service after a request.
  abbrev pub answer_state : Running S R B BK K → B × (S × R) → Running S R B BK K
  answer_state s (b, st) = record s {
    loop = record s.loop { orders = record s.loop.orders { breaker = b; stores = st } };
  }

  -- A panic of a handler, which is in a goroutine of its own, ends the process sooner or later, however the
  -- race ends. One on the goroutine of the request is recovered by net/http.
  unfoldable pub finish_request :
      HttpRequest
      → Race
      → Running S R B BK K
      → Handled (B × (S × R))
      → Option (Output × Running S R B BK K)
  unfolding serve
  finish_request r race s (panicked cs) = none
  finish_request r race s (returned cs st) = elim (serve race (returned cs st)) [
    | answered ds ↦ some (sent r ds, answer_state s st)
    | panicking ds ↦ some (sent r ds, answer_state s st)
    | crashed ds ↦ none
  ]

  unfoldable pub answer_request :
      Ctx
      → (now : Text) → HttpRequest
      → Race
      → Running S R B BK K
      → Option (Output × Running S R B BK K)
  unfolding finish_request route asked
  answer_request c now r race s = finish_request r race s (
      route encode (asked text is_sentinel cache repo background execute with_timeout) mux files
        other now (with_timeout 30 c) r (s.loop.orders.breaker, s.loop.orders.stores))

  unfoldable pub react : Event Ctx → Running S R B BK K → Option (Output × Running S R B BK K)
  unfolding take_turn answer_request
  react (turn t) s = take_turn t s
  react (asks c now r race) s = answer_request c now r race s

  unfoldable pub run :
      List (Event Ctx) → Running S R B BK K → Option (List Output × Running S R B BK K)
  unfolding react
  run [] s = some ([], s)
  run (e ∷ es) s = elim (react e s) [
    | none ↦ none
    | some (o, s') ↦ Option.map (λ (os, s''). (o ∷ os, s'')) (run es s')
  ]
