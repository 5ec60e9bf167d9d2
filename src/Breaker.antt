-- ===== src/Breaker.antt =====
-- The circuit breaker of github.com/sony/gobreaker, which internal/service/order_service.go and
-- internal/kafka/consumer.go call: the type of `Execute`, and what its documentation says of it. `B`
-- is the state of the breaker. `none` is a panic.
pub mod Trips
use wb_l.Base.{map, Option, none, some, ◌≡◌, ◌⊎◌}
use mathlib.Core.Option

-- A request of the breaker: its result, where `none` is nil, its error, and the state that it leaves.
abbrev pub Request : (X E St : Type 0) → Type 0
Request X E St = St → Option (Option X × Option E × St)

-- `(*CircuitBreaker).Execute`
abbrev pub Execute : (X E B St : Type 0) → Type 0
Execute X E B St = Request X E St → B → St → Option (Option X × Option E × B × St)

-- The documented behaviour of `Execute`: it returns an error at once and runs nothing if the breaker rejects the
-- request, and otherwise returns the result of the request.
pub record BreakerLaws {X E B St : Type 0} (execute : Execute X E B St) : Type 0 where
  pub either :
      (request : Request X E St) (b : B) (st : St)
      → ((e : E) × (b' : B) × (execute request b st ≡ some (none, some e, b', st)))
        ⊎ ((b' : B) × (execute request b st
              ≡ Option.map (λ (o, err, st'). (o, err, b', st')) (request st)))
