-- ===== src/Breaker/Trips.antt =====
-- When a breaker of github.com/sony/gobreaker opens, as its documentation says.
use wb_l.Breaker.{Execute, Request}
use wb_l.Base.{Option, none, some, ◌≡◌, ℕ, ◌+◌, Bool, true, false}

-- `HasFailures n b`: the breaker is closed, with `n` consecutive failures, and `IsOpen b`: it is open; both for as long
-- as no interval of the closed state and no timeout of the open state ends. A request that returns an error
-- in the closed state is a failure. After it the breaker asks `ReadyToTrip`, and opens if that says so. An
-- open breaker rejects every request and runs nothing.
pub record TripLaws {X E B St : Type 0} (execute : Execute X E B St) (ready_to_trip : ℕ → Bool)
    (HasFailures : ℕ → B → Type 0) (IsOpen : B → Type 0) : Type 0 where
  pub failed :
      (request : Request X E St) (n : ℕ) (b : B) (st st' : St) (o : Option X) (e : E)
      → HasFailures n b
      → request st ≡ some (o, some e, st')
      → (b' : B) × (execute request b st ≡ some (o, some e, b', st'))
        × (ready_to_trip (n + 1) ≡ false → HasFailures (n + 1) b')
        × (ready_to_trip (n + 1) ≡ true → IsOpen b')
  pub rejected :
      (request : Request X E St) (b : B) (st : St)
      → IsOpen b
      → (e : E) × (b' : B) × (execute request b st ≡ some (none, some e, b', st)) × IsOpen b'
