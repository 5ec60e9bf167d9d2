-- ===== src/Examples/Systems.antt =====
-- The theorems on the running program, with a database that answers no query.
use wb_l.Server.Middleware.{deadline_exceeded, writes_on}
use wb_l.Examples.Orders.{mascaras_order}
use wb_l.Consumer.{Message}
use wb_l.Models.{Order}
use wb_l.Server.Paths.{order_request}
use wb_l.Breaker.{Execute}
use wb_l.Examples.Databases.{Store}
use wb_l.Base.Text.{codes, Text}
use wb_l.Examples.Consumers.{reading}
use wb_l.Manager.Lru.{LruState}
use wb_l.Base.{List, [], ℕ, ◌∷◌}
use wb_l.System.{Event, turn, asks}
use mathlib.Core.Option

abbrev lets_through : Execute Order ℕ ℕ (LruState × Store)
lets_through request b st = Option.map (λ (o, err, st'). (o, err, b, st')) (request st)

abbrev pub fetches_one : Execute Message Text ℕ ℕ
fetches_one request b k = Option.map (λ (o, err, k'). (o, err, b, k')) (request k)

-- A message in the first place, and the request for its order.
abbrev two_events : List (Event ℕ)
two_events =
    turn reading
    ∷ asks 3 (codes "2025-11-29T12:00:00Z") (order_request mascaras_order.order_uid)
        (deadline_exceeded 1 (writes_on 2))
    ∷ []
