-- ===== src/Service.antt =====
-- internal/service/order_service.go: the service in front of the manager. The circuit breaker is that
-- of github.com/sony/gobreaker, a parameter with a state `B`; `with_timeout` is `context.WithTimeout`, in
-- seconds. Each reading of the clock is an argument. `none` is a panic.
pub mod Outcomes
pub mod Traces
pub mod Kept
pub mod Sourced
pub mod Refused
use wb_l.Breaker.{Request, Execute}
use wb_l.Models.Validate.{validate}
use wb_l.Models.Errors.{ModelError}
use wb_l.Manager.{warm_cache, manager_get, manager_set, CacheMethods, Repository}
use wb_l.Base.Time.{is_zero, Time}
use wb_l.Base.{ℕ, map, some, none, Option, if◌then◌else◌}
use wb_l.Base.Text.{Text, is_blank}
use wb_l.Models.{Order}
use mathlib.Core.Option

-- The errors that the service makes, and those that it wraps.
pub data ServiceError (E : Type 0) : Type 0 where
  nil_order empty_uid : ServiceError E
  invalid : ModelError → ServiceError E
  not_processed not_retrieved not_warmed : E → ServiceError E

-- A zero creation date is replaced by the clock's.
unfoldable pub dated : Time → Order → Order
dated stamp o = if is_zero o.date_created then record o { date_created = stamp } else o

module _ {S D Ctx E R B : Type 0} (cache : CacheMethods S D) (repo : Repository Ctx E R)
    (background : Ctx) (execute : Execute Order E B (S × R)) (with_timeout : ℕ → Ctx → Ctx) where
  unfoldable set_request : Ctx → Order → Request Order E (S × R)
  set_request ctx order st =
      Option.map (λ st'. (none, none, st')) (manager_set cache repo background ctx order st)

  unfoldable pub get_request : Ctx → Text → Request Order E (S × R)
  get_request ctx uid st =
      Option.map (λ (o, err, s, r). (o, err, (s, r))) (manager_get cache repo background ctx uid st)

  unfoldable pub warm_request : Ctx → Request Order E (S × R)
  warm_request ctx st =
      Option.map (λ (err, s, r). (none, err, (s, r))) (warm_cache cache repo background ctx st)

  -- `nil` is no order. `now` and `later` are the clocks of the validation, and `stamp` that of the date.
  unfoldable pub process_order :
      (now later stamp : Time)
      → Ctx
      → Option Order
      → B
      → S × R
      → Option (Option (ServiceError E) × B × (S × R))
  unfolding set_request dated
  process_order now later stamp ctx none b st = some (some nil_order, b, st)
  process_order now later stamp ctx (some o) b st = elim (validate now later o) [
    | some e ↦ some (some (invalid e), b, st)
    | none ↦
        Option.map (λ (_, err, b', st'). (Option.map not_processed err, b', st'))
          (execute (set_request (with_timeout 30 ctx) (dated stamp o)) b st)
  ]

  -- An error goes with no order.
  abbrev retrieved : Option Order → Option E → Option Order × Option (ServiceError E)
  retrieved o none = (o, none)
  retrieved o (some e) = (none, some (not_retrieved e))

  unfoldable pub get_order :
      Ctx → Text → B → S × R → Option ((Option Order × Option (ServiceError E)) × B × (S × R))
  unfolding get_request
  get_order ctx uid b st =
      if is_blank uid
      then some ((none, some empty_uid), b, st)
      else Option.map (λ (o, err, b', st'). (retrieved o err, b', st'))
          (execute (get_request (with_timeout 15 ctx) uid) b st)

  unfoldable pub service_warm_cache :
      Ctx → B → S × R → Option (Option (ServiceError E) × B × (S × R))
  unfolding warm_request
  service_warm_cache ctx b st =
      Option.map (λ (_, err, b', st'). (Option.map not_warmed err, b', st'))
        (execute (warm_request (with_timeout 120 ctx)) b st)
