-- ===== src/Service/Refused.antt =====
-- The breaker of internal/service/order_service.go, which the lookups of orders share with the orders that come in:
-- what lookups of unknown orders do to it, and what it does then.
use wb_l.Consumer.Processors.{service_error_text, process}
use wb_l.Database.Reads.{order_repo}
use wb_l.Base.Dict.{lookup}
use wb_l.Service.{
  dated, set_request, not_retrieved, not_processed, get_request, get_order, process_order,
}
use wb_l.Consumer.Settings.{service_settings}
use wb_l.Manager.Laws.{CacheLaws}
use wb_l.Breaker.{Execute}
use wb_l.Base.Lists.{length, All}
use wb_l.Base.Text.{text_dec, is_blank, Text}
use wb_l.Base.Time.{Time}
use wb_l.Models.Orders.{validate_iff, IsValidOrder}
use wb_l.Breaker.Trips.{TripLaws}
use wb_l.Database.{Pgx}
use wb_l.Manager.{CacheMethods}
use wb_l.Database.Failures.{manager_get-order_repo, SelectLaws}
use wb_l.Models.{Order}
use wb_l.Base.{◌<◌, List, [], ◌∷◌, ℕ, ◌+◌, some, none, ◌≡◌, false, true, map, refl, arith}
use wb_l.Service.Traces.{perform_calls, perform_call, ServiceReply, retrieves, got}

-- The UID is not blank, and no order in the cache has it.
abbrev pub Unknown : List (Text × Order) → Text → Type 0
Unknown es uid = (is_blank uid ≡ false) × (lookup text_dec uid es ≡ none)

module _ {S D Ctx E Tx P B : Type 0} {cache : CacheMethods S D}
    {Holds : S → List (Text × Order) → Type 0} (laws : CacheLaws cache Holds) {pgx : Pgx Ctx E Tx P}
    (select : SelectLaws pgx) (background : Ctx) {execute : Execute Order E B (S × P)}
    {HasFailures : ℕ → B → Type 0} {IsOpen : B → Type 0}
    (trips : TripLaws execute (service_settings).ready_to_trip HasFailures IsOpen)
    (with_timeout : ℕ → Ctx → Ctx) where
  lookup_fails :
      (ctx : Ctx) (uid : Text) (n : ℕ) (b : B) (s : S) (es : List (Text × Order)) (p : P)
      → Holds s es
      → Unknown es uid
      → HasFailures n b
      → (e : E) × (b' : B) × (s' : S) × (p' : P) × (perform_call cache
            (order_repo pgx)
            background
            execute
            with_timeout
            (retrieves ctx uid)
            b
            (s, p)
          ≡ some (got none (some (not_retrieved e)), b', (s', p')))
        × Holds s' es
        × ((service_settings).ready_to_trip (n + 1) ≡ false → HasFailures (n + 1) b')
        × ((service_settings).ready_to_trip (n + 1) ≡ true → IsOpen b')
  unfolding perform_call get_order get_request
  lookup_fails ctx uid n b s es p holds (shown, miss) has =
      let (e, s', p', ran, held) =
        manager_get-order_repo select laws background (with_timeout 15 ctx) uid p holds miss in
      let fails : get_request cache (order_repo pgx) background execute with_timeout
            (with_timeout 15 ctx) uid (s, p)
          ≡ some (none, some e, (s', p')) =
        rw (get_request, ran) refl in
      let (b', through, below, at) =
        trips.failed
          (get_request cache (order_repo pgx) background execute with_timeout (with_timeout 15 ctx)
            uid)
          n b (s, p) (s', p') none e has fails in
      (e, b', s', p', rw (perform_call, get_order, shown, through) refl, held, below, at)

  -- From `n` failures on, as many lookups of unknown orders as are missing to five.
  pub perform_calls-IsOpen :
      (ctx : Ctx) (uids : List Text) (n : ℕ) (b : B) (s : S) (es : List (Text × Order)) (p : P)
      → Holds s es
      → All (Unknown es) uids
      → HasFailures n b
      → n < 5
      → n + length uids ≡ 5
      → (replies : List (ServiceReply E)) × (b' : B) × (s' : S) × (p' : P) × (perform_calls cache
            (order_repo pgx)
            background
            execute
            with_timeout
            (map (retrieves ctx) uids)
            b
            (s, p)
          ≡ some (replies, b', (s', p')))
        × Holds s' es
        × IsOpen b'
  unfolding perform_calls service_settings
  perform_calls-IsOpen ctx [] n b s es p holds unknown has below five =
      absurd (omega (arith, below, five))
  perform_calls-IsOpen ctx (uid ∷ []) n b s es p holds (u, rest) has below five =
      let (e, b', s', p', ran, held, under, over) = lookup_fails ctx uid n b s es p holds u has in
      (
        got none (some (not_retrieved e)) ∷ [],
        b',
        s',
        p',
        rw (perform_calls, ran) refl,
        held,
        over (ground (arith, five)),
      )
  perform_calls-IsOpen ctx (uid ∷ next ∷ uids) n b s es p holds (u, rest) has below five =
      let (e, b1, s1, p1, ran, held, under, over) = lookup_fails ctx uid n b s es p holds u has in
      let (replies, b', s', p', more, held', opened) =
        perform_calls-IsOpen ctx (next ∷ uids) (n + 1) b1 s1 es p1 held rest
          (under (ground (arith, five))) (omega (arith, five)) (omega (arith, five)) in
      (
        got none (some (not_retrieved e)) ∷ replies,
        b',
        s',
        p',
        rw (perform_calls, ran, more) refl,
        held',
        opened,
      )

  process_order-refused :
      (now later stamp : Time) (ctx : Ctx) (o : Order) (b : B) (st : S × P)
      → IsValidOrder now later o
      → IsOpen b
      → (e : E) × (b' : B) × (process_order cache
            (order_repo pgx)
            background
            execute
            with_timeout
            now
            later
            stamp
            ctx
            (some o)
            b
            st
          ≡ some (some (not_processed e), b', st))
        × IsOpen b'
  unfolding process_order
  process_order-refused now later stamp ctx o b st valid opened =
      let ok = (validate_iff now later o).1 valid in
      let (e, b', out, still) =
        trips.rejected
          (set_request cache (order_repo pgx) background execute with_timeout (with_timeout 30 ctx)
            (dated stamp o))
          b st opened in
      (e, b', rw (process_order, ok, out) refl, still)

  -- The same of the service as the processor of the consumer.
  pub process-refused :
      (text : E → Text) (ctx : Ctx) (o : Order) (clock : ℕ → Time) (b : B) (st : S × P)
      → IsValidOrder (clock 0) (clock 1) o
      → IsOpen b
      → (why : Text) × (b' : B) × (process text cache
            (order_repo pgx)
            background
            execute
            with_timeout
            ctx
            o
            (record { clock = clock; breaker = b; stores = st })
          ≡ some (some why, record { clock = λ n. clock (n + 3); breaker = b'; stores = st }))
        × IsOpen b'
  unfolding process
  process-refused text ctx o clock b st valid opened =
      let (e, b', ran, still) =
        process_order-refused (clock 0) (clock 1) (clock 2) ctx o b st valid opened in
      (service_error_text text (not_processed e), b', rw (process, ran) refl, still)
