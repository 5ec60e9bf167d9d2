-- ===== src/Server/Paths.antt =====
-- The path of an order, `GET /order/{order_uid}`, through the mux of internal/server/server.go.
use wb_l.Service.{not_retrieved, dated}
use wb_l.Server.Orders.{failure, asked}
use wb_l.Models.Patterns.{is_uid_char}
use wb_l.Server.{order_json, returned, Json, Encoded}
use wb_l.Server.Answers.{json_for, status_for, Replies}
use wb_l.Breaker.{BreakerLaws, Execute}
use wb_l.Server.Pipeline.{process_message-Shows}
use wb_l.Manager.Laws.{CacheLaws}
use wb_l.Manager.{Repository, CacheMethods}
use wb_l.Server.Writer.{Call}
use wb_l.Models.{Order}
use wb_l.Consumer.{
  not_processed, process_message, decoded, Readings, Message, ProcessError, Decoded,
}
use wb_l.Consumer.Processors.{process, Processing}
use wb_l.Models.Orders.{uid_text, IsValidOrder}
use wb_l.DeadLetters.{Queue, Bytes}
use wb_l.Base.{List, false, some, ◌≡◌, ◌⊎◌, Bool, inl, ℕ, true, ◌++◌, inr, Option, none}
use wb_l.Server.Routes.{HttpRequest, Mux, picked, order_handler, routes, route, dispatch}
use wb_l.Base.Text.{codes, Text, all, is_nil}

-- The request for the order with the UID.
abbrev pub order_request : Text → HttpRequest
order_request uid = record { method = codes "GET"; path = codes "/order/" ++ uid }

-- What net/http documents of `ServeMux`: of the patterns that match it picks the most specific, and a wildcard
-- stands for one segment of the path, which no character of a UID ends or escapes.
pub record MuxLaws (mux : Mux) : Type 0 where
  pub order_path :
      (uid : Text)
      → all is_uid_char uid ≡ true
      → is_nil uid ≡ false
      → mux routes (order_request uid) ≡ picked order_handler uid

module _ {S D Ctx E R B : Type 0} (text : E → Text) (is_sentinel : E → Bool)
    (decode : Bytes → Decoded) (encode : Json → Encoded) {cache : CacheMethods S D}
    {Holds : S → List (Text × Order) → Type 0} (laws : CacheLaws cache Holds)
    (repo : Repository Ctx E R) (background : Ctx) {execute : Execute Order E B (S × R)}
    (breaker : BreakerLaws execute) (with_timeout : ℕ → Ctx → Ctx) {mux : Mux}
    (mux_laws : MuxLaws mux) (files other : HttpRequest → List Call) where
  -- The server sends the order, or the reply to an error of the breaker.
  abbrev pub RouteShows : (now : Text) → Ctx → Text → Order → B × (S × R) → Type 0
  RouteShows now ctx uid o st =
      (cs : List Call) × (st' : B × (S × R)) × (route encode
          (asked text is_sentinel cache repo background execute with_timeout) mux files other now
          ctx (order_request uid) st
        ≡ returned cs st')
      × (Replies encode 200 (order_json o) cs
          ⊎ ((e : E) × Replies encode
                (status_for none (some (failure text is_sentinel (not_retrieved e))))
                (json_for uid none (some (failure text is_sentinel (not_retrieved e)))) cs))

  -- From Kafka to the client, over a cache that keeps the laws, a breaker that runs or rejects a
  -- request, and a mux as net/http documents it: `processMessage` of a message that decodes to an
  -- order, valid for the consumer and, by its clock, for the service, sends nothing to the dead
  -- letter queue. It returns either an error of the processing, or no error, and then `GET
  -- /order/` with the UID of the order is answered as JSON: with status 200 and the order, with
  -- the date of the clock if it had none, or, if the breaker rejects it, with the reply to that
  -- error.
  pub process_message-RouteShows :
      (t : Readings) (ctx request : Ctx) (now : Text) (m : Message) (q : Queue)
      (p : Processing S R B) (o : Order) (es : List (Text × Order))
      → decode m.value ≡ decoded o
      → IsValidOrder t.now t.later o
      → IsValidOrder (p.clock 0) (p.clock 1) o
      → Holds p.stores.0 es
      → (err : Option ProcessError) × (p' : Processing S R B) × (process_message decode
            (process text cache repo background execute with_timeout)
            with_timeout
            t
            ctx
            m
            q
            p
          ≡ some (err, q, p'))
        × (((e : Text) × (err ≡ some (not_processed e)))
            ⊎ ((err ≡ none)
                × RouteShows now request o.order_uid (dated (p.clock 2) o) (p'.breaker, p'.stores)))
  unfolding route dispatch
  process_message-RouteShows t ctx request now m q p o es here valid valid_later holds =
      let (err, p', ran, after) =
        process_message-Shows text is_sentinel decode encode laws repo background breaker
          with_timeout t ctx request m q p o es here valid valid_later holds in
      let (chars, shown) = uid_text o.order_uid valid.order_uid in
      let path = mux_laws.order_path o.order_uid chars shown in
      (
        err,
        p',
        ran,
        elim after [
          | inl failed ↦ inl failed
          | inr (ok, (cs, st', out, replies)) ↦
              inr (ok, (cs, st', rw (route, path, dispatch) out, replies))
        ],
      )
