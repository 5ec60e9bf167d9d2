-- ===== src/Server/Pipeline.antt =====
-- An order from its Kafka message to the reply of the server: `processMessage` of internal/kafka/consumer.go with
-- the order service as its processor, then `handleGetOrder` of internal/server/handlers.go.
use wb_l.Service.{dated}
use wb_l.Models.{Order}
use wb_l.Base.Text.{Text}
use wb_l.Models.Orders.{validate_iff, IsValidOrder}
use wb_l.Breaker.{BreakerLaws, Execute}
use wb_l.Manager.Laws.{CacheLaws}
use wb_l.Server.Orders.{process_order-handle_get_order, Shows}
use wb_l.DeadLetters.{Queue, Bytes}
use wb_l.Base.{◌≡◌, none, some, List, Bool, inr, refl, ◌⊎◌, ◌+◌, inl, Option, ℕ}
use wb_l.Manager.{CacheMethods, Repository}
use wb_l.Consumer.Processors.{service_error_text, process, Processing}
use wb_l.Server.{Json, Encoded}
use wb_l.Service
use wb_l.Consumer.{
  process_decoded, process_message, Decoded, ProcessError, Readings, Message, decoded,
  not_processed,
}

module _ {S D Ctx E R B : Type 0} (text : E → Text) (is_sentinel : E → Bool)
    (decode : Bytes → Decoded) (encode : Json → Encoded) {cache : CacheMethods S D}
    {Holds : S → List (Text × Order) → Type 0} (laws : CacheLaws cache Holds)
    (repo : Repository Ctx E R) (background : Ctx) {execute : Execute Order E B (S × R)}
    (breaker : BreakerLaws execute) (with_timeout : ℕ → Ctx → Ctx) where
  -- From Kafka to the client, over a cache that keeps the laws and a breaker that runs or rejects
  -- a request: `processMessage` of a message that decodes to an order, valid for the consumer and,
  -- by its clock, for the service, sends nothing to the dead letter queue. It returns either an
  -- error of the processing, or no error, and then a request for the UID of the order is answered
  -- as JSON: with status 200 and the order, with the date of the clock if it had none, or, if the
  -- breaker rejects it, with the reply to that error.
  pub process_message-Shows :
      (t : Readings) (ctx request : Ctx) (m : Message) (q : Queue) (p : Processing S R B)
      (o : Order) (es : List (Text × Order))
      → decode m.value ≡ decoded o
      → IsValidOrder t.now t.later o
      → IsValidOrder (p.clock 0) (p.clock 1) o
      → Holds p.stores.0 es
      → (err : Option ProcessError) × (p' : Processing S R B) × (process_message decode
            (process text cache repo background execute with_timeout)
            with_timeout
            t
            ctx
            m
            q
            p
          ≡ some (err, q, p'))
        × (((e : Text) × (err ≡ some (not_processed e)))
            ⊎ ((err ≡ none)
                × Shows text is_sentinel cache repo background execute with_timeout encode request
                    o.order_uid
                    (dated (p.clock 2) o)
                    (p'.breaker, p'.stores)))
  unfolding process_message process_decoded process
  process_message-Shows t ctx request m q p o es here valid valid_later holds =
      let ok_first = (validate_iff t.now t.later o).1 valid in
      elim (process_order-handle_get_order text is_sentinel encode laws repo background breaker
        with_timeout holds p.stores.1 (with_timeout 30 ctx) p.breaker (p.clock 0) (p.clock 1)
        (p.clock 2) o request valid_later) [
          | inl (e, b, ran) ↦ (
            some (not_processed (service_error_text text (wb_l.Service.not_processed e))),
            record { clock = λ n. p.clock (n + 3); breaker = b; stores = p.stores },
            rw (process_message, here, process_decoded, ok_first, process, ran) refl,
            inl (_, refl),
          )
          | inr (st, ran, shows) ↦ (
            none,
            record { clock = λ n. p.clock (n + 3); breaker = st.0; stores = st.1 },
            rw (process_message, here, process_decoded, ok_first, process, ran) refl,
            inr (refl, shows),
          )
        ]
