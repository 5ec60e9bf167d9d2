-- ===== src/System/Requests.antt =====
-- A request to the running program: what its handler sends, and that the process goes on.
use wb_l.Server.Orders.{failure, asked}
use wb_l.Manager.Laws.{CacheLaws}
use wb_l.DeadLetters.{Bytes}
use wb_l.Consumer.Loop.{Retry}
use wb_l.Service.Kept.{get_order-HoldsAll, Sources-map}
use wb_l.Breaker.{BreakerLaws, Execute, Request}
use wb_l.Server.Answers.{
  write_json_response-Replies, handle_get_order-Replies, handle_get_order-is_blank,
}
use wb_l.Base.Text.{trim_space, is_blank, Text}
use wb_l.Server.Writer.{Call}
use wb_l.Base.{some, ℕ, inr, Bool, inl, refl, List, Option, ◌≡◌, Bool-cases, none}
use wb_l.System.Provenance.{IsCalm, cut, Answers, OrderReply, FromBefore, ReplyTo}
use wb_l.Manager.{Repository, CacheMethods}
use wb_l.Manager.Kept.{Retrieved, Sources}
use wb_l.Models.{Order}
use wb_l.Consumer.{Decoded, Message}
use mathlib.Core.Option
use wb_l.Base.Lists.{All}
use wb_l.System.{finish_request, Output, asks, sent, Running, answer_request, answer_state}
use wb_l.Server.Routes.{
  routes, route, dispatch, Mux, Picked, HttpRequest, picked, not_picked, order_handler,
  health_handler, files_handler,
}
use wb_l.Server.Middleware.{
  answered, logged, timed_out, recovered, serve, Race, handler_done, deadline_exceeded,
  context_canceled, writes_on, ends_process,
}
use wb_l.Server.{handle_health, handle_get_order, Encoded, Handled, Json, returned}

serve-cut :
    {St : Type 0} (race : Race) (cs : List Call) (st : St)
    → IsCalm race
    → serve race (returned cs st) ≡ answered (cut race cs)
unfolding serve recovered timed_out logged
serve-cut handler_done cs st calm = refl
serve-cut (deadline_exceeded n (writes_on m)) cs st calm = refl
serve-cut (context_canceled n (writes_on m)) cs st calm = refl
serve-cut (deadline_exceeded n ends_process) cs st calm = absurd calm
serve-cut (context_canceled n ends_process) cs st calm = absurd calm

Retrieved-failure :
    {E E' : Type 0} (P : Text × Order → Type 0) (f : E → E') (uid : Text) (found : Option Order)
    (err : Option E)
    → Retrieved P uid found err
    → Retrieved P uid found (Option.map f err)
Retrieved-failure P f uid found none h = h
Retrieved-failure P f uid found (some e) h = tt

module _ {S D Ctx E R B BK K : Type 0} (text : E → Text) (is_sentinel : E → Bool)
    (decode : Bytes → Decoded) (encode : Json → Encoded) {cache : CacheMethods S D}
    {Holds : S → List (Text × Order) → Type 0} (laws : CacheLaws cache Holds)
    (repo : Repository Ctx E R) (background : Ctx) {execute : Execute Order E B (S × R)}
    (breaker : BreakerLaws execute) (with_timeout : ℕ → Ctx → Ctx)
    (execute_fetch : Execute Message Text BK K) (fetch : Ctx → Request Message Text K)
    (commit : Ctx → Message → K → Option Text × K) (retry : Retry Ctx K) (group_id : Text)
    (mux : Mux) (files other : HttpRequest → List Call) (ctx : Ctx) (Stored : Text × Order → Type 0)
    (sources : Sources repo Stored) where
  before_sources : (done : List Output) → Sources repo (FromBefore decode Stored done)
  before_sources done = Sources-map Stored (FromBefore decode Stored done) (λ x h. inr h) sources

  -- A handler that returns its calls and leaves such a cache.
  abbrev Handles : List Output → (List Call → Type 0) → Handled (B × (S × R)) → Type 0
  Handles done Reply h =
      (cs : List Call) × (b : B) × (s : S) × (r : R) × (h ≡ returned cs (b, (s, r)))
      × Reply cs
      × ((es : List (Text × Order)) × Holds s es × All (FromBefore decode Stored done) es)

  module _ (done : List Output) (b : B) (s : S) (r : R) (es : List (Text × Order))
      (holds : Holds s es) (all : All (FromBefore decode Stored done) es) where
    handle_get_order-Handles :
        (c : Ctx) (path_value : Text)
        → Handles done (OrderReply decode encode Stored mux files other done path_value) (
            handle_get_order encode
              (asked text is_sentinel cache repo background execute with_timeout)
              c
              path_value
              (b, (s, r)))
    unfolding asked
    handle_get_order-Handles c path_value = elim (Bool-cases (is_blank path_value)) [
      | inl blank ↦
          let (cs, message, ran, replies) =
            handle_get_order-is_blank encode
              (asked text is_sentinel cache repo background execute with_timeout) c path_value
              (b, (s, r)) blank in
          (cs, b, s, r, ran, inl (message, replies), (es, holds, all))
      | inr shown ↦
          let (found, err, b', s', r', ran, known, kept) =
            get_order-HoldsAll laws repo background breaker with_timeout (before_sources done) c
              (trim_space path_value) b s r (es, holds, all) in
          let err' = Option.map (failure text is_sentinel) err in
          let (cs, out, replies) =
            handle_get_order-Replies encode
              (asked text is_sentinel cache repo background execute with_timeout) c path_value
              (b, (s, r)) (b', (s', r')) found err' shown (rw (asked, ran) refl) in
          (
            cs,
            b',
            s',
            r',
            out,
            inr (
              found,
              err',
              Retrieved-failure (FromBefore decode Stored done) (failure text is_sentinel)
                  (trim_space path_value) found err known,
              replies,
            ),
            kept,
          )
    ]

    dispatch-Handles :
        (now : Text) (c : Ctx) (q : HttpRequest) (p : Picked)
        → Handles done (ReplyTo decode encode Stored mux files other done now q p) (
            dispatch encode
              (asked text is_sentinel cache repo background execute with_timeout)
              mux
              files
              other
              now
              c
              q
              p
              (b, (s, r)))
    unfolding dispatch handle_health
    dispatch-Handles now c q (picked order_handler v) = handle_get_order-Handles c v
    dispatch-Handles now c q (picked health_handler v) = (
      _,
      b,
      s,
      r,
      refl,
      write_json_response-Replies encode
          (asked text is_sentinel cache repo background execute with_timeout) 200 _,
      (es, holds, all),
    )
    dispatch-Handles now c q (picked files_handler v) = (_, b, s, r, refl, refl, (es, holds, all))
    dispatch-Handles now c q not_picked = (_, b, s, r, refl, refl, (es, holds, all))

  pub answer_request_lem :
      (c : Ctx) (now : Text) (q : HttpRequest) (race : Race) (done : List Output)
      (s : Running S R B BK K) (es : List (Text × Order))
      → IsCalm race
      → Holds s.loop.orders.stores.0 es
      → All (FromBefore decode Stored done) es
      → (ds : List Call) × (s' : Running S R B BK K) × (answer_request text is_sentinel decode
            encode cache repo background execute with_timeout execute_fetch fetch commit retry
            group_id mux files other ctx c now q race s
          ≡ some (sent q ds, s'))
        × Answers decode encode Stored mux files other {Ctx = Ctx} done
            (asks c now q race)
            (sent q ds)
        × (s'.loop.queue ≡ s.loop.queue)
        × ((es' : List (Text × Order)) × Holds s'.loop.orders.stores.0 es'
            × All (FromBefore decode Stored done) es')
  unfolding answer_request finish_request route
  answer_request_lem c now q race done s es calm holds all =
      let (cs, b', s', r', ran, reply, kept) =
        dispatch-Handles done s.loop.orders.breaker s.loop.orders.stores.0 s.loop.orders.stores.1 es
          holds all now (with_timeout 30 c) q (mux routes q) in
      let done_state =
        answer_state text is_sentinel decode encode cache repo background execute with_timeout
          execute_fetch fetch commit retry group_id mux files other ctx s (b', (s', r')) in
      (
        cut race cs,
        done_state,
        rw
            (
              answer_request,
              route,
              ran,
              finish_request,
              serve-cut {St = B × (S × R)} race cs (b', (s', r')) calm,
            )
            refl,
        (refl, (cs, refl, reply)),
        refl,
        kept,
      )
