-- ===== src/System/Runs.antt =====
-- Runs of the program: rounds of the consumer and requests in any order.
use wb_l.Consumer.Processors.{process}
use mathlib.Core.Path.{subst}
use wb_l.Consumer.Processing.{in_turn, Added, unchanged}
use wb_l.Base.Int.{two63}
use wb_l.Consumer.Loop.{Retry}
use wb_l.Manager.{CacheMethods, Repository}
use wb_l.Manager.Kept.{Sources}
use wb_l.Manager.Laws.{CacheLaws}
use wb_l.Server.Writer.{Call}
use wb_l.Server.Routes.{Mux, HttpRequest}
use wb_l.DeadLetters.{Bytes}
use wb_l.System.Provenance.{
  IsCalmEvent, output_bound, handled_of, output_letters, handled_of-cons, Answers, FromBefore,
  AllAnswer,
}
use wb_l.Breaker.{Request, BreakerLaws, Execute}
use wb_l.Consumer.Rounds.{letters_all, FetchLaws}
use wb_l.Base.Text.{Text}
use wb_l.System.Turns.{OutputSettled, AllSettled, AllSettled-cons, KeptOrders-cons, take_turn_lem}
use wb_l.Consumer.{Message, Decoded}
use wb_l.DeadLetters.Issued.{IsQueue}
use wb_l.Models.{Order}
use wb_l.System.Requests.{answer_request_lem}
use wb_l.Server.{Encoded, Json}
use wb_l.Base.{sym, ◌∷◌, ◌+◌, [], refl, ◌*◌, ◌<◌, List, Bool, some, arith, ℕ, Option, ◌≡◌}
use wb_l.Base.Lists.{All, length}
use wb_l.System.{Event, Output, turn, asks, sent, Running, react, run}

module _ {S D Ctx E R B BK K : Type 0} (text : E → Text) (is_sentinel : E → Bool)
    (decode : Bytes → Decoded) (encode : Json → Encoded) {cache : CacheMethods S D}
    {Holds : S → List (Text × Order) → Type 0} (laws : CacheLaws cache Holds)
    (repo : Repository Ctx E R) (background : Ctx) {execute : Execute Order E B (S × R)}
    (breaker : BreakerLaws execute) (with_timeout : ℕ → Ctx → Ctx)
    {execute_fetch : Execute Message Text BK K} (fetch_breaker : BreakerLaws execute_fetch)
    {fetch : Ctx → Request Message Text K} (fetches : FetchLaws fetch)
    (commit : Ctx → Message → K → Option Text × K) (retry : Retry Ctx K) (group_id : Text)
    (mux : Mux) (files other : HttpRequest → List Call) (ctx : Ctx) (Stored : Text × Order → Type 0)
    (sources : Sources repo Stored) where
  abbrev Kept : List Output → Running S R B BK K → Type 0
  Kept done s =
      (es : List (Text × Order)) × Holds s.loop.orders.stores.0 es
      × All (FromBefore decode Stored done) es

  react_lem :
      (e : Event Ctx) (done : List Output) (c : ℕ) (s : Running S R B BK K)
      → IsCalmEvent e
      → IsQueue c s.loop.queue
      → c + 2 < two63
      → Kept done s
      → (o : Output) × (s' : Running S R B BK K) × (react text is_sentinel decode encode cache repo
            background execute with_timeout execute_fetch fetch commit retry group_id mux files
            other ctx e s
          ≡ some (o, s'))
        × Answers decode encode Stored mux files other {Ctx = Ctx} done e o
        × OutputSettled decode
            (process text cache repo background execute with_timeout)
            with_timeout
            ctx
            s'.loop.queue
            o
        × Added (output_letters o) c s.loop.queue s'.loop.queue
        × Kept (o ∷ done) s'
  unfolding react
  react_lem (turn t) done c s calm i below kept =
      take_turn_lem text is_sentinel decode encode laws repo background breaker with_timeout
        fetch_breaker fetches commit retry group_id mux files other ctx Stored t done c s i below
        kept
  react_lem (asks cx now q race) done c s calm i below (es, holds, all) =
      let (ds, s', ran, answers, same, kept) =
        answer_request_lem text is_sentinel decode encode laws repo background breaker with_timeout
          execute_fetch fetch commit retry group_id mux files other ctx Stored sources cx now q race
          done s es calm holds all in
      (
        sent q ds,
        s',
        ran,
        answers,
        tt,
        rw same (unchanged c s.loop.queue i),
        KeptOrders-cons text is_sentinel decode encode laws repo background breaker with_timeout
            fetch_breaker fetches commit retry group_id mux files other ctx Stored (sent q ds) done
            _ kept,
      )

  pub run_lem :
      (events : List (Event Ctx)) (done : List Output) (c : ℕ) (s : Running S R B BK K)
      → All IsCalmEvent events
      → IsQueue c s.loop.queue
      → c + 2 * length events < two63
      → Kept done s
      → (os : List Output) × (s' : Running S R B BK K) × (run text is_sentinel decode encode cache
            repo background execute with_timeout execute_fetch fetch commit retry group_id mux files
            other ctx events s
          ≡ some (os, s'))
        × AllAnswer decode encode Stored mux files other {Ctx = Ctx} done events os
        × AllSettled decode
            (process text cache repo background execute with_timeout)
            with_timeout
            ctx
            s'.loop.queue
            os
        × Added (letters_all (handled_of os)) c s.loop.queue s'.loop.queue
  unfolding run
  run_lem [] done c s calm i below kept = ([], s, refl, tt, tt, unchanged c s.loop.queue i)
  run_lem (e ∷ events) done c s (calm, calms) i below kept =
      let (o, s1, ran, answers, one, added, kept') =
        react_lem e done c s calm i (omega arith) kept in
      let (os, s', rest, all, settled, more) =
        run_lem events (o ∷ done) (c + output_letters o) s1 calms added.queue
          (omega (arith, output_bound o)) kept' in
      (
        o ∷ os,
        s',
        rw (run, ran, rest) refl,
        (answers, all),
        AllSettled-cons decode (process text cache repo background execute with_timeout)
            with_timeout ctx s1.loop.queue s'.loop.queue o os more.keeps one settled,
        subst (λ j. Added j c s.loop.queue s'.loop.queue) (sym (handled_of-cons o os))
            (in_turn (output_letters o) (letters_all (handled_of os)) c added more),
      )
