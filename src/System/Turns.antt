-- ===== src/System/Turns.antt =====
-- A round of the consumer in the running program: the cache of the service holds what came with a message that
-- was handled without an error, or what the database has.
use wb_l.Service.{dated}
use mathlib.Core.Option
use wb_l.System.{Output, Running, sent}
use mathlib.Core.Path.{subst}
use wb_l.Consumer.Processing.{Keeps, Added, unchanged}
use wb_l.Base.Int.{two63}
use wb_l.DeadLetters.Issued.{IsQueue}
use wb_l.Consumer.Advances.{round-AfterRound, TurnAdvances}
use wb_l.Service.Outcomes.{order_uid-dated}
use wb_l.Consumer.Rounds.{Settled, Settled-Keeps, TurnSettled, round_lem, FetchLaws}
use wb_l.Server.Writer.{Call}
use wb_l.Consumer.{Processor, not_processed, ProcessError, Readings, decoded, Message, Decoded}
use wb_l.DeadLetters.{Queue, Bytes}
use wb_l.Server.Routes.{HttpRequest, Mux}
use wb_l.Breaker.{Execute, Request, BreakerLaws}
use wb_l.Manager.Laws.{CacheLaws}
use wb_l.System.Provenance.{handled_of, output_letters, Answers, FromBefore, Came-cons, Brought}
use wb_l.LruCache.Kept.{All-stored}
use wb_l.Manager.{Repository, CacheMethods}
use wb_l.Base.Text.{text_dec, Text}
use wb_l.Models.{Order}
use wb_l.Consumer.Processors.{process-Placed, process-ProcessorLaws, process, Placed, Processing}
use wb_l.Base.{
  refl, ◌<◌, ◌+◌, Bool-cases, inl, Option, inr, ◌∷◌, ap, none, Bool, ◌≡◌, List, sym, some, ℕ,
}
use wb_l.Server.{Json, Encoded}
use wb_l.Base.Lists.{All, All-map}
use wb_l.System.{loops_on, Output, turn, turned, idle, Running, take_turn}
use wb_l.Consumer.Loop.{Retry, Turn, stopped, again}

module _ {Ctx P : Type 0} (decode : Bytes → Decoded) (processor : Processor Ctx P)
    (with_timeout : ℕ → Ctx → Ctx) (ctx : Ctx) where
  -- Why a message was accepted or not, and a letter in the queue if it was not.
  abbrev pub OutputSettled : Queue → Output → Type 0
  OutputSettled q (turned tn) = TurnSettled decode processor with_timeout ctx q tn
  OutputSettled q (sent r cs) = Unit
  OutputSettled q idle = Unit

  -- The same of each message that was handled.
  abbrev pub AllSettled : Queue → List Output → Type 0
  AllSettled q os = All (Settled decode processor with_timeout ctx q) (handled_of os)

  pub AllSettled-cons :
      (q q' : Queue) (o : Output) (os : List Output)
      → Keeps q q'
      → OutputSettled q o
      → AllSettled q' os
      → AllSettled q' (o ∷ os)
  AllSettled-cons q q' (turned (again (some h))) os keeps one all =
      (Settled-Keeps decode processor with_timeout ctx q q' h keeps one, all)
  AllSettled-cons q q' (turned (again none)) os keeps one all = all
  AllSettled-cons q q' (turned stopped) os keeps one all = all
  AllSettled-cons q q' (sent r cs) os keeps one all = all
  AllSettled-cons q q' idle os keeps one all = all

module _ {S D Ctx E R B BK K : Type 0} (text : E → Text) (is_sentinel : E → Bool)
    (decode : Bytes → Decoded) (encode : Json → Encoded) {cache : CacheMethods S D}
    {Holds : S → List (Text × Order) → Type 0} (laws : CacheLaws cache Holds)
    (repo : Repository Ctx E R) (background : Ctx) {execute : Execute Order E B (S × R)}
    (breaker : BreakerLaws execute) (with_timeout : ℕ → Ctx → Ctx)
    {execute_fetch : Execute Message Text BK K} (fetch_breaker : BreakerLaws execute_fetch)
    {fetch : Ctx → Request Message Text K} (fetches : FetchLaws fetch)
    (commit : Ctx → Message → K → Option Text × K) (retry : Retry Ctx K) (group_id : Text)
    (mux : Mux) (files other : HttpRequest → List Call) (ctx : Ctx)
    (Stored : Text × Order → Type 0) where
  abbrev pub KeptOrders : List Output → S → Type 0
  KeptOrders done s =
      (es : List (Text × Order)) × Holds s es × All (FromBefore decode Stored done) es

  FromBefore-cons :
      (o : Output) (done : List Output) (x : Text × Order)
      → FromBefore decode Stored done x
      → FromBefore decode Stored (o ∷ done) x
  FromBefore-cons o done x (inl h) = inl (Came-cons decode o done x h)
  FromBefore-cons o done x (inr h) = inr h

  pub KeptOrders-cons :
      (o : Output) (done : List Output) (s : S) → KeptOrders done s → KeptOrders (o ∷ done) s
  KeptOrders-cons o done s (es, holds, all) =
      (es, holds, All-map _ _ es (FromBefore-cons o done) all)

  Placed-KeptOrders :
      (done : List Output) (m : Message) (o : Order) (p p' : Processing S R B)
      (es : List (Text × Order)) (failure : Option Text)
      → decode m.value ≡ decoded o
      → All (FromBefore decode Stored done) es
      → Holds p.stores.0 es
      → Placed text laws repo background breaker with_timeout o p es failure p'
      → KeptOrders (turned (again (some (m, Option.map not_processed failure))) ∷ done) p'.stores.0
  Placed-KeptOrders done m o p p' es failure read all holds (inl (failed, same)) =
      KeptOrders-cons (turned (again (some (m, Option.map not_processed failure)))) done _
        (es, subst (λ (x : S × R). Holds x.0 es) (sym same) holds, all)
  Placed-KeptOrders done m o p p' es failure read all holds (inr (ok, valid, held)) =
      let d = dated (p.clock 2) o in
      let accepted : Output = turned (again (some (m, none))) in
      let brought : Brought decode m (d.order_uid, d) = record {
        order = o;
        now = p.clock 0;
        later = p.clock 1;
        stamp = p.clock 2;
        read = read;
        valid = valid;
        kept = ap (λ u. (u, d)) (order_uid-dated (p.clock 2) o);
      } in
      let kept : KeptOrders (accepted ∷ done) p'.stores.0 = (
        _,
        held,
        All-stored text_dec (FromBefore decode Stored (accepted ∷ done)) (cache.capacity p.stores.0)
            d.order_uid d es (All-map _ _ es (FromBefore-cons accepted done) all)
            (inl (inl brought)),
      ) in
      subst
        (λ (x : Option Text).
          KeptOrders (turned (again (some (m, Option.map not_processed x))) ∷ done) p'.stores.0)
        (sym ok) kept

  moved :
      (tn : Turn) (done : List Output) (p p' : Processing S R B)
      → KeptOrders done p.stores.0
      → p' ≡ p
      → KeptOrders (turned tn ∷ done) p'.stores.0
  moved tn done p p' h same =
      subst (λ (q : Processing S R B). KeptOrders (turned tn ∷ done) q.stores.0) (sym same)
        (KeptOrders-cons (turned tn) done _ h)

  Advances-KeptOrders :
      (done : List Output) (tn : Turn) (p p' : Processing S R B)
      → KeptOrders done p.stores.0
      → TurnAdvances decode
          (process text cache repo background execute with_timeout)
          with_timeout
          ctx
          p
          tn
          p'
      → KeptOrders (turned tn ∷ done) p'.stores.0
  Advances-KeptOrders done stopped p p' h same = moved stopped done p p' h same
  Advances-KeptOrders done (again none) p p' h same = moved (again none) done p p' h same
  Advances-KeptOrders done (again (some (m, none))) p p' h (inr (same, bad)) = cc
  Advances-KeptOrders done (again (some (m, some e))) p p' h (inr (same, bad)) =
      moved (again (some (m, some e))) done p p' h same
  Advances-KeptOrders done (again (some (m, err))) p p' (es, holds, all) (inl g) =
      let placed =
        process-Placed text laws repo background breaker with_timeout (with_timeout 30 ctx) g.order
          p p' es g.failure holds g.ran in
      subst
        (λ (x : Option ProcessError). KeptOrders (turned (again (some (m, x))) ∷ done) p'.stores.0)
        (sym g.result) (Placed-KeptOrders done m g.order p p' es g.failure g.read all holds placed)

  -- A round of the loop from a queue that is well formed.
  pub take_turn_lem :
      (t : Readings) (done : List Output) (c : ℕ) (s : Running S R B BK K)
      → IsQueue c s.loop.queue
      → c + 2 < two63
      → KeptOrders done s.loop.orders.stores.0
      → (o : Output) × (s' : Running S R B BK K) × (take_turn text is_sentinel decode encode cache
            repo background execute with_timeout execute_fetch fetch commit retry group_id mux files
            other ctx t s
          ≡ some (o, s'))
        × Answers decode encode Stored mux files other {Ctx = Ctx} done (turn t) o
        × OutputSettled decode
            (process text cache repo background execute with_timeout)
            with_timeout
            ctx
            s'.loop.queue
            o
        × Added (output_letters o) c s.loop.queue s'.loop.queue
        × KeptOrders (o ∷ done) s'.loop.orders.stores.0
  unfolding take_turn
  take_turn_lem t done c s i below (es, holds, all) = elim (Bool-cases s.is_looping) [
    | inr over ↦ (
      idle,
      s,
      rw (take_turn, over) refl,
      tt,
      tt,
      unchanged c s.loop.queue i,
      KeptOrders-cons idle done _ (es, holds, all),
    )
    | inl on ↦
        let (tn, l, ran, settled, added, fits) =
          round_lem decode (process-ProcessorLaws text laws repo background breaker with_timeout)
            with_timeout fetch_breaker fetches commit retry group_id t ctx c s.loop i below
            (es, holds) in
        let after =
          round-AfterRound decode (process text cache repo background execute with_timeout)
            with_timeout execute_fetch fetch commit retry group_id t ctx s.loop in
        (
          turned tn,
          record { is_looping = loops_on tn; loop = l },
          rw (take_turn, on, ran) refl,
          tt,
          settled,
          added,
          Advances-KeptOrders done tn s.loop.orders l.orders (es, holds, all) (rw ran at after),
        )
  ]
