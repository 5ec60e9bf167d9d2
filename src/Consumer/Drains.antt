-- ===== src/Consumer/Drains.antt =====
-- The loops of internal/kafka/consumer.go that calls of `Start` and `Stop` leave behind, as rounds of `consume` see the
-- consumer.
use wb_l.Base.Text.{Text}
use wb_l.Config.{KafkaConfig}
use wb_l.DeadLetters.{Bytes}
use wb_l.Consumer.Lifecycle.{
  broker_list, already_running, reader_config, new_consumer, closed, start, stop, ReaderConfig,
  Consumer,
}
use wb_l.Consumer.{Message, Decoded, Readings, Processor}
use wb_l.Breaker.{Request, Execute}
use wb_l.Base.{ap, ℕ, true, false, Option, some, ◌≡◌, ◌≤◌, is_some, arith, refl, ◌&&◌}
use mathlib.Core.Path.{subst}
use wb_l.Consumer.Loop.{recover, after_fetch, round, LoopState, Retry, stopped}
use wb_l.Consumer.Schedules.{
  drain, ends_lem, LoopEnds, System, Reach, new, later, started, ended, left,
}

-- What a round reads that sees the consumer at its head.
abbrev pub observed : {Reader : Type 0} → Consumer Reader → Readings → Readings
observed c t = record t { is_running = c.running; has_reader = is_some c.reader }

module _ {Ctx B K P : Type 0} (decode : Bytes → Decoded) (processor : Processor Ctx P)
    (with_timeout : ℕ → Ctx → Ctx) (execute : Execute Message Text B K)
    (fetch : Ctx → Request Message Text K) (commit : Ctx → Message → K → Option Text × K)
    (retry : Retry Ctx K) (group_id : Text) where
  -- A round that sees the consumer leaves the loop.
  abbrev pub RoundLeaves : {Reader : Type 0} → Consumer Reader → Type 0
  RoundLeaves c =
      (t : Readings) × (ctx : Ctx) × (l : LoopState B K P) × (l' : LoopState B K P) × (round decode
          processor with_timeout execute fetch commit retry group_id (observed c t) ctx l
        ≡ some (stopped, l'))

  module _ {Reader W : Type 0} (new_reader : ReaderConfig → W → Option (Reader × W))
      (close : Reader → W → Option Text × W) (config : KafkaConfig) where
    -- The ends of loops, one after the other.
    abbrev pub RoundEnds : System Reader W → ℕ → System Reader W → Type 0
    RoundEnds s n t = LoopEnds new_reader close config RoundLeaves s n t

    stop-checks :
        (c : Consumer Reader) (w : W)
        → let c' = (stop new_reader close config c w).1 in (c'.running && is_some c'.reader) ≡ false
    unfolding stop closed
    stop-checks c w = ground arith

    -- After `Stop`, with or without an error, and after any number of loops have ended since: a
    -- round of a loop that sees the consumer leaves the loop at once, with nothing changed,
    -- whatever else it reads. The loops that are alive can end in this way one after the other
    -- until none is left, and no run of their ends is longer than their number.
    pub stop_drains :
        (s : System Reader W) (n : ℕ) (u : System Reader W) (t : Readings) (ctx : Ctx)
        (l : LoopState B K P)
        → let (_, c, w) = stop new_reader close config s.consumer s.kafka in
          RoundEnds (record s { consumer = c; kafka = w }) n u
          → (round decode processor with_timeout execute fetch commit retry group_id
                (observed u.consumer t)
                ctx
                l
              ≡ some (stopped, l))
            × RoundEnds
                (record s { consumer = c; kafka = w })
                s.loops
                (record { consumer = c; kafka = w; loops = 0 })
            × (n ≤ s.loops)
    unfolding round
    stop_drains s n u t ctx l es =
        let out = stop new_reader close config s.consumer s.kafka in
        let over = stop-checks s.consumer s.kafka in
        let at_check : round decode processor with_timeout execute fetch commit retry group_id
              (observed out.1 t) ctx l
            ≡ some (stopped, l) =
          rw (round, over) refl in
        let (same, count) = ends_lem new_reader close config RoundLeaves es in
        let first =
          drain new_reader close config RoundLeaves s.loops 0 out.1 out.2
            (t, ctx, l, l, at_check) in
        (
          rw (ap (λ (x : System Reader W). x.consumer) same) at_check,
          subst
              (λ (j : ℕ).
                RoundEnds (record { consumer = out.1; kafka = out.2; loops = j }) s.loops
                  (record { consumer = out.1; kafka = out.2; loops = 0 }))
              (omega arith) first,
          omega (arith, count),
        )

    -- If `kafka.NewReader` makes a reader, and a fetch can fail and find the context done: there
    -- are calls of `Start` and ends of loops after which no loop is alive, the consumer still
    -- counts as running, and `Start` is refused and changes nothing.
    pub idle_refused :
        (w w' : W) (reader : Reader) (t : Readings) (ctx : Ctx) (l : LoopState B K P)
        (m : Option Message) (e : Text) (b : B) (k : K)
        → new_reader (reader_config config) w ≡ some (reader, w')
        → execute (fetch (with_timeout 30 ctx)) l.breaker l.kafka ≡ some (m, some e, b, k)
        → t.is_done ≡ true
        → (s : System Reader W) × Reach new_reader close config RoundLeaves w s
          × (s.loops ≡ 0)
          × (s.consumer.running ≡ true)
          × (start new_reader close config s.consumer s.kafka
              ≡ some (some already_running, s.consumer, s.kafka))
    unfolding start new_consumer round after_fetch recover
    idle_refused w w' reader t ctx l m e b k makes fails done =
        let c : Consumer Reader = record {
          reader = some reader;
          running = true;
          brokers = broker_list config;
        } in
        let leaves : round decode processor with_timeout execute fetch commit retry group_id
              (observed c t) ctx l
            ≡ some (stopped, record l { breaker = b; kafka = k }) =
          rw (round, fails, after_fetch, recover, done) refl in
        (
          record { consumer = c; kafka = w'; loops = 0 },
          later (later new (started c w' (rw (start, makes) refl)))
              (ended (left 0 refl (t, ctx, l, _, leaves))),
          refl,
          refl,
          refl,
        )
