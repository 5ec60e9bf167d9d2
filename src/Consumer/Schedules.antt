-- ===== src/Consumer/Schedules.antt =====
-- Any order of calls of `Start` and `Stop` of internal/kafka/consumer.go and of turns of the loops that they
-- leave behind. A loop looks at the consumer only at the head of a round: `Leaves c` says that a round which sees the
-- consumer `c` there may leave the loop.
use wb_l.Base.Text.{Text}
use wb_l.Base.{
  zero, Option-cases, refl, ◌+◌, ap, Bool-cases, inr, arith, inl, true, suc, none, ℕ, Option,
  is_some, ◌≡◌, some,
}
use wb_l.Consumer.Lifecycle.{
  reader_config, closed, broker_list, new_consumer, stop, LifecycleError, Consumer, ReaderConfig,
  start,
}
use wb_l.Config.{KafkaConfig}
use mathlib.Core.Path.{subst}

-- The consumer, Kafka, and how many loops are alive.
pub record System (Reader W : Type 0) : Type 0 where
  pub consumer : Consumer Reader
  pub kafka : W
  pub loops : ℕ

module _ {Reader W : Type 0} (new_reader : ReaderConfig → W → Option (Reader × W))
    (close : Reader → W → Option Text × W) (config : KafkaConfig)
    (Leaves : Consumer Reader → Type 0) where
  -- The end of a loop.
  pub data LoopEnd (s : System Reader W) : System Reader W → Type 0 where
    left : (n : ℕ) → s.loops ≡ suc n → Leaves s.consumer → LoopEnd s (record s { loops = n })

  pub data Step (s : System Reader W) : System Reader W → Type 0 where
    started :
        (c : Consumer Reader) (w : W)
        → start new_reader close config s.consumer s.kafka ≡ some (none, c, w)
        → Step s (record { consumer = c; kafka = w; loops = suc s.loops })
    refused :
        (err : LifecycleError) (c : Consumer Reader) (w : W)
        → start new_reader close config s.consumer s.kafka ≡ some (some err, c, w)
        → Step s (record s { consumer = c; kafka = w })
    stopped :
        (err : Option LifecycleError) (c : Consumer Reader) (w : W)
        → stop new_reader close config s.consumer s.kafka ≡ (err, c, w)
        → Step s (record s { consumer = c; kafka = w })
    ended : {t : System Reader W} → LoopEnd s t → Step s t

  pub data Reach (w : W) : System Reader W → Type 0 where
    new : Reach w (record { consumer = new_consumer; kafka = w; loops = 0 })
    later : {s t : System Reader W} → Reach w s → Step s t → Reach w t

  -- `n` loops end, one after the other, and nothing else happens.
  pub data LoopEnds (s : System Reader W) : ℕ → System Reader W → Type 0 where
    all_run : LoopEnds s 0 s
    one_more : {n : ℕ} {t u : System Reader W} → LoopEnds s n t → LoopEnd t u → LoopEnds s (suc n) u

  -- A running consumer has a reader, on the brokers of its configuration.
  pub record IsConsumer (c : Consumer Reader) : Type 0 where
    pub reader : c.running ≡ true → is_some c.reader ≡ true
    pub brokers : c.running ≡ true → c.brokers ≡ broker_list config

  start-IsConsumer :
      (c c' : Consumer Reader) (w w' : W) (err : Option LifecycleError)
      → IsConsumer c
      → start new_reader close config c w ≡ some (err, c', w')
      → IsConsumer c'
  unfolding start
  start-IsConsumer c c' w w' err i e = elim (Bool-cases c.running) [
    | inl on ↦ let same : c ≡ c' = ground (arith, on, e) in rw (← same) i
    | inr off ↦ elim (Option-cases (new_reader (reader_config config) w)) [
      | inl bad ↦ absurd (ground (arith, off, bad, e))
      | inr ((r, v), made) ↦
          let same : record { reader = some r; running = true; brokers = broker_list config } ≡ c' =
            ground (arith, off, made, e) in
          rw (← same) (record { reader = λ _. refl; brokers = λ _. refl })
    ]
  ]

  stop-IsConsumer :
      (c : Consumer Reader) (w : W)
      → IsConsumer c
      → IsConsumer ((stop new_reader close config c w).1)
  unfolding stop closed
  stop-IsConsumer c w i = record {
    reader = ground (arith, i.reader);
    brokers = ground (arith, i.brokers);
  }

  -- After any sequence of calls of `Start` and `Stop` and of ends of loops, whatever a loop needs
  -- to end, a consumer that counts as running has a reader, and the brokers of its configuration.
  pub Reach-IsConsumer : (w : W) (s : System Reader W) → Reach w s → IsConsumer s.consumer
  unfolding new_consumer
  Reach-IsConsumer w s new = record { reader = λ e. cc; brokers = λ e. cc }
  Reach-IsConsumer w s (later r (started c k e)) =
      start-IsConsumer _ c _ k none (Reach-IsConsumer w _ r) e
  Reach-IsConsumer w s (later r (refused err c k e)) =
      start-IsConsumer _ c _ k (some err) (Reach-IsConsumer w _ r) e
  Reach-IsConsumer w s (later {s = old} r (stopped err c k e)) =
      subst IsConsumer (ap (λ p. p.1) e)
        (stop-IsConsumer old.consumer old.kafka (Reach-IsConsumer w _ r))
  Reach-IsConsumer w s (later r (ended (left n e i))) = Reach-IsConsumer w _ r

  -- The ends of loops change nothing but their number.
  pub ends_lem :
      {s : System Reader W} {n : ℕ} {t : System Reader W}
      → LoopEnds s n t
      → (t ≡ record s { loops = t.loops }) × (s.loops ≡ t.loops + n)
  ends_lem all_run = (refl, omega arith)
  ends_lem (one_more es (left n e i)) =
      let (same, count) = ends_lem es in
      (ap (λ (x : System Reader W). record x { loops = n }) same, omega (arith, count, e))

  -- Loops that may all leave.
  pub drain :
      (n m : ℕ) (c : Consumer Reader) (k : W)
      → Leaves c
      → LoopEnds
          (record { consumer = c; kafka = k; loops = n + m })
          n
          (record { consumer = c; kafka = k; loops = m })
  drain zero m c k i =
      subst
        (λ (j : ℕ).
          LoopEnds (record { consumer = c; kafka = k; loops = j }) 0
            (record { consumer = c; kafka = k; loops = m }))
        (omega arith) all_run
  drain (suc n) m c k i =
      let first : LoopEnds (record { consumer = c; kafka = k; loops = suc n + m }) n
          (record { consumer = c; kafka = k; loops = suc m }) =
        subst
          (λ (j : ℕ).
            LoopEnds (record { consumer = c; kafka = k; loops = j }) n
              (record { consumer = c; kafka = k; loops = suc m }))
          (omega arith) (drain n (suc m) c k i) in
      one_more first (left m refl i)
