-- ===== src/Consumer/Unbounded.antt =====
-- Calls of `Start` and `Stop` of internal/kafka/consumer.go one after the other, while the loops of
-- earlier calls are still alive.
use wb_l.Consumer.Schedules.{Reach, System, new, later, started, stopped}
use wb_l.Consumer.Lifecycle.{
  reader_config, broker_list, closed, new_consumer, stop, Consumer, ReaderConfig, start,
}
use wb_l.Config.{KafkaConfig}
use wb_l.Base.Text.{Text}
use wb_l.Base.{ℕ, Option, some, true, false, suc, zero, refl, arith, ◌≡◌}

module _ {Reader W : Type 0} (new_reader : ReaderConfig → W → Option (Reader × W))
    (close : Reader → W → Option Text × W) (config : KafkaConfig)
    (Leaves : Consumer Reader → Type 0) where
  stop_off : (c : Consumer Reader) (w : W) → (stop new_reader close config c w).1.running ≡ false
  unfolding stop closed
  stop_off c w = ground arith

  -- `NewReader` makes a reader in every state of Kafka.
  module _
      (makes : (cfg : ReaderConfig) (k : W)
        → (reader : Reader) × (k' : W) × (new_reader cfg k ≡ some (reader, k'))) where
    start_once :
        (w : W) (s : System Reader W)
        → Reach new_reader close config Leaves w s
        → s.consumer.running ≡ false
        → (t : System Reader W) × Reach new_reader close config Leaves w t
          × (t.loops ≡ suc s.loops)
          × (t.consumer.running ≡ true)
    unfolding start
    start_once w s r off =
        let (reader, k, made) = makes (reader_config config) s.kafka in
        (
          record {
            consumer = record {
              reader = some reader;
              running = true;
              brokers = broker_list config;
            };
            kafka = k;
            loops = suc s.loops;
          },
          later r (started _ k (rw (start, off, made) refl)),
          refl,
          refl,
        )

    -- If a reader can always be made, then for each number there is a sequence of calls of `Start`
    -- and `Stop` after which the consumer is running with that many loops alive and one more.
    pub loops_unbounded :
        (w : W) (n : ℕ)
        → (s : System Reader W) × Reach new_reader close config Leaves w s
          × (s.loops ≡ suc n)
          × (s.consumer.running ≡ true)
    unfolding new_consumer
    loops_unbounded w zero = start_once w _ new refl
    loops_unbounded w (suc n) =
        let (s, r, count, on) = loops_unbounded w n in
        let (t, more, count', on') =
          start_once w _ (later r (stopped _ _ _ refl)) (stop_off s.consumer s.kafka) in
        (t, more, omega (arith, count, count'), on')
