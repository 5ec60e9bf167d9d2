-- ===== src/Consumer/Lifecycle.antt =====
-- `Start` and `Stop` of internal/kafka/consumer.go. The Kafka reader is one of kafka-go: `new_reader` is
-- `kafka.NewReader`, which may panic, and `close` is its `Close`; `W` is the state of Kafka. The mutex
-- makes each method one step. `none` is a panic.
use mathlib.Core.Option
use wb_l.Config.{KafkaConfig}
-- The parts of `strings.Split(s, sep)` for a separator of one character.
use wb_l.Base.Text.{trim_space, Text}
use wb_l.Base.Int.{negsuc, ℤ}
use wb_l.Base.{false, ℕ, ◌==◌, true, Option, List, [], map, Bool, none, some, ◌∷◌, if◌then◌else◌}

unfoldable pub join_first : ℕ → List Text → List Text
join_first c [] = (c ∷ []) ∷ []
join_first c (part ∷ parts) = (c ∷ part) ∷ parts

unfoldable pub split : ℕ → Text → List Text
unfolding join_first
split sep [] = [] ∷ []
split sep (c ∷ s) = let parts = split sep s in if c == sep then [] ∷ parts else join_first c parts

-- What is set of `kafka.ReaderConfig`; the time is in milliseconds.
pub record ReaderConfig : Type 0 where
  pub brokers : List Text
  pub topic : Text
  pub group_id : Text
  pub start_offset : ℤ
  pub min_bytes : ℕ
  pub max_bytes : ℕ
  pub max_wait : ℕ

-- The fields of the consumer that `Start` and `Stop` change.
pub record Consumer (Reader : Type 0) : Type 0 where
  pub reader : Option Reader
  pub running : Bool
  pub brokers : List Text

unfoldable pub new_consumer : {Reader : Type 0} → Consumer Reader
new_consumer = record { reader = none; running = false; brokers = [] }

pub data LifecycleError : Type 0 where
  already_running : LifecycleError
  not_closed : Text → LifecycleError

unfoldable pub broker_list : KafkaConfig → List Text
unfolding split trim_space
broker_list config = map trim_space (split b',' config.listeners)

-- `kafka.LastOffset` is -1.
unfoldable pub reader_config : KafkaConfig → ReaderConfig
unfolding broker_list
reader_config config = record {
  brokers = broker_list config;
  topic = config.topic;
  group_id = config.group_id;
  start_offset = negsuc 0;
  min_bytes = 10000;
  max_bytes = 10000000;
  max_wait = 1000;
}

module _ {Reader W : Type 0} (new_reader : ReaderConfig → W → Option (Reader × W))
    (close : Reader → W → Option Text × W) (config : KafkaConfig) where
  -- Without an error a loop is started as well.
  unfoldable pub start : Consumer Reader → W → Option (Option LifecycleError × Consumer Reader × W)
  unfolding reader_config broker_list
  start c w =
      if c.running
      then some (some already_running, c, w)
      else Option.map
          (λ (reader, w'). (
            none,
            record { reader = some reader; running = true; brokers = broker_list config },
            w',
          ))
          (new_reader (reader_config config) w)

  -- After `Close` of the reader: its error, the reader and what it left.
  unfoldable pub closed :
      Consumer Reader → Option Text × W → Option LifecycleError × Consumer Reader × W
  closed c (some err, w) = (some (not_closed err), record c { running = false }, w)
  closed c (none, w) = (none, record c { running = false; reader = none }, w)

  unfoldable pub stop : Consumer Reader → W → Option LifecycleError × Consumer Reader × W
  unfolding closed
  stop c w =
      if c.running
      then elim c.reader [
        | none ↦ (none, record c { running = false }, w)
        | some reader ↦ closed c (close reader w)
      ]
      else (none, c, w)
