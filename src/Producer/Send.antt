-- ===== src/Producer/Send.antt =====
-- The loop of cmd/producer/main.go. encoding/json and the writer of kafka-go are parameters, and `W` is the
-- state of Kafka.
use wb_l.Base.Int.{pos_part, ℤ}
use wb_l.Base.Lists.{length}
use wb_l.Producer.{generate_order}
use wb_l.Models.{Order}
use wb_l.Base.Text.{codes, Text}
use wb_l.Base.Time.{Time}
use wb_l.DeadLetters.{Bytes}
use wb_l.Base.{zero, Option, refl, [], suc, ◌+◌, none, ◌≡◌, ℕ, ◌∷◌, ap, List, some}
use mathlib.Core.Option.{get_or}
use wb_l.Consumer.Lifecycle.{split}

-- The addresses of the writer. They are not trimmed, unlike those of the consumer.
unfoldable pub writer_brokers : (env : Text) → List Text
unfolding split
writer_brokers env = split b',' env

-- What is printed of an order: its UID, or the number of the order and the error.
pub data Report : Type 0 where
  sent : Text → Report
  not_sent : ℕ → Text → Report

module _ {W : Type 0} (marshal : Order → Option Bytes)
    (write_messages : (key : Text) (value : Bytes) → W → Option Text × W) where
  abbrev report : ℕ → Text → Option Text → Report
  report i uid none = sent uid
  report i uid (some e) = not_sent (i + 1) e

  -- `i` orders were made before. Each order takes a reading of the clock and a random number. An order that cannot
  -- be encoded is sent without a value.
  unfoldable pub send_orders : ℕ → List (Time × ℕ) → W → List Report × W
  unfolding generate_order
  send_orders i [] w = ([], w)
  send_orders i ((now, id) ∷ rest) w =
      let order = generate_order now id in
      let (err, w') = write_messages order.order_uid (get_or (marshal order) []) w in
      let (reports, w'') = send_orders (i + 1) rest w' in
      (report i order.order_uid err ∷ reports, w'')

  -- A failure does not stop the loop: each order has its report.
  pub send_orders-length :
      (i : ℕ) (ids : List (Time × ℕ)) (w : W) → length (send_orders i ids w).0 ≡ length ids
  unfolding send_orders
  send_orders-length i [] w = refl
  send_orders-length i ((now, id) ∷ rest) w = ap suc (send_orders-length (i + 1) rest _)

-- `main`. The writer is known by its addresses and its topic; `count` is the flag, and `readings` what the clock and
-- the random numbers show for each order. The last error is that of `Close`.
module _ {W : Type 0} (getenv : Text → Text) (marshal : Order → Option Bytes)
    (write_messages : List Text → (topic key : Text) → (value : Bytes) → W → Option Text × W)
    (close : List Text → (topic : Text) → W → Option Text × W) where
  abbrev readings_from : (ℕ → Time × ℕ) → ℕ → ℕ → List (Time × ℕ)
  readings_from readings i zero = []
  readings_from readings i (suc n) = readings i ∷ readings_from readings (i + 1) n

  -- A count below 0 is no round of the loop.
  unfoldable pub produce : (count : ℤ) → (ℕ → Time × ℕ) → W → List Report × Option Text × W
  unfolding send_orders writer_brokers
  produce count readings w =
      let brokers = writer_brokers (getenv (codes "KAFKA_BROKERS")) in
      let topic = getenv (codes "KAFKA_TOPIC") in
      let (reports, w') =
        send_orders marshal (write_messages brokers topic) 0
          (readings_from readings 0 (pos_part count)) w in
      let (err, w'') = close brokers topic w' in (reports, err, w'')
