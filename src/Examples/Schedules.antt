-- ===== src/Examples/Schedules.antt =====
-- The theorems on `Start` and `Stop` of internal/kafka/consumer.go with two loops, and on
-- cmd/order_service/main.go with a listener whose port is taken.
use wb_l.Start.Shutdown.{add_error, shut_down}
use wb_l.Examples.Services.{bounded}
use wb_l.Examples.Consumers.{
  tries_once, commit, fetch, lets_through, reading, accepts, at_start, decode,
}
use wb_l.Consumer.Drains.{stop_drains, observed, idle_refused, RoundLeaves}
use wb_l.Config.{KafkaConfig}
use wb_l.Server.Listener.{stop_server, start_server, not_listening}
use wb_l.Base.Text.{codes, Text}
use wb_l.Base.{◌⊎◌, is_some, ℕ, ◌≤◌, Option, ◌∷◌, some, ◌≡◌, true, false, refl, suc, none, []}
use wb_l.Start.Endings.{IsListenError, Started-IsListenError}
use wb_l.Start.Components.{
  stepped, Components, Started, fatal, began, server_returned, consumer_returned, woke, received,
  send_error, consumer_error, fatal_error,
}
use wb_l.Consumer.Unbounded.{loops_unbounded}
use wb_l.Consumer.Schedules.{
  IsConsumer, Reach-IsConsumer, LoopEnds, Reach, System, new, later, started, left, all_run,
  one_more,
}
use wb_l.Consumer.Loop.{round, LoopState, stopped}
use wb_l.Consumer.Lifecycle.{
  closed, new_consumer, already_running, broker_list, Consumer, ReaderConfig, stop, start,
}

-- Readers are numbered, and none of them can be closed.
abbrev pub numbered_reader : ReaderConfig → ℕ → Option (ℕ × ℕ)
numbered_reader config k = some (k, suc k)

abbrev pub stays_open : ℕ → ℕ → Option Text × ℕ
stays_open reader k = (some (codes "busy"), k)

abbrev kafka_config : KafkaConfig
kafka_config = record {
  topic = codes "orders";
  group_id = codes "group";
  listeners = codes "kafka:9092, localhost:9093";
  advertised_listeners = [];
}

broker_list_test : broker_list kafka_config ≡ codes "kafka:9092" ∷ codes "localhost:9093" ∷ []
unfolding broker_list
broker_list_test = refl

abbrev running_consumer : Consumer ℕ
running_consumer = record { reader = some 0; running = true; brokers = broker_list kafka_config }

abbrev two_loops : System ℕ ℕ
two_loops = record { consumer = running_consumer; kafka = 1; loops = 2 }

abbrev stuck_consumer : Consumer ℕ
stuck_consumer = record running_consumer { running = false }

-- A loop of the messages of Consumers.
abbrev MayLeave : Consumer ℕ → Type 0
MayLeave c =
    RoundLeaves decode accepts bounded lets_through fetch commit tries_once (codes "group") c

stuck_leaves : MayLeave stuck_consumer
unfolding round
stuck_leaves = (reading, 1, at_start, at_start, refl)

stop_drains_example :
    (round decode accepts bounded lets_through fetch commit tries_once
        (codes "group")
        (observed stuck_consumer reading)
        1
        at_start
      ≡ some (stopped, at_start))
    × LoopEnds numbered_reader stays_open kafka_config MayLeave
        (record two_loops { consumer = stuck_consumer })
        2
        (record { consumer = stuck_consumer; kafka = 1; loops = 0 })
    × (1 ≤ 2)
unfolding stop closed
stop_drains_example =
    stop_drains decode accepts bounded lets_through fetch commit tries_once (codes "group")
      numbered_reader stays_open kafka_config two_loops 1
      (record { consumer = stuck_consumer; kafka = 1; loops = 1 }) reading 1 at_start
      (one_more all_run (left 1 refl stuck_leaves))

-- A state of Kafka in which the fetch runs into its timeout.
abbrev no_message : LoopState ℕ ℕ ℕ
no_message = record at_start { kafka = 0 }

idle_refused_example :
    (s : System ℕ ℕ) × Reach numbered_reader stays_open kafka_config MayLeave 0 s
    × (s.loops ≡ 0)
    × (s.consumer.running ≡ true)
    × (start numbered_reader stays_open kafka_config s.consumer s.kafka
        ≡ some (some already_running, s.consumer, s.kafka))
idle_refused_example =
    idle_refused decode accepts bounded lets_through fetch commit tries_once (codes "group")
      numbered_reader stays_open kafka_config 0 1 0 (record reading { is_done = true }) 1 no_message
      none (codes "timeout") 0 0 refl refl refl

one_loop-Reach :
    Reach numbered_reader stays_open kafka_config MayLeave 0
      (record { consumer = running_consumer; kafka = 1; loops = 1 })
unfolding start new_consumer
one_loop-Reach = later new (started running_consumer 1 refl)

Reach-IsConsumer_example :
    IsConsumer numbered_reader stays_open kafka_config MayLeave running_consumer
Reach-IsConsumer_example =
    Reach-IsConsumer numbered_reader stays_open kafka_config MayLeave 0
      (record { consumer = running_consumer; kafka = 1; loops = 1 }) one_loop-Reach

loops_unbounded_example :
    (s : System ℕ ℕ) × Reach numbered_reader stays_open kafka_config MayLeave 0 s
    × (s.loops ≡ suc 1)
    × (s.consumer.running ≡ true)
loops_unbounded_example =
    loops_unbounded numbered_reader stays_open kafka_config MayLeave (λ cfg k. (k, suc k, refl)) 0 1

abbrev port_error : Text
port_error = codes "HTTP server error: failed to start HTTP server: port taken"

abbrev failed_start : Components ℕ ℕ
failed_start = record {
  server_done = true;
  consumer_done = true;
  consumer = running_consumer;
  kafka = 1;
  errors = [];
  main = fatal port_error;
}

failed_start-Started : Started numbered_reader stays_open kafka_config 0 failed_start
unfolding send_error start_server start new_consumer
failed_start-Started =
    let server = stepped began (
      server_returned (some (not_listening (codes "port taken"))) (port_error ∷ []) refl refl
        refl) in
    let consumer =
      stepped server
        (consumer_returned none running_consumer 1 (port_error ∷ []) refl refl refl refl) in
    stepped (stepped consumer (woke refl)) (received port_error [] refl refl)

Started-IsListenError_example :
    ((fatal_error failed_start.main ≡ none)
      ⊎ ((t : Text) × IsListenError t × (failed_start.main ≡ fatal t)))
    × (is_some (send_error consumer_error (some (codes "lost")) []) ≡ true)
Started-IsListenError_example =
    Started-IsListenError numbered_reader stays_open kafka_config 0 failed_start consumer_error
      (some (codes "lost")) failed_start-Started

-- Both components fail to stop.
shut_down_test :
    (shut_down numbered_reader stays_open kafka_config false
      (some (codes "timeout"))
      suc
      running_consumer
      1
      4).0
    ≡ 2
unfolding shut_down stop_server stop closed add_error
shut_down_test = refl
