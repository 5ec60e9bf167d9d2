-- ===== src/Start/Components.antt =====
-- cmd/order_service/main.go from the start of its two goroutines on. `errors` is what the channel of
-- capacity 2 holds, the oldest first. A step is the end of a goroutine with what it sends, the
-- end of the pause, or the `select`, after which `Fatal` ends the process. The result of
-- `ListenAndServe` is free. What follows the `select` is not modelled.
use wb_l.Base.Lists.{length}
use wb_l.Base.{List, false, [], some, ltb, Option, ◌++◌, none, true, Bool, ◌∷◌, ◌≡◌, if◌then◌else◌}
use wb_l.Server.Listener.{start_server, ListenError}
use wb_l.Consumer.Lifecycle.{
  new_consumer, start, already_running, not_closed, LifecycleError, Consumer, ReaderConfig,
}
use wb_l.Config.{KafkaConfig}
use wb_l.Base.Text.{codes, Text}
use mathlib.Core.Option

-- Where `main` is. `fatal` is after the `select`, and `crashed` after a panic in a goroutine.
pub data Stage : Type 0 where
  sleeping selecting crashed : Stage
  fatal : Text → Stage

abbrev pub is_over : Stage → Bool
is_over sleeping = false
is_over selecting = false
is_over crashed = true
is_over (fatal t) = true

-- What `Fatal` reports.
abbrev pub fatal_error : Stage → Option Text
fatal_error sleeping = none
fatal_error selecting = none
fatal_error crashed = none
fatal_error (fatal t) = some t

pub record Components (Reader W : Type 0) : Type 0 where
  pub server_done : Bool
  pub consumer_done : Bool
  pub consumer : Consumer Reader
  pub kafka : W
  pub errors : List Text
  pub main : Stage

unfoldable pub lifecycle_text : LifecycleError → Text
lifecycle_text already_running = codes "consumer is already running"
lifecycle_text (not_closed e) = codes "failed to close Kafka reader: " ++ e

-- `if err != nil { errChan <- … }`: `none` is a send that blocks.
unfoldable pub send_error : Text → Option Text → List Text → Option (List Text)
send_error component none errors = some errors
send_error component (some e) errors =
    if ltb (length errors) 2 then some (errors ++ (component ++ e) ∷ []) else none

abbrev pub server_error : Text
server_error = codes "HTTP server error: "

abbrev pub consumer_error : Text
consumer_error = codes "Kafka consumer error: "

module _ {Reader W : Type 0} (new_reader : ReaderConfig → W → Option (Reader × W))
    (close : Reader → W → Option Text × W) (config : KafkaConfig) where
  abbrev pub components : W → Components Reader W
  components k = record {
    server_done = false;
    consumer_done = false;
    consumer = new_consumer;
    kafka = k;
    errors = [];
    main = sleeping;
  }

  pub data ComponentStep (s : Components Reader W) : Components Reader W → Type 0 where
    server_returned :
        (err : Option ListenError) (errors : List Text)
        → is_over s.main ≡ false
        → s.server_done ≡ false
        → send_error server_error (start_server err) s.errors ≡ some errors
        → ComponentStep s (record s { server_done = true; errors = errors })
    consumer_returned :
        (err : Option LifecycleError) (c : Consumer Reader) (k : W) (errors : List Text)
        → is_over s.main ≡ false
        → s.consumer_done ≡ false
        → start new_reader close config s.consumer s.kafka ≡ some (err, c, k)
        → send_error consumer_error (Option.map lifecycle_text err) s.errors ≡ some errors
        → ComponentStep s
            (record s { consumer_done = true; consumer = c; kafka = k; errors = errors })
    consumer_panicked :
        is_over s.main ≡ false
        → s.consumer_done ≡ false
        → start new_reader close config s.consumer s.kafka ≡ none
        → ComponentStep s (record s { main = crashed })
    woke : s.main ≡ sleeping → ComponentStep s (record s { main = selecting })
    received :
        (e : Text) (errors : List Text)
        → s.main ≡ selecting
        → s.errors ≡ e ∷ errors
        → ComponentStep s (record s { errors = errors; main = fatal e })

  pub data Started (k : W) : Components Reader W → Type 0 where
    began : Started k (components k)
    stepped : {s t : Components Reader W} → Started k s → ComponentStep s t → Started k t
