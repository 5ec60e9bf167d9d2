-- ===== src/Start/Shutdown.antt =====
-- The shutdown in cmd/order_service/main.go, which stands after the `select`. Its two goroutines share a list of
-- errors under a mutex, so each is one step. The result of `Shutdown` of net/http is an argument.
use wb_l.Base.Text.{codes, Text}
use wb_l.Config.{KafkaConfig}
use wb_l.Base.{◌∷◌, ◌++◌, Option, [], ℕ, List, Bool, none, some, if◌then◌else◌}
use mathlib.Core.Option
use wb_l.Base.Lists.{length}
use wb_l.Server.Listener.{stop_server}
use wb_l.Start.Components.{lifecycle_text}
use wb_l.Consumer.Lifecycle.{stop, Consumer, ReaderConfig}

pub record Stopping (Reader W : Type 0) : Type 0 where
  pub consumer : Consumer Reader
  pub kafka : W
  pub errors : List Text

-- `if err != nil { stopErrors = append(…) }`
unfoldable pub add_error : Text → Option Text → List Text → List Text
add_error component none errors = errors
add_error component (some e) errors = errors ++ (component ++ e) ∷ []

module _ {Reader W : Type 0} (new_reader : ReaderConfig → W → Option (Reader × W))
    (close : Reader → W → Option Text × W) (config : KafkaConfig) where
  unfoldable pub stop_consumer : Stopping Reader W → Stopping Reader W
  unfolding stop add_error lifecycle_text
  stop_consumer s =
      let (err, c, w) = stop new_reader close config s.consumer s.kafka in
      record {
        consumer = c;
        kafka = w;
        errors =
            add_error (codes "failed to stop Kafka consumer: ") (Option.map lifecycle_text err)
              s.errors;
      }

  unfoldable pub stop_http : Option Text → Stopping Reader W → Stopping Reader W
  unfolding stop_server add_error
  stop_http result s = record s {
    errors = add_error (codes "failed to stop HTTP server: ") (stop_server result) s.errors;
  }

  -- The number of errors that is logged, with what is left, after the pool was closed.
  unfoldable pub shut_down :
      {P : Type 0}
      → (consumer_first : Bool) → Option Text
      → (P → P)
      → Consumer Reader
      → W
      → P
      → ℕ × Stopping Reader W × P
  unfolding stop_consumer stop_http
  shut_down consumer_first result close_pool c w p =
      let s : Stopping Reader W = record { consumer = c; kafka = w; errors = [] } in
      let s' =
        if consumer_first
        then stop_http result (stop_consumer s)
        else stop_consumer (stop_http result s) in
      (length s'.errors, s', close_pool p)
