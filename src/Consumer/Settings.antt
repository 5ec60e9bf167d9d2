-- ===== src/Consumer/Settings.antt =====
-- The settings of the two circuit breakers: that of `NewConsumer` of internal/kafka/consumer.go and that of
-- `NewOrderService` of internal/service/order_service.go.
use wb_l.Base.Int.{negsuc, pos, ℤ}
use wb_l.Base.Text.{codes, Text}
use wb_l.Base.{◌-◌, ◌≤◌, ◌≡◌, ℕ, Bool, ◌%◌, true, arith, ◌↔◌, ◌<◌, leb}
use wb_l.Config.{CircuitBreakerConfig}

-- What is set of `gobreaker.Settings`. The times are in nanoseconds, and `ready_to_trip` is asked with the number of
-- consecutive failures.
pub record Settings : Type 0 where
  pub name : Text
  pub max_requests : ℕ
  pub interval : ℤ
  pub timeout : ℤ
  pub ready_to_trip : ℕ → Bool

-- `uint32(a)`
unfoldable pub uint32 : ℤ → ℕ
uint32 (pos n) = n % 4294967296
uint32 (negsuc n) = 4294967295 - n % 4294967296

unfoldable pub consumer_settings : CircuitBreakerConfig → Settings
unfolding uint32
consumer_settings config = record {
  name = codes "kafka-consumer";
  max_requests = uint32 config.half_open_max_calls;
  interval = config.timeout;
  timeout = config.timeout;
  ready_to_trip = λ failures. leb (uint32 config.max_failers) failures;
}

unfoldable pub service_settings : Settings
service_settings = record {
  name = codes "order-service";
  max_requests = 3;
  interval = pos 60000000000;
  timeout = pos 60000000000;
  ready_to_trip = λ failures. leb 5 failures;
}

-- For a positive number of failures, the breaker of the consumer trips exactly from that number on.
pub ready_to_trip_iff :
    (config : CircuitBreakerConfig) (n failures : ℕ)
    → config.max_failers ≡ pos n
    → n < 4294967296
    → ((consumer_settings config).ready_to_trip failures ≡ true) ↔ (n ≤ failures)
unfolding consumer_settings uint32
ready_to_trip_iff config n failures is below =
    (λ h. ground (arith, is, h), λ h. ground (arith, is, h))
