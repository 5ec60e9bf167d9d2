-- ===== src/System/Program.antt =====
-- The program from the start of `main` of cmd/order_service/main.go on, over the LRU cache and the repository.
use wb_l.Consumer.Lifecycle.{Consumer, LifecycleError}
use wb_l.Config.{Config}
use wb_l.Base.Text.{Text}
use wb_l.Base.{is_some, not, ℕ, Option, none, some}
use wb_l.Base.Time.{Time}
use wb_l.System.{Running}
use wb_l.DeadLetters.{new_queue}

-- The program once the goroutine of the consumer has called `Start`: with its loop, where `Start` returned no error,
-- on the Kafka that it left. A panic of `Start` ends the process.
unfoldable pub with_consumer :
    {Reader S R B BK K : Type 0}
    → (ℕ → Time)
    → B
    → S × R
    → BK
    → Option (Option LifecycleError × Consumer Reader × K)
    → Option (Running S R B BK K)
with_consumer clock b st bk none = none
with_consumer clock b st bk (some (err, c, k)) = some (record {
  is_looping = not (is_some err);
  loop = record {
    queue = new_queue;
    breaker = bk;
    kafka = k;
    orders = record { clock = clock; breaker = b; stores = st };
  };
})
