-- ===== src/Consumer/Refused.antt =====
-- The loop of internal/kafka/consumer.go in front of the order service, after requests for unknown orders.
use wb_l.Base.Time.{Time}
use wb_l.DeadLetters.{Queue}
use wb_l.Base.Text.{Text}
use wb_l.Consumer.Processors.{Processing}
use wb_l.Base.{ℕ}
use wb_l.Consumer.Loop.{LoopState}

-- The loop around a state of the breaker of the service, its cache and the database.
abbrev pub loop_on :
    {S R B BK K : Type 0}
    → (ℕ → Time)
    → Queue
    → BK
    → K
    → B
    → S × R
    → LoopState BK K (Processing S R B)
loop_on clock q bk k b st = record {
  queue = q;
  breaker = bk;
  kafka = k;
  orders = record { clock = clock; breaker = b; stores = st };
}
