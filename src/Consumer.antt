-- ===== src/Consumer.antt =====
-- internal/kafka/consumer.go: the loop that reads orders from Kafka, and the methods that start and
-- stop it (Lifecycle). kafka-go, encoding/json, retry-go and the circuit breaker are parameters:
-- `K` is the state of the Kafka reader, `P` that of the order processor of
-- internal/interfaces/kafka.go. The dead letter queue is the one that `NewConsumer` makes.
pub mod Lifecycle
pub mod Processing
pub mod Loop
pub mod Rounds
pub mod Accounts
pub mod Advances
pub mod Processors
pub mod Schedules
pub mod Drains
pub mod Unbounded
pub mod Ends
pub mod Spins
pub mod Commits
pub mod Settings
pub mod Refused
use wb_l.Models.Validate.{validate}
use wb_l.Models.Messages.{model_text}
use wb_l.Base.Text.{codes, Text}
use wb_l.Models.Errors.{ModelError}
use wb_l.Base.{◌++◌, ℕ, some, map, none, Option, Bool}
use wb_l.Base.Int.{ℤ}
use wb_l.DeadLetters.{send, Queue, Bytes}
use wb_l.Base.Time.{Time}
use wb_l.Models.{Order}
use mathlib.Core.Option

-- What the loop reads of a `kafka.Message`.
pub record Message : Type 0 where
  pub topic : Text
  pub partition : ℤ
  pub offset : ℤ
  pub value : Bytes

-- An error is known by its text here. These are the three that `processMessage` wraps.
pub data ProcessError : Type 0 where
  not_json : Text → ProcessError
  not_valid : ModelError → ProcessError
  not_processed : Text → ProcessError

unfoldable pub process_error_text : ProcessError → Text
unfolding model_text
process_error_text (not_json t) = codes "failed to unmarshal order JSON: " ++ t
process_error_text (not_valid e) = codes "order validation failed: " ++ model_text e
process_error_text (not_processed t) = codes "failed to process order: " ++ t

-- The result of `json.Unmarshal` into an order.
pub data Decoded : Type 0 where
  decoded : Order → Decoded
  undecodable : Text → Decoded

-- What one round of the loop reads of the world: the two fields under the lock, the clock, twice for the
-- validation and twice for each `Send`, and whether the context is done after a failed fetch.
pub record Readings : Type 0 where
  pub is_running : Bool
  pub has_reader : Bool
  pub now : Time
  pub later : Time
  pub first_id : Time
  pub first_stamp : Time
  pub second_id : Time
  pub second_stamp : Time
  pub is_done : Bool

-- `c.deadLetterQueue.Send(message.Value, …)`
unfoldable pub send_message : Time → Time → Message → Text → Text → Queue → Queue
unfolding send
send_message id stamp m reason err =
    send id stamp m.value m.topic m.partition m.offset reason (some err)

-- `processor.ProcessOrder`, as a function on the state of the processor; `none` is a panic.
abbrev pub Processor : (Ctx P : Type 0) → Type 0
Processor Ctx P = Ctx → Order → P → Option (Option Text × P)

module _ {Ctx P : Type 0} (decode : Bytes → Decoded) (processor : Processor Ctx P)
    (with_timeout : ℕ → Ctx → Ctx) where
  -- What `processMessage` does with the order that it decoded.
  unfoldable pub process_decoded :
      Readings → Ctx → Message → Queue → P → Order → Option (Option ProcessError × Queue × P)
  process_decoded t ctx m q p order = elim (validate t.now t.later order) [
    | some e ↦ some (
      some (not_valid e),
      send_message t.first_id t.first_stamp m (codes "validation_error") (model_text e) q,
      p,
    )
    | none ↦
        Option.map (λ (err, p'). (Option.map not_processed err, q, p'))
          (processor (with_timeout 30 ctx) order p)
  ]

  unfoldable pub process_message :
      Readings → Ctx → Message → Queue → P → Option (Option ProcessError × Queue × P)
  unfolding process_decoded
  process_message t ctx m q p = elim (decode m.value) [
    | undecodable e ↦ some (
      some (not_json e),
      send_message t.first_id t.first_stamp m (codes "json_unmarshal_error") e q,
      p,
    )
    | decoded order ↦ process_decoded t ctx m q p order
  ]
