-- ===== src/Consumer/Loop.antt =====
-- The loop of internal/kafka/consumer.go. Each round is a function of what it reads of the world, so a run of
-- the loop is a list of readings: it goes on until it leaves the loop or the readings end.
use wb_l.DeadLetters.{Bytes, Queue}
use wb_l.Breaker.{Request, Execute}
use wb_l.Base.Text.{codes, is_blank, Text}
use wb_l.Consumer.{
  process_error_text, process_message, send_message, Message, Processor, Decoded, Readings,
  ProcessError,
}
use wb_l.Base.{List, ℕ, none, some, ◌&&◌, [], Option, ◌∷◌, if◌then◌else◌}
use mathlib.Core.Option

-- What a round does to the loop: it leaves it, or goes on, after a message that it handled, with the error of
-- `processMessage`, or after a failed fetch.
pub data Turn : Type 0 where
  stopped : Turn
  again : Option (Message × Option ProcessError) → Turn

-- The options of a call of `retry.Do`; the times are in milliseconds.
pub record RetryOptions : Type 0 where
  pub attempts : ℕ
  pub delay : ℕ
  pub max_delay : Option ℕ

-- `retry.Do` on an action on the state of the Kafka reader.
abbrev pub Retry : (Ctx K : Type 0) → Type 0
Retry Ctx K = RetryOptions → Ctx → (K → Option Text × K) → K → Option Text × K

abbrev pub recovery_options : RetryOptions
recovery_options = record { attempts = 3; delay = 1000; max_delay = some 30000 }

abbrev pub commit_options : RetryOptions
commit_options = record { attempts = 5; delay = 500; max_delay = none }

-- What the loop works on.
pub record LoopState (B K P : Type 0) : Type 0 where
  pub queue : Queue
  pub breaker : B
  pub kafka : K
  pub orders : P

-- The message of a failed `processMessage`, sent once more.
unfoldable pub record_failure : Readings → Message → Option ProcessError → Queue → Queue
unfolding send_message process_error_text
record_failure t m none q = q
record_failure t m (some e) q =
    send_message t.second_id t.second_stamp m (codes "processing_error") (process_error_text e) q

module _ {Ctx B K P : Type 0} (decode : Bytes → Decoded) (processor : Processor Ctx P)
    (with_timeout : ℕ → Ctx → Ctx) (execute : Execute Message Text B K)
    (fetch : Ctx → Request Message Text K) (commit : Ctx → Message → K → Option Text × K)
    (retry : Retry Ctx K) (group_id : Text) where
  -- After a failed fetch. The function that is retried does nothing.
  unfoldable pub recover : Readings → Ctx → LoopState B K P → Turn × LoopState B K P
  recover t ctx s =
      if t.is_done
      then (stopped, s)
      else let (err, k) = retry recovery_options ctx (λ k. (none, k)) s.kafka in
        (elim err [ none ↦ again none | some _ ↦ stopped ], record s { kafka = k })

  unfoldable pub commit_message : Ctx → Message → K → K
  commit_message ctx m k =
      if is_blank group_id then k else (retry commit_options ctx (commit ctx m) k).1

  unfoldable pub handle :
      Readings → Ctx → Message → LoopState B K P → Option (Turn × LoopState B K P)
  unfolding process_message record_failure commit_message
  handle t ctx m s =
      Option.map
        (λ (err, q, p). (
          again (some (m, err)),
          record s {
            queue = record_failure t m err q;
            kafka = commit_message ctx m s.kafka;
            orders = p;
          },
        ))
        (process_message decode processor with_timeout t ctx m s.queue s.orders)

  -- The result of the fetch is asserted to be a message: a panic at nil.
  unfoldable pub after_fetch :
      Readings
      → Ctx
      → Option Message
      → Option Text
      → LoopState B K P
      → Option (Turn × LoopState B K P)
  unfolding recover handle
  after_fetch t ctx result (some err) s = some (recover t ctx s)
  after_fetch t ctx (some m) none s = handle t ctx m s
  after_fetch t ctx none none s = none

  -- One round of `consume`.
  unfoldable pub round : Readings → Ctx → LoopState B K P → Option (Turn × LoopState B K P)
  unfolding after_fetch
  round t ctx s =
      if t.is_running && t.has_reader
      then elim (execute (fetch (with_timeout 30 ctx)) s.breaker s.kafka) [
        | none ↦ none
        | some (result, err, b, k) ↦
            after_fetch t ctx result err (record s { breaker = b; kafka = k })
      ]
      else some (stopped, s)

  -- The messages that were handled, each with its error, and the state at the end.
  unfoldable pub consume :
      List Readings
      → Ctx
      → LoopState B K P
      → Option (List (Message × Option ProcessError) × LoopState B K P)
  unfolding round
  consume [] ctx s = some ([], s)
  consume (t ∷ ts) ctx s = elim (round t ctx s) [
    | none ↦ none
    | some (stopped, s') ↦ some ([], s')
    | some (again none, s') ↦ consume ts ctx s'
    | some (again (some handled), s') ↦
        Option.map (λ (rest, s''). (handled ∷ rest, s'')) (consume ts ctx s')
  ]
