-- ===== src/Consumer/Spins.antt =====
-- The recovery after a failed fetch in the loop of internal/kafka/consumer.go, while the circuit breaker is open.
use wb_l.Breaker.{Execute, Request}
use wb_l.Base.Text.{Text}
use wb_l.DeadLetters.{Bytes}
use wb_l.Consumer.{Message, Readings, Processor, Decoded}
use wb_l.Base.{zero, suc, refl, Option, none, ◌∷◌, List, ℕ, true, [], ◌&&◌, ◌≡◌, false, some}
use wb_l.Consumer.Loop.{
  recovery_options, round, after_fetch, recover, consume, LoopState, Retry, RetryOptions,
}
use wb_l.Base.Lists.{length, All}

-- What gobreaker documents of an open breaker: it rejects every request at once, and runs none.
pub record OpenLaws {B K : Type 0} (execute : Execute Message Text B K) (IsOpen : B → Type 0)
    : Type 0 where
  pub rejects :
      (request : Request Message Text K) (b : B) (k : K)
      → IsOpen b
      → (e : Text) × (b' : B) × (execute request b k ≡ some (none, some e, b', k)) × IsOpen b'

-- What retry-go documents of a function whose first attempt succeeds, in a context that is not done: `Do` returns no
-- error. What it leaves of the state is not used.
pub record RetryLaws {Ctx K : Type 0} (retry : Retry Ctx K) (IsLive : Ctx → Type 0) : Type 0 where
  pub no_error :
      (options : RetryOptions) (ctx : Ctx) (act : K → Option Text × K) (k k' : K)
      → IsLive ctx
      → act k ≡ (none, k')
      → (retry options ctx act k).0 ≡ none

-- The state after a number of calls of `retry.Do` of the function that does nothing, and of nothing else.
abbrev pub after_retries : {Ctx K : Type 0} → Retry Ctx K → Ctx → ℕ → K → K
after_retries retry ctx zero k = k
after_retries retry ctx (suc n) k =
    after_retries retry ctx n ((retry recovery_options ctx (λ j. (none, j)) k).1)

-- A round that finds the consumer running and its context not done.
abbrev pub GoesOn : Readings → Type 0
GoesOn t = ((t.is_running && t.has_reader) ≡ true) × (t.is_done ≡ false)

module _ {Ctx B K P : Type 0} (decode : Bytes → Decoded) (processor : Processor Ctx P)
    (with_timeout : ℕ → Ctx → Ctx) {execute : Execute Message Text B K} {IsOpen : B → Type 0}
    (open_laws : OpenLaws execute IsOpen) (fetch : Ctx → Request Message Text K)
    (commit : Ctx → Message → K → Option Text × K) {retry : Retry Ctx K} {IsLive : Ctx → Type 0}
    (retries : RetryLaws retry IsLive) (group_id : Text) where
  -- While the breaker is open, the consumer runs and its context is not done, and with `retry.Do`
  -- as documented in such a context: the loop goes on for any number of rounds, in which it
  -- handles no message and changes neither the dead letter queue nor the orders. All that each
  -- round does to Kafka is one call of `retry.Do` of a function that does nothing and succeeds at
  -- once, with the options of the recovery.
  pub consume_spins :
      (ts : List Readings) (ctx : Ctx) (s : LoopState B K P)
      → IsLive ctx
      → IsOpen s.breaker
      → All GoesOn ts
      → (b : B) × (consume decode processor with_timeout execute fetch commit retry group_id ts ctx
            s
          ≡ some
              ([], record s { breaker = b; kafka = after_retries retry ctx (length ts) s.kafka }))
        × IsOpen b
  unfolding consume round after_fetch recover
  consume_spins [] ctx s live is_open goes = (s.breaker, refl, is_open)
  consume_spins (t ∷ ts) ctx s live is_open ((on, going), goes) =
      let (e, b, rejected, still) =
        open_laws.rejects (fetch (with_timeout 30 ctx)) s.breaker s.kafka is_open in
      let k = (retry recovery_options ctx (λ j. (none, j)) s.kafka).1 in
      let (b', rest, open') =
        consume_spins ts ctx (record s { breaker = b; kafka = k }) live still goes in
      let fine = retries.no_error recovery_options ctx (λ j. (none, j)) s.kafka s.kafka live refl in
      (b', rw (consume, round, on, rejected, after_fetch, recover, going, fine) rest, open')
