-- ===== src/Consumer/Commits.antt =====
-- What the loop of internal/kafka/consumer.go commits.
use mathlib.Core.Option
use wb_l.Base.Int.{two63}
use wb_l.Base.Lists.{All, length}
use wb_l.Consumer.Rounds.{Settled, FetchLaws}
use wb_l.Consumer.Accounts.{consume_lem}
use wb_l.Consumer.Processing.{ProcessorLaws}
use wb_l.DeadLetters.Issued.{IsQueue}
use wb_l.DeadLetters.{Queue, Bytes}
use wb_l.Base.Text.{is_blank, Text}
use wb_l.Breaker.{BreakerLaws, Request, Execute}
use wb_l.Consumer.{ProcessError, process_message, Message, Processor, Decoded, Readings}
use wb_l.Base.{
  ◌+◌, ◌*◌, ◌<◌, [], Option-cases, Bool-cases, Option, some, ◌≡◌, ◌⊎◌, inr, ◌&&◌, List, ℕ, none,
  inl, ◌∷◌,
}
use wb_l.Consumer.Loop.{
  consume, commit_options, recovery_options, round, after_fetch, recover, handle, commit_message,
  RetryOptions, LoopState, Retry, Turn, stopped, again,
}

-- What is documented of kafka-go and of retry-go, where `commits` are the messages that were committed: fetching
-- commits nothing, `CommitMessages` commits its message or fails, and `retry.Do` does nothing but run its function.
pub record KafkaLaws {Ctx K : Type 0} (fetch : Ctx → Request Message Text K)
    (commit : Ctx → Message → K → Option Text × K) (retry : Retry Ctx K)
    (commits : K → List Message) : Type 1 where
  pub fetched :
      (ctx : Ctx) (k k' : K) (m : Option Message) (err : Option Text)
      → fetch ctx k ≡ some (m, err, k')
      → commits k' ≡ commits k
  pub committed :
      (ctx : Ctx) (m : Message) (k : K)
      → (commits (commit ctx m k).1 ≡ commits k) ⊎ (commits (commit ctx m k).1 ≡ m ∷ commits k)
  pub retried :
      (options : RetryOptions) (ctx : Ctx) (act : K → Option Text × K) (k : K) (Good : K → Type 0)
      → Good k
      → ((j : K) → Good j → Good (act j).1)
      → Good (retry options ctx act k).1

module _ {Ctx B K P : Type 0} (decode : Bytes → Decoded) (processor : Processor Ctx P)
    (with_timeout : ℕ → Ctx → Ctx) {execute : Execute Message Text B K}
    (breaker : BreakerLaws execute) {fetch : Ctx → Request Message Text K}
    {commit : Ctx → Message → K → Option Text × K} {retry : Retry Ctx K} (group_id : Text)
    {commits : K → List Message} (laws : KafkaLaws fetch commit retry commits)
    (Good : Message → Type 0) where
  abbrev Committed : K → Type 0
  Committed k = All Good (commits k)

  -- If the message that the round handled is good, all that is committed is good.
  abbrev Keeps : Option (Turn × LoopState B K P) → Type 0
  Keeps none = Unit
  Keeps (some (stopped, s)) = Committed s.kafka
  Keeps (some (again none, s)) = Committed s.kafka
  Keeps (some (again (some (m, err)), s)) = Good m → Committed s.kafka

  commit_message_lem :
      (ctx : Ctx) (m : Message) (k : K)
      → Committed k
      → Good m
      → Committed
          (commit_message decode processor with_timeout execute fetch commit retry group_id ctx m k)
  unfolding commit_message
  commit_message_lem ctx m k good here = elim (Bool-cases (is_blank group_id)) [
    | inl e ↦ rw (commit_message, e) good
    | inr e ↦
        rw (commit_message, e)
          (laws.retried commit_options ctx (commit ctx m) k Committed good (λ j all.
            elim (laws.committed ctx m j) [
              | inl same ↦ rw same all
              | inr more ↦ rw more (here, all)
            ]))
  ]

  handle-Keeps :
      (t : Readings) (ctx : Ctx) (m : Message) (s : LoopState B K P)
      → Committed s.kafka
      → Keeps (handle decode processor with_timeout execute fetch commit retry group_id t ctx m s)
  unfolding handle
  handle-Keeps t ctx m s good =
      elim (Option-cases (process_message decode processor with_timeout t ctx m s.queue s.orders)) [
        | inl e ↦ rw (handle, e) tt
        | inr ((err, q, p), e) ↦ rw (handle, e) (commit_message_lem ctx m s.kafka good)
      ]

  recover-Keeps :
      (t : Readings) (ctx : Ctx) (s : LoopState B K P)
      → Committed s.kafka
      → Keeps
          (some (recover decode processor with_timeout execute fetch commit retry group_id t ctx s))
  unfolding recover
  recover-Keeps t ctx s good = elim (Bool-cases t.is_done) [
    | inl e ↦ rw (recover, e) good
    | inr e ↦
        let after_retry =
          laws.retried recovery_options ctx (λ k. (none, k)) s.kafka Committed good (λ j h. h) in
        elim (Option-cases (retry recovery_options ctx (λ k. (none, k)) s.kafka).0) [
          | inl f ↦ rw (recover, e, f) after_retry
          | inr (x, f) ↦ rw (recover, e, f) after_retry
        ]
  ]

  after_fetch-Keeps :
      (t : Readings) (ctx : Ctx) (result : Option Message) (err : Option Text) (s : LoopState B K P)
      → Committed s.kafka
      → Keeps (
          after_fetch decode processor with_timeout execute fetch commit retry group_id t ctx result
            err s)
  unfolding after_fetch
  after_fetch-Keeps t ctx result (some err) s good = recover-Keeps t ctx s good
  after_fetch-Keeps t ctx (some m) none s good = handle-Keeps t ctx m s good
  after_fetch-Keeps t ctx none none s good = tt

  round-Keeps :
      (t : Readings) (ctx : Ctx) (s : LoopState B K P)
      → Committed s.kafka
      → Keeps (round decode processor with_timeout execute fetch commit retry group_id t ctx s)
  unfolding round
  round-Keeps t ctx s good = elim (Bool-cases (t.is_running && t.has_reader)) [
    | inr e ↦ rw (round, e) good
    | inl e ↦ elim (breaker.either (fetch (with_timeout 30 ctx)) s.breaker s.kafka) [
      | inl (err, b, ran) ↦
          rw (round, e, ran)
            (after_fetch-Keeps t ctx none (some err) (record s { breaker = b }) good)
      | inr (b, ran) ↦ elim (Option-cases (fetch (with_timeout 30 ctx) s.kafka)) [
        | inl got ↦ rw (round, e, ran, got) tt
        | inr ((m, err, k), got) ↦
            rw (round, e, ran, got)
              (after_fetch-Keeps t ctx m err (record s { breaker = b; kafka = k })
                (rw (laws.fetched (with_timeout 30 ctx) s.kafka k m err got) good))
      ]
    ]
  ]

  abbrev RunKeeps : Option (List (Message × Option ProcessError) × LoopState B K P) → Type 0
  RunKeeps none = Unit
  RunKeeps (some (handled, s)) = All (λ h. Good h.0) handled → Committed s.kafka

  -- A handled message in front of a run.
  handled_first :
      (h : Message × Option ProcessError)
      (r : Option (List (Message × Option ProcessError) × LoopState B K P))
      → (Good h.0 → RunKeeps r)
      → RunKeeps (Option.map (λ (rest, s). (h ∷ rest, s)) r)
  handled_first h none keeps = tt
  handled_first h (some (handled, s)) keeps = λ (first, rest). keeps first rest

  pub consume-RunKeeps :
      (ts : List Readings) (ctx : Ctx) (s : LoopState B K P)
      → Committed s.kafka
      → RunKeeps
          (consume decode processor with_timeout execute fetch commit retry group_id ts ctx s)
  unfolding consume
  consume-RunKeeps [] ctx s good = λ _. good
  consume-RunKeeps (t ∷ ts) ctx s good =
      let kept = round-Keeps t ctx s good in
      elim (Option-cases
        (round decode processor with_timeout execute fetch commit retry group_id t ctx s)) [
          | inl e ↦ rw (consume, e) tt
          | inr ((stopped, s'), e) ↦ rw (consume, e) (λ _. rw e at kept)
          | inr ((again none, s'), e) ↦ rw (consume, e) (consume-RunKeeps ts ctx s' (rw e at kept))
          | inr ((again (some h), s'), e) ↦
              rw (consume, e)
                (handled_first h
                  (consume decode processor with_timeout execute fetch commit retry group_id ts ctx
                    s')
                  (λ first. consume-RunKeeps ts ctx s' ((rw e at kept) first)))
        ]

module _ {Ctx B K P : Type 0} (decode : Bytes → Decoded) {processor : Processor Ctx P}
    {Fits : P → Type 0} (processes : ProcessorLaws processor Fits) (with_timeout : ℕ → Ctx → Ctx)
    {execute : Execute Message Text B K} (breaker : BreakerLaws execute)
    {fetch : Ctx → Request Message Text K} (fetches : FetchLaws fetch)
    {commit : Ctx → Message → K → Option Text × K} {retry : Retry Ctx K} (group_id : Text)
    {commits : K → List Message} (laws : KafkaLaws fetch commit retry commits) where
  -- A message that was handled, by its settlement.
  with_outcomes :
      (ctx : Ctx) (q : Queue) (handled : List (Message × Option ProcessError))
      → All (Settled decode processor with_timeout ctx q) handled
      → All
          (λ h.
            (err : Option ProcessError) × Settled decode processor with_timeout ctx q (h.0, err))
          handled
  with_outcomes ctx q [] all = tt
  with_outcomes ctx q ((m, err) ∷ handled) (one, all) =
      ((err, one), with_outcomes ctx q handled all)

  -- Under what is documented of kafka-go, retry-go and the breaker, and with an order processor
  -- that keeps its laws: a run of the loop that starts with nothing committed never panics, and
  -- each message that it has committed at its end was settled. It decoded to a valid order that
  -- the processor accepted, or stands in the dead letter queue with its value, its origin and its
  -- error.
  pub committed-Settled :
      (ts : List Readings) (ctx : Ctx) (c : ℕ) (s : LoopState B K P)
      → IsQueue c s.queue
      → c + 2 * length ts < two63
      → Fits s.orders
      → commits s.kafka ≡ []
      → (handled : List (Message × Option ProcessError)) × (s' : LoopState B K P) × (consume decode
            processor with_timeout execute fetch commit retry group_id ts ctx s
          ≡ some (handled, s'))
        × All
            (λ m.
              (err : Option ProcessError) × Settled decode processor with_timeout ctx s'.queue
                (m, err))
            (commits s'.kafka)
  committed-Settled ts ctx c s i below fits nothing =
      let (handled, s', ran, settled, _, _) =
        consume_lem decode processes with_timeout breaker fetches commit retry group_id ts ctx c s i
          below fits in
      let Good = λ (m : Message).
        (err : Option ProcessError) × Settled decode processor with_timeout ctx s'.queue (m, err) in
      let keeps =
        consume-RunKeeps decode processor with_timeout breaker group_id laws Good ts ctx s
          (rw nothing tt) in
      (handled, s', ran, (rw ran at keeps) (with_outcomes ctx s'.queue handled settled))
