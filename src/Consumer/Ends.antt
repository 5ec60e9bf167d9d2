-- ===== src/Consumer/Ends.antt =====
-- How the loop of internal/kafka/consumer.go ends once the consumer was stopped.
use wb_l.Base.Text.{Text}
use wb_l.Breaker.{Execute, Request}
use wb_l.Consumer.{Decoded, Message, ProcessError, Processor, Readings}
use wb_l.DeadLetters.{Bytes}
use wb_l.Base.{
  none, ◌++◌, inr, false, Option-cases, ℕ, ◌∷◌, List, some, Option, ◌&&◌, [], ◌≡◌, refl, inl,
}
use wb_l.Consumer.Loop.{round, consume, Retry, LoopState, stopped, again}

module _ {Ctx B K P : Type 0} (decode : Bytes → Decoded) (processor : Processor Ctx P)
    (with_timeout : ℕ → Ctx → Ctx) (execute : Execute Message Text B K)
    (fetch : Ctx → Request Message Text K) (commit : Ctx → Message → K → Option Text × K)
    (retry : Retry Ctx K) (group_id : Text) where
  abbrev Result : Type 0
  Result = Option (List (Message × Option ProcessError) × LoopState B K P)

  -- Two runs that go on alike after a first round are alike.
  first_round :
      (t : Readings) (ts us : List Readings) (ctx : Ctx) (s : LoopState B K P)
      → ((s' : LoopState B K P)
          → consume decode processor with_timeout execute fetch commit retry group_id ts ctx s'
            ≡ consume decode processor with_timeout execute fetch commit retry group_id us ctx s')
      → consume decode processor with_timeout execute fetch commit retry group_id (t ∷ ts) ctx s
        ≡ consume decode processor with_timeout execute fetch commit retry group_id (t ∷ us) ctx s
  unfolding consume
  first_round t ts us ctx s same =
      elim (Option-cases
        (round decode processor with_timeout execute fetch commit retry group_id t ctx s)) [
          | inl e ↦ rw (consume, e) refl
          | inr ((stopped, s'), e) ↦ rw (consume, e) refl
          | inr ((again none, s'), e) ↦ rw (consume, e) (same s')
          | inr ((again (some h), s'), e) ↦ rw (consume, e, same s') refl
        ]

  -- A round of the loop that finds the consumer stopped, or without a reader, is the last:
  -- whatever would follow, the loop ends there with what the rounds before have done.
  pub consume-stopped :
      (ts us : List Readings) (t : Readings) (ctx : Ctx) (s : LoopState B K P)
      → (t.is_running && t.has_reader) ≡ false
      → consume decode processor with_timeout execute fetch commit retry group_id
          (ts ++ t ∷ us)
          ctx
          s
        ≡ consume decode processor with_timeout execute fetch commit retry group_id ts ctx s
  unfolding consume round
  consume-stopped [] us t ctx s over = rw (consume, round, over) refl
  consume-stopped (u ∷ ts) us t ctx s over =
      first_round u (ts ++ t ∷ us) ts ctx s (λ s'. consume-stopped ts us t ctx s' over)
