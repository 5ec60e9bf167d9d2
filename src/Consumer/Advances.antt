-- ===== src/Consumer/Advances.antt =====
-- What a round of the loop of consumer.go does to the state of its order processor.
use wb_l.Models.Validate.{validate}
use wb_l.DeadLetters.{Queue, Bytes}
use wb_l.Models.{Order}
use wb_l.Base.Text.{Text}
use wb_l.Consumer.{
  process_decoded, not_processed, process_message, decoded, ProcessError, Readings, Message,
  Decoded, Processor,
}
use wb_l.Consumer.Loop.{
  recovery_options, recover, after_fetch, round, handle, LoopState, Retry, Turn,
}
use wb_l.Breaker.{Request, Execute}
use wb_l.Base.{
  ◌&&◌, Bool-cases, ℕ, ◌≡◌, true, is_some, refl, Option, ◌⊎◌, Option-cases, inl, some, none, inr,
}
use mathlib.Core.Option
use wb_l.Consumer.Loop.{again, stopped}
use wb_l.Consumer.Processing.{Decoded-cases}

module _ {Ctx P : Type 0} (decode : Bytes → Decoded) (processor : Processor Ctx P)
    (with_timeout : ℕ → Ctx → Ctx) where
  -- The processor was given the order of the message, and this is what it returned.
  pub record Gave (ctx : Ctx) (m : Message) (err : Option ProcessError) (p p' : P) : Type 0 where
    pub order : Order
    pub failure : Option Text
    pub read : decode m.value ≡ decoded order
    pub ran : processor (with_timeout 30 ctx) order p ≡ some (failure, p')
    pub result : err ≡ Option.map not_processed failure

  -- A message that was not given to the processor has an error.
  abbrev pub Advances : Ctx → P → Message → Option ProcessError → P → Type 0
  Advances ctx p m err p' = Gave ctx m err p p' ⊎ ((p' ≡ p) × (is_some err ≡ true))

  abbrev AfterMessage : Ctx → P → Message → Option (Option ProcessError × Queue × P) → Type 0
  AfterMessage ctx p m none = Unit
  AfterMessage ctx p m (some (err, q, p')) = Advances ctx p m err p'

  process_message-Advances :
      (t : Readings) (ctx : Ctx) (m : Message) (q : Queue) (p : P)
      → AfterMessage ctx p m (process_message decode processor with_timeout t ctx m q p)
  unfolding process_message process_decoded
  process_message-Advances t ctx m q p = elim (Decoded-cases (decode m.value)) [
    | inl (e, bad) ↦ rw (process_message, bad) (inr (refl, refl))
    | inr (o, read) ↦ elim (Option-cases (validate t.now t.later o)) [
      | inr (e, bad) ↦ rw (process_message, read, process_decoded, bad) (inr (refl, refl))
      | inl good ↦ elim (Option-cases (processor (with_timeout 30 ctx) o p)) [
        | inl stuck ↦ rw (process_message, read, process_decoded, good, stuck) tt
        | inr ((failure, p'), ran) ↦
            rw (process_message, read, process_decoded, good, ran)
              (inl (record { order = o; failure = failure; read = read; ran = ran; result = refl }))
      ]
    ]
  ]

  abbrev pub TurnAdvances : Ctx → P → Turn → P → Type 0
  TurnAdvances ctx p stopped p' = p' ≡ p
  TurnAdvances ctx p (again none) p' = p' ≡ p
  TurnAdvances ctx p (again (some (m, err))) p' = Advances ctx p m err p'

  module _ {B K : Type 0} (execute : Execute Message Text B K)
      (fetch : Ctx → Request Message Text K) (commit : Ctx → Message → K → Option Text × K)
      (retry : Retry Ctx K) (group_id : Text) where
    abbrev pub AfterRound : Ctx → P → Option (Turn × LoopState B K P) → Type 0
    AfterRound ctx p none = Unit
    AfterRound ctx p (some (tn, s)) = TurnAdvances ctx p tn s.orders

    handle-AfterRound :
        (t : Readings) (ctx : Ctx) (m : Message) (s : LoopState B K P)
        → AfterRound ctx s.orders
            (handle decode processor with_timeout execute fetch commit retry group_id t ctx m s)
    unfolding handle
    handle-AfterRound t ctx m s =
        let after = process_message-Advances t ctx m s.queue s.orders in
        elim (Option-cases
          (process_message decode processor with_timeout t ctx m s.queue s.orders)) [
            | inl stuck ↦ rw (handle, stuck) tt
            | inr ((err, q, p), ran) ↦ rw (handle, ran) (rw ran at after)
          ]

    recover-AfterRound :
        (t : Readings) (ctx : Ctx) (s : LoopState B K P)
        → AfterRound ctx s.orders (
            some
              (recover decode processor with_timeout execute fetch commit retry group_id t ctx s))
    unfolding recover
    recover-AfterRound t ctx s = elim (Bool-cases t.is_done) [
      | inl e ↦ rw e refl
      | inr e ↦ elim (Option-cases (retry recovery_options ctx (λ j. (none, j)) s.kafka).0) [
        | inl f ↦ rw (e, f) refl
        | inr (x, f) ↦ rw (e, f) refl
      ]
    ]

    after_fetch-AfterRound :
        (t : Readings) (ctx : Ctx) (m : Option Message) (err : Option Text) (s : LoopState B K P)
        → AfterRound ctx s.orders (
            after_fetch decode processor with_timeout execute fetch commit retry group_id t ctx m
              err s)
    unfolding after_fetch
    after_fetch-AfterRound t ctx m (some err) s = recover-AfterRound t ctx s
    after_fetch-AfterRound t ctx (some m) none s = handle-AfterRound t ctx m s
    after_fetch-AfterRound t ctx none none s = tt

    pub round-AfterRound :
        (t : Readings) (ctx : Ctx) (s : LoopState B K P)
        → AfterRound ctx s.orders
            (round decode processor with_timeout execute fetch commit retry group_id t ctx s)
    unfolding round
    round-AfterRound t ctx s = elim (Bool-cases (t.is_running && t.has_reader)) [
      | inr e ↦ rw (round, e) refl
      | inl e ↦ elim (Option-cases (execute (fetch (with_timeout 30 ctx)) s.breaker s.kafka)) [
        | inl stuck ↦ rw (round, e, stuck) tt
        | inr ((m, err, b, k), ran) ↦
            rw (round, e, ran)
              (after_fetch-AfterRound t ctx m err (record s { breaker = b; kafka = k }))
      ]
    ]
