-- ===== src/Consumer/Rounds.antt =====
-- What one round of the loop of consumer.go leaves in the dead letter queue and hands to the order processor.
use wb_l.Base.Int.{two63}
use wb_l.Base.Text.{codes, Text}
use wb_l.DeadLetters.Issued.{IsQueue}
use wb_l.Base.{
  Option-cases, ◌&&◌, inl, Bool-cases, inr, Option, ℕ, ◌⊎◌, ◌≤◌, none, [], List, ◌≡◌, ◌∷◌, ◌<◌, ◌+◌,
  arith, some,
}
use wb_l.Consumer.Processing.{
  unchanged, process_message_lem, in_turn, letters_first, letters, Keeps, HasLetter-Keeps,
  HasLetter, Explains, send_message_lem, Added, ProcessorLaws,
}
use wb_l.DeadLetters.{Bytes, Queue}
use wb_l.Breaker.{Request, BreakerLaws, Execute}
use wb_l.Base.{Bool-cases, Option-cases}
use wb_l.Consumer.{
  process_error_text, ProcessError, Readings, Decoded, Processor, Message, not_json, not_valid,
  not_processed,
}
use wb_l.Consumer.Loop.{
  commit_message, recovery_options, after_fetch, round, recover, Turn, handle, record_failure,
  LoopState, Retry, stopped, again,
}

-- What kafka-go documents of `FetchMessage`: it returns a message, or an error.
pub record FetchLaws {Ctx K : Type 0} (fetch : Ctx → Request Message Text K) : Type 0 where
  pub returns :
      (ctx : Ctx) (k : K)
      → ((m : Message) × (k' : K) × (fetch ctx k ≡ some (some m, none, k')))
        ⊎ ((m : Option Message) × (e : Text) × (k' : K) × (fetch ctx k ≡ some (m, some e, k')))

-- A failed message stands in the queue with its error.
abbrev pub Noted : Message → Option ProcessError → Queue → Type 0
Noted m none q = Unit
Noted m (some e) q = HasLetter m (codes "processing_error") (process_error_text e) q

abbrev pub letters_all : List (Message × Option ProcessError) → ℕ
letters_all [] = 0
letters_all ((m, err) ∷ handled) = letters err + letters_all handled

abbrev pub turn_letters : Turn → ℕ
turn_letters (again (some (m, err))) = letters err
turn_letters (again none) = 0
turn_letters stopped = 0

letters_bound : (err : Option ProcessError) → letters err ≤ 2
letters_bound none = omega arith
letters_bound (some (not_json e)) = omega arith
letters_bound (some (not_valid e)) = omega arith
letters_bound (some (not_processed e)) = omega arith

pub turn_bound : (turn : Turn) → turn_letters turn ≤ 2
turn_bound stopped = omega arith
turn_bound (again none) = omega arith
turn_bound (again (some (m, err))) = letters_bound err

record_failure_lem :
    (t : Readings) (m : Message) (err : Option ProcessError) (c : ℕ) (q q' : Queue)
    → Added (letters_first err) c q q'
    → c + 2 < two63
    → Added (letters err) c q (record_failure t m err q') × Noted m err (record_failure t m err q')
unfolding record_failure process_error_text
record_failure_lem t m none c q q' a below = (a, tt)
record_failure_lem t m (some (not_json e)) c q q' a below =
    let (b, h) =
      send_message_lem t.second_id t.second_stamp m (codes "processing_error")
        (process_error_text (not_json e)) (c + 1) q' a.queue (omega arith) in
    (in_turn 1 1 c a b, h)
record_failure_lem t m (some (not_valid e)) c q q' a below =
    let (b, h) =
      send_message_lem t.second_id t.second_stamp m (codes "processing_error")
        (process_error_text (not_valid e)) (c + 1) q' a.queue (omega arith) in
    (in_turn 1 1 c a b, h)
record_failure_lem t m (some (not_processed e)) c q q' a below =
    let (b, h) =
      send_message_lem t.second_id t.second_stamp m (codes "processing_error")
        (process_error_text (not_processed e)) (c + 0) q' a.queue (omega arith) in
    (in_turn 0 1 c a b, h)

module _ {Ctx P : Type 0} (decode : Bytes → Decoded) (processor : Processor Ctx P)
    (with_timeout : ℕ → Ctx → Ctx) where
  -- What became of a message: why it was accepted or not, and a letter in the queue if it was not.
  abbrev pub Settled : Ctx → Queue → Message × Option ProcessError → Type 0
  Settled ctx q (m, err) =
      (t : Readings) × Explains decode processor with_timeout t ctx m err × Noted m err q

  pub Settled-Keeps :
      (ctx : Ctx) (q q' : Queue) (h : Message × Option ProcessError)
      → Keeps q q'
      → Settled ctx q h
      → Settled ctx q' h
  Settled-Keeps ctx q q' (m, none) keeps s = s
  Settled-Keeps ctx q q' (m, some e) keeps (t, why, noted) = (t, why, HasLetter-Keeps noted keeps)

  abbrev pub TurnSettled : Ctx → Queue → Turn → Type 0
  TurnSettled ctx q (again (some h)) = Settled ctx q h
  TurnSettled ctx q (again none) = Unit
  TurnSettled ctx q stopped = Unit

module _ {Ctx B K P : Type 0} (decode : Bytes → Decoded) {processor : Processor Ctx P}
    {Fits : P → Type 0} (laws : ProcessorLaws processor Fits) (with_timeout : ℕ → Ctx → Ctx)
    {execute : Execute Message Text B K} (breaker : BreakerLaws execute)
    {fetch : Ctx → Request Message Text K} (fetches : FetchLaws fetch)
    (commit : Ctx → Message → K → Option Text × K) (retry : Retry Ctx K) (group_id : Text) where
  handle_lem :
      (t : Readings) (ctx : Ctx) (m : Message) (c : ℕ) (s : LoopState B K P)
      → IsQueue c s.queue
      → c + 2 < two63
      → Fits s.orders
      → (err : Option ProcessError) × (s' : LoopState B K P) × (handle decode processor with_timeout
            execute fetch commit retry group_id t ctx m s
          ≡ some (again (some (m, err)), s'))
        × Settled decode processor with_timeout ctx s'.queue (m, err)
        × Added (letters err) c s.queue s'.queue
        × Fits s'.orders
  unfolding handle
  handle_lem t ctx m c s i below fits =
      let (err, q, p, ran, why, added, fits') =
        process_message_lem decode processor with_timeout laws t ctx m c s.queue s.orders i
          (omega arith) fits in
      let (all, noted) = record_failure_lem t m err c s.queue q added below in
      (
        err,
        record s {
          queue = record_failure t m err q;
          kafka =
              commit_message decode processor with_timeout execute fetch commit retry group_id ctx m
                s.kafka;
          orders = p;
        },
        rw (handle, ran),
        (t, why, noted),
        all,
        fits',
      )

  module _ (t : Readings) (ctx : Ctx) (c : ℕ) (s : LoopState B K P) (i : IsQueue c s.queue)
      (below : c + 2 < two63) (fits : Fits s.orders) where
    abbrev pub After : Option (Turn × LoopState B K P) → Type 0
    After r =
        (turn : Turn) × (s' : LoopState B K P) × (r ≡ some (turn, s'))
        × TurnSettled decode processor with_timeout ctx s'.queue turn
        × Added (turn_letters turn) c s.queue s'.queue
        × Fits s'.orders

    recover_lem :
        (b : B) (k : K)
        → After (
            some (
              recover decode processor with_timeout execute fetch commit retry group_id t ctx
                (record s { breaker = b; kafka = k })))
    unfolding recover
    recover_lem b k = elim (Bool-cases t.is_done) [
      | inl e ↦ (
        stopped,
        record s { breaker = b; kafka = k },
        rw (recover, e),
        tt,
        unchanged c s.queue i,
        fits,
      )
      | inr e ↦
          let k' = (retry recovery_options ctx (λ j. (none, j)) k).1 in
          elim (Option-cases (retry recovery_options ctx (λ j. (none, j)) k).0) [
            | inl f ↦ (
              again none,
              record s { breaker = b; kafka = k' },
              rw (recover, e, f),
              tt,
              unchanged c s.queue i,
              fits,
            )
            | inr (x, f) ↦ (
              stopped,
              record s { breaker = b; kafka = k' },
              rw (recover, e, f),
              tt,
              unchanged c s.queue i,
              fits,
            )
          ]
    ]

    pub round_lem :
        After (round decode processor with_timeout execute fetch commit retry group_id t ctx s)
    unfolding round after_fetch
    round_lem = elim (Bool-cases (t.is_running && t.has_reader)) [
      | inr e ↦ (stopped, s, rw (round, e), tt, unchanged c s.queue i, fits)
      | inl e ↦ elim (breaker.either (fetch (with_timeout 30 ctx)) s.breaker s.kafka) [
        | inl (err, b, ran) ↦ rw (e, ran) (recover_lem b s.kafka)
        | inr (b, ran) ↦ elim (fetches.returns (with_timeout 30 ctx) s.kafka) [
          | inl (m, k, got) ↦
              let (err, s', done, settled, added, fits') =
                handle_lem t ctx m c (record s { breaker = b; kafka = k }) i below fits in
              (again (some (m, err)), s', rw (e, ran, got) done, settled, added, fits')
          | inr (m, err, k, got) ↦ rw (e, ran, got) (recover_lem b k)
        ]
      ]
    ]
