-- ===== src/Consumer/Accounts.antt =====
-- What a run of the loop of consumer.go leaves in the dead letter queue and hands to the order processor.
use wb_l.Base.Int.{two63}
use wb_l.Base.Lists.{All, length}
use wb_l.Breaker.{BreakerLaws, Execute, Request}
use wb_l.DeadLetters.Issued.{IsQueue}
use wb_l.Base.Lists.{All}
use wb_l.Consumer.Processing.{letters, unchanged, in_turn, ProcessorLaws, Added}
use wb_l.Base.Text.{Text}
use wb_l.Consumer.Rounds.{
  turn_bound, turn_letters, letters_all, TurnSettled, round_lem, Settled, FetchLaws, Settled-Keeps,
}
use wb_l.DeadLetters.{Bytes}
use wb_l.Base.{◌≡◌, [], ◌*◌, ◌∷◌, Option, ℕ, some, ◌<◌, none, ◌+◌, refl, arith, List}
use mathlib.Core.Path.{subst}
use wb_l.Consumer.{Readings, Decoded, Message, ProcessError, Processor}
use wb_l.Consumer.Loop.{round, consume, LoopState, Retry, Turn, stopped, again}

module _ {Ctx B K P : Type 0} (decode : Bytes → Decoded) {processor : Processor Ctx P}
    {Fits : P → Type 0} (laws : ProcessorLaws processor Fits) (with_timeout : ℕ → Ctx → Ctx)
    {execute : Execute Message Text B K} (breaker : BreakerLaws execute)
    {fetch : Ctx → Request Message Text K} (fetches : FetchLaws fetch)
    (commit : Ctx → Message → K → Option Text × K) (retry : Retry Ctx K) (group_id : Text) where
  abbrev Runs : List Readings → Ctx → ℕ → LoopState B K P → Type 0
  Runs ts ctx c s =
      (handled : List (Message × Option ProcessError)) × (s' : LoopState B K P) × (consume decode
          processor with_timeout execute fetch commit retry group_id ts ctx s
        ≡ some (handled, s'))
      × All (Settled decode processor with_timeout ctx s'.queue) handled
      × Added (letters_all handled) c s.queue s'.queue
      × Fits s'.orders

  -- The rest of the run after one round.
  consume_after :
      (t : Readings) (ts : List Readings) (ctx : Ctx) (c : ℕ) (s : LoopState B K P) (turn : Turn)
      (s' : LoopState B K P)
      → round decode processor with_timeout execute fetch commit retry group_id t ctx s
        ≡ some (turn, s')
      → TurnSettled decode processor with_timeout ctx s'.queue turn
      → Added (turn_letters turn) c s.queue s'.queue
      → Fits s'.orders
      → Runs ts ctx (c + turn_letters turn) s'
      → Runs (t ∷ ts) ctx c s
  unfolding consume
  consume_after t ts ctx c s stopped s' ran one added fits' rest =
      ([], s', rw (consume, ran), tt, added, fits')
  consume_after t ts ctx c s (again none) s' ran one added fits'
        (handled, s'', rest, settled, more, fits'') =
      (
        handled,
        s'',
        rw (consume, ran) rest,
        settled,
        subst (λ j. Added j c s.queue s''.queue) (omega arith)
            (in_turn 0 (letters_all handled) c added more),
        fits'',
      )
  consume_after t ts ctx c s (again (some (m, err))) s' ran one added fits'
        (handled, s'', rest, settled, more, fits'') =
      (
        (m, err) ∷ handled,
        s'',
        rw (consume, ran, rest),
        (
          Settled-Keeps decode processor with_timeout ctx s'.queue s''.queue (m, err) more.keeps
              one,
          settled,
        ),
        in_turn (letters err) (letters_all handled) c added more,
        fits'',
      )

  -- Over a breaker that runs or rejects a request, a reader that returns a message or an error,
  -- and an order processor that keeps its laws, while the counter of the queue stays below 2^63: a
  -- run of the loop never panics. Each message that it handled either decoded to a valid order
  -- that the processor accepted, or stands in the dead letter queue with its value, its origin and
  -- its error. No letter is lost, and the queue grows by two for a message that does not decode or
  -- is not valid, by one for one that the processor refused, and by none for the others.
  pub consume_lem :
      (ts : List Readings) (ctx : Ctx) (c : ℕ) (s : LoopState B K P)
      → IsQueue c s.queue
      → c + 2 * length ts < two63
      → Fits s.orders
      → (handled : List (Message × Option ProcessError)) × (s' : LoopState B K P) × (consume decode
            processor with_timeout execute fetch commit retry group_id ts ctx s
          ≡ some (handled, s'))
        × All (Settled decode processor with_timeout ctx s'.queue) handled
        × Added (letters_all handled) c s.queue s'.queue
        × Fits s'.orders
  unfolding consume
  consume_lem [] ctx c s i below fits = ([], s, refl, tt, unchanged c s.queue i, fits)
  consume_lem (t ∷ ts) ctx c s i below fits =
      let (turn, s', ran, one, added, fits') =
        round_lem decode laws with_timeout breaker fetches commit retry group_id t ctx c s i
          (omega arith) fits in
      consume_after t ts ctx c s turn s' ran one added fits' (
        consume_lem ts ctx (c + turn_letters turn) s' added.queue (omega (arith, turn_bound turn))
          fits')
