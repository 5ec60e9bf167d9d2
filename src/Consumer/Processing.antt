-- ===== src/Consumer/Processing.antt =====
-- What `processMessage` and a round of the loop of consumer.go do with a message: what the order processor
-- gets, and what the dead letter queue keeps of it.
use wb_l.Models.Messages.{model_text}
use wb_l.Models.Validate.{validate}
use mathlib.Core.Option.{none-ne-some}
use wb_l.Base.Int.{pos, two63}
use wb_l.Base.Dict.{lookup}
use wb_l.Base.Text.{codes, text_dec, Text}
use wb_l.DeadLetters.Issued.{IsQueue, send-IsQueue}
use wb_l.Models.Orders.{validate_iff, IsValidOrder}
use wb_l.Models.{Order}
use wb_l.Consumer.{
  process_decoded, process_message, send_message, Decoded, Processor, ProcessError, Message,
  Readings,
}
use wb_l.Base.Time.{Time}
use wb_l.DeadLetters.{next_id, message_count, Bytes, Queue, DeadLetterMessage}
use wb_l.Base.{
  ◌⊎◌, inr, Option-cases, inl, refl, ◌<◌, none, some, Option, ◌∙◌, sym, arith, ℕ, ◌≡◌, ap, ◌+◌,
}
use mathlib.Core.Logic.{if_neg, if_pos}
use wb_l.Consumer.{not_json, not_valid, not_processed, undecodable, decoded}

-- Every message of the queue is still there.
abbrev pub Keeps : Queue → Queue → Type 0
Keeps q q' =
    (k : Text) (d : DeadLetterMessage)
    → lookup text_dec k q.messages ≡ some d
    → lookup text_dec k q'.messages ≡ some d

-- The queue has the message, with a reason and the text of an error.
pub record HasLetter (m : Message) (reason err : Text) (q : Queue) : Type 0 where
  pub key : Text
  pub letter : DeadLetterMessage
  pub there : lookup text_dec key q.messages ≡ some letter
  pub message : letter.message ≡ m.value
  pub topic : letter.original_topic ≡ m.topic
  pub partition : letter.partition ≡ m.partition
  pub offset : letter.offset ≡ m.offset
  pub reason_kept : letter.reason ≡ reason
  pub error_kept : letter.error ≡ err

-- `n` messages were added to a queue that `c` messages had been sent to.
pub record Added (n c : ℕ) (q q' : Queue) : Type 0 where
  pub queue : IsQueue (c + n) q'
  pub keeps : Keeps q q'
  pub count : message_count q' ≡ message_count q + n

renumbered : {c j : ℕ} {q : Queue} → IsQueue c q → c ≡ j → IsQueue j q
renumbered i e = record { counter = i.counter ∙ ap pos e; issued = rw (← e) i.issued }

pub unchanged : (c : ℕ) (q : Queue) → IsQueue c q → Added 0 c q q
unchanged c q i = record {
  queue = renumbered i (omega arith);
  keeps = λ k d e. e;
  count = omega arith;
}

pub in_turn :
    (n k c : ℕ) {q q' q'' : Queue} → Added n c q q' → Added k (c + n) q' q'' → Added (n + k) c q q''
in_turn n k c {q} {q'} {q''} a b = record {
  queue = renumbered b.queue (omega arith);
  keeps = λ j d e. b.keeps j d (a.keeps j d e);
  count = omega (arith, a.count, b.count);
}

pub HasLetter-Keeps :
    {m : Message} {reason err : Text} {q q' : Queue}
    → HasLetter m reason err q
    → Keeps q q'
    → HasLetter m reason err q'
HasLetter-Keeps h keeps = record {
  key = h.key;
  letter = h.letter;
  there = keeps h.key h.letter h.there;
  message = h.message;
  topic = h.topic;
  partition = h.partition;
  offset = h.offset;
  reason_kept = h.reason_kept;
  error_kept = h.error_kept;
}

pub send_message_lem :
    (id stamp : Time) (m : Message) (reason err : Text) (c : ℕ) (q : Queue)
    → IsQueue c q
    → c + 1 < two63
    → Added 1 c q (send_message id stamp m reason err q)
      × HasLetter m reason err (send_message id stamp m reason err q)
unfolding send_message
send_message_lem id stamp m reason err c q i below =
    let (queue, fresh, entries, count) =
      send-IsQueue id stamp m.value m.topic m.partition m.offset reason (some err) c q i below in
    (
      record {
        queue = queue;
        keeps = λ k d e. entries k ∙ elim (text_dec (next_id q id) k) [
          | yes same ↦
              absurd (none-ne-some d (sym fresh ∙ ap (λ j. lookup text_dec j q.messages) same ∙ e))
          | no other ↦ if_neg (text_dec (next_id q id) k) other _ _ ∙ e
        ];
        count = count;
      },
      record {
        key = next_id q id;
        letter = _;
        there = entries (next_id q id) ∙ if_pos (text_dec (next_id q id) (next_id q id)) refl _ _;
        message = refl;
        topic = refl;
        partition = refl;
        offset = refl;
        reason_kept = refl;
        error_kept = refl;
      },
    )

-- How many messages `processMessage` adds to the queue, and a whole round.
abbrev pub letters_first : Option ProcessError → ℕ
letters_first none = 0
letters_first (some (not_json _)) = 1
letters_first (some (not_valid _)) = 1
letters_first (some (not_processed _)) = 0

abbrev pub letters : Option ProcessError → ℕ
letters none = 0
letters (some (not_json _)) = 2
letters (some (not_valid _)) = 2
letters (some (not_processed _)) = 1

pub Decoded-cases :
    (d : Decoded) → ((e : Text) × (d ≡ undecodable e)) ⊎ ((o : Order) × (d ≡ decoded o))
Decoded-cases (undecodable e) = inl (e, refl)
Decoded-cases (decoded o) = inr (o, refl)

-- An order processor that does not panic from the states of an invariant.
pub record ProcessorLaws {Ctx P : Type 0} (processor : Processor Ctx P) (Fits : P → Type 0)
    : Type 0 where
  pub returns :
      (ctx : Ctx) (o : Order) (p : P)
      → Fits p
      → (err : Option Text) × (p' : P) × (processor ctx o p ≡ some (err, p')) × Fits p'

module _ {Ctx P : Type 0} (decode : Bytes → Decoded) (processor : Processor Ctx P)
    (with_timeout : ℕ → Ctx → Ctx) where
  -- Why `processMessage` returned what it did: no error exactly for an order that decodes, is valid, and was
  -- accepted by the processor.
  abbrev pub Explains : Readings → Ctx → Message → Option ProcessError → Type 0
  Explains t ctx m (some (not_json e)) = decode m.value ≡ undecodable e
  Explains t ctx m (some (not_valid e)) =
      (o : Order) × (decode m.value ≡ decoded o) × (validate t.now t.later o ≡ some e)
  Explains t ctx m (some (not_processed e)) =
      (o : Order) × (decode m.value ≡ decoded o)
      × IsValidOrder t.now t.later o
      × (p : P) × (p' : P) × (processor (with_timeout 30 ctx) o p ≡ some (some e, p'))
  Explains t ctx m none =
      (o : Order) × (decode m.value ≡ decoded o)
      × IsValidOrder t.now t.later o
      × (p : P) × (p' : P) × (processor (with_timeout 30 ctx) o p ≡ some (none, p'))

  module _ {Fits : P → Type 0} (laws : ProcessorLaws processor Fits) where
    pub process_message_lem :
        (t : Readings) (ctx : Ctx) (m : Message) (c : ℕ) (q : Queue) (p : P)
        → IsQueue c q
        → c + 1 < two63
        → Fits p
        → (err : Option ProcessError) × (q' : Queue) × (p' : P) × (process_message decode processor
              with_timeout t ctx m q p
            ≡ some (err, q', p'))
          × Explains t ctx m err
          × Added (letters_first err) c q q'
          × Fits p'
    unfolding process_message process_decoded
    process_message_lem t ctx m c q p i below fits = elim (Decoded-cases (decode m.value)) [
      | inl (e, here) ↦
          let (added, _) =
            send_message_lem t.first_id t.first_stamp m (codes "json_unmarshal_error") e c q i
              below in
          (some (not_json e), _, p, rw (process_message, here), here, added, fits)
      | inr (o, here) ↦ elim (Option-cases (validate t.now t.later o)) [
        | inr (e, bad) ↦
            let (added, _) =
              send_message_lem t.first_id t.first_stamp m (codes "validation_error") (model_text e)
                c q i below in
            (
              some (not_valid e),
              _,
              p,
              rw (process_message, here, process_decoded, bad),
              (o, here, bad),
              added,
              fits,
            )
        | inl good ↦
            let (err, p', ran, fits') = laws.returns (with_timeout 30 ctx) o p fits in
            let valid = (validate_iff t.now t.later o).0 good in
            elim (Option-cases err) [
              | inl e ↦ (
                none,
                q,
                p',
                rw (process_message, here, process_decoded, good, ran, e),
                (o, here, valid, p, p', rw (ran, e)),
                unchanged c q i,
                fits',
              )
              | inr (x, e) ↦ (
                some (not_processed x),
                q,
                p',
                rw (process_message, here, process_decoded, good, ran, e),
                (o, here, valid, p, p', rw (ran, e)),
                unchanged c q i,
                fits',
              )
            ]
      ]
    ]
