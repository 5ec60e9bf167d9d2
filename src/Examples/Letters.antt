-- ===== src/Examples/Letters.antt =====
-- The theorems on dead_letter_queue.go at a queue of one message.
use wb_l.Base.Dict.{lookup}
use wb_l.Base.Time.{Time}
use wb_l.Base.Text.{text_dec, codes, Text}
use wb_l.DeadLetters.Reads.{having, first, statistics_lem, get_lem}
use wb_l.DeadLetters.Issued.{raised, retry-IsQueue, send-IsQueue, IsQueue, new_queue-IsQueue}
use wb_l.Base.{[], ◌≡◌, ◌+◌, some, none, ◌∷◌, is_some, arith, refl}
use mathlib.Core.Option
use mathlib.Core.Option.{get_or}
use mathlib.Core.Logic.{ite}
use wb_l.DeadLetters.{
  message_count, statistics, get_by_reason, next_id, retry, id_text, new_queue, send,
  DeadLetterMessage, Queue, get,
}
use wb_l.Base.Int.{pos}

abbrev moment : Time
moment = record { sec = pos 63900000000; nsec = 0 }

abbrev broken : Queue → Queue
broken =
    send moment moment (b'{' ∷ []) (codes "orders") (pos 0) (pos 7) (codes "unmarshal error")
      (some (codes "EOF"))

abbrev one_letter : Queue
one_letter = broken new_queue

abbrev letter : DeadLetterMessage
letter = record {
  id = codes "dlq_1764403200_1";
  original_topic = codes "orders";
  partition = pos 0;
  offset = pos 7;
  message = b'{' ∷ [];
  reason = codes "unmarshal error";
  error = codes "EOF";
  timestamp = moment;
  retry_count = pos 0;
}

id_text_test : id_text (pos 1764403200) (pos 1) ≡ codes "dlq_1764403200_1"
unfolding id_text
id_text_test = refl

one_letter-IsQueue : IsQueue 1 one_letter
one_letter-IsQueue =
    (send-IsQueue moment moment (b'{' ∷ []) (codes "orders") (pos 0) (pos 7)
      (codes "unmarshal error") (some (codes "EOF")) 0 new_queue new_queue-IsQueue (omega arith)).0

send-IsQueue_example :
    let q' = broken one_letter in
    IsQueue 2 q'
    × (lookup text_dec (next_id one_letter moment) one_letter.messages ≡ none)
    × ((k : Text)
        → lookup text_dec k q'.messages
          ≡ ite
              (text_dec (next_id one_letter moment) k)
              (some (record letter { id = next_id one_letter moment }))
              (lookup text_dec k one_letter.messages))
    × (message_count q' ≡ message_count one_letter + 1)
send-IsQueue_example =
    send-IsQueue moment moment (b'{' ∷ []) (codes "orders") (pos 0) (pos 7)
      (codes "unmarshal error") (some (codes "EOF")) 1 one_letter one_letter-IsQueue (omega arith)

retry-IsQueue_example :
    let (q', found) = retry (codes "dlq_1764403200_1") one_letter in
    IsQueue 1 q'
    × (found ≡ is_some (lookup text_dec (codes "dlq_1764403200_1") one_letter.messages))
    × ((j : Text)
        → lookup text_dec j q'.messages
          ≡ ite
              (text_dec (codes "dlq_1764403200_1") j)
              (Option.map raised (lookup text_dec j one_letter.messages))
              (lookup text_dec j one_letter.messages))
retry-IsQueue_example = retry-IsQueue (codes "dlq_1764403200_1") 1 one_letter one_letter-IsQueue

get_lem_example :
    (get 1000 (pos 1) (letter ∷ letter ∷ []) ≡ some (letter ∷ []))
    × (get_by_reason 1000 (codes "unmarshal error") (pos 1) (letter ∷ letter ∷ [])
        ≡ some (letter ∷ []))
unfolding first having text_dec
get_lem_example = get_lem 1000 (codes "unmarshal error") (letter ∷ letter ∷ []) (pos 1)

statistics_lem_example :
    let s = statistics one_letter (letter ∷ []) in
    (s.total_messages ≡ message_count one_letter)
    × (get_or (lookup text_dec (codes "orders") s.messages_by_reason) 0 ≡ 0)
    × (s.messages_by_topic ≡ s.messages_by_reason)
unfolding having text_dec
statistics_lem_example = statistics_lem one_letter (letter ∷ []) (codes "orders")
