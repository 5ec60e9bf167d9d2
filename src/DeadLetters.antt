-- ===== src/DeadLetters.antt =====
-- internal/kafka/dead_letter_queue.go with the message type of internal/interfaces/kafka.go: the
-- in-memory dead letter queue. The Go map is an association list by message ID. Each reading of the
-- clock is an argument, and so is the order in which `range` walks the map. The mutex makes each
-- method one step.
pub mod Ids
pub mod Issued
pub mod Reads
use mathlib.Core.Option
use wb_l.Base.Lists.{length}
use wb_l.Base.{
  map, false, none, Option, ◌++◌, List, ℕ, true, some, ◌∷◌, ◌+◌, leb, [], Bool, if◌then◌else◌,
}
use mathlib.Core.Logic.{ite}
use mathlib.Core.Option.{get_or}
use wb_l.Base.Dict.{lookup, put, delete}
use wb_l.Base.Int.{ℤ, pos, sub64, add64, negsuc}
use wb_l.Base.Text.{Text, codes, text_dec}
use wb_l.Base.Time.{Time, unix_epoch}
use wb_l.Base.Decimal.{decimal}

abbrev pub Bytes : Type 0
Bytes = List ℕ

pub record DeadLetterMessage : Type 0 where
  pub id : Text
  pub original_topic : Text
  pub partition : ℤ
  pub offset : ℤ
  pub message : Bytes
  pub reason : Text
  pub error : Text
  pub timestamp : Time
  pub retry_count : ℤ

pub record Queue : Type 0 where
  pub messages : List (Text × DeadLetterMessage)
  pub id_counter : ℤ

unfoldable pub new_queue : Queue
new_queue = record { messages = []; id_counter = pos 0 }

-- `fmt.Sprintf("dlq_%d_%d", seconds, n)`
unfoldable pub id_text : ℤ → ℤ → Text
unfolding decimal
id_text seconds n = codes "dlq_" ++ (decimal seconds ++ (b'_' ∷ decimal n))

-- `t.Unix()`
unfoldable pub unix_seconds : Time → ℤ
unfolding sub64
unix_seconds t = sub64 t.sec unix_epoch

abbrev pub error_text : Option Text → Text
error_text none = []
error_text (some e) = e

-- The ID that the next `Send` gives, with the clock at `now`.
unfoldable pub next_id : Queue → Time → Text
unfolding id_text unix_seconds add64
next_id q now = id_text (unix_seconds now) (add64 q.id_counter (pos 1))

-- `Send` never fails. `now` is the clock for the ID, and `later` for the timestamp.
unfoldable pub send :
    (now later : Time) (message : Bytes) (topic : Text) (partition offset : ℤ) (reason : Text)
    (original_error : Option Text)
    → Queue
    → Queue
unfolding next_id add64
send now later message topic partition offset reason original_error q =
    let id = next_id q now in
    let entry : DeadLetterMessage = record {
      id = id;
      original_topic = topic;
      partition = partition;
      offset = offset;
      message = message;
      reason = reason;
      error = error_text original_error;
      timestamp = later;
      retry_count = pos 0;
    } in
    record { messages = put text_dec id entry q.messages; id_counter = add64 q.id_counter (pos 1) }

-- The loop of `Get`: `count` messages are copied, and `order` is what `range` still has to yield.
unfoldable pub get_loop :
    (limit count : ℕ) → List DeadLetterMessage → List DeadLetterMessage → List DeadLetterMessage
get_loop limit count [] messages = messages
get_loop limit count (msg ∷ order) messages =
    let rest = get_loop limit (count + 1) order (messages ++ msg ∷ []) in
    if leb limit count then messages else rest

-- `make(…, 0, limit)`: it panics, which is `none`, at a negative capacity and at one beyond `max_cap`, the greatest for
-- which a slice of messages can be allocated.
unfoldable pub make_cap : (max_cap : ℕ) → ℤ → Option ℕ
make_cap max_cap (negsuc n) = none
make_cap max_cap (pos limit) = if leb limit max_cap then some limit else none

unfoldable pub get :
    (max_cap : ℕ) → ℤ → (order : List DeadLetterMessage) → Option (List DeadLetterMessage)
unfolding get_loop make_cap
get max_cap limit order = Option.map (λ n. get_loop n 0 order []) (make_cap max_cap limit)

unfoldable pub by_reason_loop :
    Text
    → (limit count : ℕ) → List DeadLetterMessage
    → List DeadLetterMessage
    → List DeadLetterMessage
by_reason_loop reason limit count [] messages = messages
by_reason_loop reason limit count (msg ∷ order) messages =
    let taken = by_reason_loop reason limit (count + 1) order (messages ++ msg ∷ []) in
    let passed = by_reason_loop reason limit count order messages in
    if leb limit count then messages else ite (text_dec msg.reason reason) taken passed

unfoldable pub get_by_reason :
    (max_cap : ℕ) → Text → ℤ → (order : List DeadLetterMessage) → Option (List DeadLetterMessage)
unfolding by_reason_loop make_cap
get_by_reason max_cap reason limit order =
    Option.map (λ n. by_reason_loop reason n 0 order []) (make_cap max_cap limit)

bump : Text → Queue → Option DeadLetterMessage → Queue × Bool
unfolding add64
bump id q none = (q, false)
bump id q (some m) = (
  record q {
    messages = put text_dec id (record m { retry_count = add64 m.retry_count (pos 1) }) q.messages;
  },
  true,
)

-- `Retry`: whether the message was found, and its count raised in place.
unfoldable pub retry : Text → Queue → Queue × Bool
unfolding bump
retry id q = bump id q (lookup text_dec id q.messages)

unfoldable pub message_count : Queue → ℕ
message_count q = length q.messages

unfoldable pub clear : Queue → Queue
clear q = record q { messages = [] }

-- `counts[key]++`
unfoldable pub count_up : Text → List (Text × ℕ) → List (Text × ℕ)
count_up key counts = put text_dec key (get_or (lookup text_dec key counts) 0 + 1) counts

pub record Statistics : Type 0 where
  pub total_messages : ℕ
  pub messages_by_reason : List (Text × ℕ)
  pub messages_by_topic : List (Text × ℕ)

-- The loop of `Statistics`. Both counters go by the reason, as in the source.
unfoldable pub statistics_loop :
    List DeadLetterMessage → (reasons topics : List (Text × ℕ)) → List (Text × ℕ) × List (Text × ℕ)
unfolding count_up
statistics_loop [] reasons topics = (reasons, topics)
statistics_loop (msg ∷ order) reasons topics =
    statistics_loop order (count_up msg.reason reasons) (count_up msg.reason topics)

unfoldable pub statistics : Queue → (order : List DeadLetterMessage) → Statistics
unfolding statistics_loop message_count
statistics q order =
    let (reasons, topics) = statistics_loop order [] [] in
    record {
      total_messages = message_count q;
      messages_by_reason = reasons;
      messages_by_topic = topics;
    }
