-- ===== src/DeadLetters/Issued.antt =====
-- The invariant of the queue of dead_letter_queue.go, for `Send`, `Retry` and `Clear`.
use wb_l.Base.Lists.{length}
use wb_l.DeadLetters.Ids.{id_text_inj}
use wb_l.Base.Dict.{put, lookup-put, delete, lookup}
use wb_l.Base.Int.{ℤ, pos, two63, add64, add64_pos}
use mathlib.Core.Logic.{ite, if_pos, if_neg}
use wb_l.Base.Time.{Time}
use wb_l.DeadLetters.{
  bump, clear, retry, unix_seconds, message_count, error_text, id_text, send, next_id, new_queue,
  Queue, DeadLetterMessage, Bytes,
}
use wb_l.Base.Text.{text_dec, Text}
use wb_l.Base.{
  false, is_some, ap, ◌∙◌, sym, Option, inl, inr, List, ◌<◌, [], ◌≡◌, refl, none, some, ◌+◌, ℕ, ◌≤◌,
  Option-cases, ◌∷◌, arith,
}
use mathlib.Core.Option

-- `c` messages were sent so far: each message stands under its own ID, and that ID has the number of
-- one of the sends.
pub record IsQueue (c : ℕ) (q : Queue) : Type 0 where
  pub counter : q.id_counter ≡ pos c
  pub issued :
      (k : Text) (m : DeadLetterMessage)
      → lookup text_dec k q.messages ≡ some m
      → (m.id ≡ k) × (t : ℤ) × (n : ℕ) × (k ≡ id_text t (pos n)) × n ≤ c

delete_absent :
    (k : Text) (ms : List (Text × DeadLetterMessage))
    → lookup text_dec k ms ≡ none
    → delete text_dec k ms ≡ ms
unfolding lookup delete
delete_absent k [] e = refl
delete_absent k ((j, m) ∷ ms) e = ground (arith, delete_absent k ms)

-- The empty queue.
pub new_queue-IsQueue : IsQueue 0 new_queue
unfolding new_queue lookup
new_queue-IsQueue = record { counter = refl; issued = λ k m e. cc }

next_number :
    (c : ℕ) (q : Queue) → IsQueue c q → c + 1 < two63 → add64 q.id_counter (pos 1) ≡ pos (c + 1)
next_number c q i below = rw i.counter (add64_pos c 1 below)

next_id_fresh :
    (c : ℕ) (q : Queue) (now : Time)
    → IsQueue c q
    → c + 1 < two63
    → lookup text_dec (next_id q now) q.messages ≡ none
unfolding next_id
next_id_fresh c q now i below = elim (Option-cases (lookup text_dec (next_id q now) q.messages)) [
  | inl e ↦ e
  | inr (m, e) ↦
      let (_, t, n, same, small) = i.issued (next_id q now) m e in
      let here : next_id q now ≡ id_text (unix_seconds now) (pos (c + 1)) =
        rw (next_id, next_number c q i below) in
      absurd (omega (arith, small, id_text_inj (unix_seconds now) t (c + 1) n (sym here ∙ same)))
]

length-put_fresh :
    (k : Text) (m : DeadLetterMessage) (ms : List (Text × DeadLetterMessage))
    → lookup text_dec k ms ≡ none
    → length (put text_dec k m ms) ≡ length ms + 1
unfolding put
length-put_fresh k m ms e = rw (delete_absent k ms e) (omega arith)

-- A message under a new number.
put-IsQueue :
    (c : ℕ) (q : Queue) (t : ℤ) (k : Text) (m : DeadLetterMessage) (next : ℤ)
    → IsQueue c q
    → next ≡ pos (c + 1)
    → k ≡ id_text t next
    → m.id ≡ k
    → IsQueue (c + 1) (record { messages = put text_dec k m q.messages; id_counter = next })
put-IsQueue c q t k m next i number key own = record {
  counter = number;
  issued = λ j n e.
      let there : ite (text_dec k j) (some m) (lookup text_dec j q.messages) ≡ some n =
        sym (lookup-put text_dec k j m q.messages) ∙ e in
      elim (text_dec k j) [
        | yes same ↦
            let both : some m ≡ some n = sym (if_pos (text_dec k j) same _ _) ∙ there in
            let it : m ≡ n = cc in
            (
              ap (λ x. x.id) (sym it) ∙ own ∙ same,
              t,
              c + 1,
              sym same ∙ key ∙ ap (id_text t) number,
              omega arith,
            )
        | no other ↦
            let (a, u, b, d, small) =
              i.issued j n (sym (if_neg (text_dec k j) other _ _) ∙ there) in
            (a, u, b, d, omega (arith, small))
      ];
}

-- While the counter stays below 2^63, `Send` gives an ID that no message in the queue has, stores
-- the message under it, leaves every other message as it was, raises the count by one, and keeps
-- the invariant.
pub send-IsQueue :
    (now later : Time) (message : Bytes) (topic : Text) (partition offset : ℤ) (reason : Text)
    (original_error : Option Text) (c : ℕ) (q : Queue)
    → IsQueue c q
    → c + 1 < two63
    → let q' = send now later message topic partition offset reason original_error q in
      IsQueue (c + 1) q'
      × (lookup text_dec (next_id q now) q.messages ≡ none)
      × ((k : Text)
          → lookup text_dec k q'.messages
            ≡ ite
                (text_dec (next_id q now) k)
                (some (record {
                  id = next_id q now;
                  original_topic = topic;
                  partition = partition;
                  offset = offset;
                  message = message;
                  reason = reason;
                  error = error_text original_error;
                  timestamp = later;
                  retry_count = pos 0;
                }))
                (lookup text_dec k q.messages))
      × (message_count q' ≡ message_count q + 1)
unfolding send next_id message_count
send-IsQueue now later message topic partition offset reason original_error c q i below =
    let fresh = next_id_fresh c q now i below in
    let id = next_id q now in
    (
      put-IsQueue c q (unix_seconds now) id _ _ i (next_number c q i below) refl refl,
      fresh,
      λ k. lookup-put text_dec id k _ q.messages,
      length-put_fresh id _ q.messages fresh,
    )

-- The message with one retry more.
unfoldable pub raised : DeadLetterMessage → DeadLetterMessage
unfolding add64
raised m = record m { retry_count = add64 m.retry_count (pos 1) }

bumped-IsQueue :
    (c : ℕ) (q : Queue) (k : Text) (m : DeadLetterMessage)
    → IsQueue c q
    → lookup text_dec k q.messages ≡ some m
    → IsQueue c (record q { messages = put text_dec k (raised m) q.messages })
unfolding raised
bumped-IsQueue c q k m i e =
    let (own, t, n, key, small) = i.issued k m e in
    record {
      counter = i.counter;
      issued = λ j x f.
          let there : ite (text_dec k j) (some (raised m)) (lookup text_dec j q.messages) ≡ some x =
            sym (lookup-put text_dec k j (raised m) q.messages) ∙ f in
          elim (text_dec k j) [
            | yes same ↦
                let both : some (raised m) ≡ some x =
                  sym (if_pos (text_dec k j) same _ _) ∙ there in
                let it : raised m ≡ x = cc in
                (ap (λ y. y.id) (sym it) ∙ own ∙ same, t, n, sym same ∙ key, small)
            | no other ↦ i.issued j x (sym (if_neg (text_dec k j) other _ _) ∙ there)
          ];
    }

-- `Retry` reports whether a message has the ID, raises only the retry count of that message,
-- leaves every other message as it was, and keeps the invariant.
pub retry-IsQueue :
    (k : Text) (c : ℕ) (q : Queue)
    → IsQueue c q
    → let (q', found) = retry k q in
      IsQueue c q'
      × (found ≡ is_some (lookup text_dec k q.messages))
      × ((j : Text)
          → lookup text_dec j q'.messages
            ≡ ite
                (text_dec k j)
                (Option.map raised (lookup text_dec j q.messages))
                (lookup text_dec j q.messages))
unfolding retry bump raised
retry-IsQueue k c q i = elim (Option-cases (lookup text_dec k q.messages)) [
  | inl e ↦
      let none_there : retry k q ≡ (q, false) = rw (retry, e) in
      rw (none_there, e) (i, refl, λ j. ground (arith, e))
  | inr (m, e) ↦ rw e (
    bumped-IsQueue c q k m i e,
    refl,
    λ j. lookup-put text_dec k j (raised m) q.messages ∙ ground (arith, e),
  )
]

-- `Clear` drops every message, and the numbers go on from where they were.
pub clear-IsQueue :
    (c : ℕ) (q : Queue) → IsQueue c q → IsQueue c (clear q) × (message_count (clear q) ≡ 0)
unfolding clear message_count lookup
clear-IsQueue c q i = (record { counter = i.counter; issued = λ k m e. absurd (cc) }, refl)
