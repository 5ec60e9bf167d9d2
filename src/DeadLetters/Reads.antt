-- ===== src/DeadLetters/Reads.antt =====
-- What the reading methods of dead_letter_queue.go return: `Get`, `GetByReason` and `Statistics`.
use mathlib.Core.Logic.{ite, if_pos, if_neg}
use wb_l.Base.Int.{ℤ, pos, negsuc}
use mathlib.Core.List.{append_assoc, append-nil}
use wb_l.Base.Dict.{lookup-put, lookup}
use wb_l.Base.Lists.{length, take}
use wb_l.Base.Text.{text_dec, Text}
use wb_l.DeadLetters.{
  make_cap, message_count, get_or, count_up, get_by_reason, statistics, statistics_loop, get,
  by_reason_loop, get_loop, ite, Queue, DeadLetterMessage,
}
use wb_l.Base.{
  ltb, false, true, Option, zero, suc, ◌∙◌, Bool-cases, inr, arith, inl, leb, refl, ◌≡◌, some, none,
  sym, ◌-◌, ◌++◌, ◌∷◌, ◌+◌, ap, [], ℕ, List, if◌then◌else◌,
}

-- The messages with the reason.
unfoldable pub having : Text → List DeadLetterMessage → List DeadLetterMessage
having reason [] = []
having reason (m ∷ ms) = ite (text_dec m.reason reason) (m ∷ having reason ms) (having reason ms)

-- At most so many messages from the front, and nothing for a negative number or one above the bound.
unfoldable pub first : (max_cap : ℕ) → ℤ → List DeadLetterMessage → Option (List DeadLetterMessage)
first max_cap (negsuc n) ms = none
first max_cap (pos n) ms = if ltb max_cap n then none else some (take n ms)

take_from :
    (limit count : ℕ) (m : DeadLetterMessage) (ms : List DeadLetterMessage)
    → take (limit - count) (m ∷ ms)
      ≡ (if leb limit count then [] else m ∷ take (limit - (count + 1)) ms)
take_from limit count m ms = elim (Bool-cases (leb limit count)) [
  | inl e ↦ let z : limit - count ≡ 0 = ground arith in ground (arith, z)
  | inr e ↦ let z : limit - count ≡ suc (limit - (count + 1)) = ground arith in rw z (ground arith)
]

take-nil : (n : ℕ) → take {A = DeadLetterMessage} n [] ≡ []
take-nil zero = refl
take-nil (suc n) = refl

get_loop_lem :
    (limit count : ℕ) (order out : List DeadLetterMessage)
    → get_loop limit count order out ≡ out ++ take (limit - count) order
unfolding get_loop
get_loop_lem limit count [] out = rw (take-nil (limit - count), append-nil out)
get_loop_lem limit count (m ∷ order) out = elim (Bool-cases (leb limit count)) [
  | inl e ↦ rw (take_from limit count m order, e) (sym (append-nil out))
  | inr e ↦
      rw (take_from limit count m order, e)
        (get_loop_lem limit (count + 1) order (out ++ m ∷ [])
          ∙ append_assoc out (m ∷ []) (take (limit - (count + 1)) order))
]

by_reason_loop_lem :
    (reason : Text) (limit count : ℕ) (order out : List DeadLetterMessage)
    → by_reason_loop reason limit count order out
      ≡ out ++ take (limit - count) (having reason order)
unfolding by_reason_loop having
by_reason_loop_lem reason limit count [] out = rw (take-nil (limit - count), append-nil out)
by_reason_loop_lem reason limit count (m ∷ order) out = elim (text_dec m.reason reason) [
  | yes y ↦ elim (Bool-cases (leb limit count)) [
    | inl e ↦
        rw (if_pos _ y, if_pos _ y, take_from limit count m (having reason order), e)
          (sym (append-nil out))
    | inr e ↦
        rw (if_pos _ y, if_pos _ y, take_from limit count m (having reason order), e)
          (by_reason_loop_lem reason limit (count + 1) order (out ++ m ∷ [])
            ∙ append_assoc out (m ∷ []) (take (limit - (count + 1)) (having reason order)))
  ]
  | no n ↦ elim (Bool-cases (leb limit count)) [
    | inl e ↦
        let z : limit - count ≡ 0 = ground arith in
        rw (if_neg _ n, if_neg _ n, e, z) (sym (append-nil out))
    | inr e ↦ rw (if_neg _ n, if_neg _ n, e) (by_reason_loop_lem reason limit count order out)
  ]
]

-- `Get` and `GetByReason` return the first messages, and the first messages with the reason, in
-- the order in which the map is walked: as many as there are, but not more than the limit. A limit
-- that is negative, or beyond the greatest capacity that can be allocated, panics.
pub get_lem :
    (max_cap : ℕ) (reason : Text) (order : List DeadLetterMessage) (limit : ℤ)
    → (get max_cap limit order ≡ first max_cap limit order)
      × (get_by_reason max_cap reason limit order ≡ first max_cap limit (having reason order))
unfolding get get_by_reason first make_cap
get_lem max_cap reason order (negsuc n) = (refl, refl)
get_lem max_cap reason order (pos n) =
    let all : get_loop n 0 order [] ≡ take n order =
      get_loop_lem n 0 order [] ∙ ap (λ k. take k order) (omega arith) in
    let some_of : by_reason_loop reason n 0 order [] ≡ take n (having reason order) =
      by_reason_loop_lem reason n 0 order []
      ∙ ap (λ k. take k (having reason order)) (omega arith) in
    elim (Bool-cases (leb n max_cap)) [
      | inl fits ↦
          let within : ltb max_cap n ≡ false = ground (arith, fits) in
          (rw (fits, within) (ap some all), rw (fits, within) (ap some some_of))
      | inr big ↦
          let beyond : ltb max_cap n ≡ true = ground (arith, big) in
          (rw (big, beyond) refl, rw (big, beyond) refl)
    ]

statistics_loop_lem :
    (reason : Text) (order : List DeadLetterMessage) (counts topics : List (Text × ℕ))
    → get_or (lookup text_dec reason (statistics_loop order counts topics).0) 0
      ≡ get_or (lookup text_dec reason counts) 0 + length (having reason order)
unfolding statistics_loop count_up having
statistics_loop_lem reason [] counts topics = ground arith
statistics_loop_lem reason (m ∷ order) counts topics = ground (
  arith,
  statistics_loop_lem reason order (count_up m.reason counts) (count_up m.reason topics),
  lookup-put text_dec m.reason reason (get_or (lookup text_dec m.reason counts) 0 + 1) counts,
)

statistics_loop_same :
    (order : List DeadLetterMessage) (counts : List (Text × ℕ))
    → (statistics_loop order counts counts).0 ≡ (statistics_loop order counts counts).1
unfolding statistics_loop
statistics_loop_same [] counts = refl
statistics_loop_same (m ∷ order) counts = statistics_loop_same order (count_up m.reason counts)

-- `Statistics` gives the number of messages, for each reason the number of messages with it, and
-- under `messages_by_topic` the same counts as by reason.
pub statistics_lem :
    (q : Queue) (order : List DeadLetterMessage) (reason : Text)
    → let s = statistics q order in
      (s.total_messages ≡ message_count q)
      × (get_or (lookup text_dec reason s.messages_by_reason) 0 ≡ length (having reason order))
      × (s.messages_by_topic ≡ s.messages_by_reason)
unfolding statistics lookup
statistics_lem q order reason = (
  refl,
  statistics_loop_lem reason order [] [] ∙ omega arith,
  sym (statistics_loop_same order []),
)
