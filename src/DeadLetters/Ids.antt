-- ===== src/DeadLetters/Ids.antt =====
-- The message IDs of dead_letter_queue.go as texts: the counter behind the last `_`.
use mathlib.Core.List.{append_assoc, append-nil}
use wb_l.Base.{false, sym, ap, ◌∙◌, arith, ◌==◌, refl, ◌≡◌, ◌∷◌, ℕ, [], true, ◌++◌, if◌then◌else◌}
use wb_l.Base.Int.{ℤ, pos}
use wb_l.Base.Text.{Text, codes, all}
use wb_l.Base.Decimal.{digits_inj, digits-all, is_decimal_digit, digits, decimal}
use wb_l.DeadLetters.{id_text}

-- What stands behind the last `_`.
last_part : Text → Text → Text
last_part acc [] = acc
last_part acc (c ∷ s) = last_part (if c == b'_' then [] else acc ++ c ∷ []) s

last_part-append : (acc s t : Text) → last_part acc (s ++ (b'_' ∷ t)) ≡ last_part [] t
unfolding last_part
last_part-append acc [] t = refl
last_part-append acc (c ∷ s) t = last_part-append (if c == b'_' then [] else acc ++ c ∷ []) s t

digit_ne : (c : ℕ) → is_decimal_digit c ≡ true → (c == b'_') ≡ false
digit_ne c h = ground arith

last_part-digits : (acc s : Text) → all is_decimal_digit s ≡ true → last_part acc s ≡ acc ++ s
unfolding last_part
last_part-digits acc [] h = sym (append-nil acc)
last_part-digits acc (c ∷ s) h =
    rw (digit_ne c (ground arith))
      (last_part-digits (acc ++ c ∷ []) s (ground arith) ∙ append_assoc acc (c ∷ []) s)

-- The counter of an ID stands behind its last `_`.
last_part-id :
    (s : ℤ) (n : ℕ) → last_part [] (codes "dlq_" ++ (decimal s ++ (b'_' ∷ digits n))) ≡ digits n
last_part-id s n =
    ap (last_part []) (sym (append_assoc (codes "dlq_") (decimal s) (b'_' ∷ digits n)))
    ∙ last_part-append [] (codes "dlq_" ++ decimal s) (digits n)
    ∙ last_part-digits [] (digits n) (digits-all n)

-- IDs with different counters differ, whatever the clock says.
pub id_text_inj : (s t : ℤ) (m n : ℕ) → id_text s (pos m) ≡ id_text t (pos n) → m ≡ n
unfolding id_text decimal
id_text_inj s t m n e =
    digits_inj m n (sym (last_part-id s m) ∙ ap (last_part []) e ∙ last_part-id t n)
