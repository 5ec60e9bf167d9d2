-- ===== src/Base/Decimal.antt =====
-- `%d` of fmt.Sprintf: the decimal digits of an integer.
use wb_l.Base.{
  sym, arith, ℕ, ◌*◌, refl, ◌∙◌, ◌≡◌, true, ◌+◌, [], ◌-◌, ◌%◌, ◌/◌, Bool, ◌<◌, zero, ap, ◌∷◌, suc,
}
use mathlib.Core.Logic.{dite, dif_pos, dif_neg}
use mathlib.Core.WellFounded.{Acc, WellFounded}
use native.Mathlib.Bridge.{le_prop}
use native.Mathlib.Decide.{dec_lt}
use wb_l.Base.Int.{ℤ, pos, negsuc}
use wb_l.Base.Text.{Text, all, in_range}

unfoldable pub Acc-below : (k n : ℕ) → n < k → Acc ◌<◌ n
Acc-below zero n h = elim h [ ]
Acc-below (suc k) n h = Acc.intro n (λ m hm. Acc-below k m (omega arith))

unfoldable pub lt_wf : WellFounded ◌<◌
unfolding Acc-below
lt_wf = record { apply = λ n. Acc-below (suc n) n (omega arith) }

pub tenth_lt : (n : ℕ) → 9 < n → n / 10 < n
tenth_lt n h = omega arith

-- The digits of `n` in front of `out`: the last digit, then those of `n / 10`.
unfoldable pub digits_acc : (n : ℕ) → Acc ◌<◌ n → Text → Text
digits_acc n (Acc.intro _ smaller) out =
    dite (dec_lt 9 n)
      (λ h. digits_acc (n / 10) (smaller (n / 10) (tenth_lt n h)) ((b'0' + n % 10) ∷ out))
      (λ _. (b'0' + n) ∷ out)

unfoldable pub digits : ℕ → Text
unfolding digits_acc lt_wf dec_lt
digits n = digits_acc n (lt_wf.apply n) []

unfoldable pub decimal : ℤ → Text
unfolding digits
decimal (pos n) = digits n
decimal (negsuc n) = b'-' ∷ digits (suc n)

-- The number that a text of digits stands for.
unfoldable pub value_from : ℕ → Text → ℕ
value_from acc [] = acc
value_from acc (c ∷ s) = value_from (acc * 10 + (c - b'0')) s

abbrev pub is_decimal_digit : ℕ → Bool
is_decimal_digit = in_range b'0' b'9'

-- The head digits of `n` stand in front of what follows.
digits_acc-value :
    (n : ℕ) (w : Acc ◌<◌ n) (out : Text) → value_from 0 (digits_acc n w out) ≡ value_from n out
unfolding digits_acc value_from
digits_acc-value n (Acc.intro _ smaller) out = elim (dec_lt 9 n) [
  | yes h ↦ rw (dif_pos (dec_lt 9 n) le_prop h) (
      digits_acc-value (n / 10) (smaller (n / 10) (tenth_lt n h)) ((b'0' + n % 10) ∷ out)
      ∙ ap (λ k. value_from k out) (omega arith))
  | no h ↦ rw (dif_neg (dec_lt 9 n) h) (ap (λ k. value_from k out) (omega arith))
]

digits_acc-all :
    (n : ℕ) (w : Acc ◌<◌ n) (out : Text)
    → all is_decimal_digit out ≡ true
    → all is_decimal_digit (digits_acc n w out) ≡ true
unfolding digits_acc
digits_acc-all n (Acc.intro _ smaller) out a = elim (dec_lt 9 n) [
  | yes h ↦ rw (dif_pos (dec_lt 9 n) le_prop h) (
      digits_acc-all (n / 10) (smaller (n / 10) (tenth_lt n h)) ((b'0' + n % 10) ∷ out)
        (ground arith))
  | no h ↦ rw (dif_neg (dec_lt 9 n) h) (ground arith)
]

pub digits-all : (n : ℕ) → all is_decimal_digit (digits n) ≡ true
unfolding digits
digits-all n = digits_acc-all n (lt_wf.apply n) [] refl

pub digits-value : (n : ℕ) → value_from 0 (digits n) ≡ n
unfolding digits value_from
digits-value n = digits_acc-value n (lt_wf.apply n) []

-- Two numbers with the same digits are one.
pub digits_inj : (m n : ℕ) → digits m ≡ digits n → m ≡ n
unfolding digits value_from
digits_inj m n h =
    sym (digits_acc-value m (lt_wf.apply m) [])
    ∙ ap (value_from 0) h
    ∙ digits_acc-value n (lt_wf.apply n) []
