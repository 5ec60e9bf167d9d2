-- ===== src/Producer/Numbers.antt =====
-- The padded numbers of cmd/producer/main.go.
use wb_l.Producer.{id_bound, zeros, padded}
use wb_l.Base.Decimal.{
  tenth_lt, digits-all, digits, is_decimal_digit, value_from, digits_acc, digits-value,
}
use wb_l.Base.Lists.{length, length-append}
use wb_l.Base.Text.{all, Text}
use wb_l.Base.{
  Bool, [], refl, ◌≡◌, zero, ◌≤◌, ◌∷◌, ◌-◌, ◌<◌, suc, ◌/◌, ◌*◌, ap, ℕ, ◌∙◌, ◌%◌, true, arith, ◌++◌,
  ◌+◌,
}
use mathlib.Core.Logic.{dif_pos, dif_neg}
use mathlib.Core.WellFounded.{Acc}
use native.Mathlib.Bridge.{le_prop}
use native.Mathlib.Decide.{dec_lt}
use wb_l.Base.Decimal.{lt_wf, digits_acc, value_from, digits-value}

abbrev pow10 : ℕ → ℕ
pow10 zero = 1
pow10 (suc k) = 10 * pow10 k

one_digit_more :
    (k c : ℕ) (s out : Text)
    → length s ≤ suc k + length (c ∷ out)
    → length s ≤ suc (suc k) + length out
one_digit_more k c s out h = omega (arith, h)

length-digits_acc :
    (k n : ℕ) (w : Acc ◌<◌ n) (out : Text)
    → n < pow10 (suc k)
    → length (digits_acc n w out) ≤ suc k + length out
unfolding digits_acc
length-digits_acc zero n (Acc.intro _ smaller) out h =
    rw (dif_neg (dec_lt 9 n) (λ b. omega (arith, h, b))) (omega arith)
length-digits_acc (suc k) n (Acc.intro _ smaller) out h = elim (dec_lt 9 n) [
  | yes b ↦ rw (dif_pos (dec_lt 9 n) le_prop b) (
      one_digit_more k (b'0' + n % 10) _ out (
        length-digits_acc k (n / 10) (smaller (n / 10) (tenth_lt n b)) ((b'0' + n % 10) ∷ out)
          (omega (arith, h))))
  | no b ↦ rw (dif_neg (dec_lt 9 n) b) (omega arith)
]

length-digits : (k n : ℕ) → n < pow10 (suc k) → length (digits n) ≤ suc k
unfolding digits
length-digits k n h = omega (arith, length-digits_acc k n (lt_wf.apply n) [] h)

all-append : (f : ℕ → Bool) (s t : Text) → all f s ≡ true → all f t ≡ true → all f (s ++ t) ≡ true
all-append f [] t a b = b
all-append f (c ∷ s) t a b = ground (arith, all-append f s t)

length-zeros : (n : ℕ) → length (zeros n) ≡ n
length-zeros zero = refl
length-zeros (suc n) = ap suc (length-zeros n)

zeros-all : (n : ℕ) → all is_decimal_digit (zeros n) ≡ true
zeros-all zero = refl
zeros-all (suc n) = zeros-all n

value_from-zeros : (n : ℕ) (s : Text) → value_from 0 (zeros n ++ s) ≡ value_from 0 s
unfolding value_from
value_from-zeros zero s = refl
value_from-zeros (suc n) s = value_from-zeros n s

-- Eight digits, which stand for the number.
pub padded_lem :
    (n : ℕ)
    → n < id_bound
    → (length (padded n) ≡ 8)
      × (all is_decimal_digit (padded n) ≡ true)
      × (value_from 0 (padded n) ≡ n)
unfolding padded
padded_lem n h = (
  length-append (zeros (8 - length (digits n))) (digits n)
      ∙ omega (arith, length-zeros (8 - length (digits n)), length-digits 7 n h),
  all-append is_decimal_digit (zeros (8 - length (digits n))) (digits n)
      (zeros-all (8 - length (digits n))) (digits-all n),
  value_from-zeros (8 - length (digits n)) (digits n) ∙ digits-value n,
)
