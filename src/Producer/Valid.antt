-- ===== src/Producer/Valid.antt =====
-- The orders of cmd/producer/main.go against `Validate` of internal/models/orders.go.

use wb_l.Models.Orders.{IsValidOrder, validate_iff}
use wb_l.Base.Int.{add64_pos, add64, sub64_pos, sub64, two63, pos}
use wb_l.Models.Patterns.{
  locale_pattern, currency_pattern, uid_pattern, is_uid_char, zip_pattern, email_pattern,
  phone_pattern,
}
use wb_l.DeadLetters.{unix_seconds}
use wb_l.Models.Errors.{fail_if, ◌or_else◌}
use wb_l.Models.Items.{IsValidItem}
use wb_l.Base.Decimal.{is_decimal_digit, value_from}
use wb_l.Base.Lists.{length}
use wb_l.Models.Validate.{
  total_amount, item_total_from, item_total, validate, expected_price, delivery_validate,
}
use wb_l.Producer.{
  test_payment, test_item, padded, id_bound, test_delivery, numbered, generate_order,
}
use wb_l.Base.Time.{unix_epoch, unix, after, Time}
use wb_l.Base.Regex.{matches_iff, stop, matches, char, more, join, one, plus, star, Matches}
use wb_l.Base.Text.{codes, is_space, is_blank, all, Text}
use wb_l.Producer.Numbers.{padded_lem}
use wb_l.Models.Parts.{IsValidPayment, NotLater, delivery_validate_iff, IsValidDelivery}
use wb_l.Base.{
  ◌↔◌, none, ◌≤◌, false, inr, ◌-◌, ℕ, ◌∙◌, ◌≡◌, refl, ◌<◌, sym, Bool, arith, [], ap, true, ◌∷◌,
}

star_of_all : (f : ℕ → Bool) (s : Text) → all f s ≡ true → Matches (star (one f)) s
star_of_all f [] h = stop
star_of_all f (c ∷ s) h = more (char (ground arith)) (star_of_all f s (ground arith)) refl

plus_of_all :
    (f : ℕ → Bool) (c : ℕ) (s : Text) → f c ≡ true → all f s ≡ true → Matches (plus (one f)) (c ∷ s)
plus_of_all f c s h k = join (char h) (star_of_all f s k) refl

-- Orders of the producer with the same UID were made from the same random number, whatever the
-- clock.
pub order_uid_inj :
    (now later : Time) (m n : ℕ)
    → m < id_bound
    → n < id_bound
    → (generate_order now m).order_uid ≡ (generate_order later n).order_uid
    → m ≡ n
unfolding generate_order numbered
order_uid_inj now later m n hm hn e =
    let tails : padded m ≡ padded n = cc in
    sym ((padded_lem m hm).2) ∙ ap (value_from 0) tails ∙ (padded_lem n hn).2

-- The UID of an order of the producer has twelve characters.
pub length-order_uid :
    (now : Time) (n : ℕ) → n < id_bound → length ((generate_order now n).order_uid) ≡ 12
unfolding generate_order numbered
length-order_uid now n h = omega (arith, (padded_lem n h).0)

test_delivery-IsValidDelivery : IsValidDelivery test_delivery
unfolding delivery_validate ◌or_else◌ fail_if is_blank matches phone_pattern email_pattern
    zip_pattern
test_delivery-IsValidDelivery = (delivery_validate_iff test_delivery).0 refl

-- An instant without its nanoseconds is not later.
after_floor : (t u : Time) → after t u ≡ false → after (record { sec = t.sec; nsec = 0 }) u ≡ false
unfolding after
after_floor t u h = ground arith

-- From 1970 on, an instant and its Unix seconds stand for the same second.
unix-unix_seconds :
    (t : Time) (n : ℕ)
    → t.sec ≡ pos n
    → 62135596800 ≤ n
    → n < two63
    → unix (unix_seconds t) ≡ record { sec = t.sec; nsec = 0 }
unfolding unix unix_seconds
unix-unix_seconds t n at lo hi =
    let shown : sub64 t.sec unix_epoch ≡ pos (n - 62135596800) =
      ap (λ s. sub64 s unix_epoch) at ∙ sub64_pos n 62135596800 lo hi in
    let back : add64 (pos (n - 62135596800)) unix_epoch ≡ t.sec =
      add64_pos (n - 62135596800) 62135596800 (omega (arith, lo, hi))
      ∙ ap pos (omega (arith, lo))
      ∙ sym at in
    ap (λ s. record { sec = s; nsec = 0 }) (ap (λ s. add64 s unix_epoch) shown ∙ back)

item_valid : (id : ℕ) → 0 < id → IsValidItem (test_item id)
unfolding test_item numbered expected_price is_space
item_valid id h = record {
  track_number = refl;
  name = refl;
  brand = refl;
  chrt_id = omega arith;
  nm_id = omega arith;
  price = omega arith;
  total_price = omega arith;
  sale_low = omega arith;
  sale_high = omega arith;
  discounted = refl;
}

digits_uid : (s : Text) → all is_decimal_digit s ≡ true → all is_uid_char s ≡ true
unfolding is_uid_char
digits_uid [] h = refl
digits_uid (c ∷ s) h = ground (arith, digits_uid s)

uid_valid : (id : ℕ) → id < id_bound → Matches uid_pattern (numbered (codes "test") id)
unfolding uid_pattern is_uid_char numbered
uid_valid id below =
    plus_of_all is_uid_char b't' (b'e' ∷ b's' ∷ b't' ∷ padded id) refl
      (digits_uid (padded id) (padded_lem id below).1)

usd_form : Matches currency_pattern (codes "USD")
unfolding currency_pattern matches
usd_form = (matches_iff currency_pattern (codes "USD")).0 refl

en_form : Matches locale_pattern (codes "en")
unfolding locale_pattern matches
en_form = (matches_iff locale_pattern (codes "en")).0 refl

payment_valid :
    (now later : Time) (id : ℕ)
    → NotLater (unix_seconds now) later
    → IsValidPayment later (test_payment now id)
unfolding test_payment numbered is_space
payment_valid now later id date = record {
  transaction = refl;
  currency = refl;
  provider = refl;
  currency_form = usd_form;
  amount = omega arith;
  delivery_cost = omega arith;
  goods_total = omega arith;
  custom_fee = omega arith;
  date = date;
}

generate_order-IsValidOrder :
    (now check later : Time) (id : ℕ)
    → after now check ≡ false
    → NotLater (unix_seconds now) later
    → 0 < id
    → id < id_bound
    → IsValidOrder check later (generate_order now id)
unfolding generate_order is_space item_total item_total_from total_amount test_payment test_item
    numbered add64
generate_order-IsValidOrder now check later id h date positive below = record {
  order_uid = uid_valid id below;
  track_number = refl;
  entry = refl;
  customer_id = refl;
  some_item = λ e. cc;
  date_created = h;
  locale = inr en_form;
  sm_id = omega arith;
  goods_total = refl;
  amount = refl;
  delivery = test_delivery-IsValidDelivery;
  payment = payment_valid now later id date;
  items = (item_valid id positive, tt);
}

-- For a random number below 100000000, a clock after 1970 within 64 bits, and a validation whose
-- clock is not behind it: `Validate` accepts the order that the producer makes exactly if the
-- number is not 0.
pub generate_order-validate :
    (now check later : Time) (n id : ℕ)
    → now.sec ≡ pos n
    → 62135596800 ≤ n
    → n < two63
    → after now check ≡ false
    → after now later ≡ false
    → id < id_bound
    → (validate check later (generate_order now id) ≡ none) ↔ (0 < id)
unfolding generate_order
generate_order-validate now check later n id at lo hi h k below = (
  λ ok. omega (arith, (((validate_iff check later (generate_order now id)).0 ok).items).0.chrt_id),
  λ positive. (validate_iff check later (generate_order now id)).1 (
      generate_order-IsValidOrder now check later id h
        (inr (rw (unix-unix_seconds now n at lo hi) (after_floor now later k))) positive below),
)
