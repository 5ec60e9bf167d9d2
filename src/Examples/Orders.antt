-- ===== src/Examples/Orders.antt =====
-- The theorems on models/orders.go at an order of one item.
use wb_l.Models.Totals.{FirstInvalid, items_validate-first, valid_order_amount, goods}
use wb_l.Models.Orders.{validate_iff, IsValidOrder}
use wb_l.Models.Items.{valid_item_total}
use wb_l.Models.Patterns.{
  currency_pattern, zip_pattern, email_pattern, phone_pattern, locale_pattern, uid_pattern,
}
use wb_l.Base.Regex.{matches}
use wb_l.Models.Validate.{
  items_validate, item_total, payment_validate, delivery_validate, order_logic, order_required,
  validate, item_validate, expected_price,
}
use wb_l.Base.Text.{is_blank, codes}
use wb_l.Base.Time.{after, Time}
use wb_l.Models.Errors.{in_item, num, lit, item_error, ValidationError, fail_if, ◌or_else◌}
use wb_l.Base.{ℕ, some, ◌-◌, ◌+◌, ◌≤◌, ◌/◌, ◌↔◌, arith, ◌*◌, refl, [], ◌≡◌, none, ◌∷◌}
use wb_l.Models.{Order, Item}
use wb_l.Base.Int.{pos}

abbrev pub moment : Time
moment = record { sec = pos 63900000000; nsec = 0 }

abbrev pub mascaras : Item
mascaras = record {
  chrt_id = pos 9934930;
  track_number = codes "WBILMTESTTRACK";
  price = pos 453;
  rid = codes "ab4219087a764ae0btest";
  name = codes "Mascaras";
  sale = pos 30;
  size = codes "0";
  total_price = pos 318;
  nm_id = pos 2389212;
  brand = codes "Vivienne Sabo";
  status = pos 202;
}

abbrev pub mascaras_order : Order
mascaras_order = record {
  order_uid = codes "b563feb7b2b84b6test";
  track_number = codes "WBILMTESTTRACK";
  entry = codes "WBIL";
  delivery_id = pos 0;
  delivery = record {
    name = codes "Test Testov";
    phone = codes "+9720000000";
    zip = codes "2639809";
    city = codes "Kiryat Mozkin";
    address = codes "Ploshad Mira 15";
    region = codes "Kraiot";
    email = codes "test@gmail.com";
  };
  payment = record {
    transaction = codes "b563feb7b2b84b6test";
    request_id = [];
    currency = codes "USD";
    provider = codes "wbpay";
    amount = pos 1818;
    payment_dt = pos 1637907727;
    bank = codes "alpha";
    delivery_cost = pos 1500;
    goods_total = pos 318;
    custom_fee = pos 0;
  };
  items = mascaras ∷ [];
  locale = codes "en";
  internal_signature = [];
  customer_id = codes "test";
  delivery_service = codes "meest";
  shardkey = codes "9";
  sm_id = pos 99;
  date_created = record { sec = pos 63773510002; nsec = 0 };
  oof_shard = codes "1";
}

mascaras_total : expected_price mascaras ≡ pos 318
unfolding expected_price
mascaras_total = refl

mascaras_ok : item_validate mascaras ≡ none
unfolding item_validate fail_if ◌or_else◌ is_blank
mascaras_ok = refl

pub mascaras_order_ok : validate moment moment mascaras_order ≡ none
unfolding validate order_required order_logic delivery_validate payment_validate item_validate
    fail_if ◌or_else◌ is_blank after matches uid_pattern locale_pattern phone_pattern email_pattern
    zip_pattern currency_pattern item_total
mascaras_order_ok = refl

-- The same order with an item whose total was not reduced.
abbrev dear : Item
dear = record mascaras { total_price = pos 453 }

validate_iff_example :
    (validate moment moment mascaras_order ≡ none) ↔ IsValidOrder moment moment mascaras_order
validate_iff_example = validate_iff moment moment mascaras_order

valid_order_amount_example :
    (mascaras_order.payment.goods_total ≡ pos 318)
    × (mascaras_order.payment.amount ≡ pos (318 + 1500 + 0))
unfolding goods
valid_order_amount_example =
    valid_order_amount moment moment mascaras_order mascaras_order_ok (omega arith)

valid_item_total_example :
    (mascaras.total_price ≡ pos (453 - 453 * 30 / 100)) × (453 * 30 / 100 ≤ 453)
valid_item_total_example = valid_item_total mascaras mascaras_ok (omega arith)

abbrev dear_error : ValidationError
dear_error = item_error "total_price" (
    lit "total price "
    ∷ num (pos 453)
    ∷ lit " doesn't match price "
    ∷ num (pos 453)
    ∷ lit " with sale "
    ∷ num (pos 30)
    ∷ lit " %!(NOVERB)"
    ∷ [])

dear_refused : items_validate 0 (mascaras ∷ dear ∷ []) ≡ some (in_item 1 dear_error)
unfolding items_validate item_validate ◌or_else◌ fail_if is_blank
dear_refused = refl

items_validate-first_example :
    (n : ℕ) × (e : ValidationError) × (in_item 1 dear_error ≡ in_item (0 + n) e)
    × FirstInvalid (mascaras ∷ dear ∷ []) n e
items_validate-first_example =
    items_validate-first 0 (mascaras ∷ dear ∷ []) (in_item 1 dear_error) dear_refused
