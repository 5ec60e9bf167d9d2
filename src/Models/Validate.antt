-- ===== src/Models/Validate.antt =====
-- The validation methods of internal/models/orders.go. The two readings of `time.Now()` in
-- `(*Order).Validate` are arguments: `now` in validateLogic of the order, `later` in that of the
-- payment.
use wb_l.Base.Regex.{matches}
use wb_l.Base.Text.{is_nil, is_blank}
use wb_l.Base.Time.{after, unix, Time}
use wb_l.Models.{Order, Payment, Delivery, Item}
use wb_l.Base.{◌∷◌, Bool, List, [], ◌+◌, ℕ, not, ◌&&◌, Option, some, none}
use mathlib.Core.Option
use wb_l.Base.Int.{quot, eqb_ℤ, mul64, sub64, add64, ltb_ℤ, ℤ, pos}
use wb_l.Models.Errors.{
  ModelError, ValidationError, ◌or_else◌, Piece, plain, in_item, lit, num, str, order_error,
  delivery_error, payment_error, item_error, fail_if, required,
}
use wb_l.Models.Patterns.{
  uid_pattern, locale_pattern, phone_pattern, email_pattern, zip_pattern, currency_pattern,
}

abbrev pub is_negative : ℤ → Bool
is_negative a = ltb_ℤ a (pos 0)

abbrev pub is_positive : ℤ → Bool
is_positive a = ltb_ℤ (pos 0) a

unfoldable pub order_required : Order → Option ValidationError
order_required o =
    fail_if (is_blank o.order_uid) (order_error "order_uid" required)
    or_else fail_if (is_blank o.track_number) (order_error "track_number" required)
    or_else fail_if (is_blank o.entry) (order_error "entry" required)
    or_else fail_if (is_blank o.customer_id) (order_error "customer_id" required)
    or_else fail_if (is_nil o.items)
        (order_error "items" (lit "at least one item has to be present" ∷ []))

-- The loop `itemTotal += item.TotalPrice`.
unfoldable pub item_total_from : ℤ → List Item → ℤ
item_total_from acc [] = acc
item_total_from acc (i ∷ is) = item_total_from (add64 acc i.total_price) is

unfoldable pub item_total : List Item → ℤ
unfolding item_total_from
item_total = item_total_from (pos 0)

unfoldable pub total_amount : Order → ℤ
total_amount o = add64 (add64 (item_total o.items) o.payment.delivery_cost) o.payment.custom_fee

unfoldable pub order_logic : Time → Order → Option ValidationError
unfolding total_amount
order_logic now o =
    fail_if (not (matches uid_pattern o.order_uid)) (
      order_error "order_uid"
        (lit "must contain only letters, digits, underscores and digits" ∷ []))
    or_else fail_if (after o.date_created now)
        (order_error "date_created" (lit "cannot be in the future" ∷ []))
    or_else fail_if (not (is_nil o.locale) && not (matches locale_pattern o.locale))
        (order_error "locale" (lit "must be a 2-letter language code" ∷ []))
    or_else fail_if (not (is_positive o.sm_id))
        (delivery_error "sm_id" (lit "must be positive" ∷ []))
    or_else fail_if (not (eqb_ℤ o.payment.goods_total (item_total o.items))) (
        payment_error "payment.goods_total" (
          lit "goods_total "
          ∷ num o.payment.goods_total
          ∷ lit " doesnn't match sum of item prices "
          ∷ num (item_total o.items)
          ∷ []))
    or_else fail_if (not (eqb_ℤ o.payment.amount (total_amount o))) (
        order_error "payment.amount" (
          lit "payment amount "
          ∷ num o.payment.amount
          ∷ lit " doesn't match calculated total amount "
          ∷ num (total_amount o)
          ∷ []))

-- Each field's absence is reported under the field "name", as the source has it.
unfoldable pub delivery_required : Delivery → Option ValidationError
delivery_required d =
    fail_if (is_blank d.name) (delivery_error "name" required)
    or_else fail_if (is_blank d.phone) (delivery_error "name" required)
    or_else fail_if (is_blank d.address) (delivery_error "name" required)
    or_else fail_if (is_blank d.city) (delivery_error "name" required)

unfoldable pub delivery_logic : Delivery → Option ValidationError
delivery_logic d =
    fail_if (not (matches phone_pattern d.phone))
      (delivery_error "phone" (lit "invalid phone number: " ∷ str d.phone ∷ []))
    or_else fail_if (not (is_nil d.email) && not (matches email_pattern d.email))
        (delivery_error "email" (lit "invalid email: " ∷ str d.email ∷ []))
    or_else fail_if (not (is_nil d.zip) && not (matches zip_pattern d.zip))
        (delivery_error "zip" (lit "invalid zip code format : " ∷ str d.zip ∷ []))

unfoldable pub delivery_validate : Delivery → Option ValidationError
unfolding delivery_required delivery_logic
delivery_validate d = delivery_required d or_else delivery_logic d

unfoldable pub payment_required : Payment → Option ValidationError
payment_required p =
    fail_if (is_blank p.transaction) (payment_error "transaction" required)
    or_else fail_if (is_blank p.currency) (payment_error "currency" required)
    or_else fail_if (is_blank p.provider) (payment_error "provider" required)

abbrev not_negative : List Piece
not_negative = lit "cannot be negative" ∷ []

unfoldable pub payment_logic : Time → Payment → Option ValidationError
unfolding unix
payment_logic now p =
    fail_if (not (matches currency_pattern p.currency))
      (payment_error "currency" (lit "must be a 3-letter currency code" ∷ []))
    or_else fail_if (is_negative p.amount) (payment_error "amount" not_negative)
    or_else fail_if (is_negative p.delivery_cost) (payment_error "delivery_cost" not_negative)
    or_else fail_if (is_negative p.goods_total) (payment_error "goods_total" not_negative)
    or_else fail_if (is_negative p.custom_fee) (payment_error "customm_fee" not_negative)
    or_else fail_if (is_positive p.payment_dt && after (unix p.payment_dt) now)
        (payment_error "payment_dt" (lit "payment date cannot be in future" ∷ []))

unfoldable pub payment_validate : Time → Payment → Option ValidationError
unfolding payment_required payment_logic
payment_validate now p = payment_required p or_else payment_logic now p

unfoldable pub item_required : Item → Option ValidationError
item_required i =
    fail_if (is_blank i.track_number) (item_error "track_number" required)
    or_else fail_if (is_blank i.name) (item_error "name" required)
    or_else fail_if (is_blank i.brand) (item_error "brand" required)

unfoldable pub expected_price : Item → ℤ
unfolding sub64 mul64 quot
expected_price i = sub64 i.price (quot (mul64 i.price i.sale) 100)

-- The format ends in a lone `%`, which Sprintf prints as `%!(NOVERB)`.
unfoldable pub item_logic : Item → Option ValidationError
unfolding expected_price
item_logic i =
    fail_if (not (is_positive i.chrt_id)) (item_error "chrt_id" (lit "must be positive" ∷ []))
    or_else fail_if (not (is_positive i.nm_id)) (item_error "nm_id" (lit "must be positive" ∷ []))
    or_else fail_if (is_negative i.price) (item_error "price" not_negative)
    or_else fail_if (is_negative i.total_price) (item_error "total_price" not_negative)
    or_else fail_if (is_negative i.sale) (item_error "sale" not_negative)
    or_else fail_if (ltb_ℤ (pos 100) i.sale)
        (item_error "sale" (lit "sale percentage cannot be more than 100%" ∷ []))
    or_else fail_if (not (eqb_ℤ i.total_price (expected_price i))) (
        item_error "total_price" (
          lit "total price "
          ∷ num i.total_price
          ∷ lit " doesn't match price "
          ∷ num i.price
          ∷ lit " with sale "
          ∷ num i.sale
          ∷ lit " %!(NOVERB)"
          ∷ []))

unfoldable pub item_validate : Item → Option ValidationError
unfolding item_required item_logic
item_validate i = item_required i or_else item_logic i

-- The loop of `Validate` over the items, from the index `n`.
unfoldable pub items_validate : ℕ → List Item → Option ModelError
items_validate n [] = none
items_validate n (i ∷ is) =
    let rest = items_validate (n + 1) is in
    elim (item_validate i) [ none ↦ rest | some e ↦ some (in_item n e) ]

unfoldable pub validate : (now later : Time) → Order → Option ModelError
unfolding items_validate
validate now later o =
    Option.map plain (order_required o)
    or_else Option.map plain (order_logic now o)
    or_else Option.map plain (delivery_validate o.delivery)
    or_else Option.map plain (payment_validate later o.payment)
    or_else items_validate 0 o.items
