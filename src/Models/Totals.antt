-- ===== src/Models/Totals.antt =====
-- The sums of a valid order, in plain arithmetic.
use wb_l.Models.{Item, Order}
use wb_l.Models.Orders.{validate_iff}
use wb_l.Base.Time.{Time}
use wb_l.Models.Items.{item_validate_iff, IsValidItem}
use wb_l.Base.{
  ◌≡◌, zero, some, inl, [], ap, ◌∷◌, Option-cases, List, ◌<◌, arith, Option, sym, refl, none, ℕ,
  ◌+◌, inr, suc, ◌∙◌,
}
use wb_l.Base.Int.{add64_pos, pos_of_nonneg, two63, pos_part, pos}
use mathlib.Core.Option.{some-injective}
use wb_l.Base.Lists.{All, take}
use wb_l.Models.Errors.{ValidationError, ModelError, in_item}
use wb_l.Models.Validate.{
  validate, items_validate, item_total, item_total_from, total_amount, item_validate,
}

-- The exact sum of the items' totals.
unfoldable pub goods : List Item → ℕ
goods [] = 0
goods (i ∷ is) = pos_part i.total_price + goods is

item_total_from-goods :
    (acc : ℕ) (is : List Item)
    → All IsValidItem is
    → acc + goods is < two63
    → item_total_from (pos acc) is ≡ pos (acc + goods is)
unfolding item_total_from goods
item_total_from-goods acc [] v h = ap pos (omega arith)
item_total_from-goods acc (i ∷ is) v h =
    let t = pos_part i.total_price in
    rw (pos_of_nonneg i.total_price v.0.total_price, add64_pos acc t (omega arith))
      (item_total_from-goods (acc + t) is v.1 (omega arith) ∙ ap pos (omega arith))

-- Where the exact sum of a valid order fits in an `int`, its goods total is the sum of the totals
-- of its items, and its amount is that sum with the delivery cost and the fee.
pub valid_order_amount :
    (now later : Time) (o : Order)
    → validate now later o ≡ none
    → goods o.items + pos_part o.payment.delivery_cost + pos_part o.payment.custom_fee < two63
    → (o.payment.goods_total ≡ pos (goods o.items))
      × (o.payment.amount
          ≡ pos (goods o.items + pos_part o.payment.delivery_cost + pos_part o.payment.custom_fee))
unfolding total_amount item_total
valid_order_amount now later o ok h =
    let v = (validate_iff now later o).0 ok in
    let g = goods o.items in
    let d = pos_part o.payment.delivery_cost in
    let f = pos_part o.payment.custom_fee in
    let total : item_total o.items ≡ pos g =
      item_total_from-goods 0 o.items v.items (omega arith) ∙ ap pos (omega arith) in
    (
      v.goods_total ∙ total,
      v.amount
          ∙ rw
              (
                total,
                pos_of_nonneg o.payment.delivery_cost v.payment.delivery_cost,
                pos_of_nonneg o.payment.custom_fee v.payment.custom_fee,
                add64_pos g d (omega arith),
              )
              (add64_pos (g + d) f (omega arith)),
    )

-- The item at an index.
abbrev pub item_at : List Item → ℕ → Option Item
item_at [] n = none
item_at (i ∷ is) zero = some i
item_at (i ∷ is) (suc n) = item_at is n

-- The item at `n` is the first that does not validate, and `e` is its error.
pub record FirstInvalid (is : List Item) (n : ℕ) (e : ValidationError) : Type 0 where
  pub item : Item
  pub found : item_at is n ≡ some item
  pub reason : item_validate item ≡ some e
  pub before : All IsValidItem (take n is)

-- The error that `Validate` reports of the items is that of the first invalid item, with its
-- index.
pub items_validate-first :
    (m : ℕ) (is : List Item) (x : ModelError)
    → items_validate m is ≡ some x
    → (n : ℕ) × (e : ValidationError) × (x ≡ in_item (m + n) e) × FirstInvalid is n e
unfolding items_validate
items_validate-first m [] x h = cc
items_validate-first m (i ∷ is) x h = elim (Option-cases (item_validate i)) [
  | inl ok ↦
      let (n, e, same, f) = items_validate-first (m + 1) is x (rw (ok, items_validate) at h) in
      (
        suc n,
        e,
        same ∙ ap (λ k. in_item k e) (omega arith),
        record {
          item = f.item;
          found = f.found;
          reason = f.reason;
          before = ((item_validate_iff i).0 ok, f.before);
        },
      )
  | inr (e, bad) ↦
      let same : some (in_item m e) ≡ some x = rw (bad, items_validate) at h in
      (
        0,
        e,
        sym (some-injective _ _ same) ∙ ap (λ k. in_item k e) (omega arith),
        record { item = i; found = refl; reason = bad; before = tt },
      )
]
