-- ===== src/Models/Items.antt =====
-- What `(*Item).Validate` accepts, and its price rule in plain arithmetic.
use wb_l.Models.Validate.{is_positive, item_validate, is_negative, expected_price}
use wb_l.Models.{Item}
use wb_l.Base.{◌≤◌, ◌*◌, ◌↔◌, ℕ, true, ◌<◌, ◌-◌, ◌/◌, sym, ◌≡◌, arith, false, ◌∙◌, none}
use wb_l.Base.Int.{
  sub64_pos, mul64_pos, pos_of_nonneg, quot, eqb_ℤ, ltb_ℤ_iff, two63, pos_part, ltb_ℤ, eqb_ℤ_iff,
  ◌≤ℤ◌, ◌<ℤ◌, ℤ, pos,
}
use wb_l.Base.Text.{is_blank_lem, Text, all, is_space, is_blank}
use wb_l.Models.Errors.{fail_if, ◌or_else◌, fail_if_last, or_else-none, fail_if-none}

-- Some character of the text is no white space.
abbrev pub NotBlank : Text → Type 0
NotBlank s = all is_space s ≡ false

pub record IsValidItem (i : Item) : Type 0 where
  pub track_number : NotBlank i.track_number
  pub name : NotBlank i.name
  pub brand : NotBlank i.brand
  pub chrt_id : pos 0 <ℤ i.chrt_id
  pub nm_id : pos 0 <ℤ i.nm_id
  pub price : pos 0 ≤ℤ i.price
  pub total_price : pos 0 ≤ℤ i.total_price
  pub sale_low : pos 0 ≤ℤ i.sale
  pub sale_high : i.sale ≤ℤ pos 100
  pub discounted : i.total_price ≡ expected_price i

pub not_negative_lem : (a : ℤ) → is_negative a ≡ false → pos 0 ≤ℤ a
not_negative_lem a h = ground arith

pub NotBlank_lem : (s : Text) → is_blank s ≡ false → NotBlank s
NotBlank_lem s h = sym (is_blank_lem s) ∙ h

item_validate_sound : (i : Item) → item_validate i ≡ none → IsValidItem i
unfolding item_validate
item_validate_sound i h =
    let (required_ok, logic) = or_else-none _ _ h in
    let (t, r1) = fail_if-none _ _ _ required_ok in
    let (n, r2) = fail_if-none _ _ _ r1 in
    let b = fail_if_last _ _ r2 in
    let (c, r3) = fail_if-none _ _ _ logic in
    let (m, r4) = fail_if-none _ _ _ r3 in
    let (p, r5) = fail_if-none _ _ _ r4 in
    let (q, r6) = fail_if-none _ _ _ r5 in
    let (s, r7) = fail_if-none _ _ _ r6 in
    let (u, r8) = fail_if-none _ _ _ r7 in
    let e = fail_if_last _ _ r8 in
    record {
      track_number = NotBlank_lem i.track_number t;
      name = NotBlank_lem i.name n;
      brand = NotBlank_lem i.brand b;
      chrt_id = ground arith;
      nm_id = ground arith;
      price = ground arith;
      total_price = ground arith;
      sale_low = ground arith;
      sale_high = ground arith;
      discounted = (eqb_ℤ_iff i.total_price (expected_price i)).0 (ground arith);
    }

pub nonneg_test : (a : ℤ) → pos 0 ≤ℤ a → is_negative a ≡ false
nonneg_test a h = ground arith

pub le_test : (a b : ℤ) → a ≤ℤ b → ltb_ℤ b a ≡ false
le_test a b h = ground arith

discount-le : (p s : ℕ) → s ≤ 100 → p * s / 100 ≤ p
discount-le p s h = grind arith

expected_price_pos :
    (i : Item) (p s : ℕ)
    → i.price ≡ pos p
    → i.sale ≡ pos s
    → s ≤ 100
    → p * 100 < two63
    → expected_price i ≡ pos (p - p * s / 100)
unfolding expected_price quot
expected_price_pos i p s e f u small =
    rw (e, f, mul64_pos p s (grind arith))
      (sub64_pos p (p * s / 100) (discount-le p s u) (omega arith))

item_validate_complete : (i : Item) → IsValidItem i → item_validate i ≡ none
unfolding item_validate fail_if ◌or_else◌
item_validate_complete i v =
    let t : is_blank i.track_number ≡ false = is_blank_lem i.track_number ∙ v.track_number in
    let n : is_blank i.name ≡ false = is_blank_lem i.name ∙ v.name in
    let b : is_blank i.brand ≡ false = is_blank_lem i.brand ∙ v.brand in
    let c : is_positive i.chrt_id ≡ true = (ltb_ℤ_iff (pos 0) i.chrt_id).1 v.chrt_id in
    let m : is_positive i.nm_id ≡ true = (ltb_ℤ_iff (pos 0) i.nm_id).1 v.nm_id in
    let p : is_negative i.price ≡ false = nonneg_test i.price v.price in
    let q : is_negative i.total_price ≡ false = nonneg_test i.total_price v.total_price in
    let s : is_negative i.sale ≡ false = nonneg_test i.sale v.sale_low in
    let u : ltb_ℤ (pos 100) i.sale ≡ false = le_test i.sale (pos 100) v.sale_high in
    let e : eqb_ℤ i.total_price (expected_price i) ≡ true = (eqb_ℤ_iff _ _).1 v.discounted in
    rw (t, n, b, c, m, p, q, s, u, e)

-- `(*Item).Validate` accepts exactly the items of the specification `IsValidItem`.
pub item_validate_iff : (i : Item) → (item_validate i ≡ none) ↔ IsValidItem i
item_validate_iff i = (item_validate_sound i, item_validate_complete i)

-- Where `Price * 100` is below 2^63, a valid item's total is its price less the discount, rounded
-- down, which is never more than the price.
pub valid_item_total :
    (i : Item)
    → item_validate i ≡ none
    → pos_part i.price * 100 < two63
    → (i.total_price ≡ pos (pos_part i.price - pos_part i.price * pos_part i.sale / 100))
      × (pos_part i.price * pos_part i.sale / 100 ≤ pos_part i.price)
valid_item_total i ok small =
    let v = item_validate_sound i ok in
    let p = pos_part i.price in
    let s = pos_part i.sale in
    let e = pos_of_nonneg i.price v.price in
    let f = pos_of_nonneg i.sale v.sale_low in
    let u : s ≤ 100 = ground (arith, v.sale_high) in
    (v.discounted ∙ expected_price_pos i p s e f u small, discount-le p s u)
