-- ===== src/Models/Orders.antt =====
-- What `(*Order).Validate` accepts: the order's own fields, its delivery, its payment and each item.
use wb_l.Base.Lists.{All}
use wb_l.Models.Parts.{
  payment_validate_iff, form_sound, delivery_validate_iff, Optional-sound, Optional-complete,
  Optional, IsValidPayment, IsValidDelivery,
}
use wb_l.Models.{Item, Order}
use wb_l.Models.Items.{NotBlank_lem, item_validate_iff, IsValidItem, NotBlank}
use wb_l.Base.{
  ◌∙◌, ◌↔◌, Option-cases, inl, inr, ◌+◌, sym, none, ◌≤◌, ap, true, ◌≢◌, ◌≡◌, ◌∷◌, ℕ, List, not,
  arith, false, [], Bool, refl,
}
use mathlib.Core.Option.{none-ne-some}
use wb_l.Base.Int.{eqb_ℤ, eqb_ℤ_iff, ltb_ℤ_iff, ◌<ℤ◌, pos}
use wb_l.Base.Text.{trim_space_none, is_blank_lem, Text, is_nil, all, is_space, trim_space}
use wb_l.Base.Regex.{
  matches_iff, empty, left, right, Matches, one, plus, star, Regex, join, char, stop, more,
}
use wb_l.Models.Errors.{
  fail_if_last, fail_if-none, or_else-none, ◌or_else◌, map-none, fail_if, plain, in_item,
}
use wb_l.Models.Patterns.{uid_pattern, locale_pattern, is_uid_char}
use wb_l.Models.Validate.{
  is_positive, validate, items_validate, order_required, order_logic, item_total, total_amount,
  item_validate,
}
use wb_l.Base.Time.{Time, after}

pub record IsValidOrder (now later : Time) (o : Order) : Type 0 where
  pub order_uid : Matches uid_pattern o.order_uid
  pub track_number : NotBlank o.track_number
  pub entry : NotBlank o.entry
  pub customer_id : NotBlank o.customer_id
  pub some_item : o.items ≢ []
  pub date_created : after o.date_created now ≡ false
  pub locale : Optional locale_pattern o.locale
  pub sm_id : pos 0 <ℤ o.sm_id
  pub goods_total : o.payment.goods_total ≡ item_total o.items
  pub amount : o.payment.amount ≡ total_amount o
  pub delivery : IsValidDelivery o.delivery
  pub payment : IsValidPayment later o.payment
  pub items : All IsValidItem o.items

-- A text of letters, digits, `_` and `-` is not empty and has no white space.
one-inv :
    {f : ℕ → Bool} {r : Regex} {s : Text}
    → Matches r s
    → r ≡ one f
    → (c : ℕ) × (s ≡ c ∷ []) × (f c ≡ true)
one-inv (char {f = g} {c} h) e = let same : g ≡ _ = ap class_of e in (c, refl, rw (← same) h)
  where
    class_of : Regex → ℕ → Bool
    class_of (one g) = g
    class_of _ = λ c. false
one-inv empty e = cc
one-inv (join m n p) e = cc
one-inv (left m) e = cc
one-inv (right m) e = cc
one-inv stop e = cc
one-inv (more m n p) e = cc

star-all : {f : ℕ → Bool} {r : Regex} {s : Text} → Matches r s → r ≡ star (one f) → all f s ≡ true
star-all stop e = refl
star-all {f} (more m n p) e = let (c, q, h) = one-inv {f = f} m (cc) in rw (p, q, h) (star-all n e)
star-all empty e = cc
star-all (char h) e = cc
star-all (join m n p) e = cc
star-all (left m) e = cc
star-all (right m) e = cc

plus-all :
    {f : ℕ → Bool} {r : Regex} {s : Text}
    → Matches r s
    → r ≡ plus (one f)
    → (all f s ≡ true) × (is_nil s ≡ false)
plus-all {f} (join m n p) e =
    let (c, q, h) = one-inv {f = f} m (cc) in (rw (p, q, h) (star-all n (cc)), rw (p, q))
plus-all stop e = cc
plus-all (more m n p) e = cc
plus-all empty e = cc
plus-all (char h) e = cc
plus-all (left m) e = cc
plus-all (right m) e = cc

uid_char_range : (c : ℕ) → is_uid_char c ≡ true → (45 ≤ c) × (c ≤ 122)
unfolding is_uid_char
uid_char_range c h = ground arith

space_range : (c : ℕ) → 45 ≤ c → c ≤ 122 → is_space c ≡ false
unfolding is_space
space_range c lo hi = ground arith

uid_not_space : (s : Text) → all is_uid_char s ≡ true → all (λ c. not (is_space c)) s ≡ true
uid_not_space [] h = refl
uid_not_space (c ∷ s) h = ground (arith, uid_not_space s, uid_char_range c, space_range c)

pub uid_text : (s : Text) → Matches uid_pattern s → (all is_uid_char s ≡ true) × (is_nil s ≡ false)
unfolding uid_pattern
uid_text s m = plus-all m refl

pub uid-NotBlank : (s : Text) → Matches uid_pattern s → NotBlank s
uid-NotBlank [] m = (uid_text [] m).1
uid-NotBlank (c ∷ s) m = ground (arith, uid_text (c ∷ s) m, uid_not_space (c ∷ s))

-- The loop over the items stops at the first invalid one.
items_validate_sound : (n : ℕ) (is : List Item) → items_validate n is ≡ none → All IsValidItem is
unfolding items_validate
items_validate_sound n [] h = tt
items_validate_sound n (i ∷ is) h = elim (Option-cases (item_validate i)) [
  | inl ok ↦
      ((item_validate_iff i).0 ok, items_validate_sound (n + 1) is (rw (ok, items_validate) at h))
  | inr (e, bad) ↦ absurd (none-ne-some (in_item n e) (sym (rw (bad, items_validate) at h)))
]

items_validate_complete : (n : ℕ) (is : List Item) → All IsValidItem is → items_validate n is ≡ none
unfolding items_validate
items_validate_complete n [] v = refl
items_validate_complete n (i ∷ is) v =
    rw ((item_validate_iff i).1 v.0, items_validate) (items_validate_complete (n + 1) is v.1)

ne_nil {ℓ} : {A : Type ℓ} {xs : List A} → is_nil xs ≡ false → xs ≢ []
ne_nil h e = cc

order_sound :
    (now later : Time) (o : Order)
    → order_required o ≡ none
    → order_logic now o ≡ none
    → IsValidDelivery o.delivery
    → IsValidPayment later o.payment
    → All IsValidItem o.items
    → IsValidOrder now later o
unfolding order_required order_logic
order_sound now later o required_ok logic d p is =
    let (u, r1) = fail_if-none _ _ _ required_ok in
    let (t, r2) = fail_if-none _ _ _ r1 in
    let (e, r3) = fail_if-none _ _ _ r2 in
    let (c, r4) = fail_if-none _ _ _ r3 in
    let i = fail_if_last _ _ r4 in
    let (f, r5) = fail_if-none _ _ _ logic in
    let (a, r6) = fail_if-none _ _ _ r5 in
    let (l, r7) = fail_if-none _ _ _ r6 in
    let (m, r8) = fail_if-none _ _ _ r7 in
    let (g, r9) = fail_if-none _ _ _ r8 in
    let w = fail_if_last _ _ r9 in
    record {
      order_uid = form_sound uid_pattern o.order_uid f;
      track_number = NotBlank_lem o.track_number t;
      entry = NotBlank_lem o.entry e;
      customer_id = NotBlank_lem o.customer_id c;
      some_item = ne_nil i;
      date_created = a;
      locale = Optional-sound locale_pattern o.locale l;
      sm_id = (ltb_ℤ_iff (pos 0) o.sm_id).0 (ground arith);
      goods_total = (eqb_ℤ_iff _ _).0 (ground arith);
      amount = (eqb_ℤ_iff _ _).0 (ground arith);
      delivery = d;
      payment = p;
      items = is;
    }

validate_sound :
    (now later : Time) (o : Order) → validate now later o ≡ none → IsValidOrder now later o
unfolding validate
validate_sound now later o h =
    let (q, h1) = or_else-none _ _ h in
    let (g, h2) = or_else-none _ _ h1 in
    let (d, h3) = or_else-none _ _ h2 in
    let (p, is) = or_else-none _ _ h3 in
    let required_ok = map-none plain (order_required o) q in
    let logic = map-none plain (order_logic now o) g in
    order_sound now later o required_ok logic
      ((delivery_validate_iff o.delivery).0 (map-none plain _ d))
      ((payment_validate_iff later o.payment).0 (map-none plain _ p))
      (items_validate_sound 0 o.items is)

some_item_test : (is : List Item) → is ≢ [] → is_nil is ≡ false
some_item_test [] h = absurd (h refl)
some_item_test (i ∷ is) h = refl

validate_complete :
    (now later : Time) (o : Order) → IsValidOrder now later o → validate now later o ≡ none
unfolding validate order_required order_logic fail_if ◌or_else◌
validate_complete now later o v =
    let s : is_positive o.sm_id ≡ true = (ltb_ℤ_iff (pos 0) o.sm_id).1 v.sm_id in
    let g : eqb_ℤ o.payment.goods_total (item_total o.items) ≡ true =
      (eqb_ℤ_iff _ _).1 v.goods_total in
    let a : eqb_ℤ o.payment.amount (total_amount o) ≡ true = (eqb_ℤ_iff _ _).1 v.amount in
    rw
      (
        is_blank_lem o.order_uid ∙ uid-NotBlank o.order_uid v.order_uid,
        is_blank_lem o.track_number ∙ v.track_number,
        is_blank_lem o.entry ∙ v.entry,
        is_blank_lem o.customer_id ∙ v.customer_id,
        some_item_test o.items v.some_item,
        (matches_iff _ _).1 v.order_uid,
        v.date_created,
        Optional-complete locale_pattern o.locale v.locale,
        s,
        g,
        a,
        (delivery_validate_iff o.delivery).1 v.delivery,
        (payment_validate_iff later o.payment).1 v.payment,
      )
      (items_validate_complete 0 o.items v.items)

-- `(*Order).Validate` accepts exactly the orders of the specification `IsValidOrder`.
pub validate_iff :
    (now later : Time) (o : Order) → (validate now later o ≡ none) ↔ IsValidOrder now later o
validate_iff now later o = (validate_sound now later o, validate_complete now later o)

-- The UID of a valid order is not changed by `strings.TrimSpace`, and is not empty.
pub valid_uid-trim_space :
    (now later : Time) (o : Order)
    → validate now later o ≡ none
    → (trim_space o.order_uid ≡ o.order_uid) × (o.order_uid ≢ [])
valid_uid-trim_space now later o ok =
    let (chars, shown) = uid_text o.order_uid (validate_sound now later o ok).order_uid in
    (trim_space_none o.order_uid (uid_not_space o.order_uid chars), ne_nil shown)
