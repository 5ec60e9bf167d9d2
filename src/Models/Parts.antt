-- ===== src/Models/Parts.antt =====
-- What `(*Delivery).Validate` and `(*Payment).Validate` accept.
use wb_l.Models.Items.{nonneg_test, NotBlank_lem, NotBlank, not_negative_lem}
use wb_l.Models.{Payment, Delivery}
use wb_l.Base.{
  Bool-cases, not, ◌&&◌, false, refl, ◌⊎◌, ◌≡◌, [], ◌∙◌, ◌∷◌, ◌↔◌, inr, none, inl, true, arith,
}
use wb_l.Base.Int.{◌≤ℤ◌, ℤ, pos}
use wb_l.Base.Text.{Text, is_blank_lem, is_nil}
use wb_l.Base.Regex.{matches_iff, Regex, Matches, matches}
use wb_l.Models.Errors.{fail_if_last, or_else-none, fail_if-none, ◌or_else◌, fail_if}
use wb_l.Models.Patterns.{phone_pattern, email_pattern, zip_pattern, currency_pattern}
use wb_l.Models.Validate.{is_negative, is_positive, delivery_validate, payment_validate}
use wb_l.Base.Time.{Time, after, unix}

-- A field that may be left empty.
abbrev pub Optional : Regex → Text → Type 0
Optional r s = (is_nil s ≡ true) ⊎ Matches r s

pub record IsValidDelivery (d : Delivery) : Type 0 where
  pub name : NotBlank d.name
  pub phone : NotBlank d.phone
  pub address : NotBlank d.address
  pub city : NotBlank d.city
  pub phone_form : Matches phone_pattern d.phone
  pub email_form : Optional email_pattern d.email
  pub zip_form : Optional zip_pattern d.zip

-- The payment's date counts only if it is positive.
abbrev pub NotLater : ℤ → Time → Type 0
NotLater dt now = (dt ≤ℤ pos 0) ⊎ (after (unix dt) now ≡ false)

pub record IsValidPayment (now : Time) (p : Payment) : Type 0 where
  pub transaction : NotBlank p.transaction
  pub currency : NotBlank p.currency
  pub provider : NotBlank p.provider
  pub currency_form : Matches currency_pattern p.currency
  pub amount : pos 0 ≤ℤ p.amount
  pub delivery_cost : pos 0 ≤ℤ p.delivery_cost
  pub goods_total : pos 0 ≤ℤ p.goods_total
  pub custom_fee : pos 0 ≤ℤ p.custom_fee
  pub date : NotLater p.payment_dt now

pub form_sound : (r : Regex) (s : Text) → not (matches r s) ≡ false → Matches r s
form_sound r s h = (matches_iff r s).0 (ground arith)

pub Optional-sound :
    (r : Regex) (s : Text) → (not (is_nil s) && not (matches r s)) ≡ false → Optional r s
Optional-sound r [] h = inl refl
Optional-sound r (c ∷ s) h = inr (form_sound r (c ∷ s) h)

pub Optional-complete :
    (r : Regex) (s : Text) → Optional r s → (not (is_nil s) && not (matches r s)) ≡ false
Optional-complete r s (inl e) = rw e
Optional-complete r s (inr m) = rw ((matches_iff r s).1 m) (ground arith)

NotLater-sound :
    (dt : ℤ) (now : Time) → (is_positive dt && after (unix dt) now) ≡ false → NotLater dt now
NotLater-sound dt now h = elim (Bool-cases (is_positive dt)) [
  | inl e ↦ inr (ground arith)
  | inr e ↦ inl (ground arith)
]

NotLater-complete :
    (dt : ℤ) (now : Time) → NotLater dt now → (is_positive dt && after (unix dt) now) ≡ false
NotLater-complete dt now (inl e) = let f : is_positive dt ≡ false = ground arith in rw f
NotLater-complete dt now (inr e) = ground arith

delivery_validate_sound : (d : Delivery) → delivery_validate d ≡ none → IsValidDelivery d
unfolding delivery_validate
delivery_validate_sound d h =
    let (required_ok, logic) = or_else-none _ _ h in
    let (n, r1) = fail_if-none _ _ _ required_ok in
    let (p, r2) = fail_if-none _ _ _ r1 in
    let (a, r3) = fail_if-none _ _ _ r2 in
    let c = fail_if_last _ _ r3 in
    let (f, r4) = fail_if-none _ _ _ logic in
    let (e, r5) = fail_if-none _ _ _ r4 in
    let z = fail_if_last _ _ r5 in
    record {
      name = NotBlank_lem d.name n;
      phone = NotBlank_lem d.phone p;
      address = NotBlank_lem d.address a;
      city = NotBlank_lem d.city c;
      phone_form = form_sound phone_pattern d.phone f;
      email_form = Optional-sound email_pattern d.email e;
      zip_form = Optional-sound zip_pattern d.zip z;
    }

delivery_validate_complete : (d : Delivery) → IsValidDelivery d → delivery_validate d ≡ none
unfolding delivery_validate fail_if ◌or_else◌
delivery_validate_complete d v = rw (
  is_blank_lem d.name ∙ v.name,
  is_blank_lem d.phone ∙ v.phone,
  is_blank_lem d.address ∙ v.address,
  is_blank_lem d.city ∙ v.city,
  (matches_iff _ _).1 v.phone_form,
  Optional-complete email_pattern d.email v.email_form,
  Optional-complete zip_pattern d.zip v.zip_form,
)

-- `(*Delivery).Validate` accepts exactly the deliveries of the specification `IsValidDelivery`.
pub delivery_validate_iff : (d : Delivery) → (delivery_validate d ≡ none) ↔ IsValidDelivery d
delivery_validate_iff d = (delivery_validate_sound d, delivery_validate_complete d)

payment_validate_sound :
    (now : Time) (p : Payment) → payment_validate now p ≡ none → IsValidPayment now p
unfolding payment_validate
payment_validate_sound now p h =
    let (required_ok, logic) = or_else-none _ _ h in
    let (t, r1) = fail_if-none _ _ _ required_ok in
    let (c, r2) = fail_if-none _ _ _ r1 in
    let v = fail_if_last _ _ r2 in
    let (f, r3) = fail_if-none _ _ _ logic in
    let (a, r4) = fail_if-none _ _ _ r3 in
    let (d, r5) = fail_if-none _ _ _ r4 in
    let (g, r6) = fail_if-none _ _ _ r5 in
    let (u, r7) = fail_if-none _ _ _ r6 in
    let w = fail_if_last _ _ r7 in
    record {
      transaction = NotBlank_lem p.transaction t;
      currency = NotBlank_lem p.currency c;
      provider = NotBlank_lem p.provider v;
      currency_form = form_sound currency_pattern p.currency f;
      amount = not_negative_lem p.amount a;
      delivery_cost = not_negative_lem p.delivery_cost d;
      goods_total = not_negative_lem p.goods_total g;
      custom_fee = not_negative_lem p.custom_fee u;
      date = NotLater-sound p.payment_dt now w;
    }

payment_validate_complete :
    (now : Time) (p : Payment) → IsValidPayment now p → payment_validate now p ≡ none
unfolding payment_validate fail_if ◌or_else◌
payment_validate_complete now p v =
    let a : is_negative p.amount ≡ false = nonneg_test p.amount v.amount in
    let d : is_negative p.delivery_cost ≡ false = nonneg_test p.delivery_cost v.delivery_cost in
    let g : is_negative p.goods_total ≡ false = nonneg_test p.goods_total v.goods_total in
    let u : is_negative p.custom_fee ≡ false = nonneg_test p.custom_fee v.custom_fee in
    rw (
      is_blank_lem p.transaction ∙ v.transaction,
      is_blank_lem p.currency ∙ v.currency,
      is_blank_lem p.provider ∙ v.provider,
      (matches_iff _ _).1 v.currency_form,
      a,
      d,
      g,
      u,
      NotLater-complete p.payment_dt now v.date,
    )

-- `(*Payment).Validate` accepts exactly the payments of the specification `IsValidPayment`.
pub payment_validate_iff :
    (now : Time) (p : Payment) → (payment_validate now p ≡ none) ↔ IsValidPayment now p
payment_validate_iff now p = (payment_validate_sound now p, payment_validate_complete now p)
