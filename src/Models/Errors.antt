-- ===== src/Models/Errors.antt =====
-- The errors of internal/models/orders.go. A method that returns an `error` returns an `Option` of one,
-- `none` for nil.
use wb_l.Base.Text.{Text}
use wb_l.Base.Int.{ℤ}
use wb_l.Base.{◌≡◌, refl, ◌∷◌, false, ℕ, Option, some, List, [], true, Bool, none}
use Prim.Native.String.{String}
use mathlib.Core.Option

-- A message is kept as the pieces that `fmt.Sprintf` joins: literal text, `%d` and `%s`.
pub data Piece : Type 0 where
  lit : String → Piece
  num : ℤ → Piece
  str : Text → Piece

pub data Struct : Type 0 where
  order delivery payment item : Struct

pub record ValidationError : Type 0 where
  pub field : String
  pub struct : Struct
  pub message : List Piece

-- A `ValidationError`, or one that `Validate` wraps with the index of the item.
pub data ModelError : Type 0 where
  plain : ValidationError → ModelError
  in_item : ℕ → ValidationError → ModelError

abbrev pub order_error : String → List Piece → ValidationError
order_error f m = record { field = f; struct = order; message = m }

abbrev pub delivery_error : String → List Piece → ValidationError
delivery_error f m = record { field = f; struct = delivery; message = m }

abbrev pub payment_error : String → List Piece → ValidationError
payment_error f m = record { field = f; struct = payment; message = m }

abbrev pub item_error : String → List Piece → ValidationError
item_error f m = record { field = f; struct = item; message = m }

abbrev pub required : List Piece
required = lit "is required" ∷ []

-- `if err := first; err != nil { return err }`, then the rest.
infixr 25 ◌or_else◌
unfoldable pub ◌or_else◌ {ℓ} : {E : Type ℓ} → Option E → Option E → Option E
none or_else rest = rest
(some e) or_else rest = some e

-- `if bad { return e }`
unfoldable pub fail_if {ℓ} : {E : Type ℓ} → Bool → E → Option E
fail_if true e = some e
fail_if false e = none

-- A chain of checks passes exactly if each check does.
module _ {ℓ} {E : Type ℓ} where
  pub fail_if-none :
      (b : Bool) (e : E) (rest : Option E)
      → (fail_if b e or_else rest) ≡ none
      → (b ≡ false) × (rest ≡ none)
  unfolding ◌or_else◌ fail_if
  fail_if-none true e rest h = cc
  fail_if-none false e rest h = (refl, h)

  pub fail_if_last : (b : Bool) (e : E) → fail_if b e ≡ none → b ≡ false
  unfolding fail_if
  fail_if_last true e h = cc
  fail_if_last false e h = refl

  pub fail_if_pass : (b : Bool) (e : E) → b ≡ false → fail_if b e ≡ none
  unfolding fail_if
  fail_if_pass b e h = rw h

  pub or_else-none :
      (first rest : Option E) → (first or_else rest) ≡ none → (first ≡ none) × (rest ≡ none)
  unfolding ◌or_else◌
  or_else-none none rest h = (refl, h)
  or_else-none (some e) rest h = cc

  pub or_else_pass :
      (first rest : Option E) → first ≡ none → rest ≡ none → (first or_else rest) ≡ none
  unfolding ◌or_else◌
  or_else_pass first rest h k = rw (h, k)

  pub map-none {κ} : {B : Type κ} (f : E → B) (o : Option E) → Option.map f o ≡ none → o ≡ none
  map-none f none h = refl
  map-none f (some a) h = cc
