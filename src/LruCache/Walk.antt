-- ===== src/LruCache/Walk.antt =====
-- An order in which `range` may walk a map: each key once, with its value.
use mathlib.Core.Logic.{if_pos}
use wb_l.LruList.Ring.{has}
use wb_l.Base.{
  sym, ◌≡◌, ◌∙◌, ◌∷◌, inl, Bool-cases, refl, ◌==◌, List, some, inr, none, arith, [], true,
}
use wb_l.LruList.{Ptr}
use wb_l.Base.Dict.{lookup, delete, lookup-delete}
use wb_l.LruCache.Flush.{IsRange, nodes_of}

module _ {ℓ} {K : Type ℓ} (dec : Discrete K) where
  unfoldable pub each_once : List (K × Ptr) → List (K × Ptr)
  unfolding delete
  each_once [] = []
  each_once ((k, p) ∷ m) = (k, p) ∷ delete dec k (each_once m)

  lookup-each_once : (j : K) (m : List (K × Ptr)) → lookup dec j (each_once m) ≡ lookup dec j m
  unfolding lookup each_once
  lookup-each_once j [] = refl
  lookup-each_once j ((k, p) ∷ m) =
      ground (arith, lookup-delete dec k j (each_once m), lookup-each_once j m)

  lookup-has :
      (k : K) (p : Ptr) (m : List (K × Ptr)) → lookup dec k m ≡ some p → has p (nodes_of m) ≡ true
  unfolding lookup
  lookup-has k p [] e = cc
  lookup-has k p ((j, q) ∷ m) e = ground (arith, lookup-has k p m)

  abbrev KeysOnce : List (K × Ptr) → Type 0
  KeysOnce [] = Unit
  KeysOnce ((k, _) ∷ m) = (lookup dec k m ≡ none) × KeysOnce m

  delete-KeysOnce : (k : K) (m : List (K × Ptr)) → KeysOnce m → KeysOnce (delete dec k m)
  unfolding delete
  delete-KeysOnce k [] o = tt
  delete-KeysOnce k ((j, q) ∷ m) o =
      elim (dec j k)
        as (λ d. KeysOnce (elim d [ yes _ ↦ delete dec k m | no _ ↦ (j, q) ∷ delete dec k m ])) [
          | yes _ ↦ delete-KeysOnce k m o.1
          | no _ ↦ (ground (arith, lookup-delete dec k j m, o.0), delete-KeysOnce k m o.1)
        ]

  each_once-KeysOnce : (m : List (K × Ptr)) → KeysOnce (each_once m)
  unfolding each_once
  each_once-KeysOnce [] = tt
  each_once-KeysOnce ((k, p) ∷ m) = (
    lookup-delete dec k k (each_once m) ∙ if_pos (dec k k) refl _ _,
    delete-KeysOnce k (each_once m) (each_once-KeysOnce m),
  )

  has-lookup :
      (p : Ptr) (m : List (K × Ptr))
      → KeysOnce m
      → has p (nodes_of m) ≡ true
      → (k : K) × (lookup dec k m ≡ some p)
  unfolding lookup
  has-lookup p [] o i = cc
  has-lookup p ((k, q) ∷ m) o i = elim (Bool-cases (q == p)) [
    | inl same ↦ (k, ground arith)
    | inr other ↦ let (j, e) = has-lookup p m o.1 (ground arith) in (j, ground arith)
  ]

  pub each_once-IsRange : (m : List (K × Ptr)) → IsRange dec m (each_once m)
  each_once-IsRange m = record {
    covers = λ k p e. lookup-has k p (each_once m) (lookup-each_once k m ∙ e);
    sound = λ p i.
        let (k, e) = has-lookup p (each_once m) (each_once-KeysOnce m) i in
        (k, sym (lookup-each_once k m) ∙ e);
  }
