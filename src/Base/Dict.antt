-- ===== src/Base/Dict.antt =====
-- A Go map as an association list, over keys with a decidable equality.
use wb_l.Base.{List, arith, [], none, ◌∷◌, Option, some, ◌≡◌}
use mathlib.Core.Logic.{ite}
use mathlib.Core.Option.{Option, none, some}
use mathlib.Core.Path.{◌≡◌}
use mathlib.Core.List.{List, [], ◌∷◌}
use native.Mathlib.Omega.{arith}

module _ {ℓ κ} {K : Type ℓ} {V : Type κ} (dec : Discrete K) where
  -- `v, ok := m[k]`
  unfoldable pub lookup : K → List (K × V) → Option V
  lookup k [] = none
  lookup k ((j, v) ∷ m) = ite (dec j k) (some v) (lookup k m)

  -- `delete(m, k)`
  unfoldable pub delete : K → List (K × V) → List (K × V)
  delete k [] = []
  delete k ((j, v) ∷ m) = elim (dec j k) [ yes _ ↦ delete k m | no _ ↦ (j, v) ∷ delete k m ]

  -- `m[k] = v`
  unfoldable pub put : K → V → List (K × V) → List (K × V)
  unfolding delete
  put k v m = (k, v) ∷ delete k m

  pub lookup-delete :
      (k j : K) (m : List (K × V)) → lookup j (delete k m) ≡ ite (dec k j) none (lookup j m)
  unfolding lookup delete
  lookup-delete k j [] = ground arith
  lookup-delete k j ((i, v) ∷ m) = ground (arith, lookup-delete k j m)

  pub lookup-put :
      (k j : K) (v : V) (m : List (K × V))
      → lookup j (put k v m) ≡ ite (dec k j) (some v) (lookup j m)
  unfolding lookup put
  lookup-put k j v m = ground (arith, lookup-delete k j m)
