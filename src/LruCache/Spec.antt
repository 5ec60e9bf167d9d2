-- ===== src/LruCache/Spec.antt =====
-- What the cache promises, with no node and no map: the entries in the order of their last use, the
-- least recent first.
use wb_l.Base.Lists.{length}
use wb_l.Base.{List, ℕ, ◌==◌, some, ◌++◌, ◌∷◌, [], none, if◌then◌else◌}
use mathlib.Core.List.{tail}
use wb_l.Base.Dict.{lookup}

module _ {ℓ} {K V : Type ℓ} (dec : Discrete K) where
  -- The entries but the first with the key.
  unfoldable pub without : K → List (K × V) → List (K × V)
  without k [] = []
  without k ((j, v) ∷ es) = elim (dec j k) [ yes _ ↦ es | no _ ↦ (j, v) ∷ without k es ]

  -- A use of a key moves its entry to the end.
  unfoldable pub touched : K → List (K × V) → List (K × V)
  touched k es = elim (lookup dec k es) [ none ↦ es | some v ↦ without k es ++ (k, v) ∷ [] ]

  -- A store drops the key's old entry, makes room by dropping the least recent entry if there
  -- is none, and appends the new entry.
  unfoldable pub stored : ℕ → K → V → List (K × V) → List (K × V)
  stored cap k v es =
      let rest = without k es in (if length rest == cap then tail rest else rest) ++ (k, v) ∷ []
