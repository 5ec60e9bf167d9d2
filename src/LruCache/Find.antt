-- ===== src/LruCache/Find.antt =====
-- The node that holds a key, and what the list operations do to it.
use wb_l.LruList.{Ptr}
use wb_l.Base.{
  if◌then◌else◌, List, ◌∷◌, arith, [], none, true, is_some, refl, Option, some, ◌++◌, false, ◌≡◌,
}
use mathlib.Core.Logic.{ite}
use wb_l.LruList.Ring.{has, erase}

module _ {ℓ} {K : Type ℓ} (dec : Discrete K) (key : Ptr → K) where
  unfoldable pub find : K → List Ptr → Option Ptr
  find k [] = none
  find k (p ∷ ps) = ite (dec (key p) k) (some p) (find k ps)

  -- No two nodes hold one key.
  abbrev pub DistinctKeys : List Ptr → Type 0
  DistinctKeys [] = Unit
  DistinctKeys (p ∷ ps) = (is_some (find (key p) ps) ≡ false) × DistinctKeys ps

  pub find-has :
      (k : K) (ps : List Ptr) (p : Ptr) → find k ps ≡ some p → (has p ps ≡ true) × (key p ≡ k)
  unfolding find
  find-has k [] p e = cc
  find-has k (q ∷ ps) p e = ground (arith, find-has k ps p)

  pub find-append :
      (k : K) (xs : List Ptr) (p : Ptr)
      → find k (xs ++ p ∷ [])
        ≡ (if is_some (find k xs) then find k xs else ite (dec (key p) k) (some p) none)
  unfolding find
  find-append k [] p = refl
  find-append k (x ∷ xs) p = ground (arith, find-append k xs p)

  pub find-erase :
      (k j : K) (ps : List Ptr) (p : Ptr)
      → DistinctKeys ps
      → find k ps ≡ some p
      → find j (erase p ps) ≡ ite (dec k j) none (find j ps)
  unfolding find erase
  find-erase k j [] p d e = cc
  find-erase k j (q ∷ ps) p d e = ground (arith, find-erase k j ps p d.1, find-has k ps p)

  pub DistinctKeys-erase :
      (k : K) (ps : List Ptr) (p : Ptr)
      → DistinctKeys ps
      → find k ps ≡ some p
      → DistinctKeys (erase p ps)
  unfolding find erase
  DistinctKeys-erase k [] p d e = cc
  DistinctKeys-erase k (q ∷ ps) p d e =
      ground (arith, DistinctKeys-erase k ps p d.1, find-erase k (key q) ps p d.1)

  pub DistinctKeys-append :
      (ps : List Ptr) (p : Ptr)
      → DistinctKeys ps
      → find (key p) ps ≡ none
      → DistinctKeys (ps ++ p ∷ [])
  unfolding find
  DistinctKeys-append [] p d e = ground arith
  DistinctKeys-append (q ∷ ps) p d e =
      ground (arith, DistinctKeys-append ps p d.1, find-append (key q) ps p)

  pub find_self :
      (ps : List Ptr) (p : Ptr) → DistinctKeys ps → has p ps ≡ true → find (key p) ps ≡ some p
  unfolding find
  find_self [] p d i = cc
  find_self (q ∷ ps) p d i = ground (arith, find_self ps p d.1)

  -- A node that moves to the front is found as before.
  module _ (k : K) (ps : List Ptr) (p : Ptr) (d : DistinctKeys ps)
      (found : find k ps ≡ some p) where
    pub find-moved : (j : K) → find j (erase p ps ++ p ∷ []) ≡ find j ps
    find-moved j =
        ground
          (arith, find-append j (erase p ps) p, find-erase k j ps p d found, find-has k ps p found)

    pub DistinctKeys-moved : DistinctKeys (erase p ps ++ p ∷ [])
    DistinctKeys-moved =
        DistinctKeys-append (erase p ps) p (DistinctKeys-erase k ps p d found)
          (ground (arith, find-erase k (key p) ps p d found, find-has k ps p found))

-- The keys of the nodes are all that matters.
module _ {ℓ} {K : Type ℓ} (dec : Discrete K) where
  pub find-same :
      (key key' : Ptr → K) (k : K) (ps : List Ptr)
      → ((p : Ptr) → has p ps ≡ true → key' p ≡ key p)
      → find dec key' k ps ≡ find dec key k ps
  unfolding find
  find-same key key' k [] same = refl
  find-same key key' k (p ∷ ps) same =
      ground (arith, same p, find-same key key' k ps (λ q i. same q (ground arith)))

  pub DistinctKeys-same :
      (key key' : Ptr → K) (ps : List Ptr)
      → ((p : Ptr) → has p ps ≡ true → key' p ≡ key p)
      → DistinctKeys dec key ps
      → DistinctKeys dec key' ps
  DistinctKeys-same key key' [] same d = tt
  DistinctKeys-same key key' (p ∷ ps) same d =
      let e : key' p ≡ key p = same p (ground arith) in
      (
        rw (e, find-same key key' (key p) ps (λ q i. same q (ground arith))) d.0,
        DistinctKeys-same key key' ps (λ q i. same q (ground arith)) d.1,
      )
