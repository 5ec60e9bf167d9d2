-- ===== src/LruList/Nodes.antt =====
-- The lists of nodes that the ring operations produce: membership, distinctness and length.
use mathlib.Core.Bool.{not, ◌&&◌}
use wb_l.Base.{not, ◌&&◌, suc, ◌≡◌, refl, true, false, ◌||◌, [], ◌∷◌, ◌++◌, List, arith, ◌==◌}
use wb_l.Base.Lists.{length}
use wb_l.LruList.{Ptr}
use wb_l.LruList.Ring.{has, Distinct, Seg, insert_behind, erase, has-append, has-prev}

module _ (node here : Ptr) where
  pub has-insert_behind :
      (q a : Ptr) (xs : List Ptr) → has q (insert_behind node here a xs) ≡ (q == node || has q xs)
  unfolding insert_behind
  has-insert_behind q a [] = refl
  has-insert_behind q a (x ∷ xs) = ground (arith, has-insert_behind q x xs)

  pub insert_behind-Distinct :
      (a : Ptr) (xs : List Ptr)
      → Distinct (a ∷ xs)
      → has node (a ∷ xs) ≡ false
      → Distinct (a ∷ insert_behind node here a xs)
  unfolding insert_behind
  insert_behind-Distinct a [] d new = ground arith
  insert_behind-Distinct a (x ∷ xs) d new =
      ground (arith, insert_behind-Distinct x xs, has-insert_behind a x xs)

  pub length-insert_behind :
      (a : Ptr) (xs : List Ptr) → length (insert_behind node here a xs) ≡ suc (length xs)
  unfolding insert_behind
  length-insert_behind a [] = refl
  length-insert_behind a (x ∷ xs) = ground (arith, length-insert_behind x xs)

module _ (p : Ptr) where
  pub has-erase :
      (q : Ptr) (xs : List Ptr) → Distinct xs → has q (erase p xs) ≡ (has q xs && not (q == p))
  unfolding erase
  has-erase q [] d = refl
  has-erase q (x ∷ xs) d = ground (arith, has-erase q xs)

  pub erase-Distinct : (xs : List Ptr) → Distinct xs → Distinct (erase p xs)
  unfolding erase
  erase-Distinct [] d = tt
  erase-Distinct (x ∷ xs) d = ground (arith, erase-Distinct xs, has-erase x xs)

  pub length-erase : (xs : List Ptr) → has p xs ≡ true → suc (length (erase p xs)) ≡ length xs
  unfolding erase
  length-erase [] i = ground arith
  length-erase (x ∷ xs) i = ground (arith, length-erase xs)

  pub erase_last : (xs : List Ptr) → has p xs ≡ false → erase p (xs ++ p ∷ []) ≡ xs
  unfolding erase
  erase_last [] out = ground arith
  erase_last (x ∷ xs) out = ground (arith, erase_last xs)

pub insert_behind_self : (node a : Ptr) (xs : List Ptr) → insert_behind node a a xs ≡ node ∷ xs
unfolding insert_behind
insert_behind_self node a [] = refl
insert_behind_self node a (x ∷ xs) = ground arith

-- Behind the predecessor of the end is the last place.
pub insert_behind_last :
    (next prev : Ptr → Ptr) (node a : Ptr) (xs : List Ptr) (b : Ptr)
    → Seg next prev a xs b
    → Distinct (a ∷ xs)
    → insert_behind node (prev b) a xs ≡ xs ++ node ∷ []
unfolding insert_behind
insert_behind_last next prev node a [] b s d = refl
insert_behind_last next prev node a (x ∷ xs) b s d = ground (
  arith,
  insert_behind_last next prev node x xs b,
  has-prev next prev b x xs b,
  has-append b xs (b ∷ []),
)

-- The predecessor of the end is the last node.
pub prev_last :
    (next prev : Ptr → Ptr) (a p b : Ptr) (xs : List Ptr)
    → Seg next prev a (xs ++ p ∷ []) b
    → prev b ≡ p
prev_last next prev a p b [] s = s.1.1
prev_last next prev a p b (x ∷ xs) s = prev_last next prev x p b xs s.1

pub Distinct-last : (p : Ptr) (xs : List Ptr) → Distinct (xs ++ p ∷ []) → has p xs ≡ false
Distinct-last p [] d = refl
Distinct-last p (x ∷ xs) d = ground (arith, Distinct-last p xs, has-append x xs (p ∷ []))
