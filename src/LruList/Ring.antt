-- ===== src/LruList/Ring.antt =====
-- Rings of linked nodes, with no heap: two functions `next` and `prev`, and the list of the nodes
-- between two ends. The pointer surgery of lru_list.go is two updates of each function.
use wb_l.Base.{
  ◌≡◌, refl, ◌≢◌, Bool, true, false, ◌||◌, List, [], ◌∷◌, ◌++◌, arith, ◌==◌, if◌then◌else◌,
  Bool-cases, inl, inr,
}
use wb_l.LruList.{Ptr, nil, update}

abbrev pub has : Ptr → List Ptr → Bool
has p [] = false
has p (x ∷ xs) = p == x || has p xs

abbrev pub Distinct : List Ptr → Type 0
Distinct [] = Unit
Distinct (x ∷ xs) = (has x xs ≡ false) × Distinct xs

abbrev pub Link : (next prev : Ptr → Ptr) → Ptr → Ptr → Type 0
Link next prev a b = (next a ≡ b) × (prev b ≡ a)

-- From `a` through exactly the nodes `xs` to `b`, linked both ways.
abbrev pub Seg : (next prev : Ptr → Ptr) → Ptr → List Ptr → Ptr → Type 0
Seg next prev a [] b = Link next prev a b
Seg next prev a (x ∷ xs) b = Link next prev a x × Seg next prev x xs b

-- The abstract effect of the two operations on the nodes behind `a`.
unfoldable pub insert_behind : (node here a : Ptr) → List Ptr → List Ptr
insert_behind node here a [] = node ∷ []
insert_behind node here a (x ∷ xs) =
    if here == a then node ∷ x ∷ xs else x ∷ insert_behind node here x xs

unfoldable pub erase : Ptr → List Ptr → List Ptr
erase p [] = []
erase p (x ∷ xs) = if p == x then xs else x ∷ erase p xs

pub has-append : (p : Ptr) (xs ys : List Ptr) → has p (xs ++ ys) ≡ (has p xs || has p ys)
has-append p [] ys = refl
has-append p (x ∷ xs) ys = ground (arith, has-append p xs ys)

module _ (next prev : Ptr → Ptr) where
  -- A segment reads `next` at its nodes but the last end, and `prev` at all but the first.
  pub Seg-frame :
      (next' prev' : Ptr → Ptr) (a : Ptr) (xs : List Ptr) (b : Ptr)
      → ((p : Ptr) → has p (a ∷ xs) ≡ true → next' p ≡ next p)
      → ((p : Ptr) → has p (xs ++ b ∷ []) ≡ true → prev' p ≡ prev p)
      → Seg next prev a xs b
      → Seg next' prev' a xs b
  Seg-frame next' prev' a [] b n p s = ground (arith, n a, p b)
  Seg-frame next' prev' a (x ∷ xs) b n p s =
      let rest =
        Seg-frame next' prev' x xs b (λ q i. n q (ground arith)) (λ q i. p q (ground arith)) s.1 in
      (ground (arith, n a, p x), rest)

  -- The successor of a node of the segment is a node behind `a`, and the predecessor one before `b`.
  pub has-next :
      (p a : Ptr) (xs : List Ptr) (b : Ptr)
      → Seg next prev a xs b
      → has p (a ∷ xs) ≡ true
      → has (next p) (xs ++ b ∷ []) ≡ true
  has-next p a [] b s i = ground arith
  has-next p a (x ∷ xs) b s i = ground (arith, has-next p x xs b s.1)

  pub has-prev :
      (p a : Ptr) (xs : List Ptr) (b : Ptr)
      → Seg next prev a xs b
      → has p (xs ++ b ∷ []) ≡ true
      → has (prev p) (a ∷ xs) ≡ true
  has-prev p a [] b s i = ground arith
  has-prev p a (x ∷ xs) b s i = ground (arith, has-prev p x xs b s.1)

  -- The stores of `insert`, in their order.
  abbrev pub next_inserted : (node here : Ptr) → Ptr → Ptr
  next_inserted node here = update (update next here node) node (next here)

  abbrev pub prev_inserted : (node here : Ptr) → Ptr → Ptr
  prev_inserted node here = update (update prev node here) (next here) node

  module _ (node here : Ptr) where
    insert_first-Seg :
        (a : Ptr) (xs : List Ptr) (b : Ptr)
        → Seg next prev a xs b
        → Distinct (a ∷ xs)
        → has b xs ≡ false
        → has node (a ∷ xs) ≡ false
        → node ≢ b
        → here ≡ a
        → Seg (next_inserted node here) (prev_inserted node here) a (node ∷ xs) b
    insert_first-Seg a [] b s d out new apart e = ground arith
    insert_first-Seg a (x ∷ xs) b s d out new apart e =
        let rest =
          Seg-frame (next_inserted node here) (prev_inserted node here) x xs b (λ q i. ground arith)
            (λ q i. ground (arith, has-append q xs (b ∷ []), has-append x xs (b ∷ []))) s.1 in
        (ground arith, (ground arith, rest))

    pub insert-Seg :
        (a : Ptr) (xs : List Ptr) (b : Ptr)
        → Seg next prev a xs b
        → Distinct (a ∷ xs)
        → has b xs ≡ false
        → has node (a ∷ xs) ≡ false
        → node ≢ b
        → has here (a ∷ xs) ≡ true
        → Seg (next_inserted node here) (prev_inserted node here) a (insert_behind node here a xs) b
    unfolding insert_behind
    insert-Seg a [] b s d out new apart i = insert_first-Seg a [] b s d out new apart (ground arith)
    insert-Seg a (x ∷ xs) b s d out new apart i = elim (Bool-cases (here == a)) [
      | inl e ↦ rw e (insert_first-Seg a (x ∷ xs) b s d out new apart (ground arith))
      | inr e ↦ rw e (
        ground (arith, has-next here x xs b s.1, has-append x xs (b ∷ [])),
        insert-Seg x xs b s.1 d.1 (ground arith) (ground arith) apart (ground arith),
      )
    ]

  -- The stores of `Remove`: the neighbours are joined, and the node is cleared.
  abbrev pub next_removed : Ptr → Ptr → Ptr
  next_removed here = update (update next (prev here) (next here)) here nil

  abbrev pub prev_removed : Ptr → Ptr → Ptr
  prev_removed here = update (update prev (next here) (prev here)) here nil

  module _ (here : Ptr) where
    remove_first-Seg :
        (a : Ptr) (xs : List Ptr) (b : Ptr)
        → Seg next prev a (here ∷ xs) b
        → Distinct (a ∷ here ∷ xs)
        → has b (here ∷ xs) ≡ false
        → Seg (next_removed here) (prev_removed here) a xs b
    remove_first-Seg a [] b s d out = ground arith
    remove_first-Seg a (x ∷ xs) b s d out =
        let rest =
          Seg-frame (next_removed here) (prev_removed here) x xs b (λ q i. ground arith)
            (λ q i. ground (arith, has-append q xs (b ∷ []), has-append x xs (b ∷ []))) s.1.1 in
        (ground arith, rest)

    pub remove-Seg :
        (a : Ptr) (xs : List Ptr) (b : Ptr)
        → Seg next prev a xs b
        → Distinct (a ∷ xs)
        → has b xs ≡ false
        → has here xs ≡ true
        → Seg (next_removed here) (prev_removed here) a (erase here xs) b
    unfolding erase
    remove-Seg a [] b s d out i = cc
    remove-Seg a (x ∷ xs) b s d out i = elim (Bool-cases (here == x)) [
      | inl e ↦
          let same : x ≡ here = ground arith in
          rw e (remove_first-Seg a xs b (rw same at s) (rw same at d) (rw same at out))
      | inr e ↦ rw e (
        ground (
          arith,
          has-next here x xs b s.1,
          has-prev here x xs b s.1,
          has-append x xs (b ∷ []),
          has-append here xs (b ∷ []),
        ),
        remove-Seg x xs b s.1 d.1 (ground arith) (ground arith),
      )
    ]
