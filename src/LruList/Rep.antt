-- ===== src/LruList/Rep.antt =====
-- What a list of lru_list.go in memory stands for, and its two state changes: linking and unlinking.
use wb_l.Base.{◌++◌, ◌+◌, ◌-◌, ◌<◌, ◌≡◌, ◌≢◌, true, false, [], ◌∷◌, List, arith, ◌==◌}
use wb_l.Base.Lists.{length}
use wb_l.LruList.{Ptr, nil, Heap, update}
use wb_l.LruList.Ring.{
  has, Distinct, Seg, Seg-frame, insert_behind, erase, has-append, has-next, has-prev, insert-Seg,
  remove-Seg, next_inserted, prev_inserted, next_removed, prev_removed,
}
use wb_l.LruList.Nodes.{
  has-insert_behind, insert_behind-Distinct, length-insert_behind, has-erase, erase-Distinct,
  length-erase,
}

-- The list at `l` holds the nodes `ps`, from the back to the front: the ring leads from the sentinel
-- through them and back, exactly they and the sentinel say that they belong to `l`, and `len` counts them.
pub record Rep {ℓ} {K V : Type ℓ} (h : Heap K V) (l : Ptr) (ps : List Ptr) : Type 0 where
  pub ring : Seg h.next h.prev l ps l
  pub distinct : Distinct (l ∷ ps)
  pub owned : (p : Ptr) → (h.list p == l) ≡ has p (l ∷ ps)
  pub len : h.len l ≡ length ps
  pub no_nil : has nil (l ∷ ps) ≡ false
  pub old : (p : Ptr) → has p (l ∷ ps) ≡ true → p < h.top

-- A node that belongs to no list and has no neighbour.
pub record IsFree {ℓ} {K V : Type ℓ} (h : Heap K V) (p : Ptr) : Type 0 where
  pub ne_nil : p ≢ nil
  pub list : h.list p ≡ nil
  pub next : h.next p ≡ nil
  pub prev : h.prev p ≡ nil
  pub old : p < h.top

module _ {ℓ} {K V : Type ℓ} where
  -- The memory after the stores of `insert`, and after those of `Remove`.
  abbrev pub inserted : (l node here : Ptr) → Heap K V → Heap K V
  inserted l node here h = record h {
    list = update h.list node l;
    next = next_inserted h.next h.prev node here;
    prev = prev_inserted h.next h.prev node here;
    len = update h.len l (h.len l + 1);
  }

  abbrev pub removed : (l here : Ptr) → Heap K V → Heap K V
  removed l here h = record h {
    list = update h.list here nil;
    next = next_removed h.next h.prev here;
    prev = prev_removed h.next h.prev here;
    len = update h.len l (h.len l - 1);
  }

  module _ {h : Heap K V} {l : Ptr} {ps : List Ptr} (r : Rep h l ps) where
    pub next-ne_nil : (p : Ptr) → has p (l ∷ ps) ≡ true → h.next p ≢ nil
    next-ne_nil p i =
        ground (arith, has-next h.next h.prev p l ps l r.ring, has-append nil ps (l ∷ []), r.no_nil)

    pub prev-ne_nil : (p : Ptr) → has p (l ∷ ps) ≡ true → h.prev p ≢ nil
    prev-ne_nil p i =
        ground (arith, has-prev h.next h.prev p l ps l r.ring, has-append p ps (l ∷ []), r.no_nil)

    -- A free node is none of the ring's.
    pub free-not-has : (p : Ptr) → IsFree h p → has p (l ∷ ps) ≡ false
    free-not-has p f = ground (arith, r.owned p, f.list, r.no_nil)

    pub inserted-Rep :
        (node here : Ptr)
        → IsFree h node
        → has here (l ∷ ps) ≡ true
        → Rep (inserted l node here h) l (insert_behind node here l ps)
    inserted-Rep node here f i =
        let new = free-not-has node f in
        record {
          ring =
              insert-Seg h.next h.prev node here l ps l r.ring r.distinct r.distinct.0 new
                (ground arith) i;
          distinct = insert_behind-Distinct node here l ps r.distinct new;
          owned = λ p. ground (arith, r.owned p, has-insert_behind node here p l ps);
          len = ground (arith, r.len, length-insert_behind node here l ps);
          no_nil = ground (arith, r.no_nil, f.ne_nil, has-insert_behind node here nil l ps);
          old = λ p j. ground (arith, r.old p, f.old, has-insert_behind node here p l ps);
        }

    pub removed-Rep : (here : Ptr) → has here ps ≡ true → Rep (removed l here h) l (erase here ps)
    removed-Rep here i = record {
      ring = remove-Seg h.next h.prev here l ps l r.ring r.distinct r.distinct.0 i;
      distinct = (
        ground (arith, r.distinct.0, has-erase here l ps r.distinct.1),
        erase-Distinct here ps r.distinct.1,
      );
      owned =
          λ p. ground (arith, r.owned p, r.distinct.0, r.no_nil, has-erase here p ps r.distinct.1);
      len = ground (arith, r.len, length-erase here ps i);
      no_nil = ground (arith, r.no_nil, has-erase here nil ps r.distinct.1);
      old = λ p j. ground (arith, r.old p, has-erase here p ps r.distinct.1);
    }

    pub removed-IsFree : (here : Ptr) → has here ps ≡ true → IsFree (removed l here h) here
    removed-IsFree here i = record {
      ne_nil = ground (arith, r.no_nil);
      list = ground arith;
      next = ground arith;
      prev = ground arith;
      old = ground (arith, r.old here);
    }

    -- A removal touches no free node.
    pub removed-IsFree_other :
        (here node : Ptr) → has here ps ≡ true → IsFree h node → IsFree (removed l here h) node
    removed-IsFree_other here node i f =
        let new = free-not-has node f in
        let next_in = has-next h.next h.prev here l ps l r.ring (ground arith) in
        let prev_in =
          has-prev h.next h.prev here l ps l r.ring (ground (arith, has-append here ps (l ∷ []))) in
        record {
          ne_nil = f.ne_nil;
          list = ground (arith, f.list);
          next = ground (arith, f.next, new);
          prev = ground (arith, f.prev, new, has-append (h.next here) ps (l ∷ []));
          old = f.old;
        }

  -- Whoever is in one list's ring is in no other's, so another list is untouched.
  module _ {h : Heap K V} {l : Ptr} {ps : List Ptr} (r : Rep h l ps) (l' : Ptr) (qs : List Ptr)
      (r' : Rep h l' qs) (apart : l' ≢ l) where
    not-both : (p : Ptr) → has p (l ∷ ps) ≡ true → has p (l' ∷ qs) ≡ false
    not-both p i = ground (arith, r.owned p, r'.owned p)

    in-ring : (p : Ptr) → has p (qs ++ l' ∷ []) ≡ has p (l' ∷ qs)
    in-ring p = ground (arith, has-append p qs (l' ∷ []))

    pub inserted-Rep_other :
        (node here : Ptr)
        → IsFree h node
        → has here (l ∷ ps) ≡ true
        → Rep (inserted l node here h) l' qs
    inserted-Rep_other node here f i =
        let new = free-not-has r' node f in
        let next_in = has-next h.next h.prev here l ps l r.ring i in
        record {
          ring =
              Seg-frame h.next h.prev (next_inserted h.next h.prev node here)
                (prev_inserted h.next h.prev node here) l' qs l'
                (λ p j. ground (arith, not-both here i, new))
                (λ p j. ground (
                  arith,
                  not-both (h.next here),
                  has-append (h.next here) ps (l ∷ []),
                  in-ring p,
                  new,
                  next_in,
                ))
                r'.ring;
          distinct = r'.distinct;
          owned = λ p. ground (arith, r'.owned p, new, apart);
          len = ground (arith, r'.len);
          no_nil = r'.no_nil;
          old = r'.old;
        }

    pub removed-Rep_other : (here : Ptr) → has here ps ≡ true → Rep (removed l here h) l' qs
    removed-Rep_other here i =
        let next_in = has-next h.next h.prev here l ps l r.ring (ground arith) in
        let prev_in =
          has-prev h.next h.prev here l ps l r.ring (ground (arith, has-append here ps (l ∷ []))) in
        record {
          ring =
              Seg-frame h.next h.prev (next_removed h.next h.prev here)
                (prev_removed h.next h.prev here) l' qs l'
                (λ p j. ground (arith, not-both here, not-both (h.prev here) prev_in))
                (λ p j. ground (
                  arith,
                  not-both here,
                  not-both (h.next here),
                  has-append (h.next here) ps (l ∷ []),
                  in-ring p,
                  next_in,
                ))
                r'.ring;
          distinct = r'.distinct;
          owned = λ p. ground (arith, r'.owned p, not-both here, r'.no_nil);
          len = ground (arith, r'.len);
          no_nil = r'.no_nil;
          old = r'.old;
        }
