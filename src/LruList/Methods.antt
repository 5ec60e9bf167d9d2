-- ===== src/LruList/Methods.antt =====
-- What a method of lru_list.go does to the list of nodes, and the methods that only read it.
use wb_l.Base.Lists.{length}
use wb_l.Base.{
  if◌then◌else◌, Bool-cases, inl, inr, refl, ◌≢◌, ◌∙◌, false, true, ◌≡◌, refl, ◌≢◌, true, false,
  ◌==◌, List, [], ◌∷◌, ◌++◌, arith,
}
use wb_l.LruList.{Ptr, nil, Heap, ok, success}
use wb_l.LruList.Code.{empty, size, back, front, remove, push_front_node}
use wb_l.LruList.Ring.{has, insert_behind, erase, has-append, has-prev}
use wb_l.LruList.Nodes.{insert_behind_last}
use wb_l.LruList.Rep.{
  removed-IsFree, Rep, IsFree, inserted, removed, inserted-Rep, removed-Rep, inserted-Rep_other,
  removed-Rep_other,
}
use wb_l.LruList.Ops.{remove-removed, insert-inserted}
use wb_l.LruList.Fresh.{entries-created, created-Rep, created, entries}

-- `h'` is `h` with the list at `l` changed to the nodes `ps`, which hold `es`; every other list is
-- as it was.
pub record Becomes {ℓ} {K V : Type ℓ} (h h' : Heap K V) (l : Ptr) (ps : List Ptr)
    (es : List (K × V)) : Type ℓ where
  pub rep : Rep h' l ps
  pub holds : entries h' ps ≡ es
  pub others :
      (l' : Ptr) (qs : List Ptr)
      → l' ≢ l
      → Rep h l' qs
      → Rep h' l' qs × (entries h' qs ≡ entries h qs)

module _ {ℓ} {K V : Type ℓ} {h : Heap K V} {l : Ptr} {ps : List Ptr} (r : Rep h l ps) where
  pub has_front : has (h.prev l) (l ∷ ps) ≡ true
  has_front = has-prev h.next h.prev l l ps l r.ring (ground (arith, has-append l ps (l ∷ [])))

  pub front_place : (node : Ptr) → insert_behind node (h.prev l) l ps ≡ ps ++ node ∷ []
  front_place node = insert_behind_last h.next h.prev node l ps l r.ring r.distinct

  pub push_front_node-inserted :
      (node : Ptr)
      → IsFree h node
      → push_front_node l node h ≡ ok (success node) (inserted l node (h.prev l) h)
  unfolding push_front_node
  push_front_node-inserted node f =
      let live : (l == nil) ≡ false = ground (arith, r.no_nil) in
      rw live (insert-inserted r node (h.prev l) f has_front)

  pub inserted-Becomes :
      (node here : Ptr)
      → IsFree h node
      → has here (l ∷ ps) ≡ true
      → Becomes h
          (inserted l node here h)
          l
          (insert_behind node here l ps)
          (entries h (insert_behind node here l ps))
  inserted-Becomes node here f i = record {
    rep = inserted-Rep r node here f i;
    holds = refl;
    others = λ l' qs apart r'. (inserted-Rep_other r l' qs r' apart node here f i, refl);
  }

  pub removed-Becomes :
      (here : Ptr)
      → has here ps ≡ true
      → Becomes h (removed l here h) l (erase here ps) (entries h (erase here ps))
  removed-Becomes here i = record {
    rep = removed-Rep r here i;
    holds = refl;
    others = λ l' qs apart r'. (removed-Rep_other r l' qs r' apart here i, refl);
  }

  pub created-Becomes : (k : K) (v : V) → Becomes h (created k v h) l ps (entries h ps)
  created-Becomes k v = record {
    rep = created-Rep r k v;
    holds = entries-created r k v;
    others = λ l' qs apart r'. (created-Rep r' k v, entries-created r' k v);
  }

  -- A removal writes no key and no value.
  pub remove-Becomes :
      (here : Ptr)
      → has here ps ≡ true
      → (h' : Heap K V) × (remove l here h ≡ ok (success here) h')
        × Becomes h h' l (erase here ps) (entries h (erase here ps))
        × IsFree h' here
        × (h'.key ≡ h.key)
        × (h'.value ≡ h.value)
        × (h'.top ≡ h.top)
  remove-Becomes here i = (
    removed l here h,
    remove-removed r here i,
    removed-Becomes here i,
    removed-IsFree r here i,
    refl,
    refl,
    refl,
  )

  pub front_lem : front l h ≡ ok (if h.prev l == l then nil else h.prev l) h
  unfolding front
  front_lem =
      let live : (l == nil) ≡ false = ground (arith, r.no_nil) in
      let same : h.list l ≡ l = ground (arith, r.owned l) in
      elim (Bool-cases (h.prev l == l)) [
        | inl e ↦ simp (live, same, e)
        | inr e ↦ simp (live, same, e)
      ]

  pub back_lem : back l h ≡ ok (if h.next l == l then nil else h.next l) h
  unfolding back
  back_lem =
      let live : (l == nil) ≡ false = ground (arith, r.no_nil) in
      let same : h.list l ≡ l = ground (arith, r.owned l) in
      elim (Bool-cases (h.next l == l)) [
        | inl e ↦ simp (live, same, e)
        | inr e ↦ simp (live, same, e)
      ]

  pub size_lem : size l h ≡ ok (length ps) h
  unfolding size
  size_lem = let live : (l == nil) ≡ false = ground (arith, r.no_nil) in rw (live, r.len)

  pub empty_lem : empty l h ≡ ok (length ps == 0) h
  unfolding empty
  empty_lem = let live : (l == nil) ≡ false = ground (arith, r.no_nil) in rw (live, r.len)

pub Becomes-trans {ℓ} :
    {K V : Type ℓ} {h h' h'' : Heap K V} {l : Ptr} {ps qs : List Ptr} {es fs : List (K × V)}
    → Becomes h h' l ps es
    → Becomes h' h'' l qs fs
    → Becomes h h'' l qs fs
Becomes-trans b c = record {
  rep = c.rep;
  holds = c.holds;
  others = λ l' qs apart r'.
      let (s, e) = b.others l' qs apart r' in let (t, f) = c.others l' qs apart s in (t, f ∙ e);
}
