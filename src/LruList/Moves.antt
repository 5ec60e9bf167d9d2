-- ===== src/LruList/Moves.antt =====
-- `Insert`, `PushFront`, `PushBack`, `MoveToFront`, `MoveToBack`, `PopFront` and `PopBack` of
-- lru_list.go: what each returns, and the list that it leaves.
use wb_l.LruList.Nodes.{erase_last, insert_behind_self, prev_last, Distinct-last}
use wb_l.LruList.Ops.{remove_foreign, remove-removed, insert-inserted}
use wb_l.LruList.Methods.{
  removed-Becomes, has_front, back_lem, front_lem, created-Becomes, inserted-Becomes,
  push_front_node-inserted, front_place, Becomes-trans, Becomes,
}
use wb_l.LruList.Fresh.{
  entries-created, created-Rep, top-pos, new_node-created, created-IsFree, created, entries,
}
use wb_l.LruList.Ring.{erase, has-append, insert_behind, has}
use wb_l.LruList.Rep.{
  removed-IsFree_other, removed, removed-IsFree, IsFree, removed-Rep, inserted, Rep,
}
use wb_l.Base.{false, ◌==◌, ◌≢◌, arith, none, some, refl, ◌++◌, ==_refl, [], true, ◌≡◌, ◌∷◌, List}
use wb_l.LruList.{not_in_list_error, panic, nil, update, success, ok, Ptr, Heap}
use wb_l.LruList.Code.{
  push_back_node, pop_front, pop_back, move_to_back, move_to_front, push_back, insert, push_front,
  insert_after,
}
use mathlib.Core.List.{map-append}

module _ {ℓ} {K V : Type ℓ} {h : Heap K V} {l : Ptr} {ps : List Ptr} (r : Rep h l ps) where
  insert_new :
      (k : K) (v : V) (here : Ptr)
      → has here (l ∷ ps) ≡ true
      → (insert l h.top here (created k v h)
          ≡ ok (success h.top) (inserted l h.top here (created k v h)))
        × Becomes h
            (inserted l h.top here (created k v h))
            l
            (insert_behind h.top here l ps)
            (entries (created k v h) (insert_behind h.top here l ps))
  insert_new k v here i =
      let f = created-IsFree k v h (top-pos r) in
      (
        insert-inserted (created-Rep r k v) h.top here f i,
        Becomes-trans (created-Becomes r k v) (inserted-Becomes (created-Rep r k v) h.top here f i),
      )

  -- `Insert` returns a fresh node that stands behind the given one, which is a node of the list or
  -- its sentinel; other lists are not touched.
  pub insert_after-Becomes :
      (k : K) (v : V) (here : Ptr)
      → has here (l ∷ ps) ≡ true
      → (h' : Heap K V) × (insert_after l k v here h ≡ ok (success h.top) h')
        × Becomes h h' l
            (insert_behind h.top here l ps)
            (entries (created k v h) (insert_behind h.top here l ps))
  unfolding insert_after
  insert_after-Becomes k v here i = (
    inserted l h.top here (created k v h),
    rw (new_node-created k v h (top-pos r)) (insert_new k v here i).0,
    (insert_new k v here i).1,
  )

  new_entry : (k : K) (v : V) → entries (created k v h) (h.top ∷ []) ≡ (k, v) ∷ []
  new_entry k v = rw ==_refl

  -- `PushFront` returns a fresh node, which holds the key and the value and stands in front of the
  -- list; the rest of the list, the other lists and the other nodes keep what they hold.
  pub push_front-Becomes :
      (k : K) (v : V)
      → (h' : Heap K V) × (push_front l k v h ≡ ok h.top h')
        × Becomes h h' l (ps ++ h.top ∷ []) (entries h ps ++ (k, v) ∷ [])
        × (h'.key ≡ update h.key h.top k)
        × (h'.value ≡ update h.value h.top v)
  unfolding push_front
  push_front-Becomes k v =
      let c = created k v h in
      let f = created-IsFree k v h (top-pos r) in
      let rc = created-Rep r k v in
      let e = front_place rc h.top in
      let held : entries c (ps ++ h.top ∷ []) ≡ entries h ps ++ (k, v) ∷ [] =
        rw (map-append, entries-created r k v, ==_refl) in
      (
        inserted l h.top (c.prev l) c,
        rw (new_node-created k v h (top-pos r), push_front_node-inserted rc h.top f),
        rw (e, held) at
            (Becomes-trans (created-Becomes r k v)
              (inserted-Becomes rc h.top (c.prev l) f (has_front rc))),
        refl,
        refl,
      )

  -- `PushBack` returns a fresh node, which holds the key and the value and stands at the back of
  -- the list; other lists are not touched.
  pub push_back-Becomes :
      (k : K) (v : V)
      → (h' : Heap K V) × (push_back l k v h ≡ ok h.top h')
        × Becomes h h' l (h.top ∷ ps) ((k, v) ∷ entries h ps)
  unfolding push_back push_back_node
  push_back-Becomes k v =
      let c = created k v h in
      let f = created-IsFree k v h (top-pos r) in
      let rc = created-Rep r k v in
      let e = insert_behind_self h.top l ps in
      let held : entries c (h.top ∷ ps) ≡ (k, v) ∷ entries h ps =
        rw (entries-created r k v, ==_refl) in
      (
        inserted l h.top l c,
        rw (new_node-created k v h (top-pos r), insert-inserted rc h.top l f (ground arith)),
        rw (e, held) at
            (Becomes-trans (created-Becomes r k v) (inserted-Becomes rc h.top l f (ground arith))),
      )

  -- `MoveToFront` of a node of the list reports no error and leaves the list with that node in
  -- front and the others in their order.
  pub move_to_front-Becomes :
      (here : Ptr)
      → has here ps ≡ true
      → (h' : Heap K V) × (move_to_front l here h ≡ ok none h')
        × Becomes h h' l (erase here ps ++ here ∷ []) (entries h (erase here ps ++ here ∷ []))
        × (h'.key ≡ h.key)
        × (h'.value ≡ h.value)
        × (h'.top ≡ h.top)
  unfolding move_to_front
  move_to_front-Becomes here i =
      let d = removed l here h in
      let f = removed-IsFree r here i in
      let rd = removed-Rep r here i in
      (
        inserted l here (d.prev l) d,
        rw (remove-removed r here i, push_front_node-inserted rd here f),
        rw (front_place rd here) at (
            Becomes-trans (removed-Becomes r here i)
              (inserted-Becomes rd here (d.prev l) f (has_front rd))),
        refl,
        refl,
        refl,
      )

  -- `MoveToBack` of a node of the list reports no error and leaves the list with that node at the
  -- back and the others in their order.
  pub move_to_back-Becomes :
      (here : Ptr)
      → has here ps ≡ true
      → (h' : Heap K V) × (move_to_back l here h ≡ ok none h')
        × Becomes h h' l (here ∷ erase here ps) (entries h (here ∷ erase here ps))
  unfolding move_to_back push_back_node
  move_to_back-Becomes here i =
      let d = removed l here h in
      let f = removed-IsFree r here i in
      let rd = removed-Rep r here i in
      (
        inserted l here l d,
        rw (remove-removed r here i, insert-inserted rd here l f (ground arith)),
        rw (insert_behind_self here l (erase here ps)) at (
            Becomes-trans (removed-Becomes r here i) (inserted-Becomes rd here l f (ground arith))),
      )

  -- `MoveToFront` and `MoveToBack` of a node that is not in the list return the error for it and
  -- change nothing.
  pub move_foreign :
      (p : Ptr)
      → p ≢ nil
      → has p (l ∷ ps) ≡ false
      → (move_to_front l p h ≡ ok (some not_in_list_error) h)
        × (move_to_back l p h ≡ ok (some not_in_list_error) h)
  unfolding move_to_front move_to_back
  move_foreign p ne out = (rw (remove_foreign r p ne out), rw (remove_foreign r p ne out))

-- `PopBack` takes the node at the back, and `PopFront` the one at the front.
module _ {ℓ} {K V : Type ℓ} {h : Heap K V} {l p : Ptr} {ps : List Ptr} where
  -- `PopBack` of a list that is not empty returns the node at the back, which is free afterwards,
  -- and leaves the others in their order.
  pub pop_back-Becomes :
      Rep h l (p ∷ ps)
      → (h' : Heap K V) × (pop_back l h ≡ ok (success p) h')
        × Becomes h h' l ps (entries h ps)
        × IsFree h' p
        × (h'.key ≡ h.key)
        × (h'.value ≡ h.value)
        × (h'.top ≡ h.top)
  unfolding pop_back erase
  pop_back-Becomes r =
      let first : h.next l ≡ p = r.ring.0.0 in
      let inner : (p == l) ≡ false = ground (arith, r.distinct.0) in
      let i : has p (p ∷ ps) ≡ true = ground arith in
      let gone : erase p (p ∷ ps) ≡ ps = ground arith in
      (
        removed l p h,
        rw (back_lem r, first, inner, remove-removed r p i),
        rw gone at (removed-Becomes r p i),
        removed-IsFree r p i,
        refl,
        refl,
        refl,
      )

  -- `PopFront` of a list that is not empty returns the node at the front and leaves the others in
  -- their order; free nodes stay free.
  pub pop_front-Becomes :
      Rep h l (ps ++ p ∷ [])
      → (h' : Heap K V) × (pop_front l h ≡ ok (success p) h')
        × Becomes h h' l ps (entries h ps)
        × ((q : Ptr) → IsFree h q → IsFree h' q)
  unfolding pop_front
  pop_front-Becomes r =
      let last : h.prev l ≡ p = prev_last h.next h.prev l p l ps r.ring in
      let i : has p (ps ++ p ∷ []) ≡ true = ground (arith, has-append p ps (p ∷ [])) in
      let inner : (p == l) ≡ false = ground (arith, r.distinct.0) in
      let gone : erase p (ps ++ p ∷ []) ≡ ps = erase_last p ps (Distinct-last p ps r.distinct.1) in
      (
        removed l p h,
        rw (front_lem r, last, inner, remove-removed r p i),
        rw gone at (removed-Becomes r p i),
        λ q f. removed-IsFree_other r p q i f,
      )

module _ {ℓ} {K V : Type ℓ} {h : Heap K V} {l : Ptr} where
  -- `PopBack` and `PopFront` of an empty list panic.
  pub pop_empty : Rep h l [] → (pop_back l h ≡ panic) × (pop_front l h ≡ panic)
  unfolding pop_back pop_front
  pop_empty r =
      let next : (h.next l == l) ≡ true = ground (arith, r.ring) in
      let prev : (h.prev l == l) ≡ true = ground (arith, r.ring) in
      (rw (back_lem r, next), rw (front_lem r, prev))
