-- ===== src/LruList/Race.antt =====
-- `PushFront` reads the front of the list before it takes the list's mutex. Here it is cut at that
-- point, and other methods of the list run in between.
use wb_l.LruList.Methods.{has_front}
use wb_l.LruList.Ops.{insert_foreign, insert-inserted}
use wb_l.LruList.Ring.{has, has-append}
use wb_l.LruList.Nodes.{Distinct-last, prev_last}
use wb_l.LruList.Moves.{pop_front-Becomes}
use wb_l.LruList.Fresh.{
  entries-eq, top-new, created, new_node-created, top-pos, created-Rep, created-IsFree, entries,
}
use wb_l.LruList.Rep.{Rep}
use wb_l.LruList.{pointer_of, ◌>>◌, nil, load_prev, ok, pure, Ptr, Cmd, ◌>>=◌, Heap}
use wb_l.LruList.Code.{insert, push_front, pop_front, new_node}
use wb_l.Base.{◌≢◌, ◌==◌, ◌∙◌, arith, false, ◌∷◌, ◌++◌, List, [], ◌≡◌}
use wb_l.LruList.{◌>>◌, ◌>>=◌, pure, ok}

module _ {ℓ} {K V : Type ℓ} where
  -- `PushFront` with the calls `between` of other goroutines after the unlocked read of
  -- `l.root.prev` and before `insert` takes the mutex.
  unfoldable pub push_front_with : Cmd K V (Unit {0}) → Ptr → K → V → Cmd K V Ptr
  unfolding new_node load_prev insert
  push_front_with between l key value = do
    node ← new_node key value nil nil nil
    here ← load_prev l
    between
    r ← insert l node here
    pure (pointer_of r)

  abbrev pub quiet : Cmd K V (Unit {0})
  quiet = pure tt

  abbrev pub pop_between : Ptr → Cmd K V (Unit {0})
  pop_between l = pop_front l >>= λ _. quiet

  -- With nothing in between it is `PushFront`.
  pub push_front_with-quiet :
      (k : K) (v : V) (h : Heap K V) (l : Ptr) (ps : List Ptr)
      → Rep h l ps
      → push_front_with quiet l k v h ≡ push_front l k v h
  unfolding push_front_with push_front
  push_front_with-quiet k v h l ps r =
      let c = created k v h in
      let f = created-IsFree k v h (top-pos r) in
      let rc = created-Rep r k v in
      let live : (l == nil) ≡ false = ground (arith, r.no_nil) in
      rw (
        new_node-created k v h (top-pos r),
        live,
        insert-inserted rc h.top (c.prev l) f (has_front rc),
      )

  -- If another goroutine pops the front between the unlocked read of `PushFront` and its locked
  -- insertion, `PushFront` returns nil and the list holds what the pop left: the new entry is
  -- lost.
  pub push_front_with-pop :
      (k : K) (v : V) (h : Heap K V) (l p : Ptr) (ps : List Ptr)
      → Rep h l (ps ++ p ∷ [])
      → (h' : Heap K V) × (push_front_with (pop_between l) l k v h ≡ ok nil h')
        × Rep h' l ps
        × (entries h' ps ≡ entries h ps)
  unfolding push_front_with
  push_front_with-pop k v h l p ps r =
      let c = created k v h in
      let f = created-IsFree k v h (top-pos r) in
      let rc = created-Rep r k v in
      let last : c.prev l ≡ p = prev_last c.next c.prev l p l ps rc.ring in
      let live : (l == nil) ≡ false = ground (arith, r.no_nil) in
      let (h', ran, b, free) = pop_front-Becomes rc in
      let owned = rc.owned p in
      let gone : has p (l ∷ ps) ≡ false =
        ground (arith, Distinct-last p ps r.distinct.1, r.distinct.0, has-append l ps (p ∷ [])) in
      let ne : p ≢ nil = ground (arith, r.no_nil, has-append nil ps (p ∷ [])) in
      (
        h',
        rw (
          new_node-created k v h (top-pos r),
          live,
          last,
          ran,
          insert_foreign b.rep h.top p (free h.top f) ne gone,
        ),
        b.rep,
        b.holds
            ∙ entries-eq h c ps λ q i.
              let new : (h.top == q) ≡ false =
                ground (arith, top-new r, has-append q ps (p ∷ [])) in
              (rw new, rw new),
      )
