-- ===== src/LruList/Ops.antt =====
-- `insert` and `Remove` of lru_list.go, run on a memory where an address holds a list of nodes.
use wb_l.Base.{◌==◌, ◌≡◌, ◌≢◌, true, false, ◌∷◌, List, arith}
use wb_l.LruList.{update, Ptr, nil, Heap, ok, success, failure, root_error, not_in_list_error}
use wb_l.LruList.Code.{insert, remove}
use wb_l.LruList.Ring.{has}
use wb_l.LruList.Rep.{Rep, IsFree, inserted, removed, next-ne_nil, prev-ne_nil}

module _ {ℓ} {K V : Type ℓ} {h : Heap K V} {l : Ptr} {ps : List Ptr} (r : Rep h l ps) where
  pub insert-inserted :
      (node here : Ptr)
      → IsFree h node
      → has here (l ∷ ps) ≡ true
      → insert l node here h ≡ ok (success node) (inserted l node here h)
  unfolding insert
  insert-inserted node here f i =
      let live : (node == nil) ≡ false = ground (arith, f.ne_nil) in
      let here_live : (here == nil) ≡ false = ground (arith, r.no_nil) in
      let next_live : (h.next here == nil) ≡ false = ground (arith, next-ne_nil r here i) in
      let list_live : (l == nil) ≡ false = ground (arith, r.no_nil) in
      let mine : (h.list here == l) ≡ true = ground (arith, r.owned here) in
      simp (live, here_live, next_live, list_live, f.list, f.next, f.prev, mine)

  pub remove-removed :
      (here : Ptr) → has here ps ≡ true → remove l here h ≡ ok (success here) (removed l here h)
  unfolding remove
  remove-removed here i =
      let here_live : (here == nil) ≡ false = ground (arith, r.no_nil) in
      let next_live : (h.next here == nil) ≡ false = ground (arith, next-ne_nil r here) in
      let prev_live : (h.prev here == nil) ≡ false = ground (arith, prev-ne_nil r here) in
      let list_live : (l == nil) ≡ false = ground (arith, r.no_nil) in
      let mine : (h.list here == l) ≡ true = ground (arith, r.owned here) in
      let inner : (here == l) ≡ false = ground (arith, r.distinct.0) in
      let same : update h.next (h.prev here) (h.next here) here ≡ h.next here = ground arith in
      simp (here_live, next_live, prev_live, list_live, mine, inner, same)

  pub remove_root : remove l l h ≡ ok (failure root_error) h
  unfolding remove
  remove_root = ground (arith, r.owned l, r.no_nil)

  pub remove_foreign :
      (p : Ptr) → p ≢ nil → has p (l ∷ ps) ≡ false → remove l p h ≡ ok (failure not_in_list_error) h
  unfolding remove
  remove_foreign p ne out = ground (arith, r.owned p)

  pub insert_foreign :
      (node here : Ptr)
      → IsFree h node
      → here ≢ nil
      → has here (l ∷ ps) ≡ false
      → insert l node here h ≡ ok (failure not_in_list_error) h
  unfolding insert
  insert_foreign node here f ne out = ground (arith, f.ne_nil, f.list, f.next, f.prev, r.owned here)
