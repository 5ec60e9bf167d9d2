-- ===== src/LruCache/Flush.antt =====
-- `Flush` of lru_cache.go: Go's `range` yields the entries of the map in any order.
use wb_l.LruList.Ops.{remove_foreign, remove_root}
use wb_l.LruCache.Refine.{IsCache}
use wb_l.LruList.Rep.{Rep}
use wb_l.LruList.Methods.{remove-Becomes}
use wb_l.LruList.Nodes.{has-erase}
use wb_l.Base.{
  ◌∙◌, sym, [], arith, refl, false, ◌∷◌, ◌&&◌, true, inl, not, List, map, inr, Bool-cases, ◌≢◌, ◌≡◌,
  ◌==◌, some,
}
use wb_l.Base.Dict.{lookup}
use wb_l.LruList.{not_in_list_error, root_error, failure, success, Result, Ptr, Heap, ok, nil}
use wb_l.LruList.Code.{remove}
use wb_l.LruList.Ring.{has, erase}
use wb_l.LruCache.{Cache, remove_all, flush}
use wb_l.LruCache.Find.{find_self, find-has, find}

abbrev pub nodes_of {ℓ} : {K : Type ℓ} → List (K × Ptr) → List Ptr
nodes_of = map (λ e. e.1)

-- `order` has the values of the entries of the map `m`, each at least once, and nothing else.
pub record IsRange {ℓ} {K : Type ℓ} (dec : Discrete K) (m order : List (K × Ptr)) : Type ℓ where
  pub covers : (k : K) (p : Ptr) → lookup dec k m ≡ some p → has p (nodes_of order) ≡ true
  pub sound : (p : Ptr) → has p (nodes_of order) ≡ true → (k : K) × (lookup dec k m ≡ some p)

module _ {ℓ} {K V : Type ℓ} (l : Ptr) where
  -- `Remove` of any node, with its error dropped, leaves a list without the node.
  remove_any :
      (h : Heap K V) (ps : List Ptr) (p : Ptr)
      → Rep h l ps
      → p ≢ nil
      → (h' : Heap K V) × (r : Result Ptr) × (qs : List Ptr) × (remove l p h ≡ ok r h')
        × Rep h' l qs
        × ((q : Ptr) → has q qs ≡ (has q ps && not (q == p)))
  remove_any h ps p r ne = elim (Bool-cases (has p ps)) [
    | inl inside ↦
        let (h', ran, b, free, key, value, top) = remove-Becomes r p inside in
        (h', success p, erase p ps, ran, b.rep, λ q. has-erase p q ps r.distinct.1)
    | inr outside ↦ elim (Bool-cases (p == l)) [
      | inl root ↦
          let same : p ≡ l = ground arith in
          (h, failure root_error, ps, rw same (remove_root r), r, λ q. ground (arith, outside))
      | inr other ↦ (
        h,
        failure not_in_list_error,
        ps,
        remove_foreign r p ne (ground arith),
        r,
        λ q. ground (arith, outside),
      )
    ]
  ]

  remove_all-Rep :
      (order : List (K × Ptr)) (h : Heap K V) (ps : List Ptr)
      → Rep h l ps
      → has nil (nodes_of order) ≡ false
      → (h' : Heap K V) × (qs : List Ptr) × (remove_all l order h ≡ ok tt h')
        × Rep h' l qs
        × ((q : Ptr) → has q qs ≡ (has q ps && not (has q (nodes_of order))))
  unfolding remove_all
  remove_all-Rep [] h ps r live = (h, ps, refl, r, λ q. ground arith)
  remove_all-Rep ((k, p) ∷ order) h ps r live =
      let (h1, res, ps1, ran1, r1, e1) = remove_any h ps p r (ground arith) in
      let (h2, ps2, ran2, r2, e2) = remove_all-Rep order h1 ps1 r1 (ground arith) in
      (h2, ps2, rw (ran1, ran2), r2, λ q. ground (arith, e1 q, e2 q))

nothing_left : (qs : List Ptr) → ((q : Ptr) → has q qs ≡ false) → qs ≡ []
nothing_left [] none_in = refl
nothing_left (q ∷ qs) none_in = absurd (ground (arith, none_in q))

module _ {ℓ} {K V : Type ℓ} (dec : Discrete K) {h : Heap K V} {c : Cache K} {ps : List Ptr}
    (i : IsCache dec h c ps) (order : List (K × Ptr)) (range : IsRange dec c.cache order) where
  range-no_nil : has nil (nodes_of order) ≡ false
  range-no_nil = elim (Bool-cases (has nil (nodes_of order))) [
    | inl bad ↦
        let (k, e) = range.sound nil bad in
        absurd (ground (arith, find-has dec h.key k ps nil (sym (i.index k) ∙ e), i.rep.no_nil))
    | inr good ↦ good
  ]

  range-has : (q : Ptr) → has q ps ≡ true → has q (nodes_of order) ≡ true
  range-has q inside =
      range.covers (h.key q) q (i.index (h.key q) ∙ find_self dec h.key ps q i.distinct inside)

  -- `Flush` empties the cache and keeps the invariant, in whatever order the map is walked.
  pub flush-IsCache :
      (h' : Heap K V) × (flush c order h ≡ ok (record c { cache = [] }) h')
      × IsCache dec h' (record c { cache = [] }) []
  unfolding flush lookup find
  flush-IsCache =
      let (h', qs, ran, r, e) = remove_all-Rep c.lru_list order h ps i.rep range-no_nil in
      let empty : qs ≡ [] = nothing_left qs (λ q. ground (arith, e q, range-has q)) in
      (
        h',
        rw ran,
        record { rep = rw empty at r; index = λ k. refl; distinct = tt; fits = omega arith },
      )
