-- ===== src/LruCache/Refine.antt =====
-- The invariant of the cache of lru_cache.go, and `Get` against Spec.
use wb_l.LruList.Nodes.{length-erase}
use wb_l.LruList.Fresh.{entries}
use wb_l.Base.Lists.{length-append, length}
use wb_l.LruList.Rep.{Rep}
use wb_l.LruCache.{get, Cache}
use wb_l.LruList.Moves.{move_to_front-Becomes}
use wb_l.LruList.{nil, ok, Ptr, Heap}
use wb_l.Base.{
  ◌==◌, false, ◌≤◌, arith, List, [], inl, inr, ◌∷◌, Option-cases, refl, ◌≡◌, ◌++◌, none, some, ◌∙◌,
}
use mathlib.Core.Option
use mathlib.Core.Logic.{if_pos, if_neg}
use mathlib.Core.List.{map-append}
use wb_l.Base.Dict.{lookup}
use wb_l.LruList.Ring.{erase}
use wb_l.LruCache.Find.{DistinctKeys-moved, find-moved, find-has, find, DistinctKeys}
use wb_l.LruCache.Spec.{without, touched}

-- The cache holds the nodes `ps`: the list has exactly them, the map finds the node of each key, no two
-- nodes hold one key, and they fit.
pub record IsCache {ℓ} {K V : Type ℓ} (dec : Discrete K) (h : Heap K V) (c : Cache K)
    (ps : List Ptr) : Type ℓ where
  pub rep : Rep h c.lru_list ps
  pub index : (k : K) → lookup dec k c.cache ≡ find dec h.key k ps
  pub distinct : DistinctKeys dec h.key ps
  pub fits : length ps ≤ c.capacity

module _ {ℓ} {K V : Type ℓ} (dec : Discrete K) where
  -- The abstract entries: the key and the value of each node.
  pub lookup-entries :
      (h : Heap K V) (k : K) (ps : List Ptr)
      → lookup dec k (entries h ps) ≡ Option.map h.value (find dec h.key k ps)
  unfolding lookup find
  lookup-entries h k [] = refl
  lookup-entries h k (p ∷ ps) = elim (dec (h.key p) k) [
    | yes e ↦ rw (if_pos _ e, if_pos _ e)
    | no e ↦ rw (if_neg _ e, if_neg _ e) (lookup-entries h k ps)
  ]

  pub entries-erase :
      (h : Heap K V) (k : K) (ps : List Ptr) (p : Ptr)
      → find dec h.key k ps ≡ some p
      → entries h (erase p ps) ≡ without dec k (entries h ps)
  unfolding find erase without
  entries-erase h k [] p e = cc
  entries-erase h k (q ∷ ps) p e = ground (arith, entries-erase h k ps p, find-has dec h.key k ps p)

  pub without_absent :
      (h : Heap K V) (k : K) (ps : List Ptr)
      → find dec h.key k ps ≡ none
      → without dec k (entries h ps) ≡ entries h ps
  unfolding find without
  without_absent h k [] e = refl
  without_absent h k (q ∷ ps) e = ground (arith, without_absent h k ps)

  -- `Get` returns what the cache holds under the key, or a miss, never panics, moves the entry to
  -- the most recent place, and keeps the invariant.
  pub get-refines :
      (h : Heap K V) (c : Cache K) (k : K) (ps : List Ptr)
      → IsCache dec h c ps
      → (h' : Heap K V) × (qs : List Ptr) × (get dec c k h ≡ ok (lookup dec k (entries h ps)) h')
        × IsCache dec h' c qs
        × (entries h' qs ≡ touched dec k (entries h ps))
  unfolding get touched
  get-refines h c k ps i = elim (Option-cases (find dec h.key k ps)) [
    | inl miss ↦
        let absent : lookup dec k c.cache ≡ none = i.index k ∙ miss in
        let nothing : lookup dec k (entries h ps) ≡ none = rw (lookup-entries h k ps, miss) in
        (h, ps, rw (absent, nothing), i, rw (nothing, touched))
    | inr (p, found) ↦
        let present : lookup dec k c.cache ≡ some p = i.index k ∙ found in
        let (inside, mine) = find-has dec h.key k ps p found in
        let something : lookup dec k (entries h ps) ≡ some (h.value p) =
          rw (lookup-entries h k ps, found) in
        let live : (p == nil) ≡ false = ground (arith, i.rep.no_nil) in
        let (h', ran, b, key, value, top) = move_to_front-Becomes i.rep p inside in
        (
          h',
          erase p ps ++ p ∷ [],
          rw (present, ran, live, value, something),
          record {
            rep = b.rep;
            index = λ j. i.index j ∙ rw (key, find-moved dec h.key k ps p i.distinct found);
            distinct = rw key (DistinctKeys-moved dec h.key k ps p i.distinct found);
            fits =
                omega
                  (arith, length-append (erase p ps) (p ∷ []), length-erase p ps inside, i.fits);
          },
          rw (something, touched)
              (b.holds
                ∙ map-append _ (erase p ps) (p ∷ [])
                ∙ rw (entries-erase h k ps p found, mine)),
        )
  ]
