-- ===== src/LruCache/Drop.antt =====
-- The other methods of lru_cache.go: construction, `Delete`, `Contains`, `Size`, `Empty` and `Flush`, and
-- `Set` at capacity 0.
use wb_l.LruList.Moves.{pop_empty}
use wb_l.LruList.Rep.{Rep}
use wb_l.Base.Lists.{length, length-map}
use wb_l.LruList.Nodes.{length-erase}
use wb_l.LruCache.Refine.{IsCache, lookup-entries, entries-erase}
use wb_l.LruList.Fresh.{entries, listed, listed-Rep, IsFresh, new_list-listed}
use wb_l.LruList.Methods.{size_lem, remove-Becomes}
use wb_l.Base.{
  ◌≤◌, ◌∷◌, refl, ◌≡◌, ◌==◌, inr, arith, none, some, List, ◌∙◌, [], is_some, Option-cases, ℕ, inl,
}
use wb_l.Base.Int.{pos}
use wb_l.Base.Dict.{lookup-delete, lookup, delete}
use wb_l.LruList.{Heap, Ptr, ok, panic}
use wb_l.LruList.Ring.{erase}
use wb_l.LruCache.{
  Cache, new_cache, made, no_such_key, contains, cache_size, cache_empty, delete_key, set,
}
use wb_l.LruCache.Find.{find-has, DistinctKeys-erase, find-erase, find}
use wb_l.LruCache.Spec.{without}

-- `NewLRUCache` with a capacity that is not negative, 0 included, makes an empty cache of that
-- capacity that satisfies the invariant.
pub new_cache-IsCache {ℓ} :
    {K V : Type ℓ} (dec : Discrete K) (n : ℕ) (h : Heap K V)
    → IsFresh h
    → (h' : Heap K V) × (c : Cache K) × (new_cache (pos n) h ≡ ok (made c) h')
      × IsCache dec h' c []
      × (c.capacity ≡ n)
unfolding new_cache lookup find
new_cache-IsCache dec n h f = (
  listed h,
  record { lru_list = h.top; cache = []; capacity = n },
  rw (new_list-listed h f),
  record { rep = listed-Rep h f; index = λ k. refl; distinct = tt; fits = omega arith },
  refl,
)

module _ {ℓ} {K V : Type ℓ} (dec : Discrete K) {h : Heap K V} {c : Cache K} {ps : List Ptr}
    (i : IsCache dec h c ps) where
  -- `Delete` of a key that the cache holds returns no error, removes exactly its entry and keeps
  -- the invariant.
  pub delete_key-hit :
      (k : K) (v : V)
      → lookup dec k (entries h ps) ≡ some v
      → (h' : Heap K V) × (c' : Cache K) × (qs : List Ptr) × (delete_key dec c k h
          ≡ ok (c', none) h')
        × IsCache dec h' c' qs
        × (entries h' qs ≡ without dec k (entries h ps))
        × (c'.capacity ≡ c.capacity)
  unfolding delete_key
  delete_key-hit k v e = elim (Option-cases (find dec h.key k ps)) [
    | inl miss ↦ absurd (ground (arith, lookup-entries dec h k ps))
    | inr (p, found) ↦
        let (inside, mine) = find-has dec h.key k ps p found in
        let (h', ran, b, free, key, value, top) = remove-Becomes i.rep p inside in
        (
          h',
          record c { cache = delete dec k c.cache },
          erase p ps,
          rw (i.index k ∙ found, ran),
          record {
            rep = b.rep;
            index = λ j.
                rw (key, find-erase dec h.key k j ps p i.distinct found)
                  (lookup-delete dec k j c.cache ∙ rw (i.index j));
            distinct = rw key (DistinctKeys-erase dec h.key k ps p i.distinct found);
            fits = omega (arith, length-erase p ps inside, i.fits);
          },
          b.holds ∙ entries-erase dec h k ps p found,
          refl,
        )
  ]

  -- `Delete` of a key that the cache does not hold returns an error with the key and changes
  -- nothing.
  pub delete_key-miss :
      (k : K)
      → lookup dec k (entries h ps) ≡ none
      → delete_key dec c k h ≡ ok (c, some (no_such_key k)) h
  unfolding delete_key
  delete_key-miss k e = elim (Option-cases (find dec h.key k ps)) [
    | inl miss ↦ rw (i.index k ∙ miss)
    | inr (p, found) ↦ absurd (ground (arith, lookup-entries dec h k ps))
  ]

  -- `Contains`, `Size` and `Empty` read the entries and write nothing.
  pub contains_lem : (k : K) → contains dec c k ≡ is_some (lookup dec k (entries h ps))
  unfolding contains
  contains_lem k =
      rw (i.index k, lookup-entries dec h k ps)
        (elim (Option-cases (find dec h.key k ps)) [
          | inl miss ↦ rw miss
          | inr (p, found) ↦ rw found
        ])

  pub cache_size_lem : cache_size c h ≡ ok (length (entries h ps)) h
  unfolding cache_size
  cache_size_lem = size_lem i.rep ∙ rw (length-map _ ps)

  pub cache_empty_lem : cache_empty c h ≡ ok (length (entries h ps) == 0) h
  unfolding cache_empty
  cache_empty_lem = rw (size_lem i.rep, length-map _ ps)

  -- In a cache of capacity 0 every `Set` panics.
  pub set_zero_panics : c.capacity ≡ 0 → (k : K) (v : V) → set dec c k v h ≡ panic
  unfolding set find
  set_zero_panics zero_cap k v =
      let none_held : (h.len c.lru_list ≡ 0) × (ps ≡ []) = go ps i.fits i.rep.len in
      let absent : lookup dec k c.cache ≡ none = rw (i.index k, none_held.1, find) in
      let r : Rep h c.lru_list [] = rw (none_held.1) at i.rep in
      rw (absent, size_lem r, zero_cap, (pop_empty r).0)
    where
      go :
          (qs : List Ptr)
          → length qs ≤ c.capacity
          → h.len c.lru_list ≡ length qs
          → (h.len c.lru_list ≡ 0) × (qs ≡ [])
      go [] fit e = (e, refl)
      go (q ∷ qs) fit e = absurd (omega arith)
