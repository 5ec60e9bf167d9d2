-- ===== src/LruCache/Store.antt =====
-- `Set` of lru_cache.go in its three steps: the key's old node goes, room is made, and a fresh node
-- comes to the front.
use wb_l.Base.Lists.{length-append, length-map, length}
use wb_l.LruList.Fresh.{top-new, entries}
use wb_l.LruCache.Refine.{without_absent, entries-erase, IsCache}
use wb_l.LruList.Moves.{push_front-Becomes, pop_back-Becomes}
use wb_l.LruList.Rep.{Rep}
use wb_l.LruList.Methods.{size_lem, remove-Becomes}
use wb_l.LruList.Nodes.{length-erase}
use wb_l.Base.{
  ==_refl, Bool-cases, true, ◌++◌, none, ◌∙◌, refl, false, [], sym, ◌≡◌, ◌==◌, ℕ, inl, Option-cases,
  ◌≤◌, inr, ◌<◌, arith, ◌∷◌, List, ◌≢◌, if◌then◌else◌,
}
use mathlib.Core.Logic.{if_pos, if_neg}
use mathlib.Core.List.{tail}
use wb_l.LruList.{nil, load_key, Ptr, Heap, pure, ok}
use wb_l.LruList.Code.{size, push_front}
use wb_l.Base.Dict.{lookup-delete, lookup-put, lookup, delete, put}
use wb_l.LruList.Ring.{has, erase}
use wb_l.LruCache.{Cache, drop_old, evict, set}
use wb_l.LruCache.Find.{
  DistinctKeys-append, find-append, find-same, DistinctKeys-same, DistinctKeys-erase, find-has,
  find-erase, find, DistinctKeys,
}
use wb_l.LruCache.Spec.{without, stored}

-- The state between the steps: no node holds the key `k`, and the map `m` is right for the others.
record Between {ℓ} {K V : Type ℓ} (dec : Discrete K) (h : Heap K V) (l : Ptr) (m : List (K × Ptr))
    (k : K) (ps : List Ptr) : Type ℓ where
  rep : Rep h l ps
  index : (j : K) → j ≢ k → lookup dec j m ≡ find dec h.key j ps
  absent : find dec h.key k ps ≡ none
  distinct : DistinctKeys dec h.key ps

module _ {ℓ} {K V : Type ℓ} (dec : Discrete K) (k : K) where
  drop_old-Between :
      (h : Heap K V) (c : Cache K) (ps : List Ptr)
      → IsCache dec h c ps
      → (h' : Heap K V) × (qs : List Ptr) × (drop_old c (lookup dec k c.cache) h ≡ ok tt h')
        × Between dec h' c.lru_list c.cache k qs
        × (entries h' qs ≡ without dec k (entries h ps))
        × (length qs ≤ c.capacity)
  unfolding drop_old
  drop_old-Between h c ps i = elim (Option-cases (find dec h.key k ps)) [
    | inl miss ↦ (
      h,
      ps,
      rw (i.index k ∙ miss),
      record { rep = i.rep; index = λ j ne. i.index j; absent = miss; distinct = i.distinct },
      sym (without_absent dec h k ps miss),
      i.fits,
    )
    | inr (p, found) ↦
        let (inside, mine) = find-has dec h.key k ps p found in
        let (h', ran, b, free, key, value, top) = remove-Becomes i.rep p inside in
        (
          h',
          erase p ps,
          rw (i.index k ∙ found, ran),
          record {
            rep = b.rep;
            index = λ j ne.
                i.index j
                ∙ rw (
                  key,
                  find-erase dec h.key k j ps p i.distinct found,
                  if_neg _ (λ e. ne (sym e)),
                );
            absent =
                rw (key, find-erase dec h.key k k ps p i.distinct found, if_pos (dec k k) refl);
            distinct = rw key (DistinctKeys-erase dec h.key k ps p i.distinct found);
          },
          b.holds ∙ entries-erase dec h k ps p found,
          omega (arith, length-erase p ps inside, i.fits),
        )
  ]

  -- Room is made by the specification's rule.
  abbrev room : ℕ → List (K × V) → List (K × V)
  room cap es = if length es == cap then tail es else es

  evict-Between :
      (h : Heap K V) (c : Cache K) (ps : List Ptr)
      → Between dec h c.lru_list c.cache k ps
      → 0 < c.capacity
      → length ps ≡ c.capacity
      → (h' : Heap K V) × (qs : List Ptr) × (m : List (K × Ptr)) × (evict dec c h ≡ ok m h')
        × Between dec h' c.lru_list m k qs
        × (entries h' qs ≡ tail (entries h ps))
        × (length qs < c.capacity)
  unfolding evict load_key find
  evict-Between h c [] b pos full = absurd (omega arith)
  evict-Between h c (p ∷ ps) b pos full =
      let live : (p == nil) ≡ false = ground (arith, b.rep.no_nil) in
      let (h', ran, b', free, key, value, top) = pop_back-Becomes b.rep in
      (
        h',
        ps,
        delete dec (h'.key p) c.cache,
        rw (ran, live),
        record {
          rep = b'.rep;
          index = λ j ne.
              rw key
                (ground (arith, lookup-delete dec (h.key p) j c.cache, b.index j ne, b.distinct.0));
          absent = rw key (ground (arith, b.absent));
          distinct = rw key b.distinct.1;
        },
        b'.holds,
        omega arith,
      )

  room-Between :
      (h : Heap K V) (c : Cache K) (ps : List Ptr)
      → Between dec h c.lru_list c.cache k ps
      → 0 < c.capacity
      → length ps ≤ c.capacity
      → (h' : Heap K V) × (qs : List Ptr) × (m : List (K × Ptr)) × ((if length ps == c.capacity
              then evict dec c
              else pure c.cache)
            h
          ≡ ok m h')
        × Between dec h' c.lru_list m k qs
        × (entries h' qs ≡ room c.capacity (entries h ps))
        × (length qs < c.capacity)
  room-Between h c ps b pos fits = elim (Bool-cases (length ps == c.capacity)) [
    | inl full ↦
        let (h', qs, m, ran, b', e, less) = evict-Between h c ps b pos (ground arith) in
        (h', qs, m, rw (full, ran), b', rw (length-map _ ps, full) e, less)
    | inr fewer ↦ (h, ps, c.cache, rw fewer, b, rw (length-map _ ps, fewer), ground arith)
  ]

  stored-IsCache :
      (h : Heap K V) (c : Cache K) (m : List (K × Ptr)) (v : V) (ps : List Ptr)
      → Between dec h c.lru_list m k ps
      → length ps < c.capacity
      → (h' : Heap K V) × (p : Ptr) × (push_front c.lru_list k v h ≡ ok p h')
        × IsCache dec h' (record c { cache = put dec k p m }) (ps ++ p ∷ [])
        × (entries h' (ps ++ p ∷ []) ≡ entries h ps ++ (k, v) ∷ [])
  stored-IsCache h c m v ps b fits =
      let (h', ran, b', key, value) = push_front-Becomes b.rep k v in
      let mine : h'.key h.top ≡ k = rw (key, ==_refl) in
      let same : (p : Ptr) → has p ps ≡ true → h'.key p ≡ h.key p =
        λ p i. rw key (let new : (h.top == p) ≡ false = ground (arith, top-new b.rep) in rw new) in
      let old : (j : K) → find dec h'.key j ps ≡ find dec h.key j ps =
        λ j. find-same dec h.key h'.key j ps same in
      (
        h',
        h.top,
        ran,
        record {
          rep = b'.rep;
          index = λ j. ground (
            arith,
            lookup-put dec k j h.top m,
            find-append dec h'.key j ps h.top,
            old j,
            mine,
            b.absent,
            b.index j,
          );
          distinct =
              DistinctKeys-append dec h'.key ps h.top
                (DistinctKeys-same dec h.key h'.key ps same b.distinct)
                (rw mine (old k ∙ b.absent));
          fits = omega (arith, length-append ps (h.top ∷ []));
        },
        b'.holds,
      )

  -- With room for at least one entry, `Set` never panics and implements the specification: the old
  -- entry of the key is dropped, else the least recently used entry if the cache is full, and the
  -- new entry becomes the most recent. The invariant holds afterwards.
  pub set-refines :
      (v : V) (h : Heap K V) (c : Cache K) (ps : List Ptr)
      → IsCache dec h c ps
      → 0 < c.capacity
      → (h' : Heap K V) × (c' : Cache K) × (qs : List Ptr) × (set dec c k v h ≡ ok c' h')
        × IsCache dec h' c' qs
        × (entries h' qs ≡ stored dec c.capacity k v (entries h ps))
        × (c'.capacity ≡ c.capacity)
        × (c'.lru_list ≡ c.lru_list)
  unfolding set stored size
  set-refines v h c ps i pos =
      let (h1, ps1, ran1, b1, e1, fits1) = drop_old-Between h c ps i in
      let (h2, ps2, m, ran2, b2, e2, fits2) = room-Between h1 c ps1 b1 pos fits1 in
      let (h3, p, ran3, i3, e3) = stored-IsCache h2 c m v ps2 b2 fits2 in
      (
        h3,
        record c { cache = put dec k p m },
        ps2 ++ p ∷ [],
        rw (ran1, size_lem b1.rep, ran2, ran3),
        i3,
        e3 ∙ rw (e2, e1),
        refl,
        refl,
      )
