-- ===== src/LruCache/Trace.antt =====
-- Any sequence of calls of the exported methods of lru_cache.go, against the entries of Spec.
use wb_l.LruList.Fresh.{entries}
use wb_l.Base.Lists.{length, length-map}
use wb_l.LruCache.Store.{set-refines}
use wb_l.LruCache.Refine.{IsCache, get-refines}
use wb_l.LruCache.Flush.{IsRange, flush-IsCache}
use wb_l.LruCache.Drop.{
  delete_key-hit, cache_size_lem, cache_empty_lem, contains_lem, delete_key-miss,
}
use wb_l.Base.{
  ap, ◌≡◌, inl, ◌==◌, List, Option, refl, inr, ◌∙◌, Bool, is_some, ℕ, arith, some, ◌<◌, ◌∷◌, ◌≤◌,
  none, [], Option-cases, if◌then◌else◌,
}
use wb_l.Base.Dict.{lookup}
use wb_l.LruCache.{
  cache_empty, cache_size, flush, contains, delete_key, no_such_key, set, Cache, get, CacheError,
}
use wb_l.LruCache.Spec.{without, touched, stored}
use wb_l.LruList.{Heap, Ptr, Cmd, ◌>>=◌, pure, ok}

pub data CacheCall {ℓ} (K V : Type ℓ) : Type ℓ where
  sets : K → V → CacheCall K V
  gets : K → CacheCall K V
  deletes : K → CacheCall K V
  asks : K → CacheCall K V
  flushes sizes empties : CacheCall K V

pub data CacheReply {ℓ} (K V : Type ℓ) : Type ℓ where
  done : CacheReply K V
  found : Option V → CacheReply K V
  deleted : Option (CacheError K) → CacheReply K V
  counted : ℕ → CacheReply K V
  told : Bool → CacheReply K V

module _ {ℓ} {K V : Type ℓ} (dec : Discrete K) where
  module _ (walk : List (K × Ptr) → List (K × Ptr)) where
    unfoldable pub perform : Cache K → CacheCall K V → Cmd K V (Cache K × CacheReply K V)
    perform c (sets k v) = do c' ← set dec c k v; pure (c', done)
    perform c (gets k) = do o ← get dec c k; pure (c, found o)
    perform c (deletes k) = do r ← delete_key dec c k; pure (r.0, deleted r.1)
    perform c (asks k) = pure (c, told (contains dec c k))
    perform c flushes = do c' ← flush c (walk c.cache); pure (c', done)
    perform c sizes = do n ← cache_size c; pure (c, counted n)
    perform c empties = do b ← cache_empty c; pure (c, told b)

    unfoldable pub perform_all :
        Cache K → List (CacheCall K V) → Cmd K V (Cache K × List (CacheReply K V))
    unfolding perform
    perform_all c [] = pure (c, [])
    perform_all c (call ∷ calls) = do
      p ← perform c call
      q ← perform_all p.0 calls
      pure (q.0, p.1 ∷ q.1)

  -- The same calls on the entries alone.
  unfoldable pub specified : ℕ → List (K × V) → CacheCall K V → List (K × V) × CacheReply K V
  specified cap es (sets k v) = (stored dec cap k v es, done)
  specified cap es (gets k) = (touched dec k es, found (lookup dec k es))
  specified cap es (deletes k) =
      (without dec k es, deleted (if is_some (lookup dec k es) then none else some (no_such_key k)))
  specified cap es (asks k) = (es, told (is_some (lookup dec k es)))
  specified cap es flushes = ([], done)
  specified cap es sizes = (es, counted (length es))
  specified cap es empties = (es, told (length es == 0))

  unfoldable pub specified_all :
      ℕ → List (K × V) → List (CacheCall K V) → List (K × V) × List (CacheReply K V)
  unfolding specified
  specified_all cap es [] = (es, [])
  specified_all cap es (call ∷ calls) =
      let (es', reply) = specified cap es call in
      let (es'', replies) = specified_all cap es' calls in (es'', reply ∷ replies)

  -- A memory and a cache that implement the entries.
  pub record Implements (h : Heap K V) (c : Cache K) (cap : ℕ) (es : List (K × V)) : Type ℓ where
    pub nodes : List Ptr
    pub cache : IsCache dec h c nodes
    pub held : entries h nodes ≡ es
    pub room : 0 < cap
    pub same_capacity : c.capacity ≡ cap

  without_absent_key : (k : K) (es : List (K × V)) → lookup dec k es ≡ none → without dec k es ≡ es
  unfolding lookup without
  without_absent_key k [] e = refl
  without_absent_key k ((j, v) ∷ es) e = ground (arith, without_absent_key k es)

  module _ (walk : List (K × Ptr) → List (K × Ptr))
      (range : (m : List (K × Ptr)) → IsRange dec m (walk m)) where
    perform-Implements :
        (h : Heap K V) (c : Cache K) (cap : ℕ) (es : List (K × V)) (call : CacheCall K V)
        → Implements h c cap es
        → (h' : Heap K V) × (c' : Cache K) × (perform walk c call h
            ≡ ok (c', (specified cap es call).1) h')
          × Implements h' c' cap (specified cap es call).0
    unfolding perform specified
    perform-Implements h c cap es (sets k v) i =
        let (h', c', qs, ran, i', held, kept, list) =
          set-refines dec k v h c i.nodes i.cache (rw i.same_capacity i.room) in
        (
          h',
          c',
          rw ran,
          record {
            nodes = qs;
            cache = i';
            held = rw (i.held, i.same_capacity) at held;
            room = i.room;
            same_capacity = kept ∙ i.same_capacity;
          },
        )
    perform-Implements h c cap es (gets k) i =
        let (h', qs, ran, i', held) = get-refines dec h c k i.nodes i.cache in
        (
          h',
          c,
          rw (ran, i.held),
          record {
            nodes = qs;
            cache = i';
            held = rw (i.held) at held;
            room = i.room;
            same_capacity = i.same_capacity;
          },
        )
    perform-Implements h c cap es (deletes k) i = elim (Option-cases (lookup dec k es)) [
      | inl miss ↦
          let out : lookup dec k (entries h i.nodes) ≡ none = rw i.held miss in
          (h, c, rw (delete_key-miss dec i.cache k out, miss), rw (without_absent_key k es miss) i)
      | inr (v, hit) ↦
          let inside : lookup dec k (entries h i.nodes) ≡ some v = rw i.held hit in
          let (h', c', qs, ran, i', held, kept) = delete_key-hit dec i.cache k v inside in
          (
            h',
            c',
            rw (ran, hit),
            record {
              nodes = qs;
              cache = i';
              held = rw (i.held) at held;
              room = i.room;
              same_capacity = kept ∙ i.same_capacity;
            },
          )
    ]
    perform-Implements h c cap es (asks k) i = (h, c, rw (contains_lem dec i.cache k, i.held), i)
    perform-Implements h c cap es flushes i =
        let (h', ran, i') = flush-IsCache dec i.cache (walk c.cache) (range c.cache) in
        (
          h',
          record c { cache = [] },
          rw ran,
          record {
            nodes = [];
            cache = i';
            held = refl;
            room = i.room;
            same_capacity = i.same_capacity;
          },
        )
    perform-Implements h c cap es sizes i = (h, c, rw (cache_size_lem dec i.cache, i.held), i)
    perform-Implements h c cap es empties i = (h, c, rw (cache_empty_lem dec i.cache, i.held), i)

    -- Any sequence of calls of the methods of a cache with room for an entry never panics and
    -- gives the replies of the specification, which keeps the entries in the order of their last
    -- use and at most as many as the capacity.
    pub perform_all-specified_all :
        (h : Heap K V) (c : Cache K) (cap : ℕ) (es : List (K × V)) (calls : List (CacheCall K V))
        → Implements h c cap es
        → (h' : Heap K V) × (c' : Cache K) × (perform_all walk c calls h
            ≡ ok (c', (specified_all cap es calls).1) h')
          × Implements h' c' cap (specified_all cap es calls).0
          × (length (specified_all cap es calls).0 ≤ cap)
    unfolding perform_all specified_all
    perform_all-specified_all h c cap es [] i = (
      h,
      c,
      refl,
      i,
      omega (
        arith,
        length-map {B = K × V} (λ p. (h.key p, h.value p)) i.nodes,
        ap length i.held,
        i.cache.fits,
        i.same_capacity,
      ),
    )
    perform_all-specified_all h c cap es (call ∷ calls) i =
        let (h1, c1, ran1, i1) = perform-Implements h c cap es call i in
        let (h2, c2, ran2, i2, fits) = perform_all-specified_all h1 c1 cap _ calls i1 in
        (h2, c2, rw (ran1, ran2), i2, fits)
