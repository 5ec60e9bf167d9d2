-- ===== src/LruCache/Client.antt =====
-- What a client of the cache of lru_cache.go reads after a store: the entry of a key among those
-- of Spec, and `Get` after `Set`.
use wb_l.LruList.Fresh.{entries}
use wb_l.LruCache.Find.{find, DistinctKeys}
use wb_l.LruList.{ok, Heap, Ptr, ◌>>=◌}
use wb_l.LruCache.Store.{set-refines}
use wb_l.LruCache.{get, set, Cache}
use wb_l.LruCache.Refine.{get-refines, lookup-entries, IsCache}
use wb_l.Base.Lists.{length}
use wb_l.Base.{
  ◌<◌, inl, ◌∙◌, inr, Bool-cases, ◌==◌, ◌≢◌, none, ◌≡◌, Option, some, ℕ, ◌++◌, is_some, refl, List,
  arith, [], false, ◌∷◌, if◌then◌else◌,
}
use mathlib.Core.Option
use mathlib.Core.Option.{none-ne-some}
use mathlib.Core.Logic.{ite, if_pos, if_neg}
use mathlib.Core.List.{tail}
use wb_l.Base.Dict.{lookup}
use wb_l.LruCache.Spec.{stored, without}

if_self {ℓ} :
    {A : Type ℓ} (o : Option A) {d : Option A} → d ≡ none → (if is_some o then o else d) ≡ o
if_self none e = e
if_self (some a) e = refl

is_some-map {ℓ κ} :
    {A : Type ℓ} {B : Type κ} (f : A → B) (o : Option A)
    → is_some o ≡ false
    → is_some (Option.map f o) ≡ false
is_some-map f none e = refl
is_some-map f (some a) e = cc

module _ {ℓ} {K V : Type ℓ} (dec : Discrete K) where
  abbrev pub DistinctEntries : List (K × V) → Type 0
  DistinctEntries [] = Unit
  DistinctEntries ((k, _) ∷ es) = (is_some (lookup dec k es) ≡ false) × DistinctEntries es

  unfoldable head_key : List (K × V) → Option K
  head_key [] = none
  head_key ((k, _) ∷ es) = some k

  -- The key that a store of `k` drops: the least recent of a full cache without `k`.
  unfoldable pub victim : ℕ → K → List (K × V) → Option K
  unfolding head_key
  victim cap k es =
      let rest = without dec k es in if length rest == cap then head_key rest else none

  lookup-append :
      (j : K) (es : List (K × V)) (k : K) (v : V)
      → lookup dec j (es ++ (k, v) ∷ [])
        ≡ (if is_some (lookup dec j es) then lookup dec j es else ite (dec k j) (some v) none)
  unfolding lookup
  lookup-append j [] k v = refl
  lookup-append j ((i, w) ∷ es) k v = ground (arith, lookup-append j es k v)

  pub lookup-without :
      (j k : K) (es : List (K × V))
      → DistinctEntries es
      → lookup dec j (without dec k es) ≡ ite (dec k j) none (lookup dec j es)
  unfolding lookup without
  lookup-without j k [] d = ground arith
  lookup-without j k ((i, w) ∷ es) d = ground (arith, lookup-without j k es d.1)

  without-Distinct :
      (k : K) (es : List (K × V)) → DistinctEntries es → DistinctEntries (without dec k es)
  unfolding lookup without
  without-Distinct k [] d = tt
  without-Distinct k ((i, w) ∷ es) d =
      ground (arith, without-Distinct k es d.1, lookup-without i k es d.1)

  lookup-tail :
      (j : K) (es : List (K × V))
      → DistinctEntries es
      → head_key es ≢ some j
      → lookup dec j (tail es) ≡ lookup dec j es
  unfolding lookup head_key
  lookup-tail j [] d e = refl
  lookup-tail j ((i, w) ∷ es) d e = ground arith

  lookup-tail-none :
      (j : K) (es : List (K × V)) → lookup dec j es ≡ none → lookup dec j (tail es) ≡ none
  unfolding lookup
  lookup-tail-none j [] e = e
  lookup-tail-none j ((i, w) ∷ es) e = ground arith

  lookup-tail_head :
      (j : K) (es : List (K × V))
      → DistinctEntries es
      → head_key es ≡ some j
      → lookup dec j (tail es) ≡ none
  unfolding lookup head_key
  lookup-tail_head j [] d e = cc
  lookup-tail_head j ((i, w) ∷ es) d e = ground arith

  module _ (cap : ℕ) (k : K) (v : V) (es : List (K × V)) (d : DistinctEntries es) where
    kept : List (K × V)
    kept = let rest = without dec k es in if length rest == cap then tail rest else rest

    lookup-kept_self : lookup dec k kept ≡ none
    unfolding kept
    lookup-kept_self =
        let rest = without dec k es in
        let gone : lookup dec k rest ≡ none = lookup-without k k es d ∙ if_pos (dec k k) refl _ _ in
        elim (Bool-cases (length rest == cap)) [
          | inl full ↦ rw full (lookup-tail-none k rest gone)
          | inr fewer ↦ rw fewer gone
        ]

    lookup-kept_ne :
        (j : K) → k ≢ j → victim cap k es ≢ some j → lookup dec j kept ≡ lookup dec j es
    unfolding kept victim
    lookup-kept_ne j ne safe =
        let rest = without dec k es in
        let same : lookup dec j rest ≡ lookup dec j es =
          lookup-without j k es d ∙ if_neg (dec k j) ne _ _ in
        elim (Bool-cases (length rest == cap)) [
          | inl full ↦
              rw full (lookup-tail j rest (without-Distinct k es d) (λ e. safe (rw full e)) ∙ same)
          | inr fewer ↦ rw fewer same
        ]

    lookup-kept-victim : (j : K) → victim cap k es ≡ some j → lookup dec j kept ≡ none
    unfolding kept victim
    lookup-kept-victim j e =
        let rest = without dec k es in
        elim (Bool-cases (length rest == cap)) [
          | inl full ↦ rw full (lookup-tail_head j rest (without-Distinct k es d) (rw full at e))
          | inr fewer ↦ absurd (none-ne-some j (rw fewer at e))
        ]

    pub lookup-stored_self : lookup dec k (stored dec cap k v es) ≡ some v
    unfolding stored kept
    lookup-stored_self = lookup-append k kept k v ∙ rw lookup-kept_self (if_pos (dec k k) refl _ _)

    pub lookup-stored_ne :
        (j : K)
        → k ≢ j
        → victim cap k es ≢ some j
        → lookup dec j (stored dec cap k v es) ≡ lookup dec j es
    unfolding stored kept
    lookup-stored_ne j ne safe =
        lookup-append j kept k v
        ∙ rw (lookup-kept_ne j ne safe) (if_self (lookup dec j es) (if_neg (dec k j) ne _ _))

    pub lookup-stored-victim :
        (j : K) → k ≢ j → victim cap k es ≡ some j → lookup dec j (stored dec cap k v es) ≡ none
    unfolding stored kept
    lookup-stored-victim j ne e =
        lookup-append j kept k v ∙ rw (lookup-kept-victim j e) (if_neg (dec k j) ne _ _)

  -- No two nodes of the cache hold one key, so no two entries do.
  pub entries-Distinct :
      (h : Heap K V) (ps : List Ptr) → DistinctKeys dec h.key ps → DistinctEntries (entries h ps)
  entries-Distinct h [] d = tt
  entries-Distinct h (p ∷ ps) d = (
    rw (lookup-entries dec h (h.key p) ps) (is_some-map h.value (find dec h.key (h.key p) ps) d.0),
    entries-Distinct h ps d.1,
  )

  module _ {h : Heap K V} {c : Cache K} {ps : List Ptr} (i : IsCache dec h c ps)
      (pos : 0 < c.capacity) (k : K) (v : V) where
    -- A `Get` of the key right after its `Set`, in a cache with room for an entry, returns the
    -- stored value.
    pub get_after_set :
        (h' : Heap K V) × ((set dec c k v >>= λ c'. get dec c' k) h ≡ ok (some v) h')
    get_after_set =
        let (h', c', qs, ran, i', e, cap, list) = set-refines dec k v h c ps i pos in
        let (h'', qs', ran', i'', e') = get-refines dec h' c' k qs i' in
        let read : lookup dec k (entries h' qs) ≡ some v = rw (
          e,
          lookup-stored_self c.capacity k v (entries h ps) (entries-Distinct h ps i.distinct),
        ) in
        (h'', rw (ran, ran', read))

    -- After a `Set`, in a cache with room for an entry, a `Get` of another key that is not the
    -- evicted one returns what the cache held before.
    pub get_after_set_ne :
        (j : K)
        → k ≢ j
        → victim c.capacity k (entries h ps) ≢ some j
        → (h' : Heap K V) × ((set dec c k v >>= λ c'. get dec c' j) h
            ≡ ok (lookup dec j (entries h ps)) h')
    get_after_set_ne j ne safe =
        let (h', c', qs, ran, i', e, cap, list) = set-refines dec k v h c ps i pos in
        let (h'', qs', ran', i'', e') = get-refines dec h' c' j qs i' in
        let d = entries-Distinct h ps i.distinct in
        let same : lookup dec j (entries h' qs) ≡ lookup dec j (entries h ps) =
          rw e (lookup-stored_ne c.capacity k v (entries h ps) d j ne safe) in
        (h'', rw (ran, ran', same))

    -- After a `Set` of another key that evicts the least recently used key, a `Get` of the evicted
    -- key is a miss.
    pub get_after_set-victim :
        (j : K)
        → k ≢ j
        → victim c.capacity k (entries h ps) ≡ some j
        → (h' : Heap K V) × ((set dec c k v >>= λ c'. get dec c' j) h ≡ ok none h')
    get_after_set-victim j ne out =
        let (h', c', qs, ran, i', e, cap, list) = set-refines dec k v h c ps i pos in
        let (h'', qs', ran', i'', e') = get-refines dec h' c' j qs i' in
        let d = entries-Distinct h ps i.distinct in
        let gone : lookup dec j (entries h' qs) ≡ none =
          rw e (lookup-stored-victim c.capacity k v (entries h ps) d j ne out) in
        (h'', rw (ran, ran', gone))
