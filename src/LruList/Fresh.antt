-- ===== src/LruList/Fresh.antt =====
-- `NewLRUListNode` and `NewLRUList`: allocation of a free node and of an empty list.
use wb_l.Base.{◌≡◌, refl, false, true, ◌+◌, ◌<◌, ◌==◌, List, [], ◌∷◌, arith, map}
use wb_l.LruList.{Ptr, nil, Heap, ok, update}
use wb_l.LruList.Code.{new_node, new_list}
use wb_l.LruList.Ring.{has, Seg-frame, has-append}
use wb_l.LruList.Rep.{Rep, IsFree}

module _ {ℓ} {K V : Type ℓ} where
  -- The pairs that the nodes hold, in their order.
  abbrev pub entries : Heap K V → List Ptr → List (K × V)
  entries h = map (λ p. (h.key p, h.value p))

  -- The memory after `NewLRUListNode(key, value, nil, nil, nil)`.
  abbrev pub created : K → V → Heap K V → Heap K V
  created key value h = record h {
    next = update h.next h.top nil;
    prev = update h.prev h.top nil;
    list = update h.list h.top nil;
    key = update h.key h.top key;
    value = update h.value h.top value;
    top = h.top + 1;
  }

  -- The memory after `NewLRUList()`.
  abbrev pub listed : Heap K V → Heap K V
  listed h = record h {
    next = update h.next h.top h.top;
    prev = update h.prev h.top h.top;
    list = update h.list h.top h.top;
    len = update h.len h.top 0;
    top = h.top + 1;
  }

  -- Two memories agree on what the nodes `ps` hold.
  pub entries-eq :
      (h h' : Heap K V) (ps : List Ptr)
      → ((p : Ptr) → has p ps ≡ true → (h'.key p ≡ h.key p) × (h'.value p ≡ h.value p))
      → entries h' ps ≡ entries h ps
  entries-eq h h' [] same = refl
  entries-eq h h' (p ∷ ps) same =
      ground (arith, same p, entries-eq h h' ps (λ q i. same q (ground arith)))

  pub new_node-created :
      (key : K) (value : V) (h : Heap K V)
      → nil < h.top
      → new_node key value nil nil nil h ≡ ok h.top (created key value h)
  unfolding new_node
  new_node-created key value h pos = let live : (h.top == nil) ≡ false = ground arith in simp live

  pub created-IsFree :
      (key : K) (value : V) (h : Heap K V) → nil < h.top → IsFree (created key value h) h.top
  created-IsFree key value h pos = record {
    ne_nil = ground arith;
    list = ground arith;
    next = ground arith;
    prev = ground arith;
    old = ground arith;
  }

  module _ {h : Heap K V} {l : Ptr} {ps : List Ptr} (r : Rep h l ps) where
    pub top-pos : nil < h.top
    top-pos = ground (arith, r.old l)

    pub top-new : has h.top (l ∷ ps) ≡ false
    top-new = ground (arith, r.old h.top)

    pub created-Rep : (key : K) (value : V) → Rep (created key value h) l ps
    created-Rep key value = record {
      ring =
          Seg-frame h.next h.prev (update h.next h.top nil) (update h.prev h.top nil) l ps l
            (λ p i. ground (arith, top-new))
            (λ p i. ground (arith, top-new, has-append p ps (l ∷ []))) r.ring;
      distinct = r.distinct;
      owned = λ p. ground (arith, r.owned p, top-new, r.no_nil);
      len = r.len;
      no_nil = r.no_nil;
      old = λ p i. ground (arith, r.old p);
    }

    pub listed-Rep_other : Rep (listed h) l ps
    listed-Rep_other = record {
      ring =
          Seg-frame h.next h.prev (update h.next h.top h.top) (update h.prev h.top h.top) l ps l
            (λ p i. ground (arith, top-new))
            (λ p i. ground (arith, top-new, has-append p ps (l ∷ []))) r.ring;
      distinct = r.distinct;
      owned = λ p. ground (arith, r.owned p, top-new);
      len = ground (arith, r.len, top-new);
      no_nil = r.no_nil;
      old = λ p i. ground (arith, r.old p);
    }

    pub entries-created : (key : K) (value : V) → entries (created key value h) ps ≡ entries h ps
    entries-created key value =
        entries-eq h (created key value h) ps (λ p i. ground (arith, top-new))

  -- Fresh memory: nothing at or above `top` says that it belongs to a list, and `nil` is not a node.
  pub record IsFresh (h : Heap K V) : Type 0 where
    pub pos : nil < h.top
    pub unused : (p : Ptr) → h.list p < h.top

  pub new_list-listed : (h : Heap K V) → IsFresh h → new_list h ≡ ok h.top (listed h)
  unfolding new_list
  new_list-listed h f = let live : (h.top == nil) ≡ false = ground (arith, f.pos) in simp live

  pub listed-Rep : (h : Heap K V) → IsFresh h → Rep (listed h) h.top []
  listed-Rep h f = record {
    ring = ground arith;
    distinct = ground arith;
    owned = λ p. ground (arith, f.unused p);
    len = ground arith;
    no_nil = ground (arith, f.pos);
    old = λ p i. ground arith;
  }
