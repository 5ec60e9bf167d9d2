-- ===== src/Manager/Laws.antt =====
-- What the manager relies on in its cache: the entries that a cache state holds, the least recently used
-- first, and what the methods do to them.
use wb_l.Base.Lists.{length}
use wb_l.Base.Text.{text_dec, Text}
use wb_l.Models.{Order}
use wb_l.LruCache.Client.{DistinctEntries}
use wb_l.Manager.{CacheMethods}
use wb_l.Base.{not, Option, ◌≡◌, ◌==◌, is_some, [], some, List}
use wb_l.Base.Dict.{lookup}
use wb_l.LruCache.Spec.{without, touched, stored}

pub record CacheLaws {S D : Type 0} (cache : CacheMethods S D)
    (Holds : S → List (Text × Order) → Type 0) : Type 0 where
  pub distinct : (s : S) (es : List (Text × Order)) → Holds s es → DistinctEntries text_dec es
  pub set_law :
      (s : S) (es : List (Text × Order)) (uid : Text) (order : Order)
      → Holds s es
      → (s' : S) × (cache.set uid order s ≡ some s')
        × Holds s' (stored text_dec (cache.capacity s) uid order es)
        × (cache.capacity s' ≡ cache.capacity s)
  pub get_law :
      (s : S) (es : List (Text × Order)) (uid : Text)
      → Holds s es
      → (s' : S) × (cache.get uid s ≡ some (lookup text_dec uid es, s'))
        × Holds s' (touched text_dec uid es)
        × (cache.capacity s' ≡ cache.capacity s)
  pub delete_law :
      (s : S) (es : List (Text × Order)) (uid : Text)
      → Holds s es
      → (e : Option D) × (s' : S) × (cache.delete uid s ≡ some (e, s'))
        × Holds s' (without text_dec uid es)
        × (is_some e ≡ not (is_some (lookup text_dec uid es)))
  pub contains_law :
      (s : S) (es : List (Text × Order)) (uid : Text)
      → Holds s es
      → cache.contains uid s ≡ is_some (lookup text_dec uid es)
  pub flush_law :
      (s : S) (es : List (Text × Order))
      → Holds s es
      → (s' : S) × (cache.flush s ≡ some s') × Holds s' []
  pub size_law : (s : S) (es : List (Text × Order)) → Holds s es → cache.size s ≡ some (length es)
  pub empty_law :
      (s : S) (es : List (Text × Order)) → Holds s es → cache.empty s ≡ some (length es == 0)
