-- ===== src/Config/Capacity.antt =====
-- The cache that cmd/order_service/main.go makes from a configuration that was validated.
use wb_l.LruCache.Drop.{new_cache-IsCache}
use wb_l.LruList.Fresh.{IsFresh}
use wb_l.Manager.Lru.{IsLru}
use wb_l.Config.{config_validate, Config}
use wb_l.LruList.{ok, Heap}
use wb_l.Base.Text.{text_dec, Text}
use wb_l.Models.{Order}
use wb_l.Base.{none, inl, ℕ, inr, arith, ◌≡◌, [], true, ◌<◌, refl, Bool-cases}
use wb_l.Base.Int.{ltb_ℤ, ℤ, pos, negsuc}
use wb_l.LruCache.{Cache, new_cache, made}

valid_capacity : (c : Config) → config_validate c ≡ none → ltb_ℤ (pos 0) c.cache.capacity ≡ true
unfolding config_validate
valid_capacity c valid = elim (Bool-cases (ltb_ℤ (pos 0) c.cache.capacity)) [
  | inl good ↦ good
  | inr bad ↦ absurd (ground arith)
]

capacity_number : (a : ℤ) → ltb_ℤ (pos 0) a ≡ true → (n : ℕ) × (a ≡ pos n) × 0 < n
capacity_number (pos n) h = (n, refl, ground arith)
capacity_number (negsuc n) h = absurd (ground arith)

-- From a configuration that `Validate` accepts, `NewLRUCache` makes an empty cache of its capacity
-- that has room for an entry and satisfies the invariant that the results on the manager ask for.
pub config_validate-IsLru :
    (c : Config) (h : Heap Text Order)
    → config_validate c ≡ none
    → IsFresh h
    → (h' : Heap Text Order) × (l : Cache Text) × (new_cache c.cache.capacity h ≡ ok (made l) h')
      × IsLru (l, h') []
      × (pos l.capacity ≡ c.cache.capacity)
config_validate-IsLru c h valid f =
    let (n, is, room) = capacity_number c.cache.capacity (valid_capacity c valid) in
    let (h', l, ran, i, cap) = new_cache-IsCache text_dec n h f in
    (
      h',
      l,
      rw is ran,
      record { nodes = []; cache = i; held = refl; room = rw cap room },
      rw (is, cap),
    )
