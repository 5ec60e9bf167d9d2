-- ===== src/LruList.antt =====
-- internal/cache/lru_cache/list/lru_list.go: a doubly linked ring with a sentinel, over an explicit
-- heap. A pointer is a number and `nil` is 0. The heap is one map for each field of
-- `LRUListNode`, so `h.next p` is `p.next` in the memory `h`. A list is known by its address, which is
-- also the address of its first field `root`; `h.len l` is its field `len`. Memory is only
-- allocated, from `h.top` upwards, as Go frees nothing that is reachable. Each method is one
-- critical section of its mutex, as in the source, but for `pushFront` (see Race).
pub mod Code
pub mod Ring
pub mod Nodes
pub mod Rep
pub mod Ops
pub mod Fresh
pub mod Methods
pub mod Moves
pub mod Race
use wb_l.Base.{ℕ, ◌+◌, ◌-◌, Bool, not, ◌||◌, Option, none, some, ◌==◌, if◌then◌else◌}

abbrev pub Ptr : Type 0
Ptr = ℕ

abbrev pub nil : Ptr
nil = 0

pub record Heap {ℓ} (K V : Type ℓ) : Type ℓ where
  pub next : Ptr → Ptr
  pub prev : Ptr → Ptr
  pub list : Ptr → Ptr
  pub key : Ptr → K
  pub value : Ptr → V
  pub len : Ptr → ℕ
  pub top : Ptr

-- A run ends in a value and the memory, or in a run-time panic (a nil pointer is dereferenced).
pub data Run {ℓ κ} (K V : Type ℓ) (A : Type κ) : Type (ℓ ⊔ κ) where
  ok : A → Heap K V → Run K V A
  panic : Run K V A

-- The three errors of the package, and the `(value, error)` pairs of its methods.
pub data ListError : Type 0 where
  root_error not_in_list_error list_elem_error : ListError

pub data Result {κ} (A : Type κ) : Type κ where
  success : A → Result A
  failure : ListError → Result A

-- A store into one field of one address.
abbrev pub update {ℓ} : {A : Type ℓ} → (Ptr → A) → Ptr → A → Ptr → A
update f p v q = if p == q then v else f q

abbrev pub Cmd {ℓ κ} : (K V : Type ℓ) → Type κ → Type (ℓ ⊔ κ)
Cmd K V A = Heap K V → Run K V A

-- `n, _ := …; return n`: the error is dropped, and the pointer is nil then.
abbrev pub pointer_of : Result Ptr → Ptr
pointer_of (success p) = p
pointer_of (failure e) = nil

-- `_, err = …; return err`
abbrev pub error_of : Result Ptr → Option ListError
error_of (success p) = none
error_of (failure e) = some e

module _ {ℓ} {K V : Type ℓ} where
  abbrev pub pure {κ} : {A : Type κ} → A → Cmd K V A
  pure a h = ok a h

  abbrev pub and_then {κ μ} : {A : Type κ} {B : Type μ} → Run K V A → (A → Cmd K V B) → Run K V B
  and_then (ok a h) k = k a h
  and_then panic k = panic

  infixl 5 ◌>>=◌ ◌>>◌
  abbrev pub ◌>>=◌ {κ μ} : {A : Type κ} {B : Type μ} → Cmd K V A → (A → Cmd K V B) → Cmd K V B
  m >>= k = λ h. and_then (m h) k

  abbrev pub ◌>>◌ {κ μ} : {A : Type κ} {B : Type μ} → Cmd K V A → Cmd K V B → Cmd K V B
  m >> n = m >>= λ _. n

  -- A field is read or written through a pointer, and a nil pointer panics.
  abbrev pub at {κ} : {A : Type κ} → Ptr → Cmd K V A → Cmd K V A
  at p m h = if p == nil then panic else m h

  pub load_next : Ptr → Cmd K V Ptr
  load_next p = at p λ h. ok (h.next p) h

  pub load_prev : Ptr → Cmd K V Ptr
  load_prev p = at p λ h. ok (h.prev p) h

  pub load_list : Ptr → Cmd K V Ptr
  load_list p = at p λ h. ok (h.list p) h

  unfoldable pub load_key : Ptr → Cmd K V K
  load_key p = at p λ h. ok (h.key p) h

  unfoldable pub load_value : Ptr → Cmd K V V
  load_value p = at p λ h. ok (h.value p) h

  pub store_next : Ptr → Ptr → Cmd K V (Unit {0})
  store_next p q = at p λ h. ok tt (record h { next = update h.next p q })

  pub store_prev : Ptr → Ptr → Cmd K V (Unit {0})
  store_prev p q = at p λ h. ok tt (record h { prev = update h.prev p q })

  pub store_list : Ptr → Ptr → Cmd K V (Unit {0})
  store_list p l = at p λ h. ok tt (record h { list = update h.list p l })

  pub store_key : Ptr → K → Cmd K V (Unit {0})
  store_key p k = at p λ h. ok tt (record h { key = update h.key p k })

  pub store_value : Ptr → V → Cmd K V (Unit {0})
  store_value p v = at p λ h. ok tt (record h { value = update h.value p v })

  pub load_len : Ptr → Cmd K V ℕ
  load_len l = at l λ h. ok (h.len l) h

  pub store_len : Ptr → ℕ → Cmd K V (Unit {0})
  store_len l n = at l λ h. ok tt (record h { len = update h.len l n })

  -- `&T{}`: the next address.
  pub alloc : Cmd K V Ptr
  alloc h = ok h.top (record h { top = h.top + 1 })
