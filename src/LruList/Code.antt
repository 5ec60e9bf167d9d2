-- ===== src/LruList/Code.antt =====
-- The methods of the nodes and of the list of internal/cache/lru_cache/list/lru_list.go, over
-- the memory of LruList.
use wb_l.LruList.{
  root_error, error_of, not_in_list_error, pointer_of, list_elem_error, nil, pure, store_value,
  store_len, store_key, store_list, store_prev, store_next, load_list, load_len, alloc, load_prev,
  load_next, ListError, Result, Ptr, Cmd,
}
use wb_l.Base.{ℕ, ◌+◌, ◌-◌, Bool, not, ◌||◌, Option, some, ◌==◌, if◌then◌else◌}
use wb_l.LruList.{◌>>=◌, ◌>>◌, success, failure}

module _ {ℓ} {K V : Type ℓ} where
  -- `node.Next()` and `node.Prev()`: nil at the ring's end. `&node.list.Load().root` is the list's
  -- own address.
  unfoldable pub node_next : Ptr → Cmd K V Ptr
  unfolding load_next load_list
  node_next node = do
    n ← load_next node
    l ← load_list node
    pure (if not (l == nil) then (if not (n == l) then n else nil) else nil)

  unfoldable pub node_prev : Ptr → Cmd K V Ptr
  unfolding load_prev load_list
  node_prev node = do
    p ← load_prev node
    l ← load_list node
    pure (if not (l == nil) then (if not (p == l) then p else nil) else nil)

  unfoldable pub new_node : K → V → (list next prev : Ptr) → Cmd K V Ptr
  unfolding alloc store_next store_prev store_list store_key store_value
  new_node key value list next prev = do
    node ← alloc
    store_next node next
    store_prev node prev
    store_list node list
    store_key node key
    store_value node value
    pure node

  unfoldable pub new_list : Cmd K V Ptr
  unfolding alloc store_next store_prev store_list store_len
  new_list = do l ← alloc; store_len l 0; store_next l l; store_prev l l; store_list l l; pure l

  unfoldable pub front : Ptr → Cmd K V Ptr
  unfolding node_prev
  front l = node_prev l

  unfoldable pub back : Ptr → Cmd K V Ptr
  unfolding node_next
  back l = node_next l

  unfoldable pub size : Ptr → Cmd K V ℕ
  unfolding load_len
  size l = load_len l

  unfoldable pub empty : Ptr → Cmd K V Bool
  unfolding load_len
  empty l = do n ← load_len l; pure (n == 0)

  -- The private `insert`: links a free node behind `here`, towards the front.
  unfoldable pub insert : Ptr → (node here : Ptr) → Cmd K V (Result Ptr)
  unfolding load_next load_prev load_list store_next store_prev store_list load_len store_len
  insert l node here = do
    in_list ← load_list node
    has_next ← load_next node
    has_prev ← load_prev node
    if not (in_list == nil) || not (has_next == nil) || not (has_prev == nil)
        then pure (failure list_elem_error)
        else do
          owner ← load_list here
          if not (owner == l) then pure (failure not_in_list_error) else do
            store_list node l
            next ← load_next here
            store_next here node
            store_prev node here
            store_next node next
            store_prev next node
            n ← load_len l
            store_len l (n + 1)
            pure (success node)

  unfoldable pub insert_after : Ptr → K → V → Ptr → Cmd K V (Result Ptr)
  unfolding new_node insert
  insert_after l key value here = do node ← new_node key value nil nil nil; insert l node here

  unfoldable pub push_front_node : Ptr → Ptr → Cmd K V (Result Ptr)
  unfolding load_prev insert
  push_front_node l node = do here ← load_prev l; insert l node here

  unfoldable pub push_back_node : Ptr → Ptr → Cmd K V (Result Ptr)
  unfolding insert
  push_back_node l node = insert l node l

  unfoldable pub push_front : Ptr → K → V → Cmd K V Ptr
  unfolding new_node push_front_node
  push_front l key value = do
    node ← new_node key value nil nil nil
    r ← push_front_node l node
    pure (pointer_of r)

  unfoldable pub push_back : Ptr → K → V → Cmd K V Ptr
  unfolding new_node push_back_node
  push_back l key value = do
    node ← new_node key value nil nil nil
    r ← push_back_node l node
    pure (pointer_of r)

  -- A list with a node in it has a positive length, so that `l.len -= 1` is the subtraction of ℕ.
  unfoldable pub remove : Ptr → Ptr → Cmd K V (Result Ptr)
  unfolding load_next load_prev load_list store_next store_prev store_list load_len store_len
  remove l here = do
    owner ← load_list here
    if not (owner == l)
        then pure (failure not_in_list_error)
        else if here == l
        then pure (failure root_error)
        else do
          p ← load_prev here
          n ← load_next here
          store_next p n
          n' ← load_next here
          p' ← load_prev here
          store_prev n' p'
          store_next here nil
          store_prev here nil
          store_list here nil
          k ← load_len l
          store_len l (k - 1)
          pure (success here)

  abbrev pub then_push : (Ptr → Cmd K V (Result Ptr)) → Result Ptr → Cmd K V (Option ListError)
  then_push push (success node) = do r ← push node; pure (error_of r)
  then_push push (failure e) = pure (some e)

  unfoldable pub move_to_front : Ptr → Ptr → Cmd K V (Option ListError)
  unfolding remove push_front_node
  move_to_front l here = do r ← remove l here; then_push (push_front_node l) r

  unfoldable pub move_to_back : Ptr → Ptr → Cmd K V (Option ListError)
  unfolding remove push_back_node
  move_to_back l here = do r ← remove l here; then_push (push_back_node l) r

  unfoldable pub pop_front : Ptr → Cmd K V (Result Ptr)
  unfolding front remove
  pop_front l = do p ← front l; remove l p

  unfoldable pub pop_back : Ptr → Cmd K V (Result Ptr)
  unfolding back remove
  pop_back l = do p ← back l; remove l p
