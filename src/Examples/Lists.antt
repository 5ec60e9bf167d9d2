-- ===== src/Examples/Lists.antt =====
-- The theorems on lru_list.go at the list of two nodes.
use wb_l.LruList.Fresh.{entries}
use wb_l.LruList.{nil, update, ok, Heap}
use wb_l.LruList.Code.{push_front}
use wb_l.LruList.Race.{pop_between, push_front_with, push_front_with-pop}
use wb_l.Base.{◌∷◌, [], ◌≡◌, ℕ}
use wb_l.LruList.Rep.{Rep}
use wb_l.LruList.Methods.{Becomes}
use wb_l.LruList.Moves.{push_front-Becomes}
use wb_l.Examples.Memory.{two_nodes, two_nodes-Rep}

push_front-Becomes_example :
    (h' : Heap ℕ ℕ) × (push_front 1 30 300 two_nodes ≡ ok 4 h')
    × Becomes two_nodes h' 1 (2 ∷ 3 ∷ 4 ∷ []) ((10, 100) ∷ (20, 200) ∷ (30, 300) ∷ [])
    × (h'.key ≡ update two_nodes.key 4 30)
    × (h'.value ≡ update two_nodes.value 4 300)
push_front-Becomes_example = push_front-Becomes two_nodes-Rep 30 300

push_front_with-pop_example :
    (h' : Heap ℕ ℕ) × (push_front_with (pop_between 1) 1 30 300 two_nodes ≡ ok nil h')
    × Rep h' 1 (2 ∷ [])
    × (entries h' (2 ∷ []) ≡ entries two_nodes (2 ∷ []))
push_front_with-pop_example = push_front_with-pop 30 300 two_nodes 1 3 (2 ∷ []) two_nodes-Rep
