-- ===== src/Examples/Servers.antt =====
-- The theorems on internal/server for an order that was processed, and for one that is not in the cache.
use wb_l.Service.{dated}
use wb_l.Examples.Consumers.{some_message, reading}
use wb_l.Server.Paths.{process_message-RouteShows, MuxLaws, RouteShows}
use wb_l.Server.Routes.{order_handler, picked, not_picked, HttpRequest, Mux}
use wb_l.DeadLetters.{new_queue, Bytes}
use wb_l.Consumer.Processors.{process, Processing}
use wb_l.Database.Reads.{order_repo}
use wb_l.Server.Writer.{Call, fresh, send_header, call, write, write_header, calls}
use wb_l.Models.{Order}
use wb_l.Server.Uncached.{handle_get_order-order_repo}
use wb_l.Server.Orders.{asked}
use wb_l.Base.Dict.{lookup}
use wb_l.Base.Text.{is_blank, codes, Text}
use wb_l.Manager.Lru.{LruState, IsLru}
use wb_l.Breaker.{Execute, BreakerLaws}
use wb_l.Server.Answers.{json_type, handle_get_order-Replies, Replies}
use wb_l.Server.Middleware.{
  answered, timeout_text, deadline_exceeded, writes_on, serve, serve-deadline_exceeded,
}
use wb_l.Base.{
  Option, if◌then◌else◌, ◌++◌, refl, ℕ, ◌==◌, none, some, ◌⊎◌, List, ◌∷◌, ◌≡◌, suc, Bool, inr, zero,
  true, [], false,
}
use wb_l.Server.{
  order_json, error_json, health_json, write_json_response, is_not_found_error, handle_health,
  handle_get_order, Json, GetOrder, Encoded, Handled, encoded, not_encoded, returned,
}
use wb_l.Consumer.{process_message, ProcessError, Decoded, decoded}
use wb_l.Examples.Services.{quota_laws, quota, mascaras_order-IsValidOrder, bounded}
use wb_l.Examples.Orders.{mascaras_order, moment}
use wb_l.Examples.Managers.{repository, methods, laws, fresh_cache, fresh_cache-IsLru}
use wb_l.Examples.Databases.{Store, store, empty_store, refuse_laws}
use mathlib.Core.Option

-- Orders are encoded by their UID.
abbrev pub encode : Json → Encoded
encode (order_json o) = encoded o.order_uid
encode (error_json e) = encoded e.error
encode (health_json h) = not_encoded

abbrev pub text : ℕ → Text
text n = n ∷ []

abbrev pub is_sentinel : ℕ → Bool
is_sentinel n = n == 9

abbrev uid : Text
uid = mascaras_order.order_uid

abbrev uids : GetOrder ℕ ℕ
uids ctx u zero = none
uids ctx u (suc n) = some ((some mascaras_order, none), n)

handle_get_order-Replies_example :
    (cs : List Call) × (handle_get_order encode uids 1 (b' ' ∷ uid) 3 ≡ returned cs 2)
    × Replies encode 200 (order_json mascaras_order) cs
unfolding is_blank
handle_get_order-Replies_example =
    handle_get_order-Replies encode uids 1 (b' ' ∷ uid) 3 2 (some mascaras_order) none refl refl

abbrev pub decode_order : Bytes → Decoded
decode_order bytes = decoded mascaras_order

abbrev pub orders : Processing LruState ℕ ℕ
orders = record { clock = λ n. moment; breaker = 2; stores = (fresh_cache, 0) }

-- The rest of a text after a prefix.
abbrev after_prefix : Text → Text → Option Text
after_prefix [] s = some s
after_prefix (c ∷ p) [] = none
after_prefix (c ∷ p) (d ∷ s) = if c == d then after_prefix p s else none

abbrev pub path_mux : Mux
path_mux patterns r = elim (after_prefix (codes "/order/") r.path) [
  | none ↦ not_picked
  | some uid ↦ picked order_handler uid
]

pub path_mux-MuxLaws : MuxLaws path_mux
path_mux-MuxLaws = record { order_path = λ uid chars shown. refl }

abbrev pub nothing_sent : HttpRequest → List Call
nothing_sent r = []

process_message-RouteShows_example :
    (err : Option ProcessError) × (p' : Processing LruState ℕ ℕ) × (process_message decode_order
        (process text methods repository 0 quota bounded)
        bounded
        reading
        1
        some_message
        new_queue
        orders
      ≡ some (err, new_queue, p'))
    × (((e : Text) × (err ≡ some (wb_l.Consumer.not_processed e)))
        ⊎ ((err ≡ none)
            × RouteShows text is_sentinel decode_order encode laws repository 0 quota_laws bounded
                path_mux-MuxLaws nothing_sent nothing_sent
                (codes "now")
                3
                uid
                (dated moment mascaras_order)
                (p'.breaker, p'.stores)))
process_message-RouteShows_example =
    process_message-RouteShows text is_sentinel decode_order encode laws repository 0 quota_laws
      bounded path_mux-MuxLaws nothing_sent nothing_sent reading 1 3 (codes "now") some_message
      new_queue orders mascaras_order [] refl mascaras_order-IsValidOrder
      mascaras_order-IsValidOrder fresh_cache-IsLru

-- A breaker that lets everything through.
abbrev open_to_all : Execute Order ℕ ℕ (LruState × Store)
open_to_all request b st = Option.map (λ (o, err, st'). (o, err, b, st')) (request st)

open_to_all-BreakerLaws : BreakerLaws open_to_all
open_to_all-BreakerLaws = record { either = λ request b st. inr (b, refl) }

handle_get_order-order_repo_example :
    (cs : List Call) × (st' : ℕ × (LruState × Store)) × (status : ℕ) × (handle_get_order encode
        (asked text is_sentinel methods (order_repo store) 0 open_to_all bounded)
        1
        uid
        (2, (fresh_cache, empty_store))
      ≡ returned cs st')
    × ((calls cs fresh).sent ≡ some (status, json_type))
    × ((status ≡ 404) ⊎ (status ≡ 500))
    × IsLru st'.1.0 []
unfolding is_blank lookup
handle_get_order-order_repo_example =
    handle_get_order-order_repo text is_sentinel encode laws refuse_laws 0 open_to_all-BreakerLaws
      bounded fresh_cache-IsLru 1 uid 2 empty_store refl refl

abbrev half_written : Handled ℕ
half_written = returned (write_header 200 ∷ write (codes "{") ∷ []) 3

serve-deadline_exceeded_example :
    (ds : List Call) × (serve (deadline_exceeded 1 (writes_on 1)) half_written ≡ answered ds)
    × ((calls ds fresh).sent ≡ some (200, []))
    × ((calls ds fresh).body ≡ (timeout_text ++ 10 ∷ []) ++ codes "{")
unfolding calls call send_header
serve-deadline_exceeded_example = serve-deadline_exceeded 1 1 half_written

health_test :
    handle_health encode uids (codes "2025-11-29T12:00:00Z") 3
    ≡ returned
        (write_json_response encode uids 200
          (health_json (record { status = codes "ok"; time = codes "2025-11-29T12:00:00Z" })))
        3
unfolding handle_health
health_test = refl

is_not_found_error_test :
    is_not_found_error
      (some (record { message = codes "failed: No Rows in result set"; is_sentinel = false }))
    ≡ true
unfolding is_not_found_error
is_not_found_error_test = refl
