-- ===== src/Examples/Services.antt =====
-- The theorems on order_service.go, with a breaker that lets a number of requests through.
use wb_l.Base.Text.{text_dec, Text}
use wb_l.Service.Sourced.{perform_calls-Known}
use wb_l.Manager.Kept.{Sources, Retrieved}
use wb_l.Breaker.{BreakerLaws, Execute, Request}
use wb_l.Manager.Lru.{LruState}
use wb_l.Service.{dated, not_retrieved, get_order, not_processed, process_order}
use wb_l.Models.Orders.{validate_iff, IsValidOrder}
use wb_l.Service.Outcomes.{process_order-get_order}
use wb_l.Base.{ap, ◌∷◌, List, Option, zero, ◌≡◌, [], ◌+◌, inr, some, suc, refl, inl, ◌⊎◌, ℕ, none}
use wb_l.Examples.Orders.{mascaras_order, moment, mascaras_order_ok}
use wb_l.Examples.Managers.{fresh_cache, methods, laws, repository, fresh_cache-IsLru}
use wb_l.Service.Traces.{
  perform_calls, ServiceCall, AllFit, ServiceReply, submits, warms, retrieves,
}
use wb_l.Models.{Order}
use mathlib.Core.Option

abbrev pub quota : Execute Order ℕ ℕ (LruState × ℕ)
quota request zero st = some (none, some 5, 0, st)
quota request (suc b) st = Option.map (λ (o, err, st'). (o, err, b, st')) (request st)

quota-either :
    (request : Request Order ℕ (LruState × ℕ)) (b : ℕ) (st : LruState × ℕ)
    → ((e : ℕ) × (b' : ℕ) × (quota request b st ≡ some (none, some e, b', st)))
      ⊎ ((b' : ℕ) × (quota request b st
            ≡ Option.map (λ (o, err, st'). (o, err, b', st')) (request st)))
quota-either request zero st = inl (5, 0, refl)
quota-either request (suc n) st = inr (n, refl)

pub quota_laws : BreakerLaws quota
quota_laws = record { either = quota-either }

abbrev pub bounded : ℕ → ℕ → ℕ
bounded seconds ctx = ctx + seconds

-- An order without items.
abbrev pub no_items : Order
no_items = record mascaras_order { items = [] }

pub mascaras_order-IsValidOrder : IsValidOrder moment moment mascaras_order
mascaras_order-IsValidOrder = (validate_iff moment moment mascaras_order).0 mascaras_order_ok

process_order-get_order_example :
    ((e : ℕ) × (b' : ℕ) × (process_order methods repository 0 quota bounded moment moment moment 1
          (some mascaras_order)
          2
          (fresh_cache, 0)
        ≡ some (some (not_processed e), b', (fresh_cache, 0))))
    ⊎ ((b' : ℕ) × (s' : LruState) × (r' : ℕ) × (process_order methods repository 0 quota bounded
            moment moment moment 1
            (some mascaras_order)
            2
            (fresh_cache, 0)
          ≡ some (none, b', (s', r')))
        × (((e : ℕ) × (b'' : ℕ) × (get_order methods repository 0 quota bounded 1
                  mascaras_order.order_uid b'
                  (s', r')
                ≡ some ((none, some (not_retrieved e)), b'', (s', r'))))
            ⊎ ((b'' : ℕ) × (s'' : LruState) × (get_order methods repository 0 quota bounded 1
                    mascaras_order.order_uid b'
                    (s', r')
                  ≡ some ((some (dated moment mascaras_order), none), b'', (s'', r'))))))
process_order-get_order_example =
    process_order-get_order laws repository 0 quota_laws bounded fresh_cache-IsLru 0 1 2 moment
      moment moment mascaras_order mascaras_order-IsValidOrder

-- The order that the repository of the example has.
abbrev IsMascaras : Text × Order → Type 0
IsMascaras x = x ≡ (mascaras_order.order_uid, mascaras_order)

repository_got :
    (ctx : ℕ) (u : Text) (r : ℕ)
    → Retrieved IsMascaras u ((repository.get_order ctx u r).0) ((repository.get_order ctx u r).1)
repository_got ctx u r =
    elim (text_dec u mascaras_order.order_uid)
      as (λ d.
        let answer : Option Order × Option ℕ × ℕ = elim d [
          | yes _ ↦ (some mascaras_order, none, r + 1)
          | no _ ↦ (none, some 9, r + 1)
        ] in
        Retrieved IsMascaras u answer.0 answer.1) [
          | yes same ↦ ap (λ v. (v, mascaras_order)) same
          | no other ↦ tt
        ]

repository-Sources : Sources repository IsMascaras
repository-Sources = record { got = repository_got; listed = λ ctx n r. (refl, tt) }

abbrev three_calls : List (ServiceCall ℕ)
three_calls =
    submits moment moment moment 1 (some mascaras_order)
    ∷ warms 2
    ∷ retrieves 3 mascaras_order.order_uid
    ∷ []

perform_calls-Known_example :
    (replies : List (ServiceReply ℕ)) × (b' : ℕ) × (st : LruState × ℕ) × (perform_calls methods
        repository 0 quota bounded three_calls 5
        (fresh_cache, 0)
      ≡ some (replies, b', st))
    × AllFit IsMascaras [] three_calls replies
perform_calls-Known_example =
    perform_calls-Known laws repository 0 quota_laws bounded IsMascaras repository-Sources
      three_calls 5 fresh_cache 0 fresh_cache-IsLru
