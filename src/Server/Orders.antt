-- ===== src/Server/Orders.antt =====
-- `GET /order/{order_uid}` over the order service of internal/service/order_service.go.
use wb_l.LruCache.Spec.{stored}
use wb_l.Models.Orders.{validate_iff, valid_uid-trim_space, uid-NotBlank, IsValidOrder}
use wb_l.Base.Time.{Time}
use wb_l.Base.Dict.{lookup}
use wb_l.Consumer.Processors.{service_error_text}
use wb_l.Service.Outcomes.{process_order-either, lookup-dated, get_order-either}
use wb_l.Manager.Laws.{CacheLaws}
use wb_l.Server.Writer.{Call}
use wb_l.Manager.{Repository, CacheMethods}
use wb_l.Base.Text.{is_blank_lem, is_blank-trim_space, trim_space, text_dec, is_blank, Text}
use wb_l.Server.{order_json, returned, handle_get_order, Failure, Json, GetOrder, Handled, Encoded}
use wb_l.Server.Answers.{json_for, status_for, Replies, handle_get_order-Replies}
use wb_l.Service.{dated, process_order, not_retrieved, ServiceError}
use wb_l.Models.{Order}
use wb_l.Base.{◌∙◌, ℕ, none, inl, Bool, false, ◌⊎◌, ◌≡◌, inr, some, List, refl}
use wb_l.Breaker.{BreakerLaws, Execute}
use mathlib.Core.Option
use wb_l.Service.{
  nil_order, empty_uid, invalid, not_processed, not_retrieved, not_warmed, get_order,
}

-- An error of the service as an `error`: it is `ErrOrderNotFound` if the one that it wraps is.
abbrev pub failure : {E : Type 0} → (E → Text) → (E → Bool) → ServiceError E → Failure
failure text is_sentinel nil_order = record {
  message = service_error_text text nil_order;
  is_sentinel = false;
}
failure text is_sentinel empty_uid = record {
  message = service_error_text text empty_uid;
  is_sentinel = false;
}
failure text is_sentinel (invalid e) = record {
  message = service_error_text text (invalid e);
  is_sentinel = false;
}
failure text is_sentinel (not_processed e) = record {
  message = service_error_text text (not_processed e);
  is_sentinel = is_sentinel e;
}
failure text is_sentinel (not_retrieved e) = record {
  message = service_error_text text (not_retrieved e);
  is_sentinel = is_sentinel e;
}
failure text is_sentinel (not_warmed e) = record {
  message = service_error_text text (not_warmed e);
  is_sentinel = is_sentinel e;
}

module _ {S D Ctx E R B : Type 0} (text : E → Text) (is_sentinel : E → Bool)
    (cache : CacheMethods S D) (repo : Repository Ctx E R) (background : Ctx)
    (execute : Execute Order E B (S × R)) (with_timeout : ℕ → Ctx → Ctx) where
  -- `GetOrder` of the service, as the server calls it.
  unfoldable pub asked : GetOrder Ctx (B × (S × R))
  unfolding get_order
  asked ctx uid (b, st) =
      Option.map
        (λ ((found, err), b', st'). ((found, Option.map (failure text is_sentinel) err), (b', st')))
        (get_order cache repo background execute with_timeout ctx uid b st)

  -- A request for the UID is answered with the order, or with the reply to an error of the breaker.
  abbrev pub Shows : (Json → Encoded) → Ctx → Text → Order → B × (S × R) → Type 0
  Shows encode ctx uid o st =
      (cs : List Call) × (st' : B × (S × R)) × (handle_get_order encode asked ctx uid st
        ≡ returned cs st')
      × (Replies encode 200 (order_json o) cs
          ⊎ ((e : E) × Replies encode
                (status_for none (some (failure text is_sentinel (not_retrieved e))))
                (json_for uid none (some (failure text is_sentinel (not_retrieved e)))) cs))

module _ {S D Ctx E R B : Type 0} (text : E → Text) (is_sentinel : E → Bool)
    (encode : Json → Encoded) {cache : CacheMethods S D} {Holds : S → List (Text × Order) → Type 0}
    (laws : CacheLaws cache Holds) (repo : Repository Ctx E R) (background : Ctx)
    {execute : Execute Order E B (S × R)} (breaker : BreakerLaws execute)
    (with_timeout : ℕ → Ctx → Ctx) {s : S} {es : List (Text × Order)} (holds : Holds s es) (r : R)
    (ctx : Ctx) (b : B) where
  -- The answer to a request for the order.
  abbrev Get : Text → B × (S × R) → Handled (B × (S × R))
  Get path_value st =
      handle_get_order encode (asked text is_sentinel cache repo background execute with_timeout)
        ctx path_value st

  -- An order that the cache holds is sent, unless the breaker rejects the request.
  get_cached :
      (path_value : Text) (o : Order)
      → is_blank path_value ≡ false
      → lookup text_dec (trim_space path_value) es ≡ some o
      → (cs : List Call) × (st' : B × (S × R)) × (Get path_value (b, (s, r)) ≡ returned cs st')
        × (Replies encode 200 (order_json o) cs
            ⊎ ((e : E) × Replies encode
                  (status_for none (some (failure text is_sentinel (not_retrieved e))))
                  (json_for
                    (trim_space path_value)
                    none
                    (some (failure text is_sentinel (not_retrieved e))))
                  cs))
  unfolding asked
  get_cached path_value o shown hit =
      elim (get_order-either laws repo background breaker with_timeout holds r ctx b
        (trim_space path_value) (is_blank-trim_space path_value ∙ shown) o hit) [
          | inl (e, b', ran) ↦
              let (cs, out, replies) =
                handle_get_order-Replies encode
                  (asked text is_sentinel cache repo background execute with_timeout) ctx path_value
                  (b, (s, r)) (b', (s, r)) none (some (failure text is_sentinel (not_retrieved e)))
                  shown (rw (asked, ran) refl) in
              (cs, _, out, inr (e, replies))
          | inr (b', s', ran) ↦
              let (cs, out, replies) =
                handle_get_order-Replies encode
                  (asked text is_sentinel cache repo background execute with_timeout) ctx path_value
                  (b, (s, r)) (b', (s', r)) (some o) none shown (rw (asked, ran) refl) in
              (cs, _, out, inl replies)
        ]

module _ {S D Ctx E R B : Type 0} (text : E → Text) (is_sentinel : E → Bool)
    (encode : Json → Encoded) {cache : CacheMethods S D} {Holds : S → List (Text × Order) → Type 0}
    (laws : CacheLaws cache Holds) (repo : Repository Ctx E R) (background : Ctx)
    {execute : Execute Order E B (S × R)} (breaker : BreakerLaws execute)
    (with_timeout : ℕ → Ctx → Ctx) {s : S} {es : List (Text × Order)} (holds : Holds s es) (r : R)
    (ctx : Ctx) (b : B) where
  -- Over a cache that keeps the laws and a breaker that runs or rejects a request: `ProcessOrder`
  -- of a valid order either returns the error of the breaker and changes nothing, or returns no
  -- error. A request for the UID of the order right after that is answered as JSON: with status
  -- 200 and the order, with the date of the clock if it had none, or, if the breaker rejects it,
  -- with the reply to that error.
  pub process_order-handle_get_order :
      (now later stamp : Time) (o : Order) (request : Ctx)
      → IsValidOrder now later o
      → ((e : E) × (b' : B) × (process_order cache repo background execute with_timeout now later
              stamp ctx
              (some o)
              b
              (s, r)
            ≡ some (some (not_processed e), b', (s, r))))
        ⊎ ((st : B × (S × R)) × (process_order cache repo background execute with_timeout now later
                stamp ctx
                (some o)
                b
                (s, r)
              ≡ some (none, st.0, st.1))
            × Shows text is_sentinel cache repo background execute with_timeout encode request
                o.order_uid
                (dated stamp o)
                st)
  process_order-handle_get_order now later stamp o request valid =
      elim (process_order-either laws repo background breaker with_timeout holds r ctx b now later
        stamp o valid) [
          | inl rejected ↦ inl rejected
          | inr (b', s', done, held) ↦
              let d = dated stamp o in
              let (trimmed, _) =
                valid_uid-trim_space now later o ((validate_iff now later o).1 valid) in
              let shown : is_blank o.order_uid ≡ false =
                is_blank_lem o.order_uid ∙ uid-NotBlank o.order_uid valid.order_uid in
              let there : lookup text_dec o.order_uid
                    (stored text_dec (cache.capacity s) d.order_uid d es)
                  ≡ some d =
                lookup-dated (cache.capacity s) stamp o es (laws.distinct s es holds) in
              let (cs, st', out, replies) =
                get_cached text is_sentinel encode laws repo background breaker with_timeout held _
                  request b' o.order_uid d shown (rw trimmed there) in
              inr ((b', (s', _)), done, (cs, st', out, rw trimmed at replies))
        ]
