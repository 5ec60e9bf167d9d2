-- ===== src/Service/Outcomes.antt =====
-- What the service does with an order that it gets, and with one that it is asked for, over a breaker that
-- runs a request or rejects it.
use wb_l.Breaker.{Execute, BreakerLaws}
use wb_l.LruCache.Client.{DistinctEntries, lookup-stored_self}
use wb_l.Manager.Calls.{manager_get-hit}
use wb_l.Models.Orders.{uid-NotBlank, validate_iff, IsValidOrder}
use wb_l.Base.Time.{Time}
use wb_l.Manager.{manager_set, Repository, CacheMethods}
use wb_l.Base.Text.{is_blank_lem, is_blank, text_dec, Text}
use wb_l.Models.{Order}
use wb_l.Service.{
  get_request, not_retrieved, get_order, not_processed, dated, set_request, process_order,
}
use wb_l.Base.{ap, ◌∙◌, sym, false, arith, inr, inl, List, ◌≡◌, some, ◌⊎◌, none, ℕ}
use wb_l.Base.Dict.{lookup}
use wb_l.LruCache.Spec.{stored}
use wb_l.Manager.Laws.{CacheLaws}

pub order_uid-dated : (stamp : Time) (o : Order) → (dated stamp o).order_uid ≡ o.order_uid
unfolding dated
order_uid-dated stamp o = ground arith

-- The order that the cache holds under the UID of an order that was just stored.
pub lookup-dated :
    (cap : ℕ) (stamp : Time) (o : Order) (es : List (Text × Order))
    → DistinctEntries text_dec es
    → lookup text_dec o.order_uid (stored text_dec cap (dated stamp o).order_uid (dated stamp o) es)
      ≡ some (dated stamp o)
lookup-dated cap stamp o es distinct =
    let d = dated stamp o in
    ap (λ u. lookup text_dec u (stored text_dec cap d.order_uid d es))
      (sym (order_uid-dated stamp o))
    ∙ lookup-stored_self text_dec cap d.order_uid d es distinct

module _ {S D Ctx E R B : Type 0} {cache : CacheMethods S D}
    {Holds : S → List (Text × Order) → Type 0} (laws : CacheLaws cache Holds)
    (repo : Repository Ctx E R) (background : Ctx) {execute : Execute Order E B (S × R)}
    (breaker : BreakerLaws execute) (with_timeout : ℕ → Ctx → Ctx) {s : S}
    {es : List (Text × Order)} (holds : Holds s es) (r : R) (ctx : Ctx) (b : B) where
  module _ (now later stamp : Time) (o : Order) (valid : IsValidOrder now later o) where
    pub process_order-either :
        ((e : E) × (b' : B) × (process_order cache repo background execute with_timeout now later
              stamp ctx
              (some o)
              b
              (s, r)
            ≡ some (some (not_processed e), b', (s, r))))
        ⊎ ((b' : B) × (s' : S) × (process_order cache repo background execute with_timeout now later
                stamp ctx
                (some o)
                b
                (s, r)
              ≡ some (none, b', (s', (repo.save_order (with_timeout 30 ctx) (dated stamp o) r).1)))
            × Holds s'
                (stored text_dec (cache.capacity s) (dated stamp o).order_uid (dated stamp o) es))
    unfolding process_order set_request manager_set
    process_order-either =
        let ok = (validate_iff now later o).1 valid in
        let d = dated stamp o in
        let (s', ran, held, cap) = laws.set_law s es d.order_uid d holds in
        let stores : set_request cache repo background execute with_timeout (with_timeout 30 ctx) d
              (s, r)
            ≡ some (none, none, (s', (repo.save_order (with_timeout 30 ctx) d r).1)) =
          rw (set_request, manager_set, ran) in
        elim (breaker.either
          (set_request cache repo background execute with_timeout (with_timeout 30 ctx) d) b
          (s, r)) [
            | inl (e, b', rejected) ↦ inl (e, b', rw (process_order, ok, rejected))
            | inr (b', through) ↦ inr (b', s', rw (process_order, ok, through, stores), held)
          ]

  pub get_order-either :
      (uid : Text)
      → is_blank uid ≡ false
      → (o : Order) → lookup text_dec uid es ≡ some o
      → ((e : E) × (b' : B) × (get_order cache repo background execute with_timeout ctx uid b (s, r)
            ≡ some ((none, some (not_retrieved e)), b', (s, r))))
        ⊎ ((b' : B) × (s' : S) × (get_order cache repo background execute with_timeout ctx uid b
                (s, r)
              ≡ some ((some o, none), b', (s', r))))
  unfolding get_order
  get_order-either uid shown o hit =
      let (s', ran, held) =
        manager_get-hit laws repo background holds r (with_timeout 15 ctx) uid o hit in
      let finds : get_request cache repo background execute with_timeout (with_timeout 15 ctx) uid
            (s, r)
          ≡ some (some o, none, (s', r)) =
        rw (get_request, ran) in
      elim (breaker.either
        (get_request cache repo background execute with_timeout (with_timeout 15 ctx) uid) b
        (s, r)) [
          | inl (e, b', rejected) ↦ inl (e, b', rw (get_order, shown, rejected))
          | inr (b', through) ↦ inr (b', s', rw (get_order, shown, through, finds))
        ]

module _ {S D Ctx E R B : Type 0} {cache : CacheMethods S D}
    {Holds : S → List (Text × Order) → Type 0} (laws : CacheLaws cache Holds)
    (repo : Repository Ctx E R) (background : Ctx) {execute : Execute Order E B (S × R)}
    (breaker : BreakerLaws execute) (with_timeout : ℕ → Ctx → Ctx) {s : S}
    {es : List (Text × Order)} (holds : Holds s es) (r : R) (ctx : Ctx) (b : B) where
  -- Over a cache that keeps the laws and a breaker that runs or rejects a request: `ProcessOrder`
  -- of a valid order either returns the error of the breaker, with the cache and the database as
  -- they were, or returns no error. `GetOrder` of its UID right after that either returns the
  -- error of the breaker, and changes nothing, or returns the order, with the date of the clock if
  -- it had none, and asks the database nothing.
  pub process_order-get_order :
      (now later stamp : Time) (o : Order)
      → IsValidOrder now later o
      → ((e : E) × (b' : B) × (process_order cache repo background execute with_timeout now later
              stamp ctx
              (some o)
              b
              (s, r)
            ≡ some (some (not_processed e), b', (s, r))))
        ⊎ ((b' : B) × (s' : S) × (r' : R) × (process_order cache repo background execute
                with_timeout now later stamp ctx
                (some o)
                b
                (s, r)
              ≡ some (none, b', (s', r')))
            × (((e : E) × (b'' : B) × (get_order cache repo background execute with_timeout ctx
                      o.order_uid b'
                      (s', r')
                    ≡ some ((none, some (not_retrieved e)), b'', (s', r'))))
                ⊎ ((b'' : B) × (s'' : S) × (get_order cache repo background execute with_timeout ctx
                        o.order_uid b'
                        (s', r')
                      ≡ some ((some (dated stamp o), none), b'', (s'', r'))))))
  process_order-get_order now later stamp o valid =
      elim (process_order-either laws repo background breaker with_timeout holds r ctx b now later
        stamp o valid) [
          | inl rejected ↦ inl rejected
          | inr (b', s', done, held) ↦
              let d = dated stamp o in
              let shown : is_blank o.order_uid ≡ false =
                is_blank_lem o.order_uid ∙ uid-NotBlank o.order_uid valid.order_uid in
              let there : lookup text_dec o.order_uid
                    (stored text_dec (cache.capacity s) d.order_uid d es)
                  ≡ some d =
                lookup-dated (cache.capacity s) stamp o es (laws.distinct s es holds) in
              inr (
                b',
                s',
                _,
                done,
                get_order-either laws repo background breaker with_timeout held _ ctx b' o.order_uid
                    shown d there,
              )
        ]
