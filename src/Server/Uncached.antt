-- ===== src/Server/Uncached.antt =====
-- `GET /order/{order_uid}` of an order that is not in the cache, over the repository of internal/db/repo.go.
use wb_l.Database.Reads.{order_repo}
use wb_l.Base.Dict.{lookup}
use wb_l.Server.Orders.{failure, asked}
use wb_l.Models.{Order}
use wb_l.Manager.{CacheMethods}
use wb_l.Server.Answers.{json_type, status_for, handle_get_order-Replies}
use wb_l.Server.Writer.{fresh, calls, Call}
use wb_l.Base.Text.{trim_space, text_dec, is_blank, is_blank-trim_space, Text}
use wb_l.Database.{Pgx}
use wb_l.Server.{returned, handle_get_order, is_not_found_error, Json, Failure, Encoded}
use wb_l.Database.Failures.{SelectLaws, manager_get-order_repo}
use wb_l.Manager.Laws.{CacheLaws}
use wb_l.Base.{◌≡◌, none, inl, ◌∙◌, Bool-cases, List, inr, ◌⊎◌, Bool, refl, some, false, ℕ}
use wb_l.Breaker.{Execute, BreakerLaws}
use wb_l.Service.{get_order, get_request, not_retrieved}

-- The reply to an error is 404 or 500.
status_for-failure :
    (e : Failure) → (status_for none (some e) ≡ 404) ⊎ (status_for none (some e) ≡ 500)
status_for-failure e = elim (Bool-cases (is_not_found_error (some e))) [
  | inl h ↦ inl (rw h refl)
  | inr h ↦ inr (rw h refl)
]

module _ {S D Ctx E Tx P B : Type 0} (text : E → Text) (is_sentinel : E → Bool)
    (encode : Json → Encoded) {cache : CacheMethods S D} {Holds : S → List (Text × Order) → Type 0}
    (laws : CacheLaws cache Holds) {pgx : Pgx Ctx E Tx P} (select : SelectLaws pgx)
    (background : Ctx) {execute : Execute Order E B (S × P)} (breaker : BreakerLaws execute)
    (with_timeout : ℕ → Ctx → Ctx) {s : S} {es : List (Text × Order)} (holds : Holds s es) where
  get_order_fails :
      (ctx : Ctx) (uid : Text) (b : B) (p : P)
      → is_blank uid ≡ false
      → lookup text_dec uid es ≡ none
      → (e : E) × (b' : B) × (s' : S) × (p' : P) × (get_order cache
            (order_repo pgx)
            background
            execute
            with_timeout
            ctx
            uid
            b
            (s, p)
          ≡ some ((none, some (not_retrieved e)), b', (s', p')))
        × Holds s' es
  unfolding get_order get_request
  get_order_fails ctx uid b p shown miss =
      let (e, s', p', ran, held) =
        manager_get-order_repo select laws background (with_timeout 15 ctx) uid p holds miss in
      let fails : get_request cache (order_repo pgx) background execute with_timeout
            (with_timeout 15 ctx) uid (s, p)
          ≡ some (none, some e, (s', p')) =
        rw (get_request, ran) refl in
      elim (breaker.either
        (get_request cache (order_repo pgx) background execute with_timeout (with_timeout 15 ctx)
          uid)
        b (s, p)) [
          | inl (e', b', rejected) ↦ (e', b', s, p, rw (get_order, shown, rejected) refl, holds)
          | inr (b', through) ↦ (e, b', s', p', rw (get_order, shown, through, fails) refl, held)
        ]

  -- With the repository of internal/db, a cache that keeps the laws, and `Select` as pgx and scany
  -- document it: a request for a UID that is not blank and not in the cache is answered with
  -- status 404 or 500 whatever the database holds, and the cache keeps its entries.
  pub handle_get_order-order_repo :
      (ctx : Ctx) (path_value : Text) (b : B) (p : P)
      → is_blank path_value ≡ false
      → lookup text_dec (trim_space path_value) es ≡ none
      → (cs : List Call) × (st' : B × (S × P)) × (status : ℕ) × (handle_get_order encode
            (asked text is_sentinel cache (order_repo pgx) background execute with_timeout)
            ctx
            path_value
            (b, (s, p))
          ≡ returned cs st')
        × ((calls cs fresh).sent ≡ some (status, json_type))
        × ((status ≡ 404) ⊎ (status ≡ 500))
        × Holds st'.1.0 es
  unfolding asked
  handle_get_order-order_repo ctx path_value b p shown miss =
      let (e, b', s', p', ran, held) =
        get_order_fails ctx (trim_space path_value) b p (is_blank-trim_space path_value ∙ shown)
          miss in
      let f = failure text is_sentinel (not_retrieved e) in
      let (cs, out, replies) =
        handle_get_order-Replies encode
          (asked text is_sentinel cache (order_repo pgx) background execute with_timeout) ctx
          path_value (b, (s, p)) (b', (s', p')) none (some f) shown (rw (asked, ran) refl) in
      (cs, (b', (s', p')), status_for none (some f), out, replies.0, status_for-failure f, held)
