-- ===== src/Database/Failures.antt =====
-- The readers of internal/db/repo.go that hand `pgxscan.Select` a query without its arguments, or a
-- destination that is no pointer to a slice.
use wb_l.Base.Dict.{lookup}
use wb_l.Models.{Order}
use wb_l.Manager.{manager_get, CacheMethods}
use wb_l.Manager.Laws.{CacheLaws}
use wb_l.Manager.Calls.{manager_get-error}
use mathlib.Core.Path.{subst}
use wb_l.Database.Reads.{
  order_repo, get_payment, or_no_rows, get_item, read, get_items, get_delivery, get_order,
}
use wb_l.Base.Text.{text_dec, Text}
use wb_l.Base.Int.{pos, ℤ}
use wb_l.Database.{
  payment_pointer, item_pointer, items_slice, delivery_pointer, order_pointer, finish, rolled_back,
  placeholders, with_tx, is_slice_pointer, Statement, Scanned, Pgx, Destination,
}
use wb_l.Database.Laws.{begun-cases}
use wb_l.Base.{ap, sym, [], inl, refl, Option, some, ◌≡◌, none, inr, false, List, ◌⊎◌, ◌≢◌}
use wb_l.Base.Lists.{length}

-- What pgx and scany document of `Select`: it returns an error if the query refers to another number of
-- arguments than it is given, or if the destination is no pointer to a slice.
pub record SelectLaws {Ctx E Tx P : Type 0} (pgx : Pgx Ctx E Tx P) : Type 0 where
  pub refuses :
      (d : Destination) (ctx : Ctx) (tx : Tx) (s : Statement) (p : P)
      → (is_slice_pointer d ≡ false) ⊎ (placeholders s.0 ≢ length s.1)
      → (value : Scanned d) × (e : E) × (p' : P) × (pgx.select d ctx tx s p ≡ (value, some e, p'))

module _ {Ctx E Tx P : Type 0} {pgx : Pgx Ctx E Tx P} (laws : SelectLaws pgx) where
  -- The result of a reader that fails.
  abbrev pub Fails : {A : Type 0} → Option A × Option E × P → Type 0
  Fails (found, err, p) = (found ≡ none) × (e : E) × (err ≡ some e)

  failed_read :
      {A : Type 0} {r : (Option A × Option E) × P} (e : E) (p : P)
      → r ≡ ((none, some e), p)
      → Fails (or_no_rows pgx r)
  unfolding or_no_rows
  failed_read e p out = subst (λ x. Fails (or_no_rows pgx x)) (sym out) (refl, e, refl)

  with_tx-Fails :
      (d : Destination) (ctx : Ctx) (s : Statement) (p : P)
      → is_slice_pointer d ≡ false
      → Fails (or_no_rows pgx (with_tx pgx ctx (read pgx d ctx s) p))
  unfolding with_tx rolled_back finish read or_no_rows
  with_tx-Fails d ctx s p bad = elim (begun-cases (pgx.begin_tx ctx p)) [
    | inl (e, p1, ran) ↦
        let out : with_tx pgx ctx (read pgx d ctx s) p ≡ ((none, some e), p1) =
          rw (with_tx, ran, ran) refl in
        failed_read e p1 out
    | inr (tx, p1, ran) ↦
        let (value, e, p2, failed) = laws.refuses d ctx tx s p1 (inl bad) in
        let reads : read pgx d ctx s tx p1 ≡ (none, some e, p2) = rw (read, failed, failed) refl in
        let out : with_tx pgx ctx (read pgx d ctx s) p
            ≡ ((none, some e), (pgx.rollback ctx tx p2).1) =
          rw (with_tx, ran, ran, reads) refl in
        failed_read e _ out
  ]

  -- With `Select` as pgx and scany document it, `GetOrder`, `GetDelivery`, `GetItems`, `GetItem`
  -- and `GetPayment` return an error and no value, whatever the database holds.
  pub readers_fail :
      (ctx : Ctx) (uid : Text) (id : ℤ) (ids : List ℤ) (p : P)
      → Fails (get_order pgx ctx uid p)
        × Fails (get_delivery pgx ctx uid p)
        × Fails (get_items pgx ctx ids p)
        × Fails (get_item pgx ctx id p)
        × Fails (get_payment pgx ctx uid p)
  unfolding get_order get_delivery get_items get_item get_payment is_slice_pointer
  readers_fail ctx uid id ids p = (
    with_tx-Fails order_pointer ctx _ p refl,
    with_tx-Fails delivery_pointer ctx _ p refl,
    with_tx-Fails items_slice ctx _ p refl,
    with_tx-Fails item_pointer ctx _ p refl,
    with_tx-Fails payment_pointer ctx _ p refl,
  )

-- With the repository of `internal/db`: whatever the database holds, `Manager.Get` of an order that is not
-- in the cache returns an error.
pub manager_get-order_repo :
    {S D Ctx E Tx P : Type 0} {pgx : Pgx Ctx E Tx P} {cache : CacheMethods S D}
    {Holds : S → List (Text × Order) → Type 0} {s : S} {es : List (Text × Order)}
    (laws : SelectLaws pgx) (cache_laws : CacheLaws cache Holds) (background ctx : Ctx) (uid : Text)
    (p : P)
    → Holds s es
    → lookup text_dec uid es ≡ none
    → (e : E) × (s' : S) × (p' : P) × (manager_get cache (order_repo pgx) background ctx uid (s, p)
        ≡ some (none, some e, s', p'))
      × Holds s' es
unfolding order_repo
manager_get-order_repo {pgx = pgx} laws cache_laws background ctx uid p holds miss =
    let (found, err, p') = get_order pgx ctx uid p in
    let (_, e, failed) = (readers_fail laws ctx uid (pos 0) [] p).0 in
    let asked : get_order pgx ctx uid p ≡ (found, some e, p') = ap (λ x. (found, x, p')) failed in
    let (s', ran, held) =
      manager_get-error cache_laws (order_repo pgx) background holds p ctx uid miss p' found e
        asked in
    (e, s', p', ran, held)
