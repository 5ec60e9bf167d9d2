-- ===== src/Database/Reads.antt =====
-- internal/db/repo.go: what it reads.

use wb_l.Database.Inserts.{save_order}
use wb_l.Models.{Order, Item, Payment, Delivery}
use wb_l.Base.Int.{pos, ℤ}
use wb_l.Manager.{Repository}
use wb_l.Base.{[], some, ◌∷◌, List, ℕ, none, Option}
use wb_l.Database.{
  int, text, all_orders_query, n_orders_query, payment_query, item_query, items_query,
  delivery_query, order_query, orders_pointer, payment_pointer, item_pointer, items_slice,
  delivery_pointer, order_pointer, with_tx, Scanned, Pgx, Statement, Destination,
}
use wb_l.Base.Text.{Text}

module _ {Ctx E Tx P : Type 0} (pgx : Pgx Ctx E Tx P) where
  -- The function that each reader wraps: `Select`, and its result if there is no error.
  unfoldable pub read :
      (d : Destination) → Ctx → Statement → Tx → P → Option (Scanned d) × Option E × P
  read d ctx s tx p =
      let (value, err, p') = pgx.select d ctx tx s p in
      elim err [ some e ↦ (none, some e, p') | none ↦ (some value, none, p') ]

  -- What a reader of one value makes of the result of `WithTx`.
  unfoldable pub or_no_rows : {A : Type 0} → (Option A × Option E) × P → Option A × Option E × P
  or_no_rows ((res, some e), p) = (none, some e, p)
  or_no_rows ((none, none), p) = (none, some pgx.no_rows, p)
  or_no_rows ((some a, none), p) = (some a, none, p)

  -- The same for a reader of a list.
  unfoldable pub or_empty : {A : Type 0} → (Option (List A) × Option E) × P → List A × Option E × P
  or_empty ((res, some e), p) = ([], some e, p)
  or_empty ((none, none), p) = ([], none, p)
  or_empty ((some found, none), p) = (found, none, p)

  -- The UID is not passed on.
  unfoldable pub get_order : Ctx → Text → P → Option Order × Option E × P
  unfolding read or_no_rows with_tx
  get_order ctx order_uid p =
      or_no_rows (with_tx pgx ctx (read order_pointer ctx (order_query, [])) p)

  unfoldable pub get_delivery : Ctx → Text → P → Option Delivery × Option E × P
  unfolding read or_no_rows with_tx
  get_delivery ctx id p =
      or_no_rows (with_tx pgx ctx (read delivery_pointer ctx (delivery_query, [])) p)

  unfoldable pub get_items : Ctx → List ℤ → P → Option (List Item) × Option E × P
  unfolding read or_no_rows with_tx
  get_items ctx chrt_id p = or_no_rows (with_tx pgx ctx (read items_slice ctx (items_query, [])) p)

  unfoldable pub get_item : Ctx → ℤ → P → Option Item × Option E × P
  unfolding read or_no_rows with_tx
  get_item ctx chrt_id p = or_no_rows (with_tx pgx ctx (read item_pointer ctx (item_query, [])) p)

  unfoldable pub get_payment : Ctx → Text → P → Option Payment × Option E × P
  unfolding read or_no_rows with_tx
  get_payment ctx transaction p =
      or_no_rows
        (with_tx pgx ctx (read payment_pointer ctx (payment_query, text transaction ∷ [])) p)

  unfoldable pub get_n_orders : Ctx → ℕ → P → List Order × Option E × P
  unfolding read or_empty with_tx
  get_n_orders ctx n p =
      or_empty (with_tx pgx ctx (read orders_pointer ctx (n_orders_query, int (pos n) ∷ [])) p)

  unfoldable pub get_all_orders : Ctx → P → List Order × Option E × P
  unfolding read or_empty with_tx
  get_all_orders ctx p =
      or_empty (with_tx pgx ctx (read orders_pointer ctx (all_orders_query, [])) p)

  -- What the cache manager sees of the repository.
  unfoldable pub order_repo : Repository Ctx E P
  unfolding save_order get_order get_n_orders
  order_repo = record {
    save_order = save_order pgx;
    get_order = get_order;
    get_n_orders = get_n_orders;
  }
