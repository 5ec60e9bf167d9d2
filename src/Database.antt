-- ===== src/Database.antt =====
-- internal/db/db.go: transactions over the pool of github.com/jackc/pgx, which is a parameter, and what
-- internal/db/repo.go asks of it. `P` is the state of the pool and of the database, `Tx` a transaction.
pub mod Pool
pub mod Inserts
pub mod Reads
pub mod Laws
pub mod Nested
pub mod Atomic
pub mod Failures
pub mod Listed
-- The queries of repo.go, one for each text.
use wb_l.Base.Text.{Text}
use wb_l.Base.Time.{Time}
use wb_l.Base.Int.{ℤ}
use wb_l.Models.{Delivery, Payment, Order, Item}
use wb_l.Base.{Option, true, List, ℕ, false, none, some, Bool}

pub data Query : Type 0 where
  insert_order_query insert_payment_query insert_item_query insert_delivery_query : Query
  order_query delivery_query items_query item_query payment_query n_orders_query : Query
  all_orders_query : Query

-- The arguments that are passed with a query.
pub data Argument : Type 0 where
  text : Text → Argument
  int : ℤ → Argument
  time : Time → Argument

abbrev pub Statement : Type 0
Statement = Query × List Argument

-- How many arguments the text of a query refers to.
unfoldable pub placeholders : Query → ℕ
placeholders insert_order_query = 12
placeholders insert_payment_query = 10
placeholders insert_item_query = 11
placeholders insert_delivery_query = 7
placeholders order_query = 1
placeholders delivery_query = 1
placeholders items_query = 1
placeholders item_query = 1
placeholders payment_query = 1
placeholders n_orders_query = 1
placeholders all_orders_query = 0

-- What `pgxscan.Select` is told to fill: a pointer to a struct, a slice, or a pointer to a slice.
pub data Destination : Type 0 where
  order_pointer delivery_pointer item_pointer payment_pointer : Destination
  items_slice orders_pointer : Destination

abbrev pub Scanned : Destination → Type 0
Scanned order_pointer = Order
Scanned delivery_pointer = Delivery
Scanned item_pointer = Item
Scanned payment_pointer = Payment
Scanned items_slice = List Item
Scanned orders_pointer = List Order

-- `pgxscan.Select` fills a pointer to a slice only.
unfoldable pub is_slice_pointer : Destination → Bool
is_slice_pointer orders_pointer = true
is_slice_pointer items_slice = false
is_slice_pointer order_pointer = false
is_slice_pointer delivery_pointer = false
is_slice_pointer item_pointer = false
is_slice_pointer payment_pointer = false

pub data Begun (E Tx : Type 0) : Type 0 where
  begun : Tx → Begun E Tx
  not_begun : E → Begun E Tx

-- The functions of pgx and scany that are called: `BeginTx` of the pool at the level Serializable, `Exec`,
-- `QueryRow` with `Scan` into a number, which it leaves at 0 on an error, `Select`, `Commit` and `Rollback`.
pub record Pgx (Ctx E Tx P : Type 0) : Type 0 where
  pub begin_tx : Ctx → P → Begun E Tx × P
  pub exec : Ctx → Tx → Statement → P → Option E × P
  pub query_row : Ctx → Tx → Statement → P → ℤ × Option E × P
  pub select : (d : Destination) → Ctx → Tx → Statement → P → Scanned d × Option E × P
  pub commit : Ctx → Tx → P → Option E × P
  pub rollback : Ctx → Tx → P → Option E × P
  pub no_rows : E

module _ {Ctx E Tx P : Type 0} (pgx : Pgx Ctx E Tx P) where
  -- The deferred `Rollback` runs whatever happens, and its error is dropped.
  unfoldable pub rolled_back : {A : Type 0} → Ctx → Tx → A × P → A × P
  rolled_back ctx tx (a, p) = (a, (pgx.rollback ctx tx p).1)

  -- The rest of `WithTx` after the function that it wraps. A nil result is `none`.
  unfoldable pub finish :
      {A : Type 0} → Ctx → Tx → Option A × Option E × P → (Option A × Option E) × P
  finish ctx tx (res, some err, p) = ((none, some err), p)
  finish ctx tx (res, none, p) =
      let (err, p') = pgx.commit ctx tx p in
      elim err [ some e ↦ ((none, some e), p') | none ↦ ((res, none), p') ]

  -- `WithTx` around a function that returns; a panic of it is left out.
  unfoldable pub with_tx :
      {A : Type 0} → Ctx → (Tx → P → Option A × Option E × P) → P → (Option A × Option E) × P
  unfolding rolled_back finish
  with_tx ctx f p =
      let (result, p') = pgx.begin_tx ctx p in
      elim result [
        | not_begun err ↦ ((none, some err), p')
        | begun tx ↦ rolled_back ctx tx (finish ctx tx (f tx p'))
      ]
