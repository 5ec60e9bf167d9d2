-- ===== src/Database/Inserts.antt =====
-- internal/db/repo.go: what it writes. A querier `q` is always a transaction here.

use wb_l.Base.{Option, ◌∷◌, none, [], List, some}
use wb_l.Base.Int.{ℤ}
use wb_l.Database.{
  time, int, text, Argument, with_tx, insert_delivery_query, insert_item_query,
  insert_payment_query, insert_order_query, Pgx,
}
use wb_l.Models.{Order, Payment, Delivery, Item}

abbrev pub order_arguments : Order → ℤ → List Argument
order_arguments o delivery_id =
    text o.order_uid
    ∷ text o.track_number
    ∷ text o.entry
    ∷ int delivery_id
    ∷ text o.locale
    ∷ text o.internal_signature
    ∷ text o.customer_id
    ∷ text o.delivery_service
    ∷ text o.shardkey
    ∷ int o.sm_id
    ∷ time o.date_created
    ∷ text o.oof_shard
    ∷ []

abbrev pub payment_arguments : Payment → List Argument
payment_arguments p =
    text p.transaction
    ∷ text p.request_id
    ∷ text p.currency
    ∷ text p.provider
    ∷ int p.amount
    ∷ int p.payment_dt
    ∷ text p.bank
    ∷ int p.delivery_cost
    ∷ int p.goods_total
    ∷ int p.custom_fee
    ∷ []

abbrev pub item_arguments : Item → List Argument
item_arguments i =
    int i.chrt_id
    ∷ text i.track_number
    ∷ int i.price
    ∷ text i.rid
    ∷ text i.name
    ∷ int i.sale
    ∷ text i.size
    ∷ int i.total_price
    ∷ int i.nm_id
    ∷ text i.brand
    ∷ int i.status
    ∷ []

abbrev pub delivery_arguments : Delivery → List Argument
delivery_arguments d =
    text d.name
    ∷ text d.phone
    ∷ text d.zip
    ∷ text d.city
    ∷ text d.address
    ∷ text d.region
    ∷ text d.email
    ∷ []

-- `if err != nil { return err }` in front of the rest.
abbrev pub after : {E P : Type 0} → Option E × P → (P → Option E × P) → Option E × P
after (some e, p) f = (some e, p)
after (none, p) f = f p

abbrev pub no_result : {E P : Type 0} → Option E × P → Option (Unit {0}) × Option E × P
no_result (err, p) = (none, err, p)

module _ {Ctx E Tx P : Type 0} (pgx : Pgx Ctx E Tx P) where
  unfoldable pub insert_order : Ctx → Tx → Order → (delivery_id : ℤ) → P → Option E × P
  insert_order ctx q o delivery_id p =
      pgx.exec ctx q (insert_order_query, order_arguments o delivery_id) p

  unfoldable pub insert_payment : Ctx → Tx → Payment → P → Option E × P
  insert_payment ctx q payment p =
      pgx.exec ctx q (insert_payment_query, payment_arguments payment) p

  unfoldable pub insert_item : Ctx → Tx → Item → P → Option E × P
  insert_item ctx q item p = pgx.exec ctx q (insert_item_query, item_arguments item) p

  -- The ID that the database gives.
  unfoldable pub insert_delivery : Ctx → Tx → Delivery → P → ℤ × Option E × P
  insert_delivery ctx q delivery p =
      pgx.query_row ctx q (insert_delivery_query, delivery_arguments delivery) p

  -- `WithTx` around a function without a result.
  unfoldable pub in_tx : Ctx → (Tx → P → Option E × P) → P → Option E × P
  unfolding with_tx
  in_tx ctx f p = let ((_, err), p') = with_tx pgx ctx (λ tx p. no_result (f tx p)) p in (err, p')

  -- The loop of `insertItems`.
  unfoldable pub insert_each : Ctx → Tx → List Item → P → Option E × P
  unfolding insert_item
  insert_each ctx q [] p = (none, p)
  insert_each ctx q (item ∷ items) p = after (insert_item ctx q item p) (insert_each ctx q items)

  -- A transaction of its own is opened, and the items go to the one of the caller.
  unfoldable pub insert_items : Ctx → Tx → List Item → P → Option E × P
  unfolding insert_each in_tx
  insert_items ctx q items = in_tx ctx (λ tx. insert_each ctx q items)

  -- The function that `SaveOrder` wraps.
  unfoldable pub save_all : Ctx → Order → Tx → P → Option E × P
  unfolding insert_delivery insert_order insert_items insert_payment
  save_all ctx o tx p =
      let (id, err, p') = insert_delivery ctx tx o.delivery p in
      after (err, p')
        (λ p1.
          after (insert_order ctx tx o id p1)
            (λ p2. after (insert_items ctx tx o.items p2) (insert_payment ctx tx o.payment)))

  unfoldable pub save_order : Ctx → Order → P → Option E × P
  unfolding in_tx save_all
  save_order ctx o = in_tx ctx (save_all ctx o)

  -- `InsertPayment`, `InsertItems`, `InsertItem` and `InsertDelivery`: the same in a transaction of their own.
  unfoldable pub insert_payment_tx : Ctx → Payment → P → Option E × P
  unfolding in_tx insert_payment
  insert_payment_tx ctx payment = in_tx ctx (λ tx. insert_payment ctx tx payment)

  unfoldable pub insert_items_tx : Ctx → List Item → P → Option E × P
  unfolding in_tx insert_items
  insert_items_tx ctx items = in_tx ctx (λ tx. insert_items ctx tx items)

  unfoldable pub insert_item_tx : Ctx → Item → P → Option E × P
  unfolding in_tx insert_item
  insert_item_tx ctx item = in_tx ctx (λ tx. insert_item ctx tx item)

  unfoldable pub insert_delivery_tx : Ctx → Delivery → P → Option E × P
  unfolding in_tx insert_delivery
  insert_delivery_tx ctx delivery =
      in_tx ctx (λ tx p. let (_, err, p') = insert_delivery ctx tx delivery p in (err, p'))
