-- ===== src/Database/Atomic.antt =====
-- `SaveOrder` of internal/db/repo.go and its siblings are transactions.
use wb_l.Database.Inserts.{
  insert_item, insert_delivery_tx, insert_item_tx, insert_items_tx, insert_payment_tx,
  payment_arguments, insert_payment, order_arguments, insert_order, insert_delivery,
  delivery_arguments, save_order, save_all,
}
use wb_l.Models.{Payment, Delivery, Item, Order}
use wb_l.Database.{insert_payment_query, insert_order_query, insert_delivery_query, Statement, Pgx}
use wb_l.Base.Int.{ℤ}
use wb_l.Base.{List, refl, Option, ◌++◌, ◌≡◌, [], ◌∷◌}
use wb_l.Database.Nested.{item_statements, insert_items_lem, after-Adds, Adds}
use wb_l.Database.Laws.{Writes, AllOrNothing, TxLaws, in_tx_lem}

-- The statements of an order, in the order of the code. The ID is the one that the delivery got.
abbrev pub order_statements : Order → ℤ → List Statement
order_statements o id =
    (insert_delivery_query, delivery_arguments o.delivery)
    ∷ (insert_order_query, order_arguments o id)
    ∷ (item_statements o.items ++ (insert_payment_query, payment_arguments o.payment) ∷ [])

abbrev pub IsOrderStatements : Order → List Statement → Type 0
IsOrderStatements o ss = (id : ℤ) × (ss ≡ order_statements o id)

module _ {Ctx E Tx P : Type 0} {pgx : Pgx Ctx E Tx P} {Db : Type 0} {committed : P → Db}
    {Open : Tx → P → Type 0} {pending : Tx → P → List Statement} {apply : List Statement → Db → Db}
    (laws : TxLaws pgx committed Open pending apply) where
  exec_lem :
      (ctx : Ctx) (tx : Tx) (s : Statement) (p : P)
      → Open tx p
      → Adds laws (s ∷ []) tx p (pgx.exec ctx tx s p)
  exec_lem ctx tx s p open_ =
      let (same, adds) = laws.executed ctx p _ tx s _ refl open_ in
      (same, λ h. let (o, a, _) = adds h in (o, a))

  query_row_lem :
      (ctx : Ctx) (tx : Tx) (s : Statement) (p : P)
      → Open tx p
      → let (_, err, p') = pgx.query_row ctx tx s p in Adds laws (s ∷ []) tx p (err, p')
  query_row_lem ctx tx s p open_ = laws.queried ctx p _ tx s _ _ refl open_

  save_all_lem :
      (ctx : Ctx) (o : Order) (tx : Tx) (p : P)
      → Open tx p
      → (id : ℤ) × Adds laws (order_statements o id) tx p (save_all pgx ctx o tx p)
  unfolding save_all insert_delivery insert_order insert_payment
  save_all_lem ctx o tx p open_ =
      let (id, err, p1) =
        pgx.query_row ctx tx (insert_delivery_query, delivery_arguments o.delivery) p in
      (
        id,
        after-Adds laws _ _ tx p (err, p1) _ (query_row_lem ctx tx _ p open_)
            (λ p2 o2. after-Adds laws _ _ tx p2 _ _ (exec_lem ctx tx _ p2 o2) (λ p3 o3.
              after-Adds laws _ _ tx p3 _ _ (insert_items_lem laws ctx tx o.items p3 o3)
                (λ p4 o4. exec_lem ctx tx _ p4 o4))),
      )

  abbrev Among : (List Statement → Type 0) → Tx → P → Option E × P → Type 0
  Among Good tx p r = (ss : List Statement) × Good ss × Adds laws ss tx p r

  Among-Writes :
      (Good : List Statement → Type 0) (tx : Tx) (p : P) (r : Option E × P)
      → Among Good tx p r
      → Writes laws Good tx p r
  Among-Writes Good tx p r (ss, good, (same, adds)) =
      (same, λ h. let (o, a) = adds h in (o, ss, good, a))

  -- Over transactions that keep the laws of pgx: `SaveOrder` either returns no error, and the
  -- database holds all the statements of the order, with the items in the transaction of the
  -- order, or returns an error, and the database is as it was, but for a failed commit that took
  -- place all the same with all the statements.
  pub save_order_lem :
      (ctx : Ctx) (o : Order) (p : P)
      → AllOrNothing laws (IsOrderStatements o) p (save_order pgx ctx o p)
  unfolding save_order
  save_order_lem ctx o p =
      in_tx_lem laws (IsOrderStatements o) ctx (save_all pgx ctx o) p (λ tx p1 open_.
        let (id, adds) = save_all_lem ctx o tx p1 open_ in
        Among-Writes (IsOrderStatements o) tx p1 _ (order_statements o id, (id, refl), adds))

  -- `InsertPayment`, `InsertItems`, `InsertItem` and `InsertDelivery` are transactions of the statements that
  -- `SaveOrder` runs for the same part.
  pub inserts_lem :
      (ctx : Ctx) (payment : Payment) (item : Item) (items : List Item) (delivery : Delivery)
      (p : P)
      → AllOrNothing laws
          (λ ss. ss ≡ (insert_payment_query, payment_arguments payment) ∷ [])
          p
          (insert_payment_tx pgx ctx payment p)
        × AllOrNothing laws (λ ss. ss ≡ item_statements items) p (insert_items_tx pgx ctx items p)
        × AllOrNothing laws
            (λ ss. ss ≡ item_statements (item ∷ []))
            p
            (insert_item_tx pgx ctx item p)
        × AllOrNothing laws
            (λ ss. ss ≡ (insert_delivery_query, delivery_arguments delivery) ∷ [])
            p
            (insert_delivery_tx pgx ctx delivery p)
  unfolding insert_payment_tx insert_items_tx insert_item_tx insert_delivery_tx insert_payment
      insert_item insert_delivery
  inserts_lem ctx payment item items delivery p = (
    in_tx_lem laws _ ctx _ p
        (λ tx p1 o. Among-Writes (λ ss. ss ≡ _) tx p1 _ (_, refl, exec_lem ctx tx _ p1 o)),
    in_tx_lem laws _ ctx _ p (λ tx p1 o.
        Among-Writes (λ ss. ss ≡ _) tx p1 _ (_, refl, insert_items_lem laws ctx tx items p1 o)),
    in_tx_lem laws _ ctx _ p
        (λ tx p1 o. Among-Writes (λ ss. ss ≡ _) tx p1 _ (_, refl, exec_lem ctx tx _ p1 o)),
    in_tx_lem laws _ ctx _ p
        (λ tx p1 o. Among-Writes (λ ss. ss ≡ _) tx p1 _ (_, refl, query_row_lem ctx tx _ p1 o)),
  )
