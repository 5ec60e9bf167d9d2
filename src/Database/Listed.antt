-- ===== src/Database/Listed.antt =====
-- The repository of internal/db/repo.go as the source of what the cache manager stores.
use wb_l.Database.Failures.{readers_fail, SelectLaws}
use wb_l.Manager.Kept.{Retrieved, Sources}
use wb_l.Database.Laws.{begun-cases}
use wb_l.Database.Reads.{get_order, order_repo, get_n_orders, read, or_empty}
use wb_l.Base.Text.{Text}
use wb_l.Models.{Order}
use wb_l.Base.{sym, none, some, Option-cases, inl, inr, refl, Option, ℕ, ◌∷◌, ◌≡◌, [], List}
use mathlib.Core.Path.{subst}
use mathlib.Core.List.{Memᴰ}
use wb_l.Base.Lists.{All, All-map}
use wb_l.Base.Int.{pos}
use wb_l.Database.{
  with_tx, Statement, finish, rolled_back, Pgx, int, n_orders_query, orders_pointer,
}

-- An order under its UID that `Select` read for the query of `GetNOrders`.
pub record IsListed {Ctx E Tx P : Type 0} (pgx : Pgx Ctx E Tx P) (x : Text × Order) : Type 0 where
  pub ctx : Ctx
  pub tx : Tx
  pub number : ℕ
  pub state : P
  pub uid : x.0 ≡ x.1.order_uid
  pub read :
      Memᴰ x.1 (pgx.select orders_pointer ctx tx (n_orders_query, int (pos number) ∷ []) state).0

All-Memᴰ : {A : Type 0} (xs : List A) → All (λ x. Memᴰ x xs) xs
All-Memᴰ [] = tt
All-Memᴰ (x ∷ xs) = (Memᴰ.head refl, All-map _ _ xs (λ y m. Memᴰ.tail m) (All-Memᴰ xs))

module _ {Ctx E Tx P : Type 0} (pgx : Pgx Ctx E Tx P) where
  -- A result that is there is that of the function which was wrapped.
  abbrev AllListed : List Order × Option E × P → Type 0
  AllListed (os, err, p) = All (λ o. IsListed pgx (o.order_uid, o)) os

  -- The same of what a transaction returns, where `none` is nil.
  abbrev FoundListed : Option (List Order) → Type 0
  FoundListed none = Unit
  FoundListed (some os) = All (λ o. IsListed pgx (o.order_uid, o)) os

  read-FoundListed :
      (ctx : Ctx) (tx : Tx) (n : ℕ) (p : P)
      → FoundListed (read pgx orders_pointer ctx (n_orders_query, int (pos n) ∷ []) tx p).0
  unfolding read
  read-FoundListed ctx tx n p =
      let s : Statement = (n_orders_query, int (pos n) ∷ []) in
      elim (Option-cases (pgx.select orders_pointer ctx tx s p).1) [
        | inr (e, failed) ↦ rw (read, failed) tt
        | inl fine ↦
            rw (read, fine)
              (All-map _ _ (pgx.select orders_pointer ctx tx s p).0
                (λ o m. record { ctx = ctx; tx = tx; number = n; state = p; uid = refl; read = m })
                (All-Memᴰ (pgx.select orders_pointer ctx tx s p).0))
      ]

  or_empty-AllListed :
      (found : Option (List Order)) (err : Option E) (p : P)
      → FoundListed found
      → AllListed (or_empty pgx ((found, err), p))
  unfolding or_empty
  or_empty-AllListed found (some e) p h = tt
  or_empty-AllListed none none p h = tt
  or_empty-AllListed (some os) none p h = h

  finish-AllListed :
      (ctx : Ctx) (tx : Tx) (found : Option (List Order)) (err : Option E) (p : P)
      → FoundListed found
      → AllListed (or_empty pgx (rolled_back pgx ctx tx (finish pgx ctx tx (found, err, p))))
  unfolding rolled_back finish
  finish-AllListed ctx tx found (some e) p h = or_empty-AllListed none (some e) _ tt
  finish-AllListed ctx tx found none p h = elim (Option-cases (pgx.commit ctx tx p).0) [
    | inr (e, failed) ↦ rw (finish, failed) (or_empty-AllListed none (some e) _ tt)
    | inl committed ↦ rw (finish, committed) (or_empty-AllListed found none _ h)
  ]

  get_n_orders-AllListed : (ctx : Ctx) (n : ℕ) (p : P) → AllListed (get_n_orders pgx ctx n p)
  unfolding get_n_orders with_tx
  get_n_orders-AllListed ctx n p = elim (begun-cases (pgx.begin_tx ctx p)) [
    | inl (e, p1, ran) ↦ rw (get_n_orders, with_tx, ran) (or_empty-AllListed none (some e) p1 tt)
    | inr (tx, p1, ran) ↦
        let (found, err, p2) =
          read pgx orders_pointer ctx (n_orders_query, int (pos n) ∷ []) tx p1 in
        rw (get_n_orders, with_tx, ran, ran)
          (finish-AllListed ctx tx found err p2 (read-FoundListed ctx tx n p1))
  ]

-- With `Select` as pgx and scany document it, the cache manager gets orders from `GetNOrders` only.
pub order_repo-Sources :
    {Ctx E Tx P : Type 0} {pgx : Pgx Ctx E Tx P}
    → SelectLaws pgx
    → Sources (order_repo pgx) (IsListed pgx)
unfolding order_repo
order_repo-Sources {pgx = pgx} laws = record {
  got = λ ctx uid p.
      let (_, e, failed) = (readers_fail laws ctx uid (pos 0) [] p).0 in
      subst (λ err. Retrieved (IsListed pgx) uid (get_order pgx ctx uid p).0 err) (sym failed) tt;
  listed = λ ctx n p. get_n_orders-AllListed pgx ctx n p;
}
