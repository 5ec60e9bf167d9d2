-- ===== src/Examples/Databases.antt =====
-- The theorems on internal/db at a small database: a list of the statements that were committed.
use wb_l.Base.Text.{codes}
use wb_l.Database.Inserts.{save_order}
use wb_l.Database.{begun, Scanned, Begun, Pgx, Statement, Destination}
use wb_l.Database.Laws.{TxLaws, AllOrNothing}
use wb_l.Base.Int.{pos, ℤ}
use wb_l.Database.Atomic.{IsOrderStatements, save_order_lem}
use wb_l.Database.Failures.{readers_fail, Fails, SelectLaws}
use wb_l.Base.{
  Option, none, ◌≡◌, ◌∷◌, arith, [], some, inr, ◌≢◌, ◌⊎◌, suc, ◌<◌, ◌==◌, refl, ℕ, List, ◌++◌,
  if◌then◌else◌,
}
use mathlib.Core.Path.{subst}
use mathlib.Core.List.{append-nil}
use wb_l.Database.{
  order_pointer, delivery_pointer, item_pointer, payment_pointer, items_slice, orders_pointer,
  not_begun, begun,
}
use wb_l.Database.Reads.{get_payment, get_item, get_items, get_delivery, get_order}
use wb_l.Examples.Orders.{mascaras_order, mascaras}

-- The transactions are numbered, and those below `next` are open.
pub record Store : Type 0 where
  pub db : List Statement
  pub next : ℕ
  pub work : ℕ → List Statement

abbrev pub set_at : ℕ → List Statement → (ℕ → List Statement) → ℕ → List Statement
set_at t ss f u = if u == t then ss else f u

abbrev pub started : Store → Store
started p = record { db = p.db; next = suc p.next; work = set_at p.next [] p.work }

abbrev pub ran : ℕ → Statement → Store → Store
ran t s p = record p { work = set_at t (p.work t ++ s ∷ []) p.work }

abbrev any_value : (d : Destination) → Scanned d
any_value order_pointer = mascaras_order
any_value delivery_pointer = mascaras_order.delivery
any_value item_pointer = mascaras
any_value payment_pointer = mascaras_order.payment
any_value items_slice = []
any_value orders_pointer = []

abbrev pub store : Pgx ℕ ℕ ℕ Store
store = record {
  begin_tx = λ ctx p. (begun p.next, started p);
  exec = λ ctx tx s p. (none, ran tx s p);
  query_row = λ ctx tx s p. (pos 1, none, ran tx s p);
  select = λ d ctx tx s p. (any_value d, some 7, p);
  commit = λ ctx tx p. (none, record p { db = p.db ++ p.work tx });
  rollback = λ ctx tx p. (none, p);
  no_rows = 5;
}

abbrev pub held : Store → List Statement
held p = p.db

abbrev pub IsOpen : ℕ → Store → Type 0
IsOpen t p = t < p.next

abbrev pub done_by : ℕ → Store → List Statement
done_by t p = p.work t

abbrev pub add_all : List Statement → List Statement → List Statement
add_all ss d = d ++ ss

abbrev Opened : Store → Begun ℕ ℕ × Store → Type 0
Opened p (not_begun e, p') = held p' ≡ held p
Opened p (begun tx, p') =
    (held p' ≡ held p)
    × IsOpen tx p'
    × (done_by tx p' ≡ [])
    × ((u : ℕ) → IsOpen u p → (u ≢ tx) × IsOpen u p' × (done_by u p' ≡ done_by u p))

started_lem : (p : Store) → Opened p (begun p.next, started p)
started_lem p = (
  refl,
  omega arith,
  ground arith,
  λ u o. (λ e. omega (arith, e, o), omega (arith, o), ground (arith, o)),
)

ran_lem :
    (p : Store) (tx : ℕ) (s : Statement)
    → (done_by tx (ran tx s p) ≡ done_by tx p ++ s ∷ [])
      × ((u : ℕ) → u ≢ tx → done_by u (ran tx s p) ≡ done_by u p)
ran_lem p tx s = (ground arith, λ u d. ground (arith, d))

store_laws : TxLaws store held IsOpen done_by add_all
store_laws = record {
  apply_nil = append-nil;
  refused = λ ctx p p' e h. subst (Opened p) h (started_lem p);
  opened = λ ctx p p' tx h. subst (Opened p) h (started_lem p);
  executed = λ ctx p p' tx s err h o.
      let (own, others) = ran_lem p tx s in
      subst
        (λ (r : Option ℕ × Store).
          (held r.1 ≡ held p)
          × (r.0 ≡ none
              → IsOpen tx r.1
                × (done_by tx r.1 ≡ done_by tx p ++ s ∷ [])
                × ((u : ℕ) → u ≢ tx → IsOpen u p → IsOpen u r.1 × (done_by u r.1 ≡ done_by u p))))
        h (refl, λ _. (o, own, λ u d q. (q, others u d)));
  queried = λ ctx p p' tx s id err h o.
      let (own, others) = ran_lem p tx s in
      subst
        (λ (r : ℤ × Option ℕ × Store).
          (held r.2 ≡ held p)
          × (r.1 ≡ none → IsOpen tx r.2 × (done_by tx r.2 ≡ done_by tx p ++ s ∷ [])))
        h (refl, λ _. (o, own));
  commits = λ ctx p p' tx err h o.
      subst
        (λ (r : Option ℕ × Store).
          ((held r.1 ≡ held p) ⊎ (held r.1 ≡ add_all (done_by tx p) (held p)))
          × (r.0 ≡ none
              → (held r.1 ≡ add_all (done_by tx p) (held p))
                × ((u : ℕ) → u ≢ tx → IsOpen u p → IsOpen u r.1 × (done_by u r.1 ≡ done_by u p))))
        h (inr refl, λ _. (refl, λ u d q. (q, refl)));
  rolls_back = λ ctx p tx. (refl, λ u d o. (o, refl));
  selected = λ d ctx p tx s. (refl, λ o. (o, refl));
}

pub refuse_laws : SelectLaws store
refuse_laws = record { refuses = λ d ctx tx s p h. (any_value d, 7, p, refl) }

abbrev pub empty_store : Store
empty_store = record { db = []; next = 0; work = λ _. [] }

save_order_lem_example :
    AllOrNothing store_laws
      (IsOrderStatements mascaras_order)
      empty_store
      (save_order store 1 mascaras_order empty_store)
save_order_lem_example = save_order_lem store_laws 1 mascaras_order empty_store

readers_fail_example :
    Fails refuse_laws (get_order store 1 (codes "b563feb7b2b84b6test") empty_store)
    × Fails refuse_laws (get_delivery store 1 (codes "b563feb7b2b84b6test") empty_store)
    × Fails refuse_laws (get_items store 1 (pos 3 ∷ []) empty_store)
    × Fails refuse_laws (get_item store 1 (pos 3) empty_store)
    × Fails refuse_laws (get_payment store 1 (codes "b563feb7b2b84b6test") empty_store)
readers_fail_example =
    readers_fail refuse_laws 1 (codes "b563feb7b2b84b6test") (pos 3) (pos 3 ∷ []) empty_store
