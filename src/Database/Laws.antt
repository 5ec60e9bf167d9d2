-- ===== src/Database/Laws.antt =====
-- What the transactions of internal/db/db.go rely on: the documented behaviour of a transaction of pgx at
-- the level Serializable, as long as no other client writes.

-- What the database holds, which transactions are open, and what an open one has done so far. A failed
-- `Commit` may have reached the database, so its outcome is left open.
use mathlib.Core.Path.{subst}
use wb_l.Database.Inserts.{no_result, in_tx}
use wb_l.Base.Int.{ℤ}
use wb_l.Database.{
  Begun, finish, rolled_back, with_tx, begun, not_begun, Destination, Statement, Pgx,
}
use wb_l.Base.{sym, refl, ◌∙◌, inr, inl, ◌⊎◌, ◌++◌, [], some, ◌≢◌, List, ◌≡◌, Option, none, ◌∷◌}

pub record TxLaws {Ctx E Tx P : Type 0} (pgx : Pgx Ctx E Tx P) {Db : Type 0} (committed : P → Db)
    (Open : Tx → P → Type 0) (pending : Tx → P → List Statement) (apply : List Statement → Db → Db)
    : Type 0 where
  pub apply_nil : (d : Db) → apply [] d ≡ d
  pub refused :
      (ctx : Ctx) (p p' : P) (e : E)
      → pgx.begin_tx ctx p ≡ (not_begun e, p')
      → committed p' ≡ committed p
  pub opened :
      (ctx : Ctx) (p p' : P) (tx : Tx)
      → pgx.begin_tx ctx p ≡ (begun tx, p')
      → (committed p' ≡ committed p)
        × Open tx p'
        × (pending tx p' ≡ [])
        × ((u : Tx) → Open u p → (u ≢ tx) × Open u p' × (pending u p' ≡ pending u p))
  pub executed :
      (ctx : Ctx) (p p' : P) (tx : Tx) (s : Statement) (err : Option E)
      → pgx.exec ctx tx s p ≡ (err, p')
      → Open tx p
      → (committed p' ≡ committed p)
        × (err ≡ none
            → Open tx p'
              × (pending tx p' ≡ pending tx p ++ s ∷ [])
              × ((u : Tx) → u ≢ tx → Open u p → Open u p' × (pending u p' ≡ pending u p)))
  pub queried :
      (ctx : Ctx) (p p' : P) (tx : Tx) (s : Statement) (id : ℤ) (err : Option E)
      → pgx.query_row ctx tx s p ≡ (id, err, p')
      → Open tx p
      → (committed p' ≡ committed p)
        × (err ≡ none → Open tx p' × (pending tx p' ≡ pending tx p ++ s ∷ []))
  pub commits :
      (ctx : Ctx) (p p' : P) (tx : Tx) (err : Option E)
      → pgx.commit ctx tx p ≡ (err, p')
      → Open tx p
      → ((committed p' ≡ committed p) ⊎ (committed p' ≡ apply (pending tx p) (committed p)))
        × (err ≡ none
            → (committed p' ≡ apply (pending tx p) (committed p))
              × ((u : Tx) → u ≢ tx → Open u p → Open u p' × (pending u p' ≡ pending u p)))
  pub rolls_back :
      (ctx : Ctx) (p : P) (tx : Tx)
      → let p' = (pgx.rollback ctx tx p).1 in
        (committed p' ≡ committed p)
        × ((u : Tx) → u ≢ tx → Open u p → Open u p' × (pending u p' ≡ pending u p))
  pub selected :
      (d : Destination) (ctx : Ctx) (p : P) (tx : Tx) (s : Statement)
      → let (_, _, p') = pgx.select d ctx tx s p in
        (committed p' ≡ committed p) × (Open tx p → Open tx p' × (pending tx p' ≡ pending tx p))

pub done-cases :
    {E P : Type 0} (r : Option E × P)
    → ((p : P) × (r ≡ (none, p))) ⊎ ((e : E) × (p : P) × (r ≡ (some e, p)))
done-cases (none, p) = inl (p, refl)
done-cases (some e, p) = inr (e, p, refl)

pub begun-cases :
    {E Tx P : Type 0} (r : Begun E Tx × P)
    → ((e : E) × (p : P) × (r ≡ (not_begun e, p))) ⊎ ((tx : Tx) × (p : P) × (r ≡ (begun tx, p)))
begun-cases (not_begun e, p) = inl (e, p, refl)
begun-cases (begun tx, p) = inr (tx, p, refl)

module _ {Ctx E Tx P : Type 0} {pgx : Pgx Ctx E Tx P} {Db : Type 0} {committed : P → Db}
    {Open : Tx → P → Type 0} {pending : Tx → P → List Statement} {apply : List Statement → Db → Db}
    (laws : TxLaws pgx committed Open pending apply) where
  -- A function that a transaction runs leaves the database alone, and without an error it has added
  -- statements of one of the lists that `Good` allows.
  abbrev pub Writes : (List Statement → Type 0) → Tx → P → Option E × P → Type 0
  Writes Good tx p (err, p') =
      (committed p' ≡ committed p)
      × (err ≡ none
          → Open tx p' × (ss : List Statement) × Good ss × (pending tx p' ≡ pending tx p ++ ss))

  -- The transaction is committed with all its statements, or fails; a failed commit may have taken place.
  abbrev pub AllOrNothing : (List Statement → Type 0) → P → Option E × P → Type 0
  AllOrNothing Good p (err, p') =
      ((err ≡ none) × (ss : List Statement) × Good ss × (committed p' ≡ apply ss (committed p)))
      ⊎ ((e : E) × (err ≡ some e)
          × ((committed p' ≡ committed p)
              ⊎ ((ss : List Statement) × Good ss × (committed p' ≡ apply ss (committed p)))))

  settled :
      (Good : List Statement → Type 0) (p : P) {x y : Option E × P}
      → x ≡ y
      → AllOrNothing Good p y
      → AllOrNothing Good p x
  settled Good p e a = subst (AllOrNothing Good p) (sym e) a

  outcome :
      (Good : List Statement → Type 0) (p : P) {x y : (Option (Unit {0}) × Option E) × P}
      → x ≡ y
      → AllOrNothing Good p (y.0.1, y.1)
      → AllOrNothing Good p (x.0.1, x.1)
  outcome Good p e a =
      subst (λ (z : (Option (Unit {0}) × Option E) × P). AllOrNothing Good p (z.0.1, z.1)) (sym e) a

  finish_lem :
      (Good : List Statement → Type 0) (ctx : Ctx) (tx : Tx) (p p1 : P) (r : Option E × P)
      → committed p1 ≡ committed p
      → pending tx p1 ≡ []
      → Writes Good tx p1 r
      → let ((_, err), p') = finish pgx {A = Unit {0}} ctx tx (no_result r) in
        AllOrNothing Good p (err, p')
  unfolding finish
  finish_lem Good ctx tx p p1 (some e, p2) same fresh (kept, _) = inr (e, refl, inl (kept ∙ same))
  finish_lem Good ctx tx p p1 (none, p2) same fresh (kept, goes) =
      let (open_, ss, good, added) = goes refl in
      let all : pending tx p2 ≡ ss = rw (added, fresh) refl in
      let before : committed p2 ≡ committed p = kept ∙ same in
      elim (done-cases (pgx.commit ctx tx p2)) [
        | inl (p3, ran) ↦
            let (_, done) = laws.commits ctx p2 p3 tx none ran open_ in
            let out : finish pgx {A = Unit {0}} ctx tx (none, none, p2) ≡ ((none, none), p3) =
              rw (finish, ran, ran) refl in
            outcome Good p out (inl (refl, ss, good, rw (← all, ← before) (done refl).0))
        | inr (e, p3, ran) ↦
            let (either, _) = laws.commits ctx p2 p3 tx (some e) ran open_ in
            let out : finish pgx {A = Unit {0}} ctx tx (none, none, p2) ≡ ((none, some e), p3) =
              rw (finish, ran, ran) refl in
            outcome Good p out (
              inr (
                e,
                refl,
                elim either [
                  | inl nothing ↦ inl (nothing ∙ before)
                  | inr everything ↦ inr (ss, good, rw (← all, ← before) everything)
                ],
              ))
      ]

  AllOrNothing-committed :
      (Good : List Statement → Type 0) (p p' p'' : P) (err : Option E)
      → AllOrNothing Good p (err, p')
      → committed p'' ≡ committed p'
      → AllOrNothing Good p (err, p'')
  AllOrNothing-committed Good p p' p'' err a same = rw same a

  -- A function that adds good statements and no others, in a transaction of its own.
  pub in_tx_lem :
      (Good : List Statement → Type 0) (ctx : Ctx) (f : Tx → P → Option E × P) (p : P)
      → ((tx : Tx) (p1 : P) → Open tx p1 → Writes Good tx p1 (f tx p1))
      → AllOrNothing Good p (in_tx pgx ctx f p)
  unfolding in_tx with_tx rolled_back
  in_tx_lem Good ctx f p writes = elim (begun-cases (pgx.begin_tx ctx p)) [
    | inl (e, p1, ran) ↦
        let out : in_tx pgx ctx f p ≡ (some e, p1) = rw (in_tx, with_tx, ran, ran) refl in
        settled Good p out (inr (e, refl, inl (laws.refused ctx p p1 e ran)))
    | inr (tx, p1, ran) ↦
        let (same, open_, fresh, _) = laws.opened ctx p p1 tx ran in
        let r : (Option (Unit {0}) × Option E) × P = finish pgx ctx tx (no_result (f tx p1)) in
        let out : in_tx pgx ctx f p ≡ (r.0.1, (pgx.rollback ctx tx r.1).1) =
          rw (in_tx, with_tx, ran, ran) refl in
        settled Good p out (
          AllOrNothing-committed Good p _ _ _
            (finish_lem Good ctx tx p p1 (f tx p1) same fresh (writes tx p1 open_))
            (laws.rolls_back ctx _ tx).0)
  ]
