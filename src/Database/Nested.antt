-- ===== src/Database/Nested.antt =====
-- `insertItems` of internal/db/repo.go: the transaction that it opens stays empty, and the items are written in
-- that of the caller.
use mathlib.Core.Path.{subst}
use wb_l.Database.Inserts.{
  in_tx, no_result, insert_items, insert_item, item_arguments, insert_each, after,
}
use wb_l.Models.{Item}
use wb_l.Database.Laws.{begun-cases, done-cases, TxLaws}
use wb_l.Database.{rolled_back, with_tx, finish, insert_item_query, Statement, Pgx}
use wb_l.Base.{◌∙◌, ap, some, [], ◌++◌, ◌≢◌, Option, sym, ◌≡◌, none, ◌∷◌, inl, List, refl, inr}
use mathlib.Core.List.{append_assoc, append-nil}

abbrev pub item_statements : List Item → List Statement
item_statements [] = []
item_statements (item ∷ items) = (insert_item_query, item_arguments item) ∷ item_statements items

module _ {Ctx E Tx P : Type 0} {pgx : Pgx Ctx E Tx P} {Db : Type 0} {committed : P → Db}
    {Open : Tx → P → Type 0} {pending : Tx → P → List Statement} {apply : List Statement → Db → Db}
    (laws : TxLaws pgx committed Open pending apply) where
  -- Without an error exactly these statements were added to an open transaction.
  abbrev pub Adds : List Statement → Tx → P → Option E × P → Type 0
  Adds ss tx p (err, p') =
      (committed p' ≡ committed p)
      × (err ≡ none → Open tx p' × (pending tx p' ≡ pending tx p ++ ss))

  -- The other transactions are as they were.
  abbrev Spares : Tx → P → P → Type 0
  Spares tx p p' = (u : Tx) → u ≢ tx → Open u p → Open u p' × (pending u p' ≡ pending u p)

  abbrev AddsOnly : List Statement → Tx → P → Option E × P → Type 0
  AddsOnly ss tx p (err, p') =
      (committed p' ≡ committed p)
      × (err ≡ none → Open tx p' × (pending tx p' ≡ pending tx p ++ ss) × Spares tx p p')

  pub after-Adds :
      (ss ts : List Statement) (tx : Tx) (p : P) (r : Option E × P) (f : P → Option E × P)
      → Adds ss tx p r
      → ((p1 : P) → Open tx p1 → Adds ts tx p1 (f p1))
      → Adds (ss ++ ts) tx p (after r f)
  after-Adds ss ts tx p (some e, p1) f (same, _) more = (same, λ h. absurd (cc))
  after-Adds ss ts tx p (none, p1) f (same, adds) more =
      let (open_, added) = adds refl in
      let (same', adds') = more p1 open_ in
      (
        same' ∙ same,
        λ h.
            let (open_', added') = adds' h in
            (open_', added' ∙ ap (λ xs. xs ++ ts) added ∙ append_assoc (pending tx p) ss ts),
      )

  by_outcome :
      (ss : List Statement) (q : Tx) (p : P) {x y : (Option (Unit {0}) × Option E) × P}
      → x ≡ y
      → Adds ss q p (y.0.1, y.1)
      → Adds ss q p (x.0.1, x.1)
  by_outcome ss q p e a =
      subst (λ (z : (Option (Unit {0}) × Option E) × P). Adds ss q p (z.0.1, z.1)) (sym e) a

  insert_each_lem :
      (ctx : Ctx) (tx : Tx) (items : List Item) (p : P)
      → Open tx p
      → AddsOnly (item_statements items) tx p (insert_each pgx ctx tx items p)
  unfolding insert_each insert_item
  insert_each_lem ctx tx [] p open_ =
      (refl, λ h. (open_, sym (append-nil (pending tx p)), λ u d o. (o, refl)))
  insert_each_lem ctx tx (item ∷ items) p open_ =
      elim (done-cases (pgx.exec ctx tx (insert_item_query, item_arguments item) p)) [
        | inl (p1, ran) ↦
            let (same, adds) = laws.executed ctx p p1 tx _ none ran open_ in
            let (open1, added, spares) = adds refl in
            let (same', adds') = insert_each_lem ctx tx items p1 open1 in
            rw ran (
              same' ∙ same,
              λ h.
                  let (open2, added', spares') = adds' h in
                  (
                    open2,
                    added'
                        ∙ ap (λ xs. xs ++ item_statements items) added
                        ∙ append_assoc (pending tx p) _ _,
                    λ u d o.
                        let (o1, e1) = spares u d o in
                        let (o2, e2) = spares' u d o1 in (o2, e2 ∙ e1),
                  ),
            )
        | inr (e, p1, ran) ↦
            rw ran ((laws.executed ctx p p1 tx _ (some e) ran open_).0, λ h. absurd (cc))
      ]

  -- `Commit` and `Rollback` of the empty transaction `i` in front of which `q` was used.
  close_empty :
      (ss : List Statement) (ctx : Ctx) (q i : Tx) (p p1 : P) (r : Option E × P)
      → q ≢ i
      → committed p1 ≡ committed p
      → pending q p1 ≡ pending q p
      → Open i p1
      → pending i p1 ≡ []
      → AddsOnly ss q p1 r
      → let ((_, err), p') = finish pgx {A = Unit {0}} ctx i (no_result r) in Adds ss q p (err, p')
  unfolding finish
  close_empty ss ctx q i p p1 (some e, p2) apart same kept open_i empty (same', _) =
      (same' ∙ same, λ h. absurd (cc))
  close_empty ss ctx q i p p1 (none, p2) apart same kept open_i empty (same', adds) =
      let (open_q, added, spares) = adds refl in
      let (open2, kept_i) = spares i (λ e. apart (sym e)) open_i in
      elim (done-cases (pgx.commit ctx i p2)) [
        | inl (p3, ran) ↦
            let (_, done) = laws.commits ctx p2 p3 i none ran open2 in
            let (all, spares') = done refl in
            let (open3, kept_q) = spares' q apart open_q in
            let out : finish pgx {A = Unit {0}} ctx i (none, none, p2) ≡ ((none, none), p3) =
              rw (finish, ran, ran) refl in
            by_outcome ss q p out (
              all
                  ∙ ap (λ xs. apply xs (committed p2)) (kept_i ∙ empty)
                  ∙ laws.apply_nil (committed p2)
                  ∙ same'
                  ∙ same,
              λ h. (open3, kept_q ∙ added ∙ ap (λ xs. xs ++ ss) kept),
            )
        | inr (e, p3, ran) ↦
            let (either, _) = laws.commits ctx p2 p3 i (some e) ran open2 in
            let out : finish pgx {A = Unit {0}} ctx i (none, none, p2) ≡ ((none, some e), p3) =
              rw (finish, ran, ran) refl in
            let nothing : committed p3 ≡ committed p2 = elim either [
              | inl e1 ↦ e1
              | inr e2 ↦
                  e2
                  ∙ ap (λ xs. apply xs (committed p2)) (kept_i ∙ empty)
                  ∙ laws.apply_nil (committed p2)
            ] in
            by_outcome ss q p out (nothing ∙ same' ∙ same, λ h. absurd (cc))
      ]

  pub insert_items_lem :
      (ctx : Ctx) (q : Tx) (items : List Item) (p : P)
      → Open q p
      → Adds (item_statements items) q p (insert_items pgx ctx q items p)
  unfolding insert_items in_tx with_tx rolled_back
  insert_items_lem ctx q items p open_q = elim (begun-cases (pgx.begin_tx ctx p)) [
    | inl (e, p1, ran) ↦
        let out : insert_items pgx ctx q items p ≡ (some e, p1) =
          rw (insert_items, in_tx, with_tx, ran, ran) refl in
        subst (Adds _ q p) (sym out) (laws.refused ctx p p1 e ran, λ h. absurd (cc))
    | inr (i, p1, ran) ↦
        let (same, open_i, empty, others) = laws.opened ctx p p1 i ran in
        let (apart, open_q1, kept) = others q open_q in
        let r : (Option (Unit {0}) × Option E) × P =
          finish pgx ctx i (no_result (insert_each pgx ctx q items p1)) in
        let out : insert_items pgx ctx q items p ≡ (r.0.1, (pgx.rollback ctx i r.1).1) =
          rw (insert_items, in_tx, with_tx, ran, ran) refl in
        let (same', adds) =
          close_empty _ ctx q i p p1 _ apart same kept open_i empty
            (insert_each_lem ctx q items p1 open_q1) in
        let (same'', spares) = laws.rolls_back ctx r.1 i in
        subst (Adds _ q p) (sym out) (
          same'' ∙ same',
          λ h.
              let (open3, added) = adds h in
              let (open4, kept4) = spares q apart open3 in (open4, kept4 ∙ added),
        )
  ]
