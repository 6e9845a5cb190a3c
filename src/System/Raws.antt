-- ===== src/System/Raws.antt =====
-- Writing a decision and closing a case leave the ids and the keys of the raw rows as they are.
use ledger_loop.Prelude.{
  ℕ, ◌≡◌, sym, ap, ◌∙◌, subst, inl, inr, String, Option, none, some, arith, Bool-cases, In, In-map,
  Falling-map,
}
use ledger_loop.Enums.{IngestSource}
use ledger_loop.Matching.{Decision, opens_exception}
use ledger_loop.Store.{
  RawRow, ReconciliationResult, ExceptionRow, Db, table, insert_result, insert_exception,
}
use ledger_loop.Persist.{
  Clock, result_row, exception_row, mark_reconciled, settle, open_exception, after_insert,
  apply_decision,
}
use ledger_loop.Persist.Settle.{
  settle_row, settle_row-id, settle_row-tenant_id, settle_row-key, table-settle,
}
use ledger_loop.Tenancy.{Tenant}
use ledger_loop.Queries.Close.{closed_db}
use ledger_loop.Ingest.{next_raw}
use ledger_loop.Ingest.Rows.{RawInv}

-- The raw tables of one store are another's, with each row settled or not.
record Same (db db' : Db) : Type 0 where
  tables : (side : IngestSource) → table side db' ≡ table side db
  nexts : (side : IngestSource) → next_raw side db' ≡ next_raw side db

Same-RawInv : (db db' : Db) → Same db db' → RawInv db → RawInv db'
Same-RawInv db db' s v = record {
  descending = λ side. rw (s.tables side, s.nexts side) (v.descending side);
  one_row = λ side a b ha hb.
      v.one_row side a b (subst (In a) (s.tables side) ha) (subst (In b) (s.tables side) hb);
}

insert_result-Same : (r : ReconciliationResult) (db : Db) → Same db (insert_result r db).1
unfolding insert_result
insert_result-Same r db = record { tables = λ side. ground arith; nexts = λ side. ground arith }

insert_exception-Same : (x : ExceptionRow) (db : Db) → Same db (insert_exception x db).1
unfolding insert_exception
insert_exception-Same x db = record { tables = λ side. ground arith; nexts = λ side. ground arith }

open_exception-RawInv :
    (clock : Clock) (d : Decision) (tenant i : ℕ) (db : Db)
    → RawInv db
    → RawInv (open_exception clock d tenant i db).1
unfolding open_exception
open_exception-RawInv clock d tenant i db v = elim (Bool-cases (opens_exception d)) [
  | inl q ↦
      let x = exception_row clock tenant i db.next_exception in
      rw q (Same-RawInv db (insert_exception x db).1 (insert_exception-Same x db) v)
  | inr q ↦ rw q v
]

next_raw-settle :
    (clock : Clock) (d : Decision) (side : IngestSource) (db : Db)
    → next_raw side (settle clock d db) ≡ next_raw side db
unfolding settle mark_reconciled
next_raw-settle clock d side db = ground arith

settle-RawInv : (clock : Clock) (d : Decision) (db : Db) → RawInv db → RawInv (settle clock d db)
settle-RawInv clock d db v = record {
  descending = λ side.
      rw (table-settle clock d side db, next_raw-settle clock d side db)
        (Falling-map (λ (r : RawRow). r.id) (settle_row clock d side) (next_raw side db)
          (table side db) (settle_row-id clock d side) (v.descending side));
  one_row = λ side a b ha hb t k.
      let f = settle_row clock d side in
      let (x, hx, ex) =
        In-map f a (table side db) (subst (In a) (table-settle clock d side db) ha) in
      let (y, hy, ey) =
        In-map f b (table side db) (subst (In b) (table-settle clock d side db) hb) in
      let tenants =
        sym (settle_row-tenant_id clock d side x)
        ∙ ap (λ (r : RawRow). r.tenant_id) ex
        ∙ t
        ∙ sym (ap (λ (r : RawRow). r.tenant_id) ey)
        ∙ settle_row-tenant_id clock d side y in
      let keys =
        sym (settle_row-key clock d side x)
        ∙ ap (λ (r : RawRow). r.idempotency_key) ex
        ∙ k
        ∙ sym (ap (λ (r : RawRow). r.idempotency_key) ey)
        ∙ settle_row-key clock d side y in
      sym ex ∙ ap f (v.one_row side x y hx hy tenants keys) ∙ ey;
}

after_insert-RawInv :
    (clock : Clock) (d : Decision) (tenant : ℕ) (inserted : Option ℕ) (db : Db)
    → RawInv db
    → RawInv (after_insert clock d tenant (inserted, db)).1
unfolding after_insert
after_insert-RawInv clock d tenant none db v = v
after_insert-RawInv clock d tenant (some i) db v =
    open_exception-RawInv clock d tenant i (settle clock d db) (settle-RawInv clock d db v)

pub apply_decision-RawInv :
    (clock : Clock) (d : Decision) (tenant : ℕ) (latency : Option ℕ) (message : Option String)
    (db : Db)
    → RawInv db
    → RawInv (apply_decision clock d tenant latency message db).1
unfolding apply_decision
apply_decision-RawInv clock d tenant latency message db v =
    let row = result_row clock d tenant latency message db.next_result in
    after_insert-RawInv clock d tenant (insert_result row db).0 (insert_result row db).1
      (Same-RawInv db (insert_result row db).1 (insert_result-Same row db) v)

pub closed_db-RawInv :
    (now : ℕ) (tenant : Tenant) (i : ℕ) (notes : String) (db : Db)
    → RawInv db
    → RawInv (closed_db now tenant i notes db)
closed_db-RawInv now tenant i notes db v =
    Same-RawInv db (closed_db now tenant i notes db)
      (record { tables = λ side. ground arith; nexts = λ side. ground arith }) v
