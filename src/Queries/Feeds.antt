-- ===== src/Queries/Feeds.antt =====
-- The order of the tables behind backend/ledgerloop/services/queries.py: the results and the cases stand
-- newest first, by falling ids below the next one, whatever backend/ledgerloop/worker/persist.py writes.
use ledger_loop.Prelude.{
  ℕ, ◌≡◌, refl, inl, inr, Option, none, some, String, arith, any, Bool-cases, Falling, ◌==◌,
}
use ledger_loop.Enums.{suppressed_statuses}
use ledger_loop.Matching.{Decision, opens_exception}
use ledger_loop.Store.{
  ReconciliationResult, ExceptionRow, Db, violates, insert_result, insert_exception,
}
use ledger_loop.Persist.{
  Clock, result_row, exception_row, mark_reconciled, settle, open_exception, after_insert,
  apply_decision,
}

pub record Feeds (db : Db) : Type 0 where
  pub results : Falling (λ (r : ReconciliationResult). r.id) db.next_result db.results
  pub cases : Falling (λ (e : ExceptionRow). e.id) db.next_exception db.exceptions

insert_result-Feeds :
    (r : ReconciliationResult) (db : Db)
    → r.id ≡ db.next_result
    → Feeds db
    → Feeds (insert_result r db).1
unfolding insert_result
insert_result-Feeds r db e v = elim (Bool-cases (any (violates r) db.results)) [
  | inl q ↦ rw q v
  | inr q ↦ rw q (record { results = (omega (arith, e), rw e v.results); cases = v.cases })
]

insert_exception-Feeds :
    (x : ExceptionRow) (db : Db)
    → x.id ≡ db.next_exception
    → Feeds db
    → Feeds (insert_exception x db).1
unfolding insert_exception
insert_exception-Feeds x db e v =
    elim (Bool-cases (
      any (λ (y : ExceptionRow). y.reconciliation_result_id == x.reconciliation_result_id)
        db.exceptions)) [
          | inl q ↦ rw q v
          | inr q ↦ rw q (record { results = v.results; cases = (omega (arith, e), rw e v.cases) })
        ]

settle-Feeds : (clock : Clock) (d : Decision) (db : Db) → Feeds db → Feeds (settle clock d db)
unfolding settle mark_reconciled
settle-Feeds clock d db v = elim (Bool-cases (suppressed_statuses d.status)) [
  | inl q ↦ rw q v
  | inr q ↦ rw q (record { results = v.results; cases = v.cases })
]

open_exception-Feeds :
    (clock : Clock) (d : Decision) (tenant result_id : ℕ) (db : Db)
    → Feeds db
    → Feeds (open_exception clock d tenant result_id db).1
unfolding open_exception
open_exception-Feeds clock d tenant result_id db v = elim (Bool-cases (opens_exception d)) [
  | inl q ↦
      rw q
        (insert_exception-Feeds (exception_row clock tenant result_id db.next_exception) db refl v)
  | inr q ↦ rw q v
]

after_insert-Feeds :
    (clock : Clock) (d : Decision) (tenant : ℕ) (inserted : Option ℕ) (db : Db)
    → Feeds db
    → Feeds (after_insert clock d tenant (inserted, db)).1
unfolding after_insert
after_insert-Feeds clock d tenant none db v = v
after_insert-Feeds clock d tenant (some i) db v =
    open_exception-Feeds clock d tenant i (settle clock d db) (settle-Feeds clock d db v)

-- Writing a decision keeps both tables in the order of their falling ids.
pub apply_decision-Feeds :
    (clock : Clock) (d : Decision) (tenant : ℕ) (latency : Option ℕ) (message : Option String)
    (db : Db)
    → Feeds db
    → Feeds (apply_decision clock d tenant latency message db).1
unfolding apply_decision
apply_decision-Feeds clock d tenant latency message db v =
    let row = result_row clock d tenant latency message db.next_result in
    after_insert-Feeds clock d tenant (insert_result row db).0 (insert_result row db).1
      (insert_result-Feeds row db refl v)
