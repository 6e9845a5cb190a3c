-- ===== src/Persist/Stored.antt =====
-- What `apply_decision` of backend/ledgerloop/worker/persist.py does on its two paths.
use ledger_loop.Prelude.{
  ℕ, ◌+◌, ◌≡◌, refl, ap, ◌∙◌, Bool, true, false, Option, none, some, String, ◌∷◌, map, arith, any,
  any-witness, subst, inl, inr, ◌==◌, if◌then◌else◌, Bool-cases, In, List,
}
use ledger_loop.Enums.{IngestSource}
use ledger_loop.Matching.{Decision, opens_exception}
use ledger_loop.Store.{ReconciliationResult, ExceptionRow, Db, table, violates, insert_exception}
use ledger_loop.Store.Indexes.{insert_result_conflict, insert_result_stored}
use ledger_loop.Persist.{
  Clock, PersistResult, result_row, exception_row, settle, open_exception, after_insert,
  apply_decision,
}
use ledger_loop.Persist.Settle.{settle_row, table-settle, settle_keeps}
use ledger_loop.Persist.Invariant.{Inv}

module _ (clock : Clock) (d : Decision) (tenant : ℕ) (latency : Option ℕ) (message : Option String)
    (db : Db) where
  abbrev pub new_result : ReconciliationResult
  new_result = result_row clock d tenant latency message db.next_result

  abbrev pub new_exceptions : List ExceptionRow
  new_exceptions =
      if opens_exception d
      then exception_row clock tenant db.next_result db.next_exception ∷ db.exceptions
      else db.exceptions

  -- The store after a decision is written.
  pub record Stored (db' : Db) : Type 0 where
    pub tables :
        (side : IngestSource) → table side db' ≡ map (settle_row clock d side) (table side db)
    pub results : db'.results ≡ new_result ∷ db.results
    pub next_result : db'.next_result ≡ db.next_result + 1
    pub exceptions : db'.exceptions ≡ new_exceptions
    pub outbox : db'.outbox_events ≡ db.outbox_events

  abbrev inserted : Db
  inserted = record db { results = new_result ∷ db.results; next_result = db.next_result + 1 }

  -- The store once the raw rows are marked.
  abbrev marked : Db
  marked = settle clock d inserted

  abbrev with_case : Db
  with_case = record marked {
    exceptions =
        exception_row clock tenant db.next_result marked.next_exception ∷ marked.exceptions;
    next_exception = marked.next_exception + 1;
  }

  abbrev pub wrote : Bool → PersistResult
  wrote opened = record {
    written = true;
    result_id = some db.next_result;
    exception_opened = opened;
  }

  apply_decision-marked :
      any (violates new_result) db.results ≡ false
      → apply_decision clock d tenant latency message db ≡ (
        wrote (open_exception clock d tenant db.next_result marked).0,
        (open_exception clock d tenant db.next_result marked).1,
      )
  unfolding apply_decision after_insert
  apply_decision-marked h = ap (after_insert clock d tenant) (insert_result_stored new_result db h)

  open_exception_opens :
      any (λ (x : ExceptionRow). x.reconciliation_result_id == db.next_result) marked.exceptions
        ≡ false
      → opens_exception d ≡ true
      → open_exception clock d tenant db.next_result marked ≡ (true, with_case)
  unfolding open_exception insert_exception
  open_exception_opens h e = rw (e, h)

  open_exception_skips :
      opens_exception d ≡ false
      → open_exception clock d tenant db.next_result marked ≡ (false, marked)
  unfolding open_exception
  open_exception_skips e = rw e

  marked-tables :
      (side : IngestSource) → table side marked ≡ map (settle_row clock d side) (table side db)
  marked-tables IngestSource.gateway = table-settle clock d IngestSource.gateway inserted
  marked-tables IngestSource.ledger = table-settle clock d IngestSource.ledger inserted

  with_case-tables : (side : IngestSource) → table side with_case ≡ table side marked
  with_case-tables IngestSource.gateway = refl
  with_case-tables IngestSource.ledger = refl

  no_case_yet :
      Inv db
      → any (λ (x : ExceptionRow). x.reconciliation_result_id == db.next_result) marked.exceptions
        ≡ false
  no_case_yet v =
      elim (Bool-cases (
        any (λ (x : ExceptionRow). x.reconciliation_result_id == db.next_result)
          marked.exceptions)) [
            | inr e ↦ e
            | inl e ↦
                let (x, there, same) = any-witness _ marked.exceptions e in
                let c = v.justified x (subst (In x) (settle_keeps clock d inserted).1 there) in
                let below = v.result_below c.result c.stored in
                let same_id : x.reconciliation_result_id ≡ db.next_result = ground arith in
                absurd (omega (arith, below, c.key, same_id))
          ]

  -- Where the table accepts the result: on a well-formed store a conflict-free decision is written, the
  -- result is the new one, the rows it names are marked, a case is opened exactly when the status needs
  -- a human, and nothing else changes.
  pub apply_decision-Stored :
      Inv db
      → any (violates new_result) db.results ≡ false
      → ((apply_decision clock d tenant latency message db).0 ≡ wrote (opens_exception d))
        × Stored (apply_decision clock d tenant latency message db).1
  apply_decision-Stored v h = elim (Bool-cases (opens_exception d)) [
    | inl e ↦
        let opened = open_exception_opens (no_case_yet v) e in
        rw (apply_decision-marked h, opened, e)
          (
            refl,
            record {
              tables = λ side. with_case-tables side ∙ marked-tables side;
              results = (settle_keeps clock d inserted).0;
              next_result = (settle_keeps clock d inserted).2;
              exceptions = ground (arith, settle_keeps clock d inserted, e);
              outbox = (settle_keeps clock d inserted).4;
            },
          )
    | inr e ↦
        rw (apply_decision-marked h, open_exception_skips e, e)
          (
            refl,
            record {
              tables = marked-tables;
              results = (settle_keeps clock d inserted).0;
              next_result = (settle_keeps clock d inserted).2;
              exceptions = ground (arith, settle_keeps clock d inserted, e);
              outbox = (settle_keeps clock d inserted).4;
            },
          )
  ]

  -- A conflict writes nothing.
  pub apply_decision_conflict :
      any (violates new_result) db.results ≡ true
      → apply_decision clock d tenant latency message db
        ≡ (record { written = false; result_id = none; exception_opened = false }, db)
  unfolding apply_decision after_insert
  apply_decision_conflict h =
      ap (after_insert clock d tenant) (insert_result_conflict new_result db h)
