-- ===== src/System/Outbox.antt =====
-- The outbox under the steps that write decisions, close cases or publish: backend/ledgerloop/worker/
-- persist.py and services/queries.py leave it alone, and queue/relay.py keeps the ids of its events.
use ledger_loop.Prelude.{
  ℕ, ◌≡◌, refl, ap, ◌∙◌, inl, inr, Bool, String, Option, none, some, List, [], ◌∷◌, any, map,
  Bool-cases, ◌==◌, Falling-map,
}
use ledger_loop.Enums.{IngestSource, suppressed_statuses}
use ledger_loop.Matching.{Decision, opens_exception}
use ledger_loop.Messages.{IngestMessage}
use ledger_loop.Store.{
  OutboxEvent, ReconciliationResult, ExceptionRow, Db, table, violates, insert_result,
  insert_exception,
}
use ledger_loop.Persist.{
  Clock, result_row, exception_row, mark_reconciled, settle, open_exception, after_insert,
  apply_decision,
}
use ledger_loop.Persist.Invariant.{Inv}
use ledger_loop.Coherence.{Coherent}
use ledger_loop.Queries.Feeds.{Feeds}
use ledger_loop.Ingest.{next_raw}
use ledger_loop.Ingest.Extends.{Extends-Inv}
use ledger_loop.Ingest.Rows.{RawInv}
use ledger_loop.Ingest.Bumps.{Beside, Beside-Extends, Beside-RawInv}
use ledger_loop.Relay.{mark_event, mark_published, publish_many, publish_claimed, claim, drain_once}
use ledger_loop.Relay.Delivery.{mark_event-payload}
use ledger_loop.System.Ingestion.{Queued, same-Queued}

abbrev queue : Db → List OutboxEvent × ℕ
queue db = (db.outbox_events, db.next_outbox)

insert_result-queue : (r : ReconciliationResult) (db : Db) → queue (insert_result r db).1 ≡ queue db
unfolding insert_result
insert_result-queue r db = elim (Bool-cases (any (violates r) db.results)) [
  | inl q ↦ rw q refl
  | inr q ↦ rw q refl
]

insert_exception-queue : (x : ExceptionRow) (db : Db) → queue (insert_exception x db).1 ≡ queue db
unfolding insert_exception
insert_exception-queue x db =
    elim (Bool-cases (
      any (λ (y : ExceptionRow). y.reconciliation_result_id == x.reconciliation_result_id)
        db.exceptions)) [ inl q ↦ rw q refl | inr q ↦ rw q refl ]

settle-queue : (clock : Clock) (d : Decision) (db : Db) → queue (settle clock d db) ≡ queue db
unfolding settle mark_reconciled
settle-queue clock d db = elim (Bool-cases (suppressed_statuses d.status)) [
  | inl q ↦ rw q refl
  | inr q ↦ rw q refl
]

open_exception-queue :
    (clock : Clock) (d : Decision) (tenant i : ℕ) (db : Db)
    → queue (open_exception clock d tenant i db).1 ≡ queue db
unfolding open_exception
open_exception-queue clock d tenant i db = elim (Bool-cases (opens_exception d)) [
  | inl q ↦ rw q (insert_exception-queue (exception_row clock tenant i db.next_exception) db)
  | inr q ↦ rw q refl
]

after_insert-queue :
    (clock : Clock) (d : Decision) (tenant : ℕ) (inserted : Option ℕ) (db : Db)
    → queue (after_insert clock d tenant (inserted, db)).1 ≡ queue db
unfolding after_insert
after_insert-queue clock d tenant none db = refl
after_insert-queue clock d tenant (some i) db =
    open_exception-queue clock d tenant i (settle clock d db) ∙ settle-queue clock d db

pub apply_decision-Queued :
    (clock : Clock) (d : Decision) (tenant : ℕ) (latency : Option ℕ) (message : Option String)
    (db : Db)
    → Queued db
    → Queued (apply_decision clock d tenant latency message db).1
unfolding apply_decision
apply_decision-Queued clock d tenant latency message db v =
    let row = result_row clock d tenant latency message db.next_result in
    let put = insert_result row db in
    let same = after_insert-queue clock d tenant put.0 put.1 ∙ insert_result-queue row db in
    same-Queued db (after_insert clock d tenant put).1 (ap (λ t. t.0) same) (ap (λ t. t.1) same) v

-- What every component asks of a store.
abbrev pub WellFormed : Db → Type 0
WellFormed db = Inv db × RawInv db × Feeds db × Coherent db × Queued db

mark_published-WellFormed :
    (now : ℕ) (rows : List OutboxEvent) (db : Db)
    → WellFormed db
    → WellFormed (mark_published now rows db)
unfolding mark_published
mark_published-WellFormed now rows db (v, w, f, c, q) =
    let db' = mark_published now rows db in
    (
      Extends-Inv db db' v (Beside-Extends db db' beside v),
      Beside-RawInv db db' beside w,
      record { results = f.results; cases = f.cases },
      c,
      Falling-map (λ (e : OutboxEvent). e.id) (mark_event now rows) db.next_outbox db.outbox_events
          (λ e. (mark_event-payload now rows e).1) q,
    )
  where
    beside : Beside db (mark_published now rows db)
    beside = record {
      rows = tables;
      next = nexts;
      results = refl;
      exceptions = refl;
      next_result = refl;
    }
      where
        tables : (side : IngestSource) → table side (mark_published now rows db) ≡ table side db
        tables IngestSource.gateway = refl
        tables IngestSource.ledger = refl

        nexts :
            (side : IngestSource) → next_raw side (mark_published now rows db) ≡ next_raw side db
        nexts IngestSource.gateway = refl
        nexts IngestSource.ledger = refl

module _ {S : Type 0} (xadd : ℕ → IngestMessage → S → Bool × S) (maxlen now : ℕ) where
  claimed-WellFormed :
      (rows : List OutboxEvent) (db : Db) (s : S)
      → WellFormed db
      → WellFormed (publish_claimed xadd maxlen now rows db s).1
  unfolding publish_claimed
  claimed-WellFormed [] db s v = v
  claimed-WellFormed (e ∷ es) db s v =
      elim (Bool-cases
        (publish_many xadd maxlen (map (λ (r : OutboxEvent). r.payload) (e ∷ es)) s).0) [
          | inl sent ↦ rw sent (mark_published-WellFormed now (e ∷ es) db v)
          | inr failed ↦ rw failed v
        ]

  -- A round of the relay keeps the store well formed.
  pub drain_once-WellFormed :
      (locked : ℕ → Bool) (batch : ℕ) (db : Db) (s : S)
      → WellFormed db
      → WellFormed (drain_once xadd maxlen now locked batch db s).1
  unfolding drain_once
  drain_once-WellFormed locked batch db s v = claimed-WellFormed (claim locked batch db) db s v
