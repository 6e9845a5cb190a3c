-- ===== src/Persist.antt =====
-- backend/ledgerloop/worker/persist.py: the reads and the one write of the matcher. Each function is
-- one database transaction's part; the readings of the clock inside one transaction are one instant.
pub mod Settle
pub mod Invariant
pub mod Stored
pub mod Written
pub mod Cases
pub mod Preserved
pub mod Reads
pub mod Pending
pub mod Accepted
pub mod Stale
use ledger_loop.Prelude.{
  ℕ, ◌+◌, ◌-◌, max, String, Bool, true, false, ◌&&◌, Option, none, some, List, [], ◌∷◌, map, ltb,
  leb, ◌==◌, if◌then◌else◌, str_eq, is_none, is_some, take, find, filter,
}
use mathlib.Core.Option
use ledger_loop.Enums.{IngestSource, suppressed_statuses}
use ledger_loop.Matching.{TxnFacts, MatchConfig, Decision, opens_exception}
use ledger_loop.Store.{
  accepts, RawRow, ReconciliationResult, ExceptionRow, Db, table, insert_result, insert_exception,
}

-- `now` is the clock; `millis d` is `int(d.total_seconds() * 1000)` at a duration that is not
-- negative, which Python computes in floating point.
pub record Clock : Type 0 where
  pub now : ℕ
  pub millis : ℕ → ℕ

abbrev pub other_side : IngestSource → IngestSource
other_side IngestSource.gateway = IngestSource.ledger
other_side IngestSource.ledger = IngestSource.gateway

unfoldable pub facts : IngestSource → RawRow → TxnFacts
facts side row = record {
  side = side;
  tenant_id = row.tenant_id;
  row_id = row.id;
  txn_id = row.txn_id;
  amount = row.amount;
  currency = row.currency;
  occurred_at = row.occurred_at;
  received_at = row.received_at;
}

pub record PersistResult : Type 0 where
  pub written : Bool
  pub result_id : Option ℕ
  pub exception_opened : Bool

unfoldable pub load_facts : IngestSource → ℕ → Db → Option TxnFacts
load_facts source row_id db =
    Option.map (facts source) (find (λ (row : RawRow). row.id == row_id) (table source db))

-- The WHERE clause of `find_counterparties`.
unfoldable pub plausible : TxnFacts → MatchConfig → RawRow → Bool
plausible candidate config row =
    (row.tenant_id == candidate.tenant_id)
    && str_eq row.txn_id candidate.txn_id
    && leb (candidate.occurred_at - config.drift_window) row.occurred_at
    && leb row.occurred_at (candidate.occurred_at + config.drift_window)
    && is_none row.reconciled_at

unfoldable pub find_counterparties : TxnFacts → MatchConfig → Db → List TxnFacts
find_counterparties candidate config db =
    let side = other_side candidate.side in
    map (facts side) (filter (plausible candidate config) (table side db))

unfoldable pub latest_receipt : ℕ → List TxnFacts → ℕ
latest_receipt best [] = best
latest_receipt best (f ∷ fs) = latest_receipt (max best f.received_at) fs

unfoldable pub compute_latency_ms : List TxnFacts → Clock → ℕ
compute_latency_ms [] clock = 0
compute_latency_ms (f ∷ fs) clock =
    if leb (latest_receipt f.received_at fs) clock.now
    then clock.millis (clock.now - latest_receipt f.received_at fs)
    else 0

-- `UPDATE ... SET reconciled_at = now WHERE id = :row_id AND reconciled_at IS NULL` on one table.
unfoldable pub mark_row : ℕ → Option ℕ → RawRow → RawRow
mark_row now none row = row
mark_row now (some row_id) row =
    if (row.id == row_id) && is_none row.reconciled_at
    then record row { reconciled_at = some now }
    else row

unfoldable pub mark_reconciled : Clock → Decision → Db → Db
mark_reconciled clock decision db = record db {
  gateway_transactions = map (mark_row clock.now decision.gateway_row_id) db.gateway_transactions;
  ledger_entries = map (mark_row clock.now decision.ledger_row_id) db.ledger_entries;
}

-- The values of `apply_decision`'s INSERT, with the id that the identity column gives.
abbrev pub result_row : Clock → Decision → ℕ → Option ℕ → Option String → ℕ → ReconciliationResult
result_row clock decision tenant_id latency_ms message_id id = record {
  id = id;
  tenant_id = tenant_id;
  gateway_txn_id = decision.gateway_row_id;
  ledger_entry_id = decision.ledger_row_id;
  status = decision.status;
  match_layer = decision.layer;
  notes = decision.notes;
  match_latency_ms = latency_ms;
  resolved_at = clock.now;
  source_message_id = message_id;
}

abbrev pub exception_row : Clock → ℕ → ℕ → ℕ → ExceptionRow
exception_row clock tenant_id result_id id = record {
  id = id;
  tenant_id = tenant_id;
  reconciliation_result_id = result_id;
  opened_at = clock.now;
  closed_at = none;
  resolution_notes = none;
}

-- `if decision.status is not ReconStatus.DUPLICATE: await _mark_reconciled(...)`
unfoldable pub settle : Clock → Decision → Db → Db
settle clock decision db =
    if suppressed_statuses decision.status then db else mark_reconciled clock decision db

-- `if decision.opens_exception: ...`
unfoldable pub open_exception : Clock → Decision → ℕ → ℕ → Db → Bool × Db
open_exception clock decision tenant_id result_id db =
    if opens_exception decision
    then (let (opened, db') =
          insert_exception (exception_row clock tenant_id result_id db.next_exception) db in
        (is_some opened, db'))
    else (false, db)

-- What follows the INSERT, which returned an id or met a conflict.
unfoldable pub after_insert : Clock → Decision → ℕ → Option ℕ × Db → PersistResult × Db
after_insert clock decision tenant_id (none, db) =
    (record { written = false; result_id = none; exception_opened = false }, db)
after_insert clock decision tenant_id (some result_id, db) =
    let (opened, db') =
      open_exception clock decision tenant_id result_id (settle clock decision db) in
    (record { written = true; result_id = some result_id; exception_opened = opened }, db')

-- `apply_decision` where its INSERT does not raise.
unfoldable pub apply_decision :
    Clock → Decision → ℕ → Option ℕ → Option String → Db → PersistResult × Db
apply_decision clock decision tenant_id latency_ms message_id db =
    after_insert clock decision tenant_id
      (insert_result (result_row clock decision tenant_id latency_ms message_id db.next_result) db)

-- `apply_decision`, none where its INSERT raises.
unfoldable pub write_decision :
    Clock → Decision → ℕ → Option ℕ → Option String → Db → Option (PersistResult × Db)
write_decision clock decision tenant_id latency_ms message_id db =
    if accepts (result_row clock decision tenant_id latency_ms message_id db.next_result) db
    then some (apply_decision clock decision tenant_id latency_ms message_id db)
    else none

-- `ORDER BY received_at`
unfoldable pub insert_by_receipt : RawRow → List RawRow → List RawRow
insert_by_receipt row [] = row ∷ []
insert_by_receipt row (r ∷ rs) =
    let rest = insert_by_receipt row rs in
    if ltb r.received_at row.received_at then r ∷ rest else row ∷ r ∷ rs

unfoldable pub order_by_receipt : List RawRow → List RawRow
order_by_receipt [] = []
order_by_receipt (row ∷ rows) = insert_by_receipt row (order_by_receipt rows)

unfoldable pub find_stale_pending : Clock → IngestSource → ℕ → ℕ → Db → List TxnFacts
find_stale_pending clock source older_than limit db = map (facts source) (
    take limit (
      order_by_receipt (
        filter
          (λ (row : RawRow).
            is_none row.reconciled_at && ltb (row.received_at + older_than) clock.now)
          (table source db))))
