-- ===== src/Store.antt =====
-- backend/ledgerloop/db/models.py: the tables, and the unique indexes that decide between writers.
-- A table is the list of its rows, newest first. An identity column counts up with each row that is
-- stored. The columns that no modelled code reads (raw_payload, created_at) are left
-- out, and a gateway_ref or entry_id is the row's `reference`.
pub mod Indexes
use ledger_loop.Prelude.{
  ℕ, ◌+◌, String, Bool, true, false, not, ◌&&◌, ◌||◌, Option, none, some, List, ◌∷◌, ◌==◌, any, ltb,
  ◌^◌, is_some, if◌then◌else◌, ℤ,
}
use ledger_loop.Enums.{IngestSource, ReconStatus, MatchLayer, suppressed_statuses, is_active}
use ledger_loop.Matching.{Note}
use ledger_loop.Messages.{IngestMessage}

-- GatewayTransaction and LedgerEntry.
pub record RawRow : Type 0 where
  pub id : ℕ
  pub tenant_id : ℕ
  pub txn_id : String
  pub amount : ℤ
  pub currency : String
  pub occurred_at : ℕ
  pub reference : String
  pub idempotency_key : String
  pub duplicate_count : ℕ
  pub received_at : ℕ
  pub reconciled_at : Option ℕ

pub record OutboxEvent : Type 0 where
  pub id : ℕ
  pub source : IngestSource
  pub row_id : ℕ
  pub payload : IngestMessage
  pub published_at : Option ℕ
  pub attempts : ℕ

pub record ReconciliationResult : Type 0 where
  pub id : ℕ
  pub tenant_id : ℕ
  pub gateway_txn_id : Option ℕ
  pub ledger_entry_id : Option ℕ
  pub status : ReconStatus
  pub match_layer : MatchLayer
  pub notes : Option Note
  pub match_latency_ms : Option ℕ
  pub resolved_at : ℕ
  pub source_message_id : Option String

-- Exception_
pub record ExceptionRow : Type 0 where
  pub id : ℕ
  pub tenant_id : ℕ
  pub reconciliation_result_id : ℕ
  pub opened_at : ℕ
  pub closed_at : Option ℕ
  pub resolution_notes : Option String

pub record Db : Type 0 where
  pub gateway_transactions : List RawRow
  pub ledger_entries : List RawRow
  pub outbox_events : List OutboxEvent
  pub results : List ReconciliationResult
  pub exceptions : List ExceptionRow
  pub next_gateway : ℕ
  pub next_ledger : ℕ
  pub next_outbox : ℕ
  pub next_result : ℕ
  pub next_exception : ℕ

-- `_MODEL[side]` of worker/persist.py, as the table's rows.
abbrev pub table : IngestSource → Db → List RawRow
table IngestSource.gateway db = db.gateway_transactions
table IngestSource.ledger db = db.ledger_entries

-- The foreign key of a result into the table of a side.
abbrev pub side_id : IngestSource → ReconciliationResult → Option ℕ
side_id IngestSource.gateway r = r.gateway_txn_id
side_id IngestSource.ledger r = r.ledger_entry_id

abbrev pub same_id : Option ℕ → Option ℕ → Bool
same_id (some a) (some b) = a == b
same_id _ _ = false

-- One partial unique index over (tenant_id, a foreign key): the two rows cannot both be stored.
unfoldable pub index_hit :
    (ReconStatus → Bool) → IngestSource → ReconciliationResult → ReconciliationResult → Bool
index_hit covers side r s =
    covers r.status
    && covers s.status
    && (r.tenant_id == s.tenant_id)
    && same_id (side_id side r) (side_id side s)

-- Any of the four unique indexes of reconciliation_results.
unfoldable pub violates : ReconciliationResult → ReconciliationResult → Bool
violates r s =
    index_hit is_active IngestSource.gateway r s
    || index_hit is_active IngestSource.ledger r s
    || index_hit suppressed_statuses IngestSource.gateway r s
    || index_hit suppressed_statuses IngestSource.ledger r s

-- A foreign key into the table of a side.
abbrev pub points_at : IngestSource → Option ℕ → Db → Bool
points_at side none db = true
points_at side (some i) db = any (λ (row : RawRow). row.id == i) (table side db)

-- match_latency_ms is INTEGER.
abbrev pub fits_integer : Option ℕ → Bool
fits_integer none = true
fits_integer (some n) = ltb n (2 ^ 31)

-- What the INSERT of a result asks beside the unique indexes: its two foreign keys, CHECK
-- at_least_one_side and the range of the latency. It raises where one fails, which ON CONFLICT does not
-- cover.
unfoldable pub accepts : ReconciliationResult → Db → Bool
accepts r db =
    points_at IngestSource.gateway r.gateway_txn_id db
    && points_at IngestSource.ledger r.ledger_entry_id db
    && (is_some r.gateway_txn_id || is_some r.ledger_entry_id)
    && fits_integer r.match_latency_ms

-- `INSERT INTO reconciliation_results ... ON CONFLICT DO NOTHING RETURNING id` of a row that the table
-- accepts.
unfoldable pub insert_result : ReconciliationResult → Db → Option ℕ × Db
insert_result r db =
    if any (violates r) db.results
    then (none, db)
    else (some r.id, record db { results = r ∷ db.results; next_result = db.next_result + 1 })

-- `INSERT INTO exceptions ... ON CONFLICT (reconciliation_result_id) DO NOTHING RETURNING id`
unfoldable pub insert_exception : ExceptionRow → Db → Option ℕ × Db
insert_exception e db =
    if any (λ (x : ExceptionRow). x.reconciliation_result_id == e.reconciliation_result_id)
      db.exceptions
    then (none, db)
    else (
      some e.id,
      record db { exceptions = e ∷ db.exceptions; next_exception = db.next_exception + 1 },
    )
