-- ===== src/Persist/Invariant.antt =====
-- The well-formedness of the store under backend/ledgerloop/worker/persist.py.
use ledger_loop.Prelude.{ℕ, ◌<◌, ◌≡◌, true, some, In, is_some}
use ledger_loop.Enums.{IngestSource, exception_statuses, is_active}
use ledger_loop.Matching.{Decision}
use ledger_loop.Store.{RawRow, ReconciliationResult, ExceptionRow, Db, table, side_id, violates}
use ledger_loop.Persist.Settle.{row_of}

-- A raw row that a result or a decision points at: it is there, and it is the tenant's.
pub record RowAt (db : Db) (side : IngestSource) (i tenant : ℕ) : Type 0 where
  pub row : RawRow
  pub stored : In row (table side db)
  pub key : row.id ≡ i
  pub owner : row.tenant_id ≡ tenant

-- The result that settled a raw row.
pub record SettledBy (db : Db) (side : IngestSource) (i : ℕ) : Type 0 where
  pub result : ReconciliationResult
  pub stored : In result db.results
  pub active : is_active result.status ≡ true
  pub points : side_id side result ≡ some i

-- The result that a case was opened for.
pub record CaseFor (db : Db) (e : ExceptionRow) : Type 0 where
  pub result : ReconciliationResult
  pub stored : In result db.results
  pub key : result.id ≡ e.reconciliation_result_id
  pub needs_human : exception_statuses result.status ≡ true
  pub owner : result.tenant_id ≡ e.tenant_id

pub record OpenedFor (db : Db) (r : ReconciliationResult) : Type 0 where
  pub case : ExceptionRow
  pub stored : In case db.exceptions
  pub key : case.reconciliation_result_id ≡ r.id

pub record Inv (db : Db) : Type 0 where
  -- Primary keys.
  pub raw_keys :
      (side : IngestSource) (a b : RawRow)
      → In a (table side db)
      → In b (table side db)
      → a.id ≡ b.id
      → a ≡ b
  pub result_below : (r : ReconciliationResult) → In r db.results → r.id < db.next_result
  pub result_keys :
      (r t : ReconciliationResult) → In r db.results → In t db.results → r.id ≡ t.id → r ≡ t
  -- Foreign keys, within one tenant, and CHECK at_least_one_side.
  pub referenced :
      (side : IngestSource) (r : ReconciliationResult) (i : ℕ)
      → In r db.results
      → side_id side r ≡ some i
      → RowAt db side i r.tenant_id
  pub sided :
      (r : ReconciliationResult)
      → In r db.results
      → (side : IngestSource) × (i : ℕ) × (side_id side r ≡ some i)
  -- The unique indexes.
  pub unique :
      (r t : ReconciliationResult) → In r db.results → In t db.results → violates r t ≡ true → r ≡ t
  -- A raw row is settled exactly when a result that is no duplicate marker points at it.
  pub settled :
      (side : IngestSource) (r : ReconciliationResult) (row : RawRow)
      → In r db.results
      → is_active r.status ≡ true
      → In row (table side db)
      → side_id side r ≡ some row.id
      → is_some row.reconciled_at ≡ true
  pub resolved :
      (side : IngestSource) (row : RawRow)
      → In row (table side db)
      → is_some row.reconciled_at ≡ true
      → SettledBy db side row.id
  -- A case is open for exactly the results that need a human, one each.
  pub opened :
      (r : ReconciliationResult)
      → In r db.results
      → exception_statuses r.status ≡ true
      → OpenedFor db r
  pub justified : (e : ExceptionRow) → In e db.exceptions → CaseFor db e
  pub one_case :
      (e f : ExceptionRow)
      → In e db.exceptions
      → In f db.exceptions
      → e.reconciliation_result_id ≡ f.reconciliation_result_id
      → e ≡ f

-- A decision that may be written for a tenant: it names a row, and each row it names is stored and
-- is the tenant's.
pub record Applies (db : Db) (d : Decision) (tenant : ℕ) : Type 0 where
  pub names : (side : IngestSource) × (i : ℕ) × (row_of side d ≡ some i)
  pub rows : (side : IngestSource) (i : ℕ) → row_of side d ≡ some i → RowAt db side i tenant
