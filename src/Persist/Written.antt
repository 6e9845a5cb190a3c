-- ===== src/Persist/Written.antt =====
-- A store that `apply_decision` of backend/ledgerloop/worker/persist.py has written, against the
-- store before.
use ledger_loop.Prelude.{
  ℕ, ◌≡◌, refl, sym, ◌∙◌, subst, ◌⊎◌, inl, inr, Option, String, In, In-map, map-In,
}
use ledger_loop.Enums.{IngestSource}
use ledger_loop.Matching.{Decision}
use ledger_loop.Store.{RawRow, ReconciliationResult, Db, table, side_id}
use ledger_loop.Persist.{Clock}
use ledger_loop.Persist.Settle.{row_of, settle_row, settle_row-id, settle_row-tenant_id}
use ledger_loop.Persist.Invariant.{RowAt}
use ledger_loop.Persist.Stored.{new_result, Stored}

module _ {clock : Clock} {d : Decision} {tenant : ℕ} {latency : Option ℕ} {message : Option String}
    {db db' : Db} (w : Stored clock d tenant latency message db db') where
  abbrev pub fresh : ReconciliationResult
  fresh = new_result clock d tenant latency message db

  -- A row of a table after the write comes from a row before it.
  pub row_before :
      (side : IngestSource) (row : RawRow)
      → In row (table side db')
      → (old : RawRow) × In old (table side db) × (settle_row clock d side old ≡ row)
  row_before side row h = In-map _ row (table side db) (subst (In row) (w.tables side) h)

  pub row_after :
      (side : IngestSource) (old : RawRow)
      → In old (table side db)
      → In (settle_row clock d side old) (table side db')
  row_after side old h = subst (In _) (sym (w.tables side)) (map-In _ old (table side db) h)

  pub result_cases : (r : ReconciliationResult) → In r db'.results → (fresh ≡ r) ⊎ In r db.results
  result_cases r h = subst (In r) w.results h

  pub result_kept : (r : ReconciliationResult) → In r db.results → In r db'.results
  result_kept r h = subst (In r) (sym w.results) (inr h)

  pub fresh-In : In fresh db'.results
  fresh-In = subst (In fresh) (sym w.results) (inl refl)

  pub fresh-side : (side : IngestSource) → side_id side fresh ≡ row_of side d
  fresh-side IngestSource.gateway = refl
  fresh-side IngestSource.ledger = refl

  pub RowAt-after : (side : IngestSource) (i t : ℕ) → RowAt db side i t → RowAt db' side i t
  RowAt-after side i t r = record {
    row = settle_row clock d side r.row;
    stored = row_after side r.row r.stored;
    key = settle_row-id clock d side r.row ∙ r.key;
    owner = settle_row-tenant_id clock d side r.row ∙ r.owner;
  }

  pub fresh-id : fresh.id ≡ db.next_result
  fresh-id = refl

  pub fresh-tenant : fresh.tenant_id ≡ tenant
  fresh-tenant = refl

  pub fresh-status : fresh.status ≡ d.status
  fresh-status = refl
