-- ===== src/Ingest/Extends.antt =====
-- What ingestion (backend/ledgerloop/services/ingest.py) may do to the raw tables without touching
-- the well-formedness of the store: store pending rows under new ids, and rewrite rows in place.
use ledger_loop.Prelude.{
  ℕ, ◌<◌, ◌≡◌, sym, ap, ◌∙◌, subst, ◌⊎◌, inl, inr, none, some, true, In, is_some, arith,
}
use ledger_loop.Enums.{IngestSource, exception_statuses, is_active}
use ledger_loop.Store.{RawRow, ReconciliationResult, ExceptionRow, Db, table, side_id}
use ledger_loop.Persist.Invariant.{RowAt, SettledBy, CaseFor, OpenedFor, Inv}

-- A row of the new table stands for an old row, or is pending under an id that no old row has.
pub record From (db : Db) (side : IngestSource) (row : RawRow) : Type 0 where
  pub old : RawRow
  pub stored : In old (table side db)
  pub same_id : old.id ≡ row.id
  pub same_mark : old.reconciled_at ≡ row.reconciled_at

pub record New (db : Db) (side : IngestSource) (row : RawRow) : Type 0 where
  pub pending : row.reconciled_at ≡ none
  pub fresh : (old : RawRow) → In old (table side db) → old.id ≡ row.id → ⊥

pub record Extends (db db' : Db) : Type 0 where
  pub results : db'.results ≡ db.results
  pub exceptions : db'.exceptions ≡ db.exceptions
  pub next_result : db'.next_result ≡ db.next_result
  pub origin :
      (side : IngestSource) (row : RawRow)
      → In row (table side db')
      → From db side row ⊎ New db side row
  pub image :
      (side : IngestSource) (row : RawRow)
      → In row (table side db)
      → RowAt db' side row.id row.tenant_id
  pub keys :
      (side : IngestSource) (a b : RawRow)
      → In a (table side db')
      → In b (table side db')
      → a.id ≡ b.id
      → a ≡ b

module _ (db db' : Db) (v : Inv db) (x : Extends db db') where
  result_before : (r : ReconciliationResult) → In r db'.results → In r db.results
  result_before r h = subst (In r) x.results h

  result_after : (r : ReconciliationResult) → In r db.results → In r db'.results
  result_after r h = subst (In r) (sym x.results) h

  case_before : (e : ExceptionRow) → In e db'.exceptions → In e db.exceptions
  case_before e h = subst (In e) x.exceptions h

  RowAt-Extends : (side : IngestSource) (i t : ℕ) → RowAt db side i t → RowAt db' side i t
  RowAt-Extends side i t at =
      let there = x.image side at.row at.stored in
      record {
        row = there.row;
        stored = there.stored;
        key = there.key ∙ at.key;
        owner = there.owner ∙ at.owner;
      }

  settled-Extends :
      (side : IngestSource) (r : ReconciliationResult) (row : RawRow)
      → In r db'.results
      → is_active r.status ≡ true
      → In row (table side db')
      → side_id side r ≡ some row.id
      → is_some row.reconciled_at ≡ true
  settled-Extends side r row hr active there e = elim (x.origin side row there) [
    | inl f ↦
        ap is_some (sym f.same_mark)
        ∙ v.settled side r f.old (result_before r hr) active f.stored (e ∙ ap some (sym f.same_id))
    | inr n ↦
        let at = v.referenced side r row.id (result_before r hr) e in
        absurd (n.fresh at.row at.stored at.key)
  ]

  resolved-Extends :
      (side : IngestSource) (row : RawRow)
      → In row (table side db')
      → is_some row.reconciled_at ≡ true
      → SettledBy db' side row.id
  resolved-Extends side row there marked = elim (x.origin side row there) [
    | inl f ↦
        let s = v.resolved side f.old f.stored (ap is_some f.same_mark ∙ marked) in
        record {
          result = s.result;
          stored = result_after s.result s.stored;
          active = s.active;
          points = s.points ∙ ap some f.same_id;
        }
    | inr n ↦ absurd (ground (arith, n.pending, marked))
  ]

  opened-Extends :
      (r : ReconciliationResult)
      → In r db'.results
      → exception_statuses r.status ≡ true
      → OpenedFor db' r
  opened-Extends r h e =
      let o = v.opened r (result_before r h) e in
      record { case = o.case; stored = subst (In o.case) (sym x.exceptions) o.stored; key = o.key }

  justified-Extends : (e : ExceptionRow) → In e db'.exceptions → CaseFor db' e
  justified-Extends e h =
      let c = v.justified e (case_before e h) in
      record {
        result = c.result;
        stored = result_after c.result c.stored;
        key = c.key;
        needs_human = c.needs_human;
        owner = c.owner;
      }

  pub Extends-Inv : Inv db'
  Extends-Inv = record {
    raw_keys = x.keys;
    result_below =
        λ r h. subst (λ n. r.id < n) (sym x.next_result) (v.result_below r (result_before r h));
    result_keys = λ r t h k e. v.result_keys r t (result_before r h) (result_before t k) e;
    referenced = λ side r i h e.
        RowAt-Extends side i r.tenant_id (v.referenced side r i (result_before r h) e);
    sided = λ r h. v.sided r (result_before r h);
    unique = λ r t h k e. v.unique r t (result_before r h) (result_before t k) e;
    settled = settled-Extends;
    resolved = resolved-Extends;
    opened = opened-Extends;
    justified = justified-Extends;
    one_case = λ e f h k q. v.one_case e f (case_before e h) (case_before f k) q;
  }
