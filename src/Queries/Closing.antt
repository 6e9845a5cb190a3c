-- ===== src/Queries/Closing.antt =====
-- close_exception of backend/ledgerloop/services/queries.py keeps the store well formed.
use ledger_loop.Prelude.{ℕ, ◌≡◌, refl, sym, ap, ◌∙◌, subst, String, In, In-map, map-In, arith}
use ledger_loop.Enums.{IngestSource}
use ledger_loop.Store.{ExceptionRow, Db, table}
use ledger_loop.Tenancy.{Tenant}
use ledger_loop.Persist.Invariant.{Inv}
use ledger_loop.Queries.Close.{update_row, closed_db}

module _ (now : ℕ) (tenant : Tenant) (i : ℕ) (notes : String) (db : Db) where
  update : ExceptionRow → ExceptionRow
  update = update_row now tenant i notes

  about : (e : ExceptionRow) → (update e).reconciliation_result_id ≡ e.reconciliation_result_id
  unfolding update
  about e = ground arith

  owned : (e : ExceptionRow) → (update e).tenant_id ≡ e.tenant_id
  unfolding update
  owned e = ground arith

  after : Db
  after = closed_db now tenant i notes db

  same_table : (side : IngestSource) → table side after ≡ table side db
  unfolding after
  same_table IngestSource.gateway = refl
  same_table IngestSource.ledger = refl

  -- Closing a case keeps the invariant of the store.
  pub closed_db-Inv : Inv db → Inv (closed_db now tenant i notes db)
  unfolding after update
  closed_db-Inv v = record {
    raw_keys = λ side a b ha hb.
        v.raw_keys side a b (subst (In a) (same_table side) ha) (subst (In b) (same_table side) hb);
    result_below = v.result_below;
    result_keys = v.result_keys;
    referenced = λ side r j h e.
        let p = v.referenced side r j h e in
        record {
          row = p.row;
          stored = subst (In p.row) (sym (same_table side)) p.stored;
          key = p.key;
          owner = p.owner;
        };
    sided = v.sided;
    unique = v.unique;
    settled = λ side r row h a m. v.settled side r row h a (subst (In row) (same_table side) m);
    resolved = λ side row m e.
        let p = v.resolved side row (subst (In row) (same_table side) m) e in
        record { result = p.result; stored = p.stored; active = p.active; points = p.points };
    opened = λ r h e.
        let p = v.opened r h e in
        record {
          case = update p.case;
          stored = map-In update p.case db.exceptions p.stored;
          key = about p.case ∙ p.key;
        };
    justified = λ e h.
        let (old, m, q) = In-map update e db.exceptions h in
        let p = v.justified old m in
        record {
          result = p.result;
          stored = p.stored;
          key = p.key ∙ sym (about old) ∙ ap (λ (x : ExceptionRow). x.reconciliation_result_id) q;
          needs_human = p.needs_human;
          owner = p.owner ∙ sym (owned old) ∙ ap (λ (x : ExceptionRow). x.tenant_id) q;
        };
    one_case = λ e f he hf q.
        let (a, ma, qa) = In-map update e db.exceptions he in
        let (b, mb, qb) = In-map update f db.exceptions hf in
        let same =
          sym (about a)
          ∙ ap (λ (x : ExceptionRow). x.reconciliation_result_id) qa
          ∙ q
          ∙ sym (ap (λ (x : ExceptionRow). x.reconciliation_result_id) qb)
          ∙ about b in
        sym qa ∙ ap update (v.one_case a b ma mb same) ∙ qb;
  }
