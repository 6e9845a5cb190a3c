-- ===== src/System/Retired.antt =====
-- Deleting an account, the transaction of sweep_demo_accounts in backend/ledgerloop/worker/sweeper.py,
-- keeps the store well formed.
use ledger_loop.Prelude.{
  ℕ, ◌≡◌, refl, ap, ◌∙◌, sym, subst, some, arith, not, ◌==◌, In, Falling, Falling-filter,
}
use mathlib.Core.Option.{some-injective}
use ledger_loop.Enums.{IngestSource}
use ledger_loop.Store.{RawRow, ReconciliationResult, ExceptionRow, Db, table}
use ledger_loop.Tenancy.{Tables}
use ledger_loop.Persist.Invariant.{Inv}
use ledger_loop.Coherence.{Coherent}
use ledger_loop.Queries.Feeds.{Feeds}
use ledger_loop.Ingest.{next_raw}
use ledger_loop.Ingest.Rows.{RawInv}
use ledger_loop.Retention.{delete_exceptions, delete_results, erase}
use ledger_loop.Retention.Erase.{without-In, Left-Inv}
use ledger_loop.Retention.Succeeds.{remains, remains-Left, erase-remains}
use ledger_loop.System.Ingestion.{Queued}
use ledger_loop.System.Outbox.{WellFormed}

module _ (account : ℕ) (db : Db) (v : Inv db) where
  nexts : (side : IngestSource) → next_raw side (remains account db v) ≡ next_raw side db
  unfolding delete_results delete_exceptions
  nexts IngestSource.gateway = refl
  nexts IngestSource.ledger = refl

  before :
      (side : IngestSource) (r : RawRow)
      → In r (table side (remains account db v))
      → In r (table side db)
  before side r h =
      (without-In (λ (x : RawRow). x.tenant_id) account r (table side db)
        (subst (In r) ((remains-Left account db v).rows side) h)).0

  remains-RawInv : RawInv db → RawInv (remains account db v)
  remains-RawInv w = record {
    descending = λ side.
        rw ((remains-Left account db v).rows side, nexts side)
          (Falling-filter (λ (r : RawRow). r.id) (λ (r : RawRow). not (r.tenant_id == account))
            (next_raw side db) (next_raw side db) (table side db) (omega arith)
            (w.descending side));
    one_row = λ side a b ha hb. w.one_row side a b (before side a ha) (before side b hb);
  }

  remains-Feeds : Feeds db → Feeds (remains account db v)
  unfolding delete_results delete_exceptions
  remains-Feeds f = record {
    results =
        Falling-filter (λ (r : ReconciliationResult). r.id)
          (λ (r : ReconciliationResult). not (r.tenant_id == account)) db.next_result db.next_result
          db.results (omega arith) f.results;
    cases =
        subst (Falling (λ (e : ExceptionRow). e.id) db.next_exception)
          (sym (remains-Left account db v).exceptions)
          (Falling-filter (λ (e : ExceptionRow). e.id)
            (λ (e : ExceptionRow). not (e.tenant_id == account)) db.next_exception db.next_exception
            db.exceptions (omega arith) f.cases);
  }

  remains-Coherent : Coherent db → Coherent (remains account db v)
  remains-Coherent c r h =
      c r
        (without-In (λ (x : ReconciliationResult). x.tenant_id) account r db.results
          (subst (In r) (remains-Left account db v).results h)).0

  remains-Queued : Queued db → Queued (remains account db v)
  unfolding delete_results delete_exceptions
  remains-Queued q = q

-- Whatever directory the account is deleted from.
pub erase-WellFormed :
    (account : ℕ) (tables tables' : Tables) (db db' : Db)
    → erase account tables db ≡ some (tables', db')
    → WellFormed db
    → WellFormed db'
erase-WellFormed account tables tables' db db' run (v, w, f, c, q) =
    let same : remains account db v ≡ db' =
      ap (λ p. p.1) (some-injective _ _ (sym (erase-remains account db v tables) ∙ run)) in
    subst WellFormed same (
      (
        Left-Inv account db (remains account db v) v (remains-Left account db v),
        remains-RawInv account db v w,
        remains-Feeds account db v f,
        remains-Coherent account db v c,
        remains-Queued account db v q,
      ))
