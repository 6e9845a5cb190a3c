-- ===== src/Persist/Reads.antt =====
-- The reads of backend/ledgerloop/worker/persist.py: what `load_facts` and `find_counterparties`
-- return, and that the query drops no row that the matcher could use.
use ledger_loop.Prelude.{
  ℕ, ◌≤◌, ◌≡◌, sym, ap, ◌∙◌, subst, ◌↔◌, inl, inr, true, none, some, List, map, arith, ◌==◌,
  str_eq→eq, eq→str_eq, Option-cases, is_none, In, In-map, map-In, In-filter, filter-In, filter,
  find, find-some, dist,
}
use ledger_loop.Enums.{IngestSource, ReconStatus, MatchLayer}
use ledger_loop.Matching.{TxnFacts, MatchConfig, time_delta, classify_pair, decide}
use ledger_loop.Matching.Classify.{Layered, classify_pair-iff-Classifies}
use ledger_loop.Matching.Agreement.{DistinctRows, decide-SameAccepted}
use ledger_loop.Store.{RawRow, Db, table}
use ledger_loop.Persist.{other_side, facts, load_facts, plausible, find_counterparties}
use ledger_loop.Persist.Invariant.{Inv}

-- Facts that were read off a stored row.
pub record ReadOff (db : Db) (side : IngestSource) (f : TxnFacts) : Type 0 where
  pub row : RawRow
  pub stored : In row (table side db)
  pub read : facts side row ≡ f

pub load_facts-ReadOff :
    (side : IngestSource) (i : ℕ) (db : Db) (f : TxnFacts)
    → load_facts side i db ≡ some f
    → ReadOff db side f × (f.row_id ≡ i) × (f.side ≡ side)
unfolding load_facts facts
load_facts-ReadOff side i db f h =
    elim (Option-cases (find (λ (row : RawRow). row.id == i) (table side db))) [
      | inl e ↦ absurd (ground (arith, e))
      | inr (row, e) ↦
          let (there, test) = find-some _ row (table side db) e in
          let read : facts side row ≡ f = ground (arith, e) in
          (
            record { row = row; stored = there; read = read },
            sym (ap (λ (t : TxnFacts). t.row_id) read) ∙ ground arith,
            sym (ap (λ (t : TxnFacts). t.side) read),
          )
    ]

-- A pending row of the other table, of the candidate's tenant and transaction id, whose instant lies
-- within the drift window of the candidate's.
pub record Offered (db : Db) (c : TxnFacts) (config : MatchConfig) (f : TxnFacts) : Type 0 where
  pub row : RawRow
  pub stored : In row (table (other_side c.side) db)
  pub read : facts (other_side c.side) row ≡ f
  pub tenant : row.tenant_id ≡ c.tenant_id
  pub txn : row.txn_id ≡ c.txn_id
  pub near : dist c.occurred_at row.occurred_at ≤ config.drift_window
  pub pending : row.reconciled_at ≡ none

plausible-parts :
    (c : TxnFacts) (config : MatchConfig) (row : RawRow)
    → plausible c config row ≡ true
    → (row.tenant_id ≡ c.tenant_id)
      × (row.txn_id ≡ c.txn_id)
      × (dist c.occurred_at row.occurred_at ≤ config.drift_window)
      × (row.reconciled_at ≡ none)
unfolding plausible
plausible-parts c config row h =
    (ground arith, str_eq→eq row.txn_id c.txn_id (ground arith), ground arith, ground arith)

parts-plausible :
    (c : TxnFacts) (config : MatchConfig) (row : RawRow)
    → row.tenant_id ≡ c.tenant_id
    → row.txn_id ≡ c.txn_id
    → dist c.occurred_at row.occurred_at ≤ config.drift_window
    → row.reconciled_at ≡ none
    → plausible c config row ≡ true
unfolding plausible
parts-plausible c config row a b d e = ground (arith, eq→str_eq row.txn_id c.txn_id b)

-- `find_counterparties` returns exactly the pending rows of the other side that share the tenant and
-- the transaction id and lie within the drift window.
pub find_counterparties-iff-Offered :
    (db : Db) (c : TxnFacts) (config : MatchConfig) (f : TxnFacts)
    → In f (find_counterparties c config db) ↔ Offered db c config f
unfolding find_counterparties
find_counterparties-iff-Offered db c config f = (forth, back)
  where
    forth : In f (find_counterparties c config db) → Offered db c config f
    forth h =
        let (row, kept, read) = In-map _ f _ h in
        let (there, test) = In-filter (plausible c config) row _ kept in
        let (a, b, n, p) = plausible-parts c config row test in
        record {
          row = row;
          stored = there;
          read = read;
          tenant = a;
          txn = b;
          near = n;
          pending = p;
        }

    back : Offered db c config f → In f (find_counterparties c config db)
    back o =
        subst (λ t. In t (find_counterparties c config db)) o.read
          (map-In (facts (other_side c.side)) o.row
            (filter (plausible c config) (table (other_side c.side) db))
            (filter-In (plausible c config) o.row (table (other_side c.side) db) o.stored
              (parts-plausible c config o.row o.tenant o.txn o.near o.pending)))

-- Every pending row of a table.
pub all_pending : IngestSource → Db → List TxnFacts
all_pending side db =
    map (facts side) (filter (λ (row : RawRow). is_none row.reconciled_at) (table side db))

all_pending-row :
    (side : IngestSource) (db : Db) (f : TxnFacts) → In f (all_pending side db) → ReadOff db side f
unfolding all_pending
all_pending-row side db f h =
    let (row, kept, read) = In-map (facts side) f _ h in
    record { row = row; stored = (In-filter _ row (table side db) kept).0; read = read }

-- Distinct rows of a table have distinct ids, so what is read off it has.
ReadOff-distinct :
    (db : Db) (side : IngestSource) (a b : TxnFacts)
    → Inv db
    → ReadOff db side a
    → ReadOff db side b
    → a.row_id ≡ b.row_id
    → a ≡ b
unfolding facts
ReadOff-distinct db side a b v r s e =
    sym r.read
    ∙ ap (facts side) (
        v.raw_keys side r.row s.row r.stored s.stored (
          ap (λ (t : TxnFacts). t.row_id) r.read
          ∙ e
          ∙ sym (ap (λ (t : TxnFacts). t.row_id) s.read)))
    ∙ s.read

pub Offered-ReadOff :
    (db : Db) (c : TxnFacts) (config : MatchConfig) (f : TxnFacts)
    → Offered db c config f
    → ReadOff db (other_side c.side) f
Offered-ReadOff db c config f o = record { row = o.row; stored = o.stored; read = o.read }

pub find_counterparties-DistinctRows :
    (db : Db) (c : TxnFacts) (config : MatchConfig)
    → Inv db
    → DistinctRows (find_counterparties c config db)
find_counterparties-DistinctRows db c config v a b ha hb e =
    ReadOff-distinct db (other_side c.side) a b v
      (Offered-ReadOff db c config a ((find_counterparties-iff-Offered db c config a).0 ha))
      (Offered-ReadOff db c config b ((find_counterparties-iff-Offered db c config b).0 hb)) e

Layered-near :
    (c o : TxnFacts) (config : MatchConfig) (s : ReconStatus) (l : MatchLayer)
    → config.exact_window ≤ config.drift_window
    → Layered c o config s l
    → time_delta c o ≤ config.drift_window
Layered-near c o config ReconStatus.matched MatchLayer.exact h k = omega arith
Layered-near c o config ReconStatus.matched MatchLayer.time_drift h k = omega arith
Layered-near c o config ReconStatus.amount_drift MatchLayer.amount_drift h k = k.1
Layered-near c o config _ _ h k = elim k [ ]

accepted-Offered :
    (db : Db) (c o : TxnFacts) (config : MatchConfig) (s : ReconStatus) (l : MatchLayer)
    → config.exact_window ≤ config.drift_window
    → classify_pair c o config ≡ some (s, l)
    → In o (all_pending (other_side c.side) db)
    → Offered db c config o
unfolding all_pending facts
accepted-Offered db c o config s l wide accepted h =
    let (row, kept, read) = In-map (facts (other_side c.side)) o _ h in
    let (there, free) = In-filter _ row (table (other_side c.side) db) kept in
    let (pair, layer) = (classify_pair-iff-Classifies c o config s l).0 accepted in
    record {
      row = row;
      stored = there;
      read = read;
      tenant = ap (λ (t : TxnFacts). t.tenant_id) read ∙ sym pair.tenant;
      txn = ap (λ (t : TxnFacts). t.txn_id) read ∙ sym pair.txn;
      near =
          subst (λ t. dist c.occurred_at t ≤ config.drift_window)
            (sym (ap (λ (t : TxnFacts). t.occurred_at) read))
            (Layered-near c o config s l wide layer);
      pending = ground arith;
    }

Offered-all_pending :
    (db : Db) (c o : TxnFacts) (config : MatchConfig)
    → Offered db c config o
    → In o (all_pending (other_side c.side) db)
unfolding all_pending
Offered-all_pending db c o config p =
    subst (λ t. In t (all_pending (other_side c.side) db)) p.read
      (map-In (facts (other_side c.side)) p.row _ (
        filter-In (λ (row : RawRow). is_none row.reconciled_at) p.row (table (other_side c.side) db)
          p.stored (ap is_none p.pending)))

-- On a well-formed store the query loses nothing: with an exact window no wider than the drift window,
-- `decide` reaches on its rows the decision that it would reach on every pending row of the other
-- side.
pub decide-find_counterparties :
    (db : Db) (c : TxnFacts) (config : MatchConfig)
    → Inv db
    → config.exact_window ≤ config.drift_window
    → decide c (find_counterparties c config db) config
      ≡ decide c (all_pending (other_side c.side) db) config
decide-find_counterparties db c config v wide =
    decide-SameAccepted c (find_counterparties c config db) (all_pending (other_side c.side) db)
      config (find_counterparties-DistinctRows db c config v)
      (λ o s l accepted. (
        (λ h.
            Offered-all_pending db c o config
              ((find_counterparties-iff-Offered db c config o).0 h)),
        (λ h.
            (find_counterparties-iff-Offered db c config o).1
              (accepted-Offered db c o config s l wide accepted h)),
      ))
