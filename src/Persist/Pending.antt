-- ===== src/Persist/Pending.antt =====
-- Decisions on pending rows under backend/ledgerloop/worker/persist.py: their INSERT meets no
-- conflict, and the rows are settled.
use ledger_loop.Prelude.{
  ℕ, ◌≡◌, refl, sym, ap, ◌∙◌, inl, inr, true, false, Option, none, some, String, arith, any,
  any-witness, In, Bool-cases, is_some,
}
use ledger_loop.Enums.{IngestSource, is_active}
use ledger_loop.Matching.{TxnFacts, Decision}
use ledger_loop.Store.{Db, RawRow, table, side_id, violates}
use ledger_loop.Store.Indexes.{violates-Clash}
use ledger_loop.Persist.{Clock, apply_decision}
use ledger_loop.Persist.Settle.{
  row_of, settle_row, facts-settle_row, settle_row-id, settle_row_marks,
}
use ledger_loop.Persist.Invariant.{Inv}
use ledger_loop.Persist.Stored.{new_result, wrote, apply_decision-Stored, apply_decision_conflict}
use ledger_loop.Persist.Written.{row_after}
use ledger_loop.Persist.Reads.{ReadOff}
use ledger_loop.Matching.{opens_exception}

pub record PendingAt (db : Db) (side : IngestSource) (i : ℕ) : Type 0 where
  pub row : RawRow
  pub stored : In row (table side db)
  pub key : row.id ≡ i
  pub pending : row.reconciled_at ≡ none

pub record SettledAt (db : Db) (side : IngestSource) (i : ℕ) : Type 0 where
  pub row : RawRow
  pub stored : In row (table side db)
  pub key : row.id ≡ i
  pub settled : is_some row.reconciled_at ≡ true

-- Every row that the decision names is pending.
abbrev pub AllPending : Db → Decision → Type 0
AllPending db d = (side : IngestSource) (i : ℕ) → row_of side d ≡ some i → PendingAt db side i

module _ (clock : Clock) (d : Decision) (tenant : ℕ) (latency : Option ℕ) (message : Option String)
    (db : Db) where
  new_result-side :
      (side : IngestSource)
      → side_id side (new_result clock d tenant latency message db) ≡ row_of side d
  new_result-side IngestSource.gateway = refl
  new_result-side IngestSource.ledger = refl

  -- A decision on pending rows meets no conflict.
  pub pending_free :
      Inv db
      → is_active d.status ≡ true
      → AllPending db d
      → any (violates (new_result clock d tenant latency message db)) db.results ≡ false
  pending_free v active pending =
      elim (Bool-cases (any (violates (new_result clock d tenant latency message db)) db.results)) [
        | inr free ↦ free
        | inl conflict ↦
            let (r, there, hit) = any-witness _ db.results conflict in
            let (side, i, clash) = violates-Clash _ r hit in
            let p = pending side i (sym (new_result-side side) ∙ clash.left) in
            let marked =
              v.settled side r p.row there (sym clash.kind ∙ active) p.stored
                (clash.right ∙ ap some (sym p.key)) in
            absurd (ground (arith, marked, p.pending))
      ]

  -- What was read off a row can still be read off it.
  pub apply_decision-ReadOff :
      (side : IngestSource) (f : TxnFacts)
      → Inv db
      → ReadOff db side f
      → ReadOff (apply_decision clock d tenant latency message db).1 side f
  apply_decision-ReadOff side f v r =
      elim (Bool-cases (any (violates (new_result clock d tenant latency message db)) db.results)) [
        | inl e ↦ rw (apply_decision_conflict clock d tenant latency message db e) r
        | inr e ↦
            let w = (apply_decision-Stored clock d tenant latency message db v e).1 in
            record {
              row = settle_row clock d side r.row;
              stored = row_after w side r.row r.stored;
              read = facts-settle_row clock d side r.row ∙ r.read;
            }
      ]

  -- Where the table accepts the result: on a well-formed store, a decision that is no duplicate marker
  -- and names pending rows only is written, and settles every row that it names.
  pub apply_decision_pending :
      Inv db
      → is_active d.status ≡ true
      → AllPending db d
      → ((apply_decision clock d tenant latency message db).0
          ≡ wrote clock d tenant latency message db (opens_exception d))
        × ((side : IngestSource) (i : ℕ)
            → row_of side d ≡ some i
            → SettledAt (apply_decision clock d tenant latency message db).1 side i)
  apply_decision_pending v active pending =
      let (said, w) =
        apply_decision-Stored clock d tenant latency message db v (pending_free v active pending) in
      (
        said,
        λ side i named.
            let p = pending side i named in
            record {
              row = settle_row clock d side p.row;
              stored = row_after w side p.row p.stored;
              key = settle_row-id clock d side p.row ∙ p.key;
              settled = settle_row_marks clock d side p.row active (named ∙ ap some (sym p.key));
            },
      )
