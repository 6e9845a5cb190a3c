-- ===== src/Tests/Persist.antt =====
-- The persistence layer at a store with one pending row on each side.
use ledger_loop.Prelude.{ℕ, ◌≡◌, ◌↔◌, refl, inl, some, none, In, arith}
use mathlib.Core.Option.{some-injective}
use ledger_loop.Enums.{IngestSource, ReconStatus, MatchLayer}
use ledger_loop.Matching.{Decision, decide, opens_exception}
use ledger_loop.Persist.{write_decision, find_counterparties, apply_decision}
use ledger_loop.Persist.Settle.{row_of}
use ledger_loop.Persist.Invariant.{Inv, Applies}
use ledger_loop.Persist.Stored.{wrote}
use ledger_loop.Persist.Preserved.{apply_decision-Inv}
use ledger_loop.Persist.Reads.{
  Offered, ReadOff, all_pending, find_counterparties-iff-Offered, decide-find_counterparties,
}
use ledger_loop.Persist.Pending.{SettledAt, PendingAt}
use ledger_loop.Store.{Db}
use ledger_loop.Persist.Accepted.{write_decision_pending}
use ledger_loop.Worker.Decides.{decide-Applies}
use ledger_loop.Tests.{
  config, clock, gateway_row, ledger_row, gateway_facts, ledger_facts, db, db-Inv, program,
}

abbrev decision : Decision
decision = record {
  status = ReconStatus.matched;
  layer = MatchLayer.exact;
  gateway_row_id = some 1;
  ledger_row_id = some 4;
  notes = none;
}

gateway_read : ReadOff db IngestSource.gateway gateway_facts
unfolding program
gateway_read = record { row = gateway_row; stored = inl refl; read = refl }

decided : decide gateway_facts (find_counterparties gateway_facts config db) config ≡ some decision
unfolding program
decided = refl

decision-Applies : Applies db decision 7
decision-Applies = decide-Applies db gateway_facts config gateway_read decided

decision-pending :
    (side : IngestSource) (i : ℕ) → row_of side decision ≡ some i → PendingAt db side i
decision-pending IngestSource.gateway i e = record {
  row = gateway_row;
  stored = inl refl;
  key = some-injective _ _ e;
  pending = refl;
}
decision-pending IngestSource.ledger i e = record {
  row = ledger_row;
  stored = inl refl;
  key = some-injective _ _ e;
  pending = refl;
}

apply_decision-Inv_example : Inv (apply_decision clock decision 7 (some 0) none db).1
apply_decision-Inv_example =
    apply_decision-Inv clock decision 7 (some 0) none db db-Inv decision-Applies

find_counterparties-iff-Offered_example :
    In ledger_facts (find_counterparties gateway_facts config db)
    ↔ Offered db gateway_facts config ledger_facts
find_counterparties-iff-Offered_example =
    find_counterparties-iff-Offered db gateway_facts config ledger_facts

decide-find_counterparties_example :
    decide gateway_facts (find_counterparties gateway_facts config db) config
    ≡ decide gateway_facts (all_pending IngestSource.ledger db) config
decide-find_counterparties_example =
    decide-find_counterparties db gateway_facts config db-Inv (omega arith)

write_decision_pending_example :
    (db' : Db) × (write_decision clock decision 7 (some 0) none db
      ≡ some (wrote clock decision 7 (some 0) none db (opens_exception decision), db'))
    × ((s : IngestSource) (j : ℕ) → row_of s decision ≡ some j → SettledAt db' s j)
write_decision_pending_example =
    write_decision_pending clock decision 7 (some 0) none db IngestSource.gateway 1 db-Inv refl
      decision-pending refl refl
