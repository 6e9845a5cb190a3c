-- ===== src/Sweeper.antt =====
-- backend/ledgerloop/worker/sweeper.py, the unmatched sweep (layer 5), and the draining loop of
-- backend/ledgerloop/worker/sweep.py. Each row is a transaction of its own with a clock reading of
-- its own: `clocks source n` is the reading at the n-th row of a side, and `clocks source 0` the one
-- of the query for the stale rows.
pub mod Settles
pub mod Passes
pub mod Drain
use ledger_loop.Prelude.{
  ℕ, suc, zero, ◌+◌, Bool, true, false, Option, none, some, List, [], ◌∷◌, if◌then◌else◌, ◌==◌, ℤ,
  sub_ℕ,
}
use ledger_loop.Enums.{IngestSource}
use ledger_loop.Matching.{TxnFacts, MatchConfig, Decision, decide, decide_unmatched}
use ledger_loop.Store.{Db}
use ledger_loop.Persist.{
  Clock, PersistResult, find_counterparties, find_stale_pending, compute_latency_ms, apply_decision,
}
use ledger_loop.Worker.{partner_id, partners}

-- `decision` and `sides` of one stale row: a last attempt to match, and only then giving up.
unfoldable pub last_attempt : Clock → MatchConfig → TxnFacts → Db → Decision × List TxnFacts
last_attempt clock config candidate db =
    let counterparties = find_counterparties candidate config db in
    elim (decide candidate counterparties config) [
      | some decision ↦
          (decision, candidate ∷ partners (partner_id candidate.side decision) counterparties)
      | none ↦ (decide_unmatched candidate (sub_ℕ clock.now candidate.received_at), candidate ∷ [])
    ]

-- The transaction of one stale row: whether it was written.
unfoldable pub resolve_stale : Clock → MatchConfig → TxnFacts → Db → Bool × Db
resolve_stale clock config candidate db =
    let (decision, sides) = last_attempt clock config candidate db in
    let (persisted, db') =
      apply_decision clock decision candidate.tenant_id (some (compute_latency_ms sides clock)) none
        db in
    (persisted.written, db')

-- The loop over the stale rows of a side: how many were written.
unfoldable pub sweep_rows : (ℕ → Clock) → ℕ → MatchConfig → List TxnFacts → Db → ℕ × Db
sweep_rows clocks n config [] db = (0, db)
sweep_rows clocks n config (candidate ∷ rest) db =
    let (written, db') = resolve_stale (clocks n) config candidate db in
    let (resolved, db'') = sweep_rows clocks (n + 1) config rest db' in
    (if written then resolved + 1 else resolved, db'')

unfoldable pub sweep_side :
    (IngestSource → ℕ → Clock) → MatchConfig → IngestSource → ℕ → ℕ → Db → ℕ × Db
sweep_side clocks config source unmatched_after batch_limit db =
    sweep_rows (clocks source) 1 config
      (find_stale_pending (clocks source 0) source unmatched_after batch_limit db) db

unfoldable pub sweep_once : (IngestSource → ℕ → Clock) → MatchConfig → ℕ → ℕ → Db → ℕ × Db
sweep_once clocks config unmatched_after batch_limit db =
    let (a, db') = sweep_side clocks config IngestSource.gateway unmatched_after batch_limit db in
    let (b, db'') = sweep_side clocks config IngestSource.ledger unmatched_after batch_limit db' in
    (a + b, db'')

pub record SweepReport : Type 0 where
  pub total : ℕ
  pub drained : Bool

-- `sweep` of sweep.py, with `max_passes` left to go; `clocks k` are the readings of a pass with `k`
-- passes to go after it.
unfoldable pub sweep :
    (ℕ → IngestSource → ℕ → Clock) → MatchConfig → ℕ → ℕ → ℕ → Db → SweepReport × Db
sweep clocks config unmatched_after batch_limit zero db =
    (record { total = 0; drained = false }, db)
sweep clocks config unmatched_after batch_limit (suc passes) db =
    let (resolved, db') = sweep_once (clocks passes) config unmatched_after batch_limit db in
    let rest = sweep clocks config unmatched_after batch_limit passes db' in
    if resolved == 0
    then (record { total = 0; drained = true }, db')
    else (record { total = resolved + rest.0.total; drained = rest.0.drained }, rest.1)
