-- ===== src/Worker.antt =====
-- backend/ledgerloop/worker/loop.py: what the matcher does with one message. The stopwatch
-- (duration_ms), the metrics and the log lines are left out.
pub mod Decides
pub mod Safety
pub mod Redelivery
use ledger_loop.Prelude.{
  ℕ, String, Bool, true, false, Option, none, some, List, [], ◌∷◌, ◌==◌, filter, if◌then◌else◌,
}
use ledger_loop.Enums.{IngestSource}
use ledger_loop.Matching.{TxnFacts, MatchConfig, Decision, decide, decide_duplicate}
use ledger_loop.Messages.{IngestMessage}
use ledger_loop.Store.{Db, same_id}
use ledger_loop.Persist.{
  Clock, PersistResult, load_facts, find_counterparties, compute_latency_ms, apply_decision,
}

pub record ProcessOutcome : Type 0 where
  pub decision : Option Decision
  pub written : Bool
  pub latency_ms : Option ℕ

abbrev pub deferred : ProcessOutcome
deferred = record { decision = none; written = false; latency_ms = none }

-- `partner_id`: the decision's row on the other side.
abbrev pub partner_id : IngestSource → Decision → Option ℕ
partner_id IngestSource.gateway decision = decision.ledger_row_id
partner_id IngestSource.ledger decision = decision.gateway_row_id

-- `[f for f in counterparties if f.row_id == partner_id]`
abbrev pub partners : Option ℕ → List TxnFacts → List TxnFacts
partners partner = filter (λ (f : TxnFacts). same_id (some f.row_id) partner)

-- The decision on a message's row.
unfoldable pub choose : MatchConfig → IngestMessage → TxnFacts → Db → Option Decision
choose config message candidate db =
    if message.is_duplicate
    then some (decide_duplicate candidate message.submissions)
    else decide candidate (find_counterparties candidate config db) config

-- `sides`: the rows that the latency is measured over.
unfoldable pub sides_of : MatchConfig → IngestMessage → TxnFacts → Decision → Db → List TxnFacts
sides_of config message candidate decision db =
    if message.is_duplicate
    then candidate ∷ []
    else candidate
      ∷ partners (partner_id candidate.side decision) (find_counterparties candidate config db)

-- Writes a decision on the candidate's row and reports it.
unfoldable pub conclude :
    Clock
    → MatchConfig
    → IngestMessage
    → Option String
    → TxnFacts
    → Option Decision
    → Db
    → ProcessOutcome × Db
conclude clock config message message_id candidate none db = (deferred, db)
conclude clock config message message_id candidate (some decision) db =
    let latency_ms = compute_latency_ms (sides_of config message candidate decision db) clock in
    let (persisted, db') =
      apply_decision clock decision candidate.tenant_id (some latency_ms) message_id db in
    (
      record {
        decision = some decision;
        written = persisted.written;
        latency_ms = some latency_ms;
      },
      db',
    )

unfoldable pub process :
    Clock → MatchConfig → IngestMessage → Option String → Db → ProcessOutcome × Db
process clock config message message_id db = elim (load_facts message.source message.row_id db) [
  | none ↦ (deferred, db)
  | some candidate ↦
      conclude clock config message message_id candidate (choose config message candidate db) db
]
