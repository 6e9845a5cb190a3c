-- ===== src/Tests.antt =====
-- Concrete inputs: one payment of 1,050.00 INR seen on both sides, 1.5 seconds apart, under the
-- default settings of backend/ledgerloop/config.py.
mod Matching
mod Persist
mod Worker
mod Sweeper
mod Ingest
mod Tenancy
mod Sources
mod RateLimit
mod Relay
mod Queries
mod Webhooks
mod System
mod Reads
use ledger_loop.Prelude.{
  ℕ, ◌≡◌, refl, ap, false, true, ◌/◌, is_some, sym, ◌∙◌, inl, inr, Option, none, some, List, [],
  ◌∷◌, In, pos, str_eq, ◌-ℤ◌, arith,
}
use ledger_loop.Enums.{IngestSource}
use ledger_loop.Matching.{
  TxnFacts, MatchConfig, amount_tolerance, within_tolerance, classify_layers, classify_pair,
  sort_key, key_lt, viable_one, viable, min_from, match_notes, decision_for, decide_viable, decide,
  decide_duplicate, decide_unmatched,
}
use ledger_loop.Messages.{IngestMessage}
use ledger_loop.Store.{RawRow, Db, table, index_hit, violates, insert_result, insert_exception}
use ledger_loop.Persist.{
  Clock, facts, load_facts, plausible, find_counterparties, latest_receipt, compute_latency_ms,
  mark_row, mark_reconciled, settle, open_exception, after_insert, apply_decision,
  insert_by_receipt, order_by_receipt, find_stale_pending,
}
use ledger_loop.Worker.{choose, sides_of, conclude, process}
use ledger_loop.Sweeper.{last_attempt, resolve_stale, sweep_rows, sweep_side, sweep_once, sweep}
use ledger_loop.Persist.Invariant.{Inv}

abbrev pub config : MatchConfig
config = record {
  exact_window = 2000000;
  drift_window = 60000000;
  amount_drift_pct = 10000;
  amount_drift_abs = 1000000000;
}

abbrev pub gateway_row : RawRow
gateway_row = record {
  id = 1;
  tenant_id = 7;
  txn_id = "T1";
  amount = pos 105000;
  currency = "INR";
  occurred_at = 100000000;
  reference = "pi_1";
  idempotency_key = "stripe:evt_1";
  duplicate_count = 0;
  received_at = 100100000;
  reconciled_at = none;
}

abbrev pub ledger_row : RawRow
ledger_row = record {
  id = 4;
  tenant_id = 7;
  txn_id = "T1";
  amount = pos 105000;
  currency = "INR";
  occurred_at = 101500000;
  reference = "E1";
  idempotency_key = "E1";
  duplicate_count = 0;
  received_at = 101600000;
  reconciled_at = none;
}

abbrev pub gateway_facts : TxnFacts
gateway_facts = record {
  side = IngestSource.gateway;
  tenant_id = 7;
  row_id = 1;
  txn_id = "T1";
  amount = pos 105000;
  currency = "INR";
  occurred_at = 100000000;
  received_at = 100100000;
}

abbrev pub ledger_facts : TxnFacts
ledger_facts = record {
  side = IngestSource.ledger;
  tenant_id = 7;
  row_id = 4;
  txn_id = "T1";
  amount = pos 105000;
  currency = "INR";
  occurred_at = 101500000;
  received_at = 101600000;
}

abbrev pub db : Db
db = record {
  gateway_transactions = gateway_row ∷ [];
  ledger_entries = ledger_row ∷ [];
  outbox_events = [];
  results = [];
  exceptions = [];
  next_gateway = 2;
  next_ledger = 5;
  next_outbox = 0;
  next_result = 0;
  next_exception = 0;
}

abbrev pub message : IngestMessage
message = record {
  source = IngestSource.gateway;
  row_id = 1;
  txn_id = "T1";
  is_duplicate = false;
  submissions = 1;
}

-- Ten minutes later, and a clock that counts whole milliseconds.
abbrev pub clock : Clock
clock = record { now = 700000000; millis = λ d. d / 1000 }

-- What a run computes with.
unfoldable pub program : Unit {0}
unfolding str_eq ◌-ℤ◌ amount_tolerance within_tolerance classify_layers classify_pair sort_key
    key_lt viable_one viable min_from match_notes decision_for decide_viable decide decide_duplicate
    decide_unmatched index_hit violates insert_result insert_exception facts load_facts plausible
    find_counterparties latest_receipt compute_latency_ms mark_row mark_reconciled settle
    open_exception after_insert apply_decision insert_by_receipt order_by_receipt find_stale_pending
    choose sides_of conclude process last_attempt resolve_stale sweep_rows sweep_side sweep_once
    sweep
program = tt

one_row {ℓ} : {A : Type ℓ} (x a b : A) → In a (x ∷ []) → In b (x ∷ []) → a ≡ b
one_row x a b (inl p) (inl q) = sym p ∙ q
one_row x a b (inl p) (inr n) = elim n [ ]
one_row x a b (inr m) h = elim m [ ]

no_settled : (row : RawRow) → row.reconciled_at ≡ none → is_some row.reconciled_at ≡ true → ⊥
no_settled row e h = ground arith

pub db-Inv : Inv db
db-Inv = record {
  raw_keys = keys;
  result_below = λ r h. elim h [ ];
  result_keys = λ r t h k e. elim h [ ];
  referenced = λ side r i h e. elim h [ ];
  sided = λ r h. elim h [ ];
  unique = λ r t h k e. elim h [ ];
  settled = λ side r row h a k e. elim h [ ];
  resolved = λ side row h e. absurd (no_settled row (pending side row h) e);
  opened = λ r h e. elim h [ ];
  justified = λ e h. elim h [ ];
  one_case = λ e f h k q. elim h [ ];
}
  where
    keys :
        (side : IngestSource) (a b : RawRow)
        → In a (table side db)
        → In b (table side db)
        → a.id ≡ b.id
        → a ≡ b
    keys IngestSource.gateway a b h k e = one_row gateway_row a b h k
    keys IngestSource.ledger a b h k e = one_row ledger_row a b h k

    pending :
        (side : IngestSource) (row : RawRow) → In row (table side db) → row.reconciled_at ≡ none
    pending IngestSource.gateway row (inl q) = ap (λ (t : RawRow). t.reconciled_at) (sym q)
    pending IngestSource.gateway row (inr m) = elim m [ ]
    pending IngestSource.ledger row (inl q) = ap (λ (t : RawRow). t.reconciled_at) (sym q)
    pending IngestSource.ledger row (inr m) = elim m [ ]
