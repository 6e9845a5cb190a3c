-- ===== src/System.antt =====
-- The components over one database, in any order: ingestion, relays, any number of matchers and
-- sweepers, demo retention, and operators. A step is one transaction. A matcher may be handed any
-- message at any time, also one that was processed before, which is what an at-least-once stream with
-- consumers that fail comes to. The accounts are outside the store: a tenant is a number.
pub mod Raws
pub mod Ingestion
pub mod Outbox
pub mod Retired
pub mod Reachable
use ledger_loop.Prelude.{Bool, ℕ, ◌≡◌, String, Option, some, List, [], In}
use ledger_loop.Enums.{IngestSource}
use ledger_loop.Matching.{TxnFacts, MatchConfig}
use ledger_loop.Messages.{IngestMessage}
use ledger_loop.Store.{ExceptionRow, Db}
use ledger_loop.Tenancy.{Tenant, Tables}
use ledger_loop.Persist.{Clock}
use ledger_loop.Persist.Reads.{ReadOff}
use ledger_loop.Ingest.{GatewayWebhookIn, LedgerEntryIn, IngestOutcome, ingest_gateway}
use ledger_loop.Ingest.Batch.{ingest_ledger_batch}
use ledger_loop.Worker.{process}
use ledger_loop.Sweeper.{resolve_stale}
use ledger_loop.Queries.{close_exception}
use ledger_loop.Relay.{drain_once}
use ledger_loop.Retention.{erase}

pub data Step : Db → Db → Type 1 where
  receive :
      {db db' : Db} (now tenant : ℕ) (payload : GatewayWebhookIn) (key : String) (o : IngestOutcome)
      → ingest_gateway now tenant payload key db ≡ some (o, db')
      → Step db db'
  sync :
      {db db' : Db} (now tenant : ℕ) (entries : List LedgerEntryIn) (os : List IngestOutcome)
      → ingest_ledger_batch now tenant entries db ≡ some (os, db')
      → Step db db'
  work :
      {db : Db} (clock : Clock) (config : MatchConfig) (message : IngestMessage)
      (id : Option String)
      → Step db (process clock config message id db).1
  sweep_row :
      {db : Db} (clock : Clock) (config : MatchConfig) (candidate : TxnFacts)
      → ReadOff db candidate.side candidate
      → Step db (resolve_stale clock config candidate db).1
  close :
      {db db' : Db} (now : ℕ) (tenant : Tenant) (i : ℕ) (notes : String)
      (closed : Option ExceptionRow)
      → close_exception now tenant i notes db ≡ some (closed, db')
      → Step db db'
  relay :
      {S : Type 0} {db : Db} (xadd : ℕ → IngestMessage → S → Bool × S) (maxlen now : ℕ)
      (locked : ℕ → Bool) (batch_size : ℕ) (stream : S)
      → Step db (drain_once xadd maxlen now locked batch_size db stream).1
  retire :
      {db db' : Db} (account_id : ℕ) (tables tables' : Tables)
      → erase account_id tables db ≡ some (tables', db')
      → Step db db'

-- The database that the migrations leave.
abbrev pub empty_db : Db
empty_db = record {
  gateway_transactions = [];
  ledger_entries = [];
  outbox_events = [];
  results = [];
  exceptions = [];
  next_gateway = 1;
  next_ledger = 1;
  next_outbox = 1;
  next_result = 1;
  next_exception = 1;
}

pub data Reach : Db → Type 1 where
  start : Reach empty_db
  next : {db db' : Db} → Reach db → Step db db' → Reach db'
