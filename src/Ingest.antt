-- ===== src/Ingest.antt =====
-- backend/ledgerloop/services/ingest.py: the raw rows, their idempotency keys and the outbox. Each
-- of ingest_gateway and ingest_ledger_batch is one database transaction; `now` is its now(), and
-- `tenant` is `tenant.account_id`. The result is none where the source raises (`.one()` on another
-- number of rows than one, a missing key of a dictionary), which rolls the transaction back.
pub mod Extends
pub mod Rows
pub mod Bumps
pub mod Gateway
pub mod Retry
pub mod Batch
use ledger_loop.Prelude.{
  one, ℕ, ◌+◌, ◌-◌, String, Bool, true, false, ◌&&◌, Option, none, some, List, [], ◌∷◌, ◌++◌, map,
  ltb, leb, ◌==◌, if◌then◌else◌, str_eq, is_some, length, filter, any, find, ℤ,
}
use mathlib.Core.Option
use ledger_loop.Enums.{IngestSource}
use ledger_loop.Text.{codes}
use ledger_loop.Messages.{IngestMessage}
use ledger_loop.Store.{RawRow, OutboxEvent, Db, table}

pub record GatewayWebhookIn : Type 0 where
  pub txn_id : String
  pub amount : ℤ
  pub currency : String
  pub occurred_at : ℕ
  pub gateway_ref : String

pub record LedgerEntryIn : Type 0 where
  pub entry_id : String
  pub txn_id : String
  pub amount : ℤ
  pub currency : String
  pub occurred_at : ℕ
  pub idempotency_key : String

pub record IngestOutcome : Type 0 where
  pub row_id : ℕ
  pub txn_id : String
  pub duplicate : Bool
  pub submissions : ℕ

abbrev pub next_raw : IngestSource → Db → ℕ
next_raw IngestSource.gateway db = db.next_gateway
next_raw IngestSource.ledger db = db.next_ledger

unfoldable pub add_row : IngestSource → RawRow → Db → Db
add_row IngestSource.gateway row db = record db {
  gateway_transactions = row ∷ db.gateway_transactions;
  next_gateway = db.next_gateway + 1;
}
add_row IngestSource.ledger row db = record db {
  ledger_entries = row ∷ db.ledger_entries;
  next_ledger = db.next_ledger + 1;
}

unfoldable pub map_rows : IngestSource → (RawRow → RawRow) → Db → Db
map_rows IngestSource.gateway f db = record db {
  gateway_transactions = map f db.gateway_transactions;
}
map_rows IngestSource.ledger f db = record db { ledger_entries = map f db.ledger_entries }

-- `tenant_id = :tenant AND idempotency_key = :key`
unfoldable pub has_key : ℕ → String → RawRow → Bool
has_key tenant key row = (row.tenant_id == tenant) && str_eq row.idempotency_key key

-- `INSERT ... ON CONFLICT (tenant_id, idempotency_key) DO NOTHING RETURNING id` of a row that the columns
-- hold (short_key)
unfoldable pub insert_raw : IngestSource → RawRow → Db → Option ℕ × Db
insert_raw side row db =
    if any (has_key row.tenant_id row.idempotency_key) (table side db)
    then (none, db)
    else (some row.id, add_row side row db)

unfoldable pub bump_row : ℕ → String → ℕ → RawRow → RawRow
bump_row tenant key delta row =
    if has_key tenant key row
    then record row { duplicate_count = row.duplicate_count + delta }
    else row

-- `UPDATE ... SET duplicate_count = duplicate_count + :delta WHERE ...`
unfoldable pub bump : IngestSource → ℕ → String → ℕ → Db → Db
bump side tenant key delta db = map_rows side (bump_row tenant key delta) db

abbrev pub gateway_values : ℕ → ℕ → GatewayWebhookIn → String → ℕ → RawRow
gateway_values now tenant payload key id = record {
  id = id;
  tenant_id = tenant;
  txn_id = payload.txn_id;
  amount = payload.amount;
  currency = payload.currency;
  occurred_at = payload.occurred_at;
  reference = payload.gateway_ref;
  idempotency_key = key;
  duplicate_count = 0;
  received_at = now;
  reconciled_at = none;
}

abbrev pub event_of : IngestSource → IngestOutcome → ℕ → OutboxEvent
event_of source outcome id = record {
  id = id;
  source = source;
  row_id = outcome.row_id;
  payload = record {
    source = source;
    row_id = outcome.row_id;
    txn_id = outcome.txn_id;
    is_duplicate = outcome.duplicate;
    submissions = outcome.submissions;
  };
  published_at = none;
  attempts = 0;
}

unfoldable pub enqueue : IngestSource → List IngestOutcome → Db → Db
enqueue source [] db = db
enqueue source (outcome ∷ outcomes) db = enqueue source outcomes (record db {
  outbox_events = event_of source outcome db.next_outbox ∷ db.outbox_events;
  next_outbox = db.next_outbox + 1;
})

-- The outcome of a key that is already held, from the rows that the UPDATE returns.
unfoldable pub retried : String → Option RawRow → Option IngestOutcome
retried txn_id none = none
retried txn_id (some existing) = some (record {
  row_id = existing.id;
  txn_id = txn_id;
  duplicate = true;
  submissions = existing.duplicate_count + 1;
})

-- The outcome of the INSERT, and of the UPDATE that follows a conflict.
unfoldable pub receipt : ℕ → String → String → Option ℕ × Db → Option IngestOutcome × Db
receipt tenant txn_id key (some row_id, db) =
    (some (record { row_id = row_id; txn_id = txn_id; duplicate = false; submissions = 1 }), db)
receipt tenant txn_id key (none, db) =
    let db' = bump IngestSource.gateway tenant key 1 db in
    (retried txn_id (one (filter (has_key tenant key) (table IngestSource.gateway db'))), db')

unfoldable pub enqueue_outcome : Option IngestOutcome × Db → Option (IngestOutcome × Db)
enqueue_outcome (none, db) = none
enqueue_outcome (some outcome, db) = some (outcome, enqueue IngestSource.gateway (outcome ∷ []) db)

-- idempotency_key is String(255).
abbrev pub short_key : String → Bool
short_key key = leb (length (codes key)) 255

-- The statements, for values that the columns hold.
unfoldable pub store_gateway : ℕ → ℕ → GatewayWebhookIn → String → Db → Option (IngestOutcome × Db)
store_gateway now tenant payload key db = enqueue_outcome (
    receipt tenant payload.txn_id key
      (insert_raw IngestSource.gateway (gateway_values now tenant payload key db.next_gateway) db))

-- The INSERT raises on a key that its column does not hold, before it looks for a conflict.
unfoldable pub ingest_gateway : ℕ → ℕ → GatewayWebhookIn → String → Db → Option (IngestOutcome × Db)
ingest_gateway now tenant payload key db =
    if short_key key then store_gateway now tenant payload key db else none
