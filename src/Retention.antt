-- ===== src/Retention.antt =====
-- Sweeper.sweep_demo_accounts of backend/ledgerloop/worker/sweeper.py: idle demo tenants are deleted
-- with all that they own. A DELETE is none where a foreign key refuses it, which rolls the account's
-- transaction back and ends the run.
pub mod Erase
pub mod Succeeds
pub mod Demo
use ledger_loop.Prelude.{
  ℕ, ◌+◌, Bool, true, false, not, ◌&&◌, ◌||◌, Option, none, some, List, [], ◌∷◌, ltb, ◌==◌,
  if◌then◌else◌, is_some, take, filter, any,
}
use ledger_loop.Enums.{IngestSource}
use ledger_loop.Store.{RawRow, ReconciliationResult, ExceptionRow, Db, table, side_id, same_id}
use ledger_loop.Tenancy.{Account, ApiKey, WebhookSource, Tables, is_demo}

abbrev pub of_tenant : ℕ → RawRow → Bool
of_tenant account_id row = row.tenant_id == account_id

-- `DELETE FROM exceptions WHERE tenant_id = :account_id`
unfoldable pub delete_exceptions : ℕ → Db → Db
delete_exceptions account_id db = record db {
  exceptions = filter (λ (e : ExceptionRow). not (e.tenant_id == account_id)) db.exceptions;
}

-- `DELETE FROM reconciliation_results ...`, whose foreign key from exceptions cascades.
unfoldable pub delete_results : ℕ → Db → Db
delete_results account_id db = record db {
  results = filter (λ (r : ReconciliationResult). not (r.tenant_id == account_id)) db.results;
  exceptions =
      filter
        (λ (e : ExceptionRow). not (
          any
            (λ (r : ReconciliationResult).
              (r.tenant_id == account_id) && (r.id == e.reconciliation_result_id))
            db.results))
        db.exceptions;
}

-- A result that is there refers to a row of the tenant: ON DELETE RESTRICT.
unfoldable pub refers : ℕ → IngestSource → Db → Bool
refers account_id side db =
    any
      (λ (row : RawRow).
        of_tenant account_id row
        && any (λ (r : ReconciliationResult). same_id (side_id side r) (some row.id)) db.results)
      (table side db)

abbrev pub keep_rows : ℕ → IngestSource → Db → Db
keep_rows account_id IngestSource.gateway db = record db {
  gateway_transactions =
      filter (λ (row : RawRow). not (of_tenant account_id row)) db.gateway_transactions;
}
keep_rows account_id IngestSource.ledger db = record db {
  ledger_entries = filter (λ (row : RawRow). not (of_tenant account_id row)) db.ledger_entries;
}

-- `DELETE FROM gateway_transactions ...` or `DELETE FROM ledger_entries ...`
unfoldable pub delete_rows : ℕ → IngestSource → Db → Option Db
delete_rows account_id side db =
    if refers account_id side db then none else some (keep_rows account_id side db)

-- Something that is there is the account's: ON DELETE RESTRICT of the tenant columns.
unfoldable pub owns : ℕ → Db → Bool
owns account_id db =
    any (of_tenant account_id) db.gateway_transactions
    || any (of_tenant account_id) db.ledger_entries
    || any (λ (r : ReconciliationResult). r.tenant_id == account_id) db.results
    || any (λ (e : ExceptionRow). e.tenant_id == account_id) db.exceptions

-- `DELETE FROM accounts WHERE id = :account_id`, which cascades to the keys and the sources.
unfoldable pub delete_account : ℕ → Tables → Db → Option Tables
delete_account account_id tables db =
    if owns account_id db
    then none
    else some (record tables {
      accounts = filter (λ (a : Account). not (a.id == account_id)) tables.accounts;
      api_keys = filter (λ (k : ApiKey). not (k.account_id == account_id)) tables.api_keys;
      webhook_sources =
          filter (λ (s : WebhookSource). not (s.account_id == account_id)) tables.webhook_sources;
    })

-- The transaction of one account.
unfoldable pub erase : ℕ → Tables → Db → Option (Tables × Db)
erase account_id tables db =
    elim (delete_rows account_id IngestSource.gateway
      (delete_results account_id (delete_exceptions account_id db))) [
        | none ↦ none
        | some db' ↦ elim (delete_rows account_id IngestSource.ledger db') [
          | none ↦ none
          | some db'' ↦ elim (delete_account account_id tables db'') [
            | none ↦ none
            | some tables' ↦ some (tables', db'')
          ]
        ]
      ]

-- `ORDER BY last_seen_at`
unfoldable pub insert_by_last_seen : Account → List Account → List Account
insert_by_last_seen a [] = a ∷ []
insert_by_last_seen a (b ∷ bs) =
    let rest = insert_by_last_seen a bs in
    if ltb b.last_seen_at a.last_seen_at then b ∷ rest else a ∷ b ∷ bs

unfoldable pub order_by_last_seen : List Account → List Account
order_by_last_seen [] = []
order_by_last_seen (a ∷ rest) = insert_by_last_seen a (order_by_last_seen rest)

-- `stale`: the demo accounts that were last seen longer than the retention ago.
unfoldable pub idle_demo_accounts : ℕ → ℕ → ℕ → Tables → List Account
idle_demo_accounts now retention batch_limit tables = take batch_limit (
    order_by_last_seen (
      filter (λ (a : Account). is_demo a.kind && ltb (a.last_seen_at + retention) now)
        tables.accounts))

-- The loop: how many accounts were deleted, none where it raises, and what is committed.
unfoldable pub erase_all : List Account → Tables → Db → Option ℕ × Tables × Db
erase_all [] tables db = (some 0, tables, db)
erase_all (a ∷ rest) tables db = elim (erase a.id tables db) [
  | none ↦ (none, tables, db)
  | some (tables', db') ↦
      let (deleted, tables'', db'') = erase_all rest tables' db' in
      (elim deleted [ none ↦ none | some n ↦ some (n + 1) ], tables'', db'')
]

unfoldable pub sweep_demo_accounts : ℕ → ℕ → ℕ → Tables → Db → Option ℕ × Tables × Db
sweep_demo_accounts now retention batch_limit tables db =
    erase_all (idle_demo_accounts now retention batch_limit tables) tables db
