-- ===== src/Ingest/Batch.antt =====
-- ingest_ledger_batch of backend/ledgerloop/services/ingest.py. A dictionary is the list of its
-- items, in which the first of a key counts; a key that a dictionary lacks is none.
pub mod View
pub mod Firsts
pub mod Dicts
pub mod Steps
pub mod Increments
pub mod Reread
pub mod Tally
pub mod Lookups
pub mod Answers
use ledger_loop.Prelude.{
  ℕ, ◌+◌, ◌-◌, String, Bool, ◌&&◌, Option, none, some, List, [], ◌∷◌, ◌++◌, ltb, ◌==◌,
  if◌then◌else◌, str_eq, is_some, length, filter, any,
}
use mathlib.Core.Option
use ledger_loop.Enums.{IngestSource}
use ledger_loop.Store.{RawRow, Db}
use ledger_loop.Ingest.{LedgerEntryIn, IngestOutcome, insert_raw, bump, enqueue}

abbrev pub Dict : Type 0
Dict = List (String × ℕ)

-- `d.get(key)`
unfoldable pub get : String → Dict → Option ℕ
get key [] = none
get key ((k, value) ∷ items) = if str_eq k key then some value else get key items

-- `d.setdefault(key, value)`
unfoldable pub setdefault : String → ℕ → Dict → Dict
setdefault key value d = if is_some (get key d) then d else d ++ ((key, value) ∷ [])

abbrev pub ledger_values : ℕ → ℕ → LedgerEntryIn → ℕ → RawRow
ledger_values now tenant entry id = record {
  id = id;
  tenant_id = tenant;
  txn_id = entry.txn_id;
  amount = entry.amount;
  currency = entry.currency;
  occurred_at = entry.occurred_at;
  reference = entry.entry_id;
  idempotency_key = entry.idempotency_key;
  duplicate_count = 0;
  received_at = now;
  reconciled_at = none;
}

unfoldable pub keyed : String → LedgerEntryIn → Bool
keyed key entry = str_eq entry.idempotency_key key

-- `first_by_key.values()`, from those that are already in.
unfoldable pub first_by_key : List LedgerEntryIn → List LedgerEntryIn → List LedgerEntryIn
first_by_key firsts [] = firsts
first_by_key firsts (entry ∷ entries) =
    first_by_key
      (if any (keyed entry.idempotency_key) firsts then firsts else firsts ++ (entry ∷ [])) entries

-- `submissions_per_key[key]`
unfoldable pub submissions_per_key : List LedgerEntryIn → String → ℕ
submissions_per_key entries key = length (filter (keyed key) entries)

-- A row that the INSERT returns, put into `inserted`.
unfoldable pub returning : String → Option ℕ → Dict → Dict
returning key none inserted = inserted
returning key (some row_id) inserted = (key, row_id) ∷ inserted

-- The multi-row INSERT with ON CONFLICT DO NOTHING, and the rows that it returns.
unfoldable pub insert_ledger : ℕ → ℕ → List LedgerEntryIn → Db → Dict × Db
insert_ledger now tenant [] db = ([], db)
insert_ledger now tenant (entry ∷ entries) db =
    let (row_id, db') =
      insert_raw IngestSource.ledger (ledger_values now tenant entry db.next_ledger) db in
    let (inserted, db'') = insert_ledger now tenant entries db' in
    (returning entry.idempotency_key row_id inserted, db'')

-- `count - (1 if key in inserted else 0)`
unfoldable pub increment : List LedgerEntryIn → Dict → String → ℕ
increment entries inserted key =
    submissions_per_key entries key - (if is_some (get key inserted) then 1 else 0)

-- The items of `increments`, over the keys of the batch in their order.
unfoldable pub increments : List LedgerEntryIn → Dict → List LedgerEntryIn → Dict
increments entries inserted [] = []
increments entries inserted (entry ∷ firsts) =
    let delta = increment entries inserted entry.idempotency_key in
    let rest = increments entries inserted firsts in
    if ltb 0 delta then (entry.idempotency_key, delta) ∷ rest else rest

-- The executemany.
unfoldable pub bump_all : ℕ → Dict → Db → Db
bump_all tenant [] db = db
bump_all tenant ((key, delta) ∷ items) db =
    bump_all tenant items (bump IngestSource.ledger tenant key delta db)

-- `WHERE tenant_id = :tenant AND idempotency_key IN (increments)`
unfoldable pub incremented : ℕ → Dict → RawRow → Bool
incremented tenant items row = (row.tenant_id == tenant) && is_some (get row.idempotency_key items)

-- The loop over those rows: `inserted` and `counts_by_key`.
unfoldable pub reread : List RawRow → Dict → Dict → Dict × Dict
reread [] inserted counts = (inserted, counts)
reread (row ∷ rows) inserted counts =
    reread rows (setdefault row.idempotency_key row.id inserted)
      ((row.idempotency_key, row.duplicate_count) ∷ counts)

unfoldable pub counted : String → Dict → ℕ
counted key counts = elim (get key counts) [ none ↦ 0 | some n ↦ n ]

-- One entry of `outcomes`.
unfoldable pub outcome_of : Dict → Dict → Dict → LedgerEntryIn → Option IngestOutcome
outcome_of inserted counts items entry = elim (get entry.idempotency_key inserted) [
  | none ↦ none
  | some row_id ↦ some (record {
    row_id = row_id;
    txn_id = entry.txn_id;
    duplicate = is_some (get entry.idempotency_key items);
    submissions = counted entry.idempotency_key counts + 1;
  })
]

-- A comprehension, which raises where one of its elements does.
unfoldable pub each {ℓ} :
    {A : Type ℓ} → (LedgerEntryIn → Option A) → List LedgerEntryIn → Option (List A)
each f [] = some []
each f (entry ∷ entries) = elim (f entry) [
  | none ↦ none
  | some a ↦ Option.map (a ∷◌) (each f entries)
]

-- `by_key[row_id]`: the last of the outcomes with that row.
unfoldable pub by_key : List IngestOutcome → ℕ → Option IngestOutcome
by_key [] row_id = none
by_key (outcome ∷ outcomes) row_id = elim (by_key outcomes row_id) [
  | some o ↦ some o
  | none ↦ if outcome.row_id == row_id then some outcome else none
]

-- `by_key[inserted[entry.idempotency_key]]`
unfoldable pub answer : Dict → List IngestOutcome → LedgerEntryIn → Option IngestOutcome
answer inserted outcomes entry = elim (get entry.idempotency_key inserted) [
  | none ↦ none
  | some row_id ↦ by_key outcomes row_id
]

-- From the outcomes on.
unfoldable pub respond :
    List LedgerEntryIn → Dict → Option (List IngestOutcome) → Db → Option (List IngestOutcome × Db)
respond entries inserted none db = none
respond entries inserted (some outcomes) db = elim (each (answer inserted outcomes) entries) [
  | none ↦ none
  | some answers ↦ some (answers, enqueue IngestSource.ledger outcomes db)
]

-- `ingest_ledger_batch` past its guard.
unfoldable pub ingest_entries : ℕ → ℕ → List LedgerEntryIn → Db → Option (List IngestOutcome × Db)
ingest_entries now tenant entries db =
    let firsts = first_by_key [] entries in
    let (inserted, stored) = insert_ledger now tenant firsts db in
    let items = increments entries inserted firsts in
    let bumped = bump_all tenant items stored in
    let (rows, counts) =
      reread (filter (incremented tenant items) bumped.ledger_entries) inserted [] in
    respond entries rows (each (outcome_of rows counts items) firsts) bumped

unfoldable pub ingest_ledger_batch :
    ℕ → ℕ → List LedgerEntryIn → Db → Option (List IngestOutcome × Db)
ingest_ledger_batch now tenant [] db = some ([], db)
ingest_ledger_batch now tenant (entry ∷ entries) db = ingest_entries now tenant (entry ∷ entries) db
