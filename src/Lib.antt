-- ===== src/Lib.antt =====
-- LedgerLoop reconciles the two records of one payment: the gateway's and the ledger's. Ingestion
-- stores a raw row and an outbox event in one transaction, a relay moves the events onto a stream, a
-- matcher worker reads the stream and writes one reconciliation result per row, and a sweeper reports
-- what found no counterparty. The database's unique indexes, not the transport, make each of these
-- steps safe to repeat.
--
-- Parts, and the files that model them (paths from the repository's root; the child modules of a
-- file hold its proofs):
-- - Enums: backend/ledgerloop/db/enums.py. The closed sets of states and the two status sets.
-- - Matching: backend/ledgerloop/matching/core.py. classify_pair, decide, decide_duplicate,
--   decide_unmatched and their helpers.
-- - Messages: the message record of backend/ledgerloop/queue/messages.py.
-- - Store: backend/ledgerloop/db/models.py. `Db` is the database: the tables as lists of rows, newest
--   first, the identity columns, the four partial unique indexes of reconciliation_results
--   (`violates`) and the INSERTs with ON CONFLICT DO NOTHING (`insert_result`, `insert_exception`).
-- - Persist: backend/ledgerloop/worker/persist.py. load_facts, find_counterparties,
--   compute_latency_ms, apply_decision, _mark_reconciled, find_stale_pending. `Inv` of
--   Persist.Invariant is the well-formedness of the store: keys, foreign keys within one tenant, the
--   unique indexes, `reconciled_at` set exactly on the rows of a result that is no duplicate marker,
--   and one exception for each result that needs a human.
-- - Worker: MatcherWorker.process of backend/ledgerloop/worker/loop.py.
-- - Sweeper: Sweeper.sweep_once of backend/ledgerloop/worker/sweeper.py and the draining loop `sweep`
--   of backend/ledgerloop/worker/sweep.py.
-- - Ingest: backend/ledgerloop/services/ingest.py. ingest_gateway and _enqueue; Ingest.Batch has
--   ingest_ledger_batch with its dictionaries. `RawInv` of Ingest.Rows says that the ids of the raw
--   rows fall in the order of the table and that a tenant holds one row per idempotency key.
-- - Tenancy: backend/ledgerloop/services/tenancy.py. `Tables` are the tables accounts, api_keys and
--   webhook_sources; DirectoryInv of Tenancy.Directory is their well-formedness. resolve_api_key,
--   _upsert_account, issue_api_key and touch_account; SHA-256 and the random token are arguments.
-- - Sources: backend/ledgerloop/services/sources.py over the table webhook_sources of Tenancy.
-- - Retention: Sweeper.sweep_demo_accounts of backend/ledgerloop/worker/sweeper.py, each DELETE with
--   the foreign keys that may refuse it.
-- - Relay: OutboxRelay.drain_once of backend/ledgerloop/queue/relay.py and the rounds of its
--   run_forever. publish_many of queue/streams.py is modelled over XADD and its bound, which are an
--   argument; a theorem speaks of what was added to the stream, since the bound trims it.
-- - RateLimit: backend/ledgerloop/api/ratelimit.py. Redis is an argument, with the laws of INCR and
--   EXPIRE where they are used.
-- - Coherence: which status goes with which layer, over Worker and Sweeper; fetch_stats counts by it.
-- - Queries: backend/ledgerloop/services/queries.py. A SELECT is a filter, a sort and a bound over a
--   table's rows; `Feeds` of Queries.Feeds says that the ids fall in the order of the tables, and
--   `walk` of Queries.Walk is a client that follows the cursors. percentile_cont is an argument.
-- - Text, Instants: what the code uses of Python's str and datetime. A text is a list of character
--   codes; int() on a text outside ASCII is an argument.
-- - Signatures: backend/ledgerloop/webhooks/signatures.py. HMAC-SHA256 is an argument, of which it is
--   assumed, where it is used, that its digests are hexadecimal and not empty.
-- - Json, Adapters: backend/ledgerloop/webhooks/adapters.py over JSON values, with every exception
--   that its calls raise. The schema's constraints are `admits`; model_validate is an argument.
-- - Webhooks: backend/ledgerloop/api/routes_ingest.py. provider_webhook composes Sources, Signatures,
--   Adapters and Ingest over a `World` of the tables; Webhooks.Endpoints has the endpoints that manage
--   and test the sources.
-- - Reads: backend/ledgerloop/api/routes_read.py. The feed, the queue of cases, the statistics and
--   resolve_exception, over Queries; the division of two integers into a float is an argument.
--   `browse` of Reads.Follow is a client that sends each next_cursor back, until there is none.
-- - System: the components over one database in any order. A `Step` is one transaction of ingestion, a
--   relay, a matcher, a sweeper, demo retention or an operator; `Reach` is what they bring about from
--   an empty database. The accounts are outside: a tenant is a number.
-- - Prelude: the shared names, lists, tests and integers. Tests: concrete inputs and runs.
--
-- The state is passed explicitly: an operation takes the store and returns its result beside the new
-- store. One operation is one database transaction, and the readings of the clock inside it are one
-- instant, as PostgreSQL's now() is. A clock (`Clock`) is an argument.
--
-- Units. An amount is an integer of hundredths of the major unit (the column is numeric(18,2)), an
-- instant a natural number of microseconds since the first day of year 1. amount_drift_pct is in
-- millionths and amount_drift_abs in hundredths of millionths of the major unit, so that a
-- tolerance is an exact product. An instant minus a window stops at 0, the start of time. A wait
-- that the source reports may be negative and is an integer.
--
-- Fuel. `sweep` recurses on the passes that are left, which the source bounds by max_passes, and
-- `rounds` of Relay on the rounds that are left, of which as many as there are events are enough.
-- `walk` and `browse` recurse on the pages that they may still ask for, of which one more than there
-- are rows is enough, and the digits of a number on more fuel than the number, which is enough since
-- each step divides by ten. The other loops run over lists.
--
-- Columns. An INSERT or an UPDATE raises where a column, a foreign key or a CHECK refuses a value. This
-- is modelled where a run can come to it: `short_key` for idempotency_key in ingest_gateway (the schema
-- bounds the key of a ledger entry), `accepts` for a result in `write_decision`, BIGINT for
-- the cursors and the id of a case, and closed_after_opened in resolve_exception. `process` and the sweep write by `apply_decision`, which is
-- `write_decision` where the table accepts the row. What can refuse their decisions is the latency
-- alone (Persist.Accepted): a row that waits 2^31 milliseconds or longer (24.8 days) makes the source
-- raise instead, which rolls its transaction back and ends a sweep's pass.
-- The same holds of a payment within drift_window of the ends of datetime's range, where
-- find_counterparties raises.
--
-- Not modelled: raw_payload and the audit columns, which no modelled code reads; metrics and logs, pure
-- output; the text of the notes, kept by the values that are formatted into it; the gaps that
-- PostgreSQL leaves in an identity column on a conflict, since only freshness is used; the rank of a
-- layer outside the first three, which classify_pair never returns; the float in the latency, which is
-- `Clock.millis`, an arbitrary function; parse_bearer and demo_account_name of
-- backend/ledgerloop/services/tenancy.py, whose results are taken as given. The parsing
-- of requests and of the configuration, the migrations and the front end are glue around the modelled
-- code.
pub mod Prelude
pub mod Enums
pub mod Matching
pub mod Messages
pub mod Store
pub mod Persist
pub mod Ingest
pub mod Tenancy
pub mod Worker
pub mod Sweeper
pub mod Sources
pub mod Retention
pub mod Relay
pub mod RateLimit
pub mod System
pub mod Reads
pub mod Instants
pub mod Text
pub mod Signatures
pub mod Json
pub mod Adapters
pub mod Webhooks
pub mod Coherence
pub mod Queries
mod Tests
