-- ===== src/System/Reachable.antt =====
-- What holds in every state that the components can bring about.
use ledger_loop.Prelude.{ℕ, ◌≡◌, sym, ap, ◌∙◌, subst, String, Option, none, some, In, map, filter}
use mathlib.Core.Option
use mathlib.Core.Option.{some-injective}
use ledger_loop.Enums.{IngestSource}
use ledger_loop.Matching.{MatchConfig, TxnFacts}
use ledger_loop.Store.{RawRow, ExceptionRow, Db, table}
use ledger_loop.Tenancy.{Tenant}
use ledger_loop.Persist.{Clock, compute_latency_ms}
use ledger_loop.Persist.Invariant.{Inv}
use ledger_loop.Ingest.Rows.{Descending, RawInv}
use ledger_loop.Ingest.{next_raw}
use ledger_loop.Ingest.Gateway.{received_short, ingest_gateway-Received}
use ledger_loop.Ingest.Batch.Answers.{ingest_ledger_batch-Done}
use ledger_loop.Messages.{IngestMessage}
use ledger_loop.Worker.{process}
use ledger_loop.Worker.Safety.{process_cases, process-Inv}
use ledger_loop.Sweeper.{last_attempt, resolve_stale}
use ledger_loop.Sweeper.Settles.{resolve_stale-Inv}
use ledger_loop.Queries.{one_or_none, closable, close_row, close_exception}
use ledger_loop.Coherence.{Coherent, process-Coherent, resolve_stale-Coherent}
use ledger_loop.Queries.Close.{closed_db, closed_db-Feeds}
use ledger_loop.Queries.Feeds.{Feeds, apply_decision-Feeds}
use ledger_loop.System.Ingestion.{
  Queued, same-Feeds, ingest_gateway-feed, ingest_gateway-Queued, ingest_ledger_batch-feed,
  ingest_ledger_batch-Queued,
}
use ledger_loop.System.Outbox.{WellFormed, apply_decision-Queued, drain_once-WellFormed}
use ledger_loop.System.Retired.{erase-WellFormed}
use ledger_loop.Queries.Closing.{closed_db-Inv}
use ledger_loop.System.{
  Step, receive, sync, work, sweep_row, close, relay, retire, empty_db, Reach, start, next,
}
use ledger_loop.System.Raws.{apply_decision-RawInv, closed_db-RawInv}

after-run {ℓ} :
    {A : Type ℓ} (run : Option (A × Db)) (a b : A) (db' db'' : Db)
    → run ≡ some (a, db')
    → run ≡ some (b, db'')
    → db' ≡ db''
after-run run a b db' db'' e f = ap (λ p. p.1) (some-injective _ _ (sym e ∙ f))

no_rows {ℓ} : {A : Type ℓ} (side : IngestSource) (row : RawRow) → In row (table side empty_db) → A
no_rows IngestSource.gateway row h = elim h [ ]
no_rows IngestSource.ledger row h = elim h [ ]

nothing : (side : IngestSource) → Descending (next_raw side empty_db) (table side empty_db)
nothing IngestSource.gateway = tt
nothing IngestSource.ledger = tt

pub empty-WellFormed : WellFormed empty_db
empty-WellFormed = (
  record {
    raw_keys = λ side a b ha. no_rows side a ha;
    result_below = λ r h. elim h [ ];
    result_keys = λ r t h. elim h [ ];
    referenced = λ side r i h. elim h [ ];
    sided = λ r h. elim h [ ];
    unique = λ r t h. elim h [ ];
    settled = λ side r row h. elim h [ ];
    resolved = λ side row h. no_rows side row h;
    opened = λ r h. elim h [ ];
    justified = λ e h. elim h [ ];
    one_case = λ e f h. elim h [ ];
  },
  record { descending = nothing; one_row = λ side a b ha. no_rows side a ha },
  record { results = tt; cases = tt },
  λ r h. elim h [ ],
  tt,
)

process-Feeds :
    (clock : Clock) (config : MatchConfig) (m : IngestMessage) (id : Option String) (db : Db)
    → Feeds db
    → Feeds (process clock config m id db).1
process-Feeds clock config m id db v =
    process_cases Feeds clock config m id db v
      λ c d e k. apply_decision-Feeds clock d c.tenant_id _ id db v

resolve_stale-Feeds :
    (clock : Clock) (config : MatchConfig) (c : TxnFacts) (db : Db)
    → Feeds db
    → Feeds (resolve_stale clock config c db).1
unfolding resolve_stale
resolve_stale-Feeds clock config c db v =
    let attempt = last_attempt clock config c db in
    apply_decision-Feeds clock attempt.0 c.tenant_id (some (compute_latency_ms attempt.1 clock))
      none db v

process-RawInv :
    (clock : Clock) (config : MatchConfig) (m : IngestMessage) (id : Option String) (db : Db)
    → RawInv db
    → RawInv (process clock config m id db).1
process-RawInv clock config m id db v =
    process_cases RawInv clock config m id db v
      λ c d e k. apply_decision-RawInv clock d c.tenant_id _ id db v

resolve_stale-RawInv :
    (clock : Clock) (config : MatchConfig) (c : TxnFacts) (db : Db)
    → RawInv db
    → RawInv (resolve_stale clock config c db).1
unfolding resolve_stale
resolve_stale-RawInv clock config c db v =
    let attempt = last_attempt clock config c db in
    apply_decision-RawInv clock attempt.0 c.tenant_id (some (compute_latency_ms attempt.1 clock))
      none db v

closed_state :
    (now : ℕ) (tenant : Tenant) (i : ℕ) (notes : String) (db db' : Db)
    (closed : Option ExceptionRow)
    → close_exception now tenant i notes db ≡ some (closed, db')
    → closed_db now tenant i notes db ≡ db'
unfolding close_exception
closed_state now tenant i notes db db' closed h =
    written (one_or_none (map (close_row now notes) (filter (closable tenant i) db.exceptions))) h
  where
    written :
        (o : Option (Option ExceptionRow))
        → Option.map {B = Option ExceptionRow × Db} (λ c. (c, closed_db now tenant i notes db)) o
          ≡ some (closed, db')
        → closed_db now tenant i notes db ≡ db'
    written none e = absurd (cc e)
    written (some c) e = ap (λ p. p.1) (some-injective _ _ e)

process-Queued :
    (clock : Clock) (config : MatchConfig) (m : IngestMessage) (id : Option String) (db : Db)
    → Queued db
    → Queued (process clock config m id db).1
process-Queued clock config m id db v =
    process_cases Queued clock config m id db v
      λ c d e k. apply_decision-Queued clock d c.tenant_id _ id db v

resolve_stale-Queued :
    (clock : Clock) (config : MatchConfig) (c : TxnFacts) (db : Db)
    → Queued db
    → Queued (resolve_stale clock config c db).1
unfolding resolve_stale
resolve_stale-Queued clock config c db v =
    let attempt = last_attempt clock config c db in
    apply_decision-Queued clock attempt.0 c.tenant_id (some (compute_latency_ms attempt.1 clock))
      none db v

same-Coherent : (db db' : Db) → db'.results ≡ db.results → Coherent db → Coherent db'
same-Coherent db db' e v r h = v r (subst (In r) e h)

Step-WellFormed : (db db' : Db) → Step db db' → WellFormed db → WellFormed db'
Step-WellFormed db db' (receive now tenant payload key o run) (v, w, f, c, q) =
    let short = received_short now tenant payload key db (o, db') run in
    let (o', db'', run', r) = ingest_gateway-Received now tenant payload key db v w short in
    let same = after-run _ o' o db'' db' run' run in
    (
      subst Inv same r.kept,
      subst RawInv same r.keyed,
      same-Feeds db db' (ingest_gateway-feed now tenant payload key db db' o run) f,
      same-Coherent db db' (ap (λ t. t.0) (ingest_gateway-feed now tenant payload key db db' o run))
          c,
      ingest_gateway-Queued now tenant payload key db db' o run q,
    )
Step-WellFormed db db' (sync now tenant entries os run) (v, w, f, c, q) =
    let (os', db'', run', d) = ingest_ledger_batch-Done now tenant entries db v w in
    let same = after-run _ os' os db'' db' run' run in
    (
      subst Inv same d.kept,
      subst RawInv same d.keys,
      same-Feeds db db' (ingest_ledger_batch-feed now tenant entries db db' os run) f,
      same-Coherent db db'
          (ap (λ t. t.0) (ingest_ledger_batch-feed now tenant entries db db' os run)) c,
      ingest_ledger_batch-Queued now tenant entries db db' os run q,
    )
Step-WellFormed db db' (work clock config message id) (v, w, f, c, q) = (
  process-Inv clock config message id db v,
  process-RawInv clock config message id db w,
  process-Feeds clock config message id db f,
  process-Coherent clock config message id db c,
  process-Queued clock config message id db q,
)
Step-WellFormed db db' (sweep_row clock config x read) (v, w, f, c, q) = (
  resolve_stale-Inv clock config x db v read,
  resolve_stale-RawInv clock config x db w,
  resolve_stale-Feeds clock config x db f,
  resolve_stale-Coherent clock config x db c,
  resolve_stale-Queued clock config x db q,
)
Step-WellFormed db db' (close now tenant i notes closed run) (v, w, f, c, q) =
    subst WellFormed (closed_state now tenant i notes db db' closed run) (
      (
        closed_db-Inv now tenant i notes db v,
        closed_db-RawInv now tenant i notes db w,
        closed_db-Feeds now tenant i notes db f,
        c,
        q,
      ))
Step-WellFormed db _ (relay xadd maxlen now locked batch stream) v =
    drain_once-WellFormed xadd maxlen now locked batch db stream v
Step-WellFormed db db' (retire account tables tables' run) v =
    erase-WellFormed account tables tables' db db' run v

-- Whatever ingestion, relays, matchers, sweepers, demo retention and operators do, in any order and with
-- any message handed out any number of times, a database that was empty is well formed. The ids of the
-- raw rows, results, cases and outbox events are unique and fall in the order of their tables, below
-- the next one. A result names only rows that are there, of its own account and at least one, and a case
-- only a result that is there, of its own account. Every settled row has exactly one result that is no
-- duplicate marker, every result that needs a human has exactly one case and no other result has one,
-- every result has the status that its layer calls for, and no account holds two rows of a side under
-- one idempotency key.
pub Reach-WellFormed :
    (db : Db) → Reach db → Inv db × RawInv db × Feeds db × Coherent db × Queued db
Reach-WellFormed _ start = empty-WellFormed
Reach-WellFormed db (next {db = old} r s) = Step-WellFormed old db s (Reach-WellFormed old r)
