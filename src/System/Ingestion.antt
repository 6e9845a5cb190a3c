-- ===== src/System/Ingestion.antt =====
-- backend/ledgerloop/services/ingest.py leaves the results and the cases as they are.
use ledger_loop.Prelude.{
  Falling, arith, subst, ℕ, ◌≡◌, refl, sym, ap, ◌∙◌, inl, inr, String, Option, none, some, List, [],
  ◌∷◌, any, Bool-cases, Option-cases, filter,
}
use mathlib.Core.Option.{some-injective}
use ledger_loop.Enums.{IngestSource}
use ledger_loop.Store.{RawRow, OutboxEvent, ReconciliationResult, ExceptionRow, Db, table}
use ledger_loop.Queries.Feeds.{Feeds}
use ledger_loop.Ingest.{
  GatewayWebhookIn, LedgerEntryIn, IngestOutcome, has_key, add_row, map_rows, insert_raw, bump,
  enqueue, gateway_values, receipt, enqueue_outcome, ingest_gateway, store_gateway,
}
use ledger_loop.Ingest.Gateway.{received_short}
use ledger_loop.Ingest.Batch.{
  Dict, ledger_values, insert_ledger, increments, bump_all, first_by_key, respond, each, answer,
  incremented, reread, outcome_of, ingest_entries, ingest_ledger_batch,
}

-- The tables that reads go over, with their next ids.
abbrev feed : Db → List ReconciliationResult × List ExceptionRow × ℕ × ℕ
feed db = (db.results, db.exceptions, db.next_result, db.next_exception)

-- Those and the outbox: what the raw rows leave alone.
abbrev rest : Db → List ReconciliationResult × List ExceptionRow × ℕ × ℕ × List OutboxEvent × ℕ
rest db =
    (db.results, db.exceptions, db.next_result, db.next_exception, db.outbox_events, db.next_outbox)

rest-feed : (db db' : Db) → rest db' ≡ rest db → feed db' ≡ feed db
rest-feed db db' e = ap (λ t. (t.0, t.1, t.2, t.3)) e

-- The events stand newest first, by falling ids below the next one: UNIQUE (id).
abbrev pub Queued : Db → Type 0
Queued db = Falling (λ (e : OutboxEvent). e.id) db.next_outbox db.outbox_events

pub same-Queued :
    (db db' : Db)
    → db'.outbox_events ≡ db.outbox_events
    → db'.next_outbox ≡ db.next_outbox
    → Queued db
    → Queued db'
same-Queued db db' e n v = rw (e, n) v

rest-Queued : (db db' : Db) → rest db' ≡ rest db → Queued db → Queued db'
rest-Queued db db' e v = same-Queued db db' (ap (λ t. t.4) e) (ap (λ t. t.5) e) v

pub same-Feeds : (db db' : Db) → feed db' ≡ feed db → Feeds db → Feeds db'
same-Feeds db db' e v = record {
  results = rw (ap (λ f. f.0) e, ap (λ f. f.2) e) v.results;
  cases = rw (ap (λ f. f.1) e, ap (λ f. f.3) e) v.cases;
}

insert_raw-rest :
    (side : IngestSource) (row : RawRow) (db : Db) → rest (insert_raw side row db).1 ≡ rest db
unfolding insert_raw add_row
insert_raw-rest side row db =
    elim (Bool-cases (any (has_key row.tenant_id row.idempotency_key) (table side db))) [
      | inl q ↦ rw q refl
      | inr q ↦ rw q (added side)
    ]
  where
    added : (side : IngestSource) → rest (add_row side row db) ≡ rest db
    added IngestSource.gateway = refl
    added IngestSource.ledger = refl

bump-rest :
    (side : IngestSource) (tenant : ℕ) (key : String) (delta : ℕ) (db : Db)
    → rest (bump side tenant key delta db) ≡ rest db
unfolding bump map_rows
bump-rest IngestSource.gateway tenant key delta db = refl
bump-rest IngestSource.ledger tenant key delta db = refl

enqueue-feed :
    (side : IngestSource) (os : List IngestOutcome) (db : Db) → feed (enqueue side os db) ≡ feed db
unfolding enqueue
enqueue-feed side [] db = refl
enqueue-feed side (o ∷ os) db = enqueue-feed side os _

enqueue-Queued :
    (side : IngestSource) (os : List IngestOutcome) (db : Db)
    → Queued db
    → Queued (enqueue side os db)
unfolding enqueue
enqueue-Queued side [] db v = v
enqueue-Queued side (o ∷ os) db v = enqueue-Queued side os _ ((omega arith, v))

receipt-rest :
    (tenant : ℕ) (txn_id key : String) (inserted : Option ℕ) (db : Db)
    → rest (receipt tenant txn_id key (inserted, db)).1 ≡ rest db
unfolding receipt
receipt-rest tenant txn_id key (some i) db = refl
receipt-rest tenant txn_id key none db = bump-rest IngestSource.gateway tenant key 1 db

enqueued-feed :
    (o : Option IngestOutcome) (db db' : Db) (answer : IngestOutcome)
    → enqueue_outcome (o, db) ≡ some (answer, db')
    → feed db' ≡ feed db
unfolding enqueue_outcome
enqueued-feed none db db' a e = absurd (cc e)
enqueued-feed (some o) db db' a e =
    ap (λ p. feed p.1) (sym (some-injective _ _ e)) ∙ enqueue-feed IngestSource.gateway (o ∷ []) db

enqueued-Queued :
    (o : Option IngestOutcome) (db db' : Db) (answer : IngestOutcome)
    → enqueue_outcome (o, db) ≡ some (answer, db')
    → Queued db
    → Queued db'
unfolding enqueue_outcome
enqueued-Queued none db db' a e v = absurd (cc e)
enqueued-Queued (some o) db db' a e v =
    subst Queued (ap (λ p. p.1) (some-injective _ _ e))
      (enqueue-Queued IngestSource.gateway (o ∷ []) db v)

pub ingest_gateway-Queued :
    (now tenant : ℕ) (payload : GatewayWebhookIn) (key : String) (db db' : Db) (o : IngestOutcome)
    → ingest_gateway now tenant payload key db ≡ some (o, db')
    → Queued db
    → Queued db'
unfolding ingest_gateway store_gateway
ingest_gateway-Queued now tenant payload key db db' o e v =
    let short = received_short now tenant payload key db (o, db') e in
    let row = gateway_values now tenant payload key db.next_gateway in
    let put = insert_raw IngestSource.gateway row db in
    let got = receipt tenant payload.txn_id key put in
    enqueued-Queued got.0 got.1 db' o (rw short at e) (
      rest-Queued db got.1
        (receipt-rest tenant payload.txn_id key put.0 put.1
          ∙ insert_raw-rest IngestSource.gateway row db)
        v)

pub ingest_gateway-feed :
    (now tenant : ℕ) (payload : GatewayWebhookIn) (key : String) (db db' : Db) (o : IngestOutcome)
    → ingest_gateway now tenant payload key db ≡ some (o, db')
    → feed db' ≡ feed db
unfolding ingest_gateway store_gateway
ingest_gateway-feed now tenant payload key db db' o e =
    let short = received_short now tenant payload key db (o, db') e in
    let row = gateway_values now tenant payload key db.next_gateway in
    let put = insert_raw IngestSource.gateway row db in
    let got = receipt tenant payload.txn_id key put in
    enqueued-feed got.0 got.1 db' o (rw short at e)
    ∙ rest-feed db got.1 (
        receipt-rest tenant payload.txn_id key put.0 put.1
        ∙ insert_raw-rest IngestSource.gateway row db)

insert_ledger-rest :
    (now tenant : ℕ) (entries : List LedgerEntryIn) (db : Db)
    → rest (insert_ledger now tenant entries db).1 ≡ rest db
unfolding insert_ledger
insert_ledger-rest now tenant [] db = refl
insert_ledger-rest now tenant (entry ∷ entries) db =
    let row = ledger_values now tenant entry db.next_ledger in
    insert_ledger-rest now tenant entries (insert_raw IngestSource.ledger row db).1
    ∙ insert_raw-rest IngestSource.ledger row db

bump_all-rest : (tenant : ℕ) (items : Dict) (db : Db) → rest (bump_all tenant items db) ≡ rest db
unfolding bump_all
bump_all-rest tenant [] db = refl
bump_all-rest tenant ((key, delta) ∷ items) db =
    bump_all-rest tenant items (bump IngestSource.ledger tenant key delta db)
    ∙ bump-rest IngestSource.ledger tenant key delta db

respond-feed :
    (entries : List LedgerEntryIn) (rows : Dict) (os : Option (List IngestOutcome)) (db db' : Db)
    (answers : List IngestOutcome)
    → respond entries rows os db ≡ some (answers, db')
    → feed db' ≡ feed db
unfolding respond
respond-feed entries rows none db db' answers e = absurd (cc e)
respond-feed entries rows (some os) db db' answers e =
    elim (Option-cases (each (answer rows os) entries)) [
      | inl q ↦ absurd (cc (rw (respond, q) at e))
      | inr (bs, q) ↦
          ap (λ p. feed p.1) (sym (some-injective _ _ (rw (respond, q) at e)))
          ∙ enqueue-feed IngestSource.ledger os db
    ]

respond-Queued :
    (entries : List LedgerEntryIn) (rows : Dict) (os : Option (List IngestOutcome)) (db db' : Db)
    (answers : List IngestOutcome)
    → respond entries rows os db ≡ some (answers, db')
    → Queued db
    → Queued db'
unfolding respond
respond-Queued entries rows none db db' answers e v = absurd (cc e)
respond-Queued entries rows (some os) db db' answers e v =
    elim (Option-cases (each (answer rows os) entries)) [
      | inl q ↦ absurd (cc (rw (respond, q) at e))
      | inr (bs, q) ↦
          subst Queued (ap (λ p. p.1) (some-injective _ _ (rw (respond, q) at e)))
            (enqueue-Queued IngestSource.ledger os db v)
    ]

pub ingest_ledger_batch-feed :
    (now tenant : ℕ) (entries : List LedgerEntryIn) (db db' : Db) (answers : List IngestOutcome)
    → ingest_ledger_batch now tenant entries db ≡ some (answers, db')
    → feed db' ≡ feed db
unfolding ingest_ledger_batch ingest_entries
ingest_ledger_batch-feed now tenant [] db db' answers e =
    ap (λ p. feed p.1) (sym (some-injective _ _ e))
ingest_ledger_batch-feed now tenant (entry ∷ entries) db db' answers e =
    let es = entry ∷ entries in
    let firsts = first_by_key [] es in
    let stored = insert_ledger now tenant firsts db in
    let items = increments es stored.0 firsts in
    let bumped = bump_all tenant items stored.1 in
    let read = reread (filter (incremented tenant items) bumped.ledger_entries) stored.0 [] in
    respond-feed es read.0 (each (outcome_of read.0 read.1 items) firsts) bumped db' answers e
    ∙ rest-feed db bumped
        (bump_all-rest tenant items stored.1 ∙ insert_ledger-rest now tenant firsts db)

pub ingest_ledger_batch-Queued :
    (now tenant : ℕ) (entries : List LedgerEntryIn) (db db' : Db) (answers : List IngestOutcome)
    → ingest_ledger_batch now tenant entries db ≡ some (answers, db')
    → Queued db
    → Queued db'
unfolding ingest_ledger_batch ingest_entries
ingest_ledger_batch-Queued now tenant [] db db' answers e v =
    subst Queued (ap (λ p. p.1) (some-injective _ _ e)) v
ingest_ledger_batch-Queued now tenant (entry ∷ entries) db db' answers e v =
    let es = entry ∷ entries in
    let firsts = first_by_key [] es in
    let stored = insert_ledger now tenant firsts db in
    let items = increments es stored.0 firsts in
    let bumped = bump_all tenant items stored.1 in
    let read = reread (filter (incremented tenant items) bumped.ledger_entries) stored.0 [] in
    respond-Queued es read.0 (each (outcome_of read.0 read.1 items) firsts) bumped db' answers e (
      rest-Queued db bumped
        (bump_all-rest tenant items stored.1 ∙ insert_ledger-rest now tenant firsts db) v)
