-- ===== src/Tests/Ingest.antt =====
-- Ingestion into the concrete store: a retry of the gateway's delivery, and a batch of the ledger
-- with a key that is held and a new key that comes twice.
use ledger_loop.Prelude.{
  ◌≡◌, refl, sym, ◌∙◌, inl, inr, none, some, true, false, String, Option, List, [], ◌∷◌, arith, In,
  length, str_eq, pos,
}
use ledger_loop.Enums.{IngestSource}
use ledger_loop.Store.{RawRow, Db, table}
use ledger_loop.Ingest.{
  GatewayWebhookIn, LedgerEntryIn, IngestOutcome, next_raw, add_row, map_rows, has_key, insert_raw,
  bump_row, bump, enqueue, retried, receipt, enqueue_outcome, store_gateway, ingest_gateway,
}
use ledger_loop.Ingest.Rows.{RawInv, Descending}
use ledger_loop.Ingest.Gateway.{Received, ingest_gateway-Received}
use ledger_loop.Ingest.Retry.{ingest_gateway_again}
use ledger_loop.Ingest.Batch.{
  get, setdefault, keyed, first_by_key, submissions_per_key, returning, insert_ledger, increment,
  increments, bump_all, incremented, reread, counted, outcome_of, each, by_key, answer, respond,
  ingest_entries, ingest_ledger_batch,
}
use ledger_loop.Ingest.Batch.Answers.{Done, ingest_ledger_batch-Done}
use ledger_loop.Tests.{gateway_row, ledger_row, db, db-Inv}

-- What a run of ingestion computes with.
unfoldable ingestion : Unit {0}
unfolding str_eq add_row map_rows has_key insert_raw bump_row bump enqueue retried receipt
    enqueue_outcome store_gateway ingest_gateway get setdefault keyed first_by_key
    submissions_per_key returning insert_ledger increment increments bump_all incremented reread
    counted outcome_of each by_key answer respond ingest_entries ingest_ledger_batch
ingestion = tt

alone : (x a b : RawRow) → In a (x ∷ []) → In b (x ∷ []) → a ≡ b
alone x a b (inl p) (inl q) = sym p ∙ q
alone x a b (inl p) (inr n) = elim n [ ]
alone x a b (inr m) h = elim m [ ]

pub db-RawInv : RawInv db
db-RawInv = record { descending = ids; one_row = keys }
  where
    ids : (side : IngestSource) → Descending (next_raw side db) (table side db)
    ids IngestSource.gateway = (omega arith, tt)
    ids IngestSource.ledger = (omega arith, tt)

    keys :
        (side : IngestSource) (a b : RawRow)
        → In a (table side db)
        → In b (table side db)
        → a.tenant_id ≡ b.tenant_id
        → a.idempotency_key ≡ b.idempotency_key
        → a ≡ b
    keys IngestSource.gateway a b h k e q = alone gateway_row a b h k
    keys IngestSource.ledger a b h k e q = alone ledger_row a b h k

abbrev delivery : GatewayWebhookIn
delivery = record {
  txn_id = "T1";
  amount = pos 105000;
  currency = "INR";
  occurred_at = 100000000;
  gateway_ref = "pi_1";
}

abbrev retry_db : Option (IngestOutcome × Db)
retry_db = ingest_gateway 800000000 7 delivery "stripe:evt_1" db

ingest_gateway-Received_example :
    (o : IngestOutcome) × (db' : Db) × (ingest_gateway 800000000 7 delivery "stripe:evt_1" db
      ≡ some (o, db'))
    × Received 800000000 7 delivery "stripe:evt_1" db o db'
ingest_gateway-Received_example =
    ingest_gateway-Received 800000000 7 delivery "stripe:evt_1" db db-Inv db-RawInv refl

abbrev first_outcome : IngestOutcome
first_outcome = record { row_id = 2; txn_id = "T1"; duplicate = false; submissions = 1 }

abbrev first_db : Db
first_db = record db {
  gateway_transactions =
      record gateway_row { id = 2; idempotency_key = "stripe:evt_2"; received_at = 800000000 }
      ∷ gateway_row
      ∷ [];
  next_gateway = 3;
  outbox_events =
      record {
        id = 0;
        source = IngestSource.gateway;
        row_id = 2;
        payload = record {
          source = IngestSource.gateway;
          row_id = 2;
          txn_id = "T1";
          is_duplicate = false;
          submissions = 1;
        };
        published_at = none;
        attempts = 0;
      }
      ∷ [];
  next_outbox = 1;
}

first_receipt :
    ingest_gateway 800000000 7 delivery "stripe:evt_2" db ≡ some (first_outcome, first_db)
unfolding ingestion
first_receipt = refl

ingest_gateway_again_example :
    (o' : IngestOutcome) × (db'' : Db) × (ingest_gateway 900000000 7 delivery "stripe:evt_2"
        first_db
      ≡ some (o', db''))
    × (o'.row_id ≡ 2)
    × (o'.duplicate ≡ true)
    × (o'.submissions ≡ 2)
    × (length db''.gateway_transactions ≡ 2)
ingest_gateway_again_example =
    ingest_gateway_again 800000000 900000000 7 delivery delivery "stripe:evt_2" db first_db
      first_outcome db-Inv db-RawInv first_receipt

abbrev entry : String → LedgerEntryIn
entry key = record {
  entry_id = key;
  txn_id = "T1";
  amount = pos 105000;
  currency = "INR";
  occurred_at = 101500000;
  idempotency_key = key;
}

-- "E1" is held, "E2" is new.
abbrev batch : List LedgerEntryIn
batch = entry "E2" ∷ entry "E1" ∷ entry "E2" ∷ []

ingest_ledger_batch-Done_example :
    (answers : List IngestOutcome) × (db' : Db) × (ingest_ledger_batch 800000000 7 batch db
      ≡ some (answers, db'))
    × Done 800000000 7 batch db answers db'
ingest_ledger_batch-Done_example = ingest_ledger_batch-Done 800000000 7 batch db db-Inv db-RawInv

abbrev told : Option (List IngestOutcome × Db) → List IngestOutcome
told none = []
told (some (answers, after)) = answers

-- The new row 5 is answered as a duplicate at both of its entries, and its only event is one of a
-- duplicate.
answers_of_batch :
    told (ingest_ledger_batch 800000000 7 batch db)
    ≡ record { row_id = 5; txn_id = "T1"; duplicate = true; submissions = 2 }
      ∷ record { row_id = 4; txn_id = "T1"; duplicate = true; submissions = 2 }
      ∷ record { row_id = 5; txn_id = "T1"; duplicate = true; submissions = 2 }
      ∷ []
unfolding ingestion
answers_of_batch = refl
