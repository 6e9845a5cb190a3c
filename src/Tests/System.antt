-- ===== src/Tests/System.antt =====
-- A run of the components over an empty database: a receipt, and its message handed out twice.
use ledger_loop.Prelude.{refl, none, pos}
use ledger_loop.Store.{Db}
use ledger_loop.Persist.Invariant.{Inv}
use ledger_loop.Coherence.{Coherent}
use ledger_loop.Queries.Feeds.{Feeds}
use ledger_loop.Ingest.{GatewayWebhookIn}
use ledger_loop.Ingest.Rows.{RawInv}
use ledger_loop.Ingest.Gateway.{ingest_gateway-Received}
use ledger_loop.Worker.{process}
use ledger_loop.System.{Reach, start, next, receive, work, empty_db}
use ledger_loop.System.Ingestion.{Queued}
use ledger_loop.System.Reachable.{empty-WellFormed, Reach-WellFormed}
use ledger_loop.Tests.{config, clock, message}

abbrev payload : GatewayWebhookIn
payload = record {
  txn_id = "T1";
  amount = pos 105000;
  currency = "INR";
  occurred_at = 100000000;
  gateway_ref = "R1";
}

received : (db : Db) × Reach db
received =
    let (o, db, run, r) =
      ingest_gateway-Received 100 7 payload "K1" empty_db empty-WellFormed.0 empty-WellFormed.1
        refl in
    (db, next start (receive 100 7 payload "K1" o run))

Reach-WellFormed_example :
    let db =
      (process clock config message none (process clock config message none received.0).1).1 in
    Inv db × RawInv db × Feeds db × Coherent db × Queued db
Reach-WellFormed_example =
    Reach-WellFormed _
      (next (next received.1 (work clock config message none)) (work clock config message none))
