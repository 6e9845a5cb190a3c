-- ===== src/Tests/Worker.antt =====
-- The matcher at the message of the gateway's row.
use ledger_loop.Prelude.{◌≡◌, refl, not, true, inl, some, none}
use ledger_loop.Enums.{ReconStatus, MatchLayer}
use ledger_loop.Persist.{load_facts}
use ledger_loop.Store.{Db}
use ledger_loop.Worker.{process}
use ledger_loop.Worker.Redelivery.{Decided, process-Decided, process_twice}
use ledger_loop.Tests.{config, clock, message, gateway_facts, db, db-Inv, program}

abbrev settled_db : Db
settled_db = (process clock config message (some "1-0") db).1

written : (process clock config message (some "1-0") db).0.written ≡ true
unfolding program
written = refl

process_twice_example : (process clock config message (some "2-0") settled_db).1 ≡ settled_db
process_twice_example = process_twice clock clock config message (some "1-0") (some "2-0") db db-Inv

loaded : load_facts message.source message.row_id settled_db ≡ some gateway_facts
unfolding program
loaded = refl

its_result : Decided settled_db gateway_facts (not message.is_duplicate)
unfolding program
its_result = record {
  result = record {
    id = 0;
    tenant_id = 7;
    gateway_txn_id = some 1;
    ledger_entry_id = some 4;
    status = ReconStatus.matched;
    match_layer = MatchLayer.exact;
    notes = none;
    match_latency_ms = some 598400;
    resolved_at = 700000000;
    source_message_id = some "1-0";
  };
  stored = inl refl;
  points = refl;
  owner = refl;
  kind = refl;
}

process-Decided_example : (process clock config message none settled_db).1 ≡ settled_db
process-Decided_example =
    process-Decided clock config message none settled_db gateway_facts loaded its_result
