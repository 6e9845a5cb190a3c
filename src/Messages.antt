-- ===== src/Messages.antt =====
-- backend/ledgerloop/queue/messages.py: the pointer that ingestion sends to the matcher.
use ledger_loop.Prelude.{ℕ, String, Bool}
use ledger_loop.Enums.{IngestSource}

pub record IngestMessage : Type 0 where
  pub source : IngestSource
  pub row_id : ℕ
  pub txn_id : String
  pub is_duplicate : Bool
  pub submissions : ℕ
