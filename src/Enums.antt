-- ===== src/Enums.antt =====
-- backend/ledgerloop/db/enums.py: the closed sets of states, and the two sets of statuses.
use mathlib.Core.Bool.{Bool, true, false, not}

pub data IngestSource : Type 0 where
  gateway ledger : IngestSource

pub data AccountKind : Type 0 where
  real demo : AccountKind

pub data ReconStatus : Type 0 where
  matched unmatched_gateway_only unmatched_ledger_only duplicate amount_drift time_drift :
      ReconStatus

pub data MatchLayer : Type 0 where
  exact time_drift amount_drift duplicate unmatched_sweep : MatchLayer

pub data WebhookProvider : Type 0 where
  stripe razorpay custom : WebhookProvider

pub data WebhookDeliveryStatus : Type 0 where
  ok invalid_signature invalid_payload : WebhookDeliveryStatus

-- `a.side is b.side`.
abbrev pub same_side : IngestSource → IngestSource → Bool
same_side IngestSource.gateway IngestSource.gateway = true
same_side IngestSource.ledger IngestSource.ledger = true
same_side _ _ = false

-- The membership tests of EXCEPTION_STATUSES and SUPPRESSED_STATUSES.
abbrev pub exception_statuses : ReconStatus → Bool
exception_statuses ReconStatus.amount_drift = true
exception_statuses ReconStatus.unmatched_gateway_only = true
exception_statuses ReconStatus.unmatched_ledger_only = true
exception_statuses _ = false

abbrev pub suppressed_statuses : ReconStatus → Bool
suppressed_statuses ReconStatus.duplicate = true
suppressed_statuses _ = false

-- `status <> 'duplicate'`: the predicate of two of the unique indexes of db/models.py, whose other
-- two have `status = 'duplicate'`.
abbrev pub is_active : ReconStatus → Bool
is_active s = not (suppressed_statuses s)
