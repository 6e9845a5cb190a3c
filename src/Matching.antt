-- ===== src/Matching.antt =====
-- backend/ledgerloop/matching/core.py: the pure matching engine. An amount is an integer of
-- hundredths of the major unit (the column is numeric(18,2)), an instant is a number of
-- microseconds, and a `timedelta` that is not negative likewise. `amount_drift_pct` counts
-- millionths and `amount_drift_abs` hundredths of millionths of the major unit, so a tolerance is an
-- exact product, as the source's Decimal arithmetic is.
pub mod Classify
pub mod Keys
pub mod Choice
pub mod Agreement
use ledger_loop.Prelude.{
  ℕ, ◌*◌, ◌≤◌, ◌<◌, ◌≡◌, max, String, Bool, true, false, not, ◌&&◌, Option, none, some, List, [],
  ◌∷◌, ltb, leb, ◌==◌, if◌then◌else◌, str_eq, ℤ, ◌-ℤ◌, magnitude, eq_ℤ, dist,
}
use ledger_loop.Enums.{IngestSource, ReconStatus, MatchLayer, same_side, exception_statuses}

pub record TxnFacts : Type 0 where
  pub side : IngestSource
  pub tenant_id : ℕ
  pub row_id : ℕ
  pub txn_id : String
  pub amount : ℤ
  pub currency : String
  pub occurred_at : ℕ
  pub received_at : ℕ

pub record MatchConfig : Type 0 where
  pub exact_window : ℕ
  pub drift_window : ℕ
  pub amount_drift_pct : ℕ
  pub amount_drift_abs : ℕ

-- The texts of `Decision.notes`, by the values that are formatted into them.
pub data Note : Type 0 where
  clock_drift : ℕ → ℕ → Note
  amount_gap : ℤ → ℤ → ℤ → ℕ → Note
  resubmitted : ℕ → Note
  no_counterparty : ℤ → Note

pub record Decision : Type 0 where
  pub status : ReconStatus
  pub layer : MatchLayer
  pub gateway_row_id : Option ℕ
  pub ledger_row_id : Option ℕ
  pub notes : Option Note

abbrev pub opens_exception : Decision → Bool
opens_exception d = exception_statuses d.status

unfoldable pub is_match : Decision → Bool
is_match d = elim d.status [ ReconStatus.matched ↦ true | _ ↦ false ]

-- The dictionary has the first three layers only; `classify_pair` returns no other.
abbrev pub layer_rank : MatchLayer → ℕ
layer_rank MatchLayer.exact = 0
layer_rank MatchLayer.time_drift = 1
layer_rank MatchLayer.amount_drift = 2
layer_rank _ = 3

abbrev pub time_delta : TxnFacts → TxnFacts → ℕ
time_delta a b = dist a.occurred_at b.occurred_at

-- Hundredths to the unit of a tolerance.
abbrev pub amount_scale : ℕ
amount_scale = 1000000

unfoldable pub amount_tolerance : ℤ → MatchConfig → ℕ
amount_tolerance reference config =
    max (magnitude reference * config.amount_drift_pct) config.amount_drift_abs

abbrev pub gateway_and_ledger : TxnFacts → TxnFacts → TxnFacts × TxnFacts
gateway_and_ledger a b = elim a.side [
  | IngestSource.gateway ↦ (a, b)
  | IngestSource.ledger ↦ (b, a)
]

-- `abs(gateway.amount - ledger.amount) <= amount_tolerance(gateway.amount, config)`
unfoldable pub within_tolerance : TxnFacts × TxnFacts → MatchConfig → Bool
within_tolerance (gateway, ledger) config =
    leb (magnitude (gateway.amount -ℤ ledger.amount) * amount_scale)
      (amount_tolerance gateway.amount config)

-- Layers 1 to 3 of `classify_pair`, behind its guards.
unfoldable pub classify_layers :
    TxnFacts → TxnFacts → MatchConfig → Option (ReconStatus × MatchLayer)
classify_layers candidate other config =
    let dt = time_delta candidate other in
    let same_amount = eq_ℤ candidate.amount other.amount in
    if same_amount && leb dt config.exact_window
    then some (ReconStatus.matched, MatchLayer.exact)
    else if same_amount && leb dt config.drift_window
    then some (ReconStatus.matched, MatchLayer.time_drift)
    else if not same_amount
        && leb dt config.drift_window
        && within_tolerance (gateway_and_ledger candidate other) config
    then some (ReconStatus.amount_drift, MatchLayer.amount_drift)
    else none

unfoldable pub classify_pair : TxnFacts → TxnFacts → MatchConfig → Option (ReconStatus × MatchLayer)
classify_pair candidate other config =
    if not (candidate.tenant_id == other.tenant_id)
    then none
    else if same_side candidate.side other.side
    then none
    else if not (str_eq candidate.txn_id other.txn_id)
    then none
    else if not (str_eq candidate.currency other.currency)
    then none
    else classify_layers candidate other config

pub record SortKey : Type 0 where
  pub rank : ℕ
  pub gap : ℕ
  pub diff : ℕ
  pub row_id : ℕ

unfoldable pub sort_key : TxnFacts → TxnFacts → MatchLayer → MatchConfig → SortKey
sort_key candidate other layer config = record {
  rank = layer_rank layer;
  gap = time_delta candidate other;
  diff = magnitude (candidate.amount -ℤ other.amount);
  row_id = other.row_id;
}

-- `<` on the tuples.
unfoldable pub key_lt : SortKey → SortKey → Bool
key_lt a b =
    if ltb a.rank b.rank
    then true
    else if ltb b.rank a.rank
    then false
    else if ltb a.gap b.gap
    then true
    else if ltb b.gap a.gap
    then false
    else if ltb a.diff b.diff
    then true
    else if ltb b.diff a.diff
    then false
    else ltb a.row_id b.row_id

pub record Viable : Type 0 where
  pub key : SortKey
  pub other : TxnFacts
  pub status : ReconStatus
  pub layer : MatchLayer

-- One round of the loop of `decide`.
unfoldable pub viable_one : TxnFacts → MatchConfig → TxnFacts → Option Viable
viable_one candidate config other = elim (classify_pair candidate other config) [
  | none ↦ none
  | some (status, layer) ↦ some (record {
    key = sort_key candidate other layer config;
    other = other;
    status = status;
    layer = layer;
  })
]

unfoldable pub viable : TxnFacts → List TxnFacts → MatchConfig → List Viable
viable candidate [] config = []
viable candidate (other ∷ others) config =
    let rest = viable candidate others config in
    elim (viable_one candidate config other) [ none ↦ rest | some v ↦ v ∷ rest ]

-- `min(viable, key=...)`: the first of the least.
unfoldable pub min_from : Viable → List Viable → Viable
min_from best [] = best
min_from best (v ∷ vs) = min_from (if key_lt v.key best.key then v else best) vs

unfoldable pub match_notes :
    MatchLayer → TxnFacts → TxnFacts → TxnFacts × TxnFacts → MatchConfig → Option Note
match_notes MatchLayer.time_drift candidate best pair config =
    some (Note.clock_drift (time_delta candidate best) config.drift_window)
match_notes MatchLayer.amount_drift candidate best (gateway, ledger) config = some (
    Note.amount_gap (gateway.amount -ℤ ledger.amount) gateway.amount ledger.amount
      (amount_tolerance gateway.amount config))
match_notes _ candidate best pair config = none

-- What `decide` returns for the best counterparty.
unfoldable pub decision_for : TxnFacts → MatchConfig → Viable → Decision
decision_for candidate config v =
    let pair = gateway_and_ledger candidate v.other in
    record {
      status = v.status;
      layer = v.layer;
      gateway_row_id = some pair.0.row_id;
      ledger_row_id = some pair.1.row_id;
      notes = match_notes v.layer candidate v.other pair config;
    }

unfoldable pub decide_viable : TxnFacts → MatchConfig → List Viable → Option Decision
decide_viable candidate config [] = none
decide_viable candidate config (v ∷ vs) = some (decision_for candidate config (min_from v vs))

unfoldable pub decide : TxnFacts → List TxnFacts → MatchConfig → Option Decision
decide candidate counterparties config =
    decide_viable candidate config (viable candidate counterparties config)

unfoldable pub decide_duplicate : TxnFacts → ℕ → Decision
decide_duplicate candidate submissions = record {
  status = ReconStatus.duplicate;
  layer = MatchLayer.duplicate;
  gateway_row_id = elim candidate.side [
    | IngestSource.gateway ↦ some candidate.row_id
    | IngestSource.ledger ↦ none
  ];
  ledger_row_id = elim candidate.side [
    | IngestSource.ledger ↦ some candidate.row_id
    | IngestSource.gateway ↦ none
  ];
  notes = some (Note.resubmitted submissions);
}

unfoldable pub decide_unmatched : TxnFacts → ℤ → Decision
decide_unmatched candidate waited = elim candidate.side [
  | IngestSource.gateway ↦ record {
    status = ReconStatus.unmatched_gateway_only;
    layer = MatchLayer.unmatched_sweep;
    gateway_row_id = some candidate.row_id;
    ledger_row_id = none;
    notes = some (Note.no_counterparty waited);
  }
  | IngestSource.ledger ↦ record {
    status = ReconStatus.unmatched_ledger_only;
    layer = MatchLayer.unmatched_sweep;
    gateway_row_id = none;
    ledger_row_id = some candidate.row_id;
    notes = some (Note.no_counterparty waited);
  }
]
