-- ===== src/Reads.antt =====
-- backend/ledgerloop/api/routes_read.py: the statistics, the feed, the queue of cases and the closing of
-- a case, with the wire models of backend/ledgerloop/api/schemas.py. How a client's JSON spells an
-- amount or an instant is left out.
pub mod Resolve
pub mod Follow
use ledger_loop.Prelude.{
  true, any, ltb, leb, ◌&&◌, ◌||◌, ◌^◌, Bool, ℕ, ◌+◌, ◌==◌, if◌then◌else◌, String, Option, none,
  some, List, map, ℤ, pos_part, neg_part,
}
use mathlib.Core.Option
use ledger_loop.Enums.{ReconStatus, MatchLayer}
use ledger_loop.Matching.{Note}
use ledger_loop.Text.{Text, int_of, str_of}
use ledger_loop.Store.{RawRow, ExceptionRow, Db}
use ledger_loop.Tenancy.{Tenant}
use ledger_loop.Queries.{
  Loaded, CaseStatus, WindowName, StatsRow, window_seconds, fetch_results_page,
  fetch_exceptions_page, fetch_exception, closable, close_exception, fetch_stats,
}
use ledger_loop.Webhooks.{Answer, answered, http_exception, server_error, plain}

-- `_parse_cursor`: none where it refuses the text, and `some none` where there is none.
unfoldable pub parse_cursor : (Text → Option ℤ) → Option Text → Option (Option ℤ)
parse_cursor exotic none = some none
parse_cursor exotic (some cursor) = elim (int_of exotic cursor) [
  | none ↦ none
  | some n ↦ some (some n)
]

-- The cursor is compared with a BIGINT column; a parameter past its range raises.
abbrev pub in_bigint : Option ℤ → Bool
in_bigint none = true
in_bigint (some n) = ltb (pos_part n) (2 ^ 63) && leb (neg_part n) (2 ^ 63)

-- The fields that a result's sides give, on both wire models.
pub record SidesOut : Type 0 where
  pub txn_id : Option String
  pub currency : Option String
  pub gateway_amount : Option ℤ
  pub ledger_amount : Option ℤ
  pub gateway_occurred_at : Option ℕ
  pub ledger_occurred_at : Option ℕ

-- `gateway or ledger`
unfoldable pub present : Option RawRow → Option RawRow → Option RawRow
present none ledger = ledger
present (some gateway) ledger = some gateway

unfoldable pub sides_out : Loaded → SidesOut
sides_out row =
    let side = present row.gateway_txn row.ledger_entry in
    record {
      txn_id = Option.map (λ (r : RawRow). r.txn_id) side;
      currency = Option.map (λ (r : RawRow). r.currency) side;
      gateway_amount = Option.map (λ (r : RawRow). r.amount) row.gateway_txn;
      ledger_amount = Option.map (λ (r : RawRow). r.amount) row.ledger_entry;
      gateway_occurred_at = Option.map (λ (r : RawRow). r.occurred_at) row.gateway_txn;
      ledger_occurred_at = Option.map (λ (r : RawRow). r.occurred_at) row.ledger_entry;
    }

pub record ReconciliationResultOut : Type 0 where
  pub id : ℕ
  pub gateway_txn_id : Option ℕ
  pub ledger_entry_id : Option ℕ
  pub status : ReconStatus
  pub match_layer : MatchLayer
  pub resolved_at : ℕ
  pub match_latency_ms : Option ℕ
  pub notes : Option Note
  pub sides : SidesOut

unfoldable pub result_out : Loaded → ReconciliationResultOut
result_out row = record {
  id = row.result.id;
  gateway_txn_id = row.result.gateway_txn_id;
  ledger_entry_id = row.result.ledger_entry_id;
  status = row.result.status;
  match_layer = row.result.match_layer;
  resolved_at = row.result.resolved_at;
  match_latency_ms = row.result.match_latency_ms;
  notes = row.result.notes;
  sides = sides_out row;
}

pub record ExceptionOut : Type 0 where
  pub id : ℕ
  pub reconciliation_result_id : ℕ
  pub opened_at : ℕ
  pub closed_at : Option ℕ
  pub resolution_notes : Option String
  pub status : ReconStatus
  pub match_layer : MatchLayer
  pub gateway_txn_id : Option ℕ
  pub ledger_entry_id : Option ℕ
  pub notes : Option Note
  pub sides : SidesOut

unfoldable pub exception_out : ExceptionRow → Loaded → ExceptionOut
exception_out e row = record {
  id = e.id;
  reconciliation_result_id = e.reconciliation_result_id;
  opened_at = e.opened_at;
  closed_at = e.closed_at;
  resolution_notes = e.resolution_notes;
  status = row.result.status;
  match_layer = row.result.match_layer;
  gateway_txn_id = row.result.gateway_txn_id;
  ledger_entry_id = row.result.ledger_entry_id;
  notes = row.result.notes;
  sides = sides_out row;
}

-- TransactionPage, and ExceptionPage.
pub record Page (A : Type 0) : Type 0 where
  pub items : List A
  pub next_cursor : Option Text

unfoldable pub list_transactions :
    (Text → Option ℤ)
    → Tenant
    → Option ReconStatus
    → ℕ
    → Option Text
    → Db
    → Answer (Page ReconciliationResultOut)
list_transactions exotic tenant status limit cursor db = elim (parse_cursor exotic cursor) [
  | none ↦ http_exception 400 (plain "invalid cursor")
  | some position ↦
      let (rows, next_cursor) = fetch_results_page tenant status limit position db in
      if in_bigint position
      then answered
          (record { items = map result_out rows; next_cursor = Option.map str_of next_cursor })
      else server_error
]

unfoldable pub list_exceptions :
    (Text → Option ℤ)
    → Tenant
    → Option CaseStatus
    → ℕ
    → Option Text
    → Db
    → Answer (Page ExceptionOut)
list_exceptions exotic tenant status limit cursor db = elim (parse_cursor exotic cursor) [
  | none ↦ http_exception 400 (plain "invalid cursor")
  | some position ↦
      let (rows, next_cursor) = fetch_exceptions_page tenant status limit position db in
      if in_bigint position
      then answered (record {
        items = map (λ p. exception_out p.0 p.1) rows;
        next_cursor = Option.map str_of next_cursor;
      })
      else server_error
]

pub record StatsOut (F : Type 0) : Type 0 where
  pub row : StatsRow F
  pub total : ℕ
  pub match_rate : F
  pub throughput_tx_per_sec : F
  pub window : WindowName
  pub window_seconds : ℕ
  pub unmatched_after_s : ℕ

-- `quotient` is the division of two integers into a float. The counts and the percentiles of the row
-- are passed on under the names of the wire.
module _ {F : Type 0} (percentile_cont : ℕ → List ℕ → Option F) (quotient : ℕ → ℕ → F)
    (nought : F) where
  unfoldable pub ratio : ℕ → ℕ → F
  ratio n d = if d == 0 then nought else quotient n d

  unfoldable pub get_stats : ℕ → ℕ → Tenant → WindowName → Db → StatsOut F
  get_stats unmatched_after_s now tenant window db =
      let row = fetch_stats percentile_cont now tenant window db in
      let total = row.matched + row.unmatched + row.drift in
      record {
        row = row;
        total = total;
        match_rate = ratio row.matched total;
        throughput_tx_per_sec = ratio total (window_seconds window);
        window = window;
        window_seconds = window_seconds window;
        unmatched_after_s = unmatched_after_s;
      }

-- Why nothing was closed; the exception rolls the transaction back.
unfoldable pub refusal : Option (ExceptionRow × Loaded) → Answer ExceptionOut
refusal none = http_exception 404 (plain "not found")
refusal (some existing) = http_exception 409 (plain "exception already closed")

-- `assert found is not None`
unfoldable pub found_again : Option (ExceptionRow × Loaded) → Answer ExceptionOut
found_again none = server_error
found_again (some found) = answered (exception_out found.0 found.1)

-- CHECK closed_after_opened refuses the UPDATE of a case that was opened later than now.
unfoldable pub opened_later : ℕ → Tenant → ℕ → Db → Bool
opened_later now tenant exception_id db =
    any (λ (e : ExceptionRow). closable tenant exception_id e && ltb now e.opened_at) db.exceptions

-- The statements, for an id that their BIGINT parameter holds.
unfoldable pub resolve_case : ℕ → Tenant → ℕ → String → Db → Answer ExceptionOut × Db
resolve_case now tenant exception_id notes db =
    elim (close_exception now tenant exception_id notes db) [
      | none ↦ (server_error, db)
      | some (none, db') ↦ (refusal (fetch_exception tenant exception_id db'), db)
      | some (some closed, db') ↦ (found_again (fetch_exception tenant exception_id db'), db')
    ]

-- An id past BIGINT and a refused UPDATE raise, and nothing catches that.
unfoldable pub resolve_exception : ℕ → Tenant → ℕ → String → Db → Answer ExceptionOut × Db
resolve_exception now tenant exception_id notes db =
    if leb (2 ^ 63) exception_id || opened_later now tenant exception_id db
    then (server_error, db)
    else resolve_case now tenant exception_id notes db
