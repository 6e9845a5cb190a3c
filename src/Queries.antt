-- ===== src/Queries.antt =====
-- backend/ledgerloop/services/queries.py: the read queries, and the compare-and-set that closes a
-- case. A SELECT is a filter, a sort and a bound over a table's rows; the eager joins of the two sides
-- are look-ups in the raw tables.
pub mod Keyset
pub mod Feeds
pub mod Walk
pub mod Pages
pub mod Close
pub mod Closing
pub mod Stats
use ledger_loop.Prelude.{
  ℕ, zero, suc, ◌+◌, ◌-◌, ◌*◌, String, Bool, true, false, ◌&&◌, ◌||◌, not, Option, none, some, List,
  [], ◌∷◌, map, ltb, leb, ◌==◌, if◌then◌else◌, is_some, is_none, take, length, get_elem?, find,
  filter, filter_map, ℤ, pos, pos_part, neg_part,
}
use mathlib.Core.Option
use ledger_loop.Enums.{IngestSource, ReconStatus, MatchLayer}
use ledger_loop.Store.{RawRow, ReconciliationResult, ExceptionRow, Db, table, side_id}
use ledger_loop.Tenancy.{Tenant, first}

-- A result with its joined sides.
pub record Loaded : Type 0 where
  pub result : ReconciliationResult
  pub gateway_txn : Option RawRow
  pub ledger_entry : Option RawRow

unfoldable pub row_at : IngestSource → Option ℕ → Db → Option RawRow
row_at side none db = none
row_at side (some i) db = find (λ (row : RawRow). row.id == i) (table side db)

-- `joinedload` of gateway_txn and ledger_entry: LEFT OUTER joins.
abbrev pub load : Db → ReconciliationResult → Loaded
load db r = record {
  result = r;
  gateway_txn = row_at IngestSource.gateway r.gateway_txn_id db;
  ledger_entry = row_at IngestSource.ledger r.ledger_entry_id db;
}

-- `rows[limit - 1]`: the index -1 is the last row's.
abbrev pub at_limit {ℓ} : {A : Type ℓ} → ℕ → List A → Option A
at_limit zero rows = get_elem? (length rows - 1) rows
at_limit (suc k) rows = get_elem? k rows

module _ {ℓ} {A : Type ℓ} (key : A → ℕ) where
  -- `ORDER BY id DESC`
  unfoldable pub insert_desc : A → List A → List A
  insert_desc x [] = x ∷ []
  insert_desc x (y ∷ ys) =
      let rest = insert_desc x ys in if ltb (key x) (key y) then y ∷ rest else x ∷ y ∷ ys

  unfoldable pub order_desc : List A → List A
  order_desc [] = []
  order_desc (x ∷ xs) = insert_desc x (order_desc xs)

  -- `column < cursor`, where there is a cursor.
  abbrev pub before : Option ℤ → A → Bool
  before none x = true
  before (some cursor) x = ltb (key x + neg_part cursor) (pos_part cursor)

  unfoldable pub apply_keyset : Option ℤ → ℕ → List A → List A
  apply_keyset cursor limit rows = take (limit + 1) (order_desc (filter (before cursor) rows))

  -- `if len(rows) > limit: return rows[:limit], rows[limit - 1].id`
  unfoldable pub cut_page : ℕ → List A → List A × Option ℕ
  cut_page limit rows =
      if ltb limit (length rows)
      then (take limit rows, Option.map key (at_limit limit rows))
      else (rows, none)

-- `==` of two statuses.
abbrev pub same_status : ReconStatus → ReconStatus → Bool
same_status ReconStatus.matched ReconStatus.matched = true
same_status ReconStatus.unmatched_gateway_only ReconStatus.unmatched_gateway_only = true
same_status ReconStatus.unmatched_ledger_only ReconStatus.unmatched_ledger_only = true
same_status ReconStatus.duplicate ReconStatus.duplicate = true
same_status ReconStatus.amount_drift ReconStatus.amount_drift = true
same_status ReconStatus.time_drift ReconStatus.time_drift = true
same_status _ _ = false

abbrev pub wants_status : Option ReconStatus → ReconStatus → Bool
wants_status none s = true
wants_status (some wanted) s = same_status s wanted

-- The WHERE clause of `fetch_results_page`, without the cursor.
abbrev pub result_wanted : Tenant → Option ReconStatus → ReconciliationResult → Bool
result_wanted tenant status r = (r.tenant_id == tenant.account_id) && wants_status status r.status

abbrev pub result_key : Loaded → ℕ
result_key l = l.result.id

unfoldable pub fetch_results_page :
    Tenant → Option ReconStatus → ℕ → Option ℤ → Db → List Loaded × Option ℕ
fetch_results_page tenant status limit cursor db = cut_page result_key limit (
    map (load db) (
      apply_keyset (λ (r : ReconciliationResult). r.id) cursor limit
        (filter (result_wanted tenant status) db.results)))

-- Literal["open", "closed"]
pub data CaseStatus : Type 0 where
  open_only closed_only : CaseStatus

abbrev pub wants_case : Option CaseStatus → ExceptionRow → Bool
wants_case none e = true
wants_case (some CaseStatus.open_only) e = is_none e.closed_at
wants_case (some CaseStatus.closed_only) e = is_some e.closed_at

abbrev pub case_wanted : Tenant → Option CaseStatus → ExceptionRow → Bool
case_wanted tenant status e = (e.tenant_id == tenant.account_id) && wants_case status e

-- The inner join of a case with the result that opened it.
unfoldable pub with_result : Db → ExceptionRow → Option (ExceptionRow × Loaded)
with_result db e =
    Option.map (λ r. (e, load db r))
      (find (λ (r : ReconciliationResult). r.id == e.reconciliation_result_id) db.results)

abbrev pub case_key : ExceptionRow × Loaded → ℕ
case_key (e, l) = e.id

unfoldable pub fetch_exceptions_page :
    Tenant → Option CaseStatus → ℕ → Option ℤ → Db → List (ExceptionRow × Loaded) × Option ℕ
fetch_exceptions_page tenant status limit cursor db = cut_page case_key limit (
    apply_keyset case_key cursor limit
      (filter_map (with_result db) (filter (case_wanted tenant status) db.exceptions)))

unfoldable pub fetch_exception : Tenant → ℕ → Db → Option (ExceptionRow × Loaded)
fetch_exception tenant exception_id db = first (
    filter_map (with_result db) (
      filter (λ (e : ExceptionRow). (e.tenant_id == tenant.account_id) && (e.id == exception_id))
        db.exceptions))

-- `.scalars().one_or_none()`: none where it raises MultipleResultsFound.
abbrev pub one_or_none {ℓ} : {A : Type ℓ} → List A → Option (Option A)
one_or_none [] = some none
one_or_none (x ∷ []) = some (some x)
one_or_none _ = none

-- The WHERE clause of `close_exception`.
abbrev pub closable : Tenant → ℕ → ExceptionRow → Bool
closable tenant exception_id e =
    (e.tenant_id == tenant.account_id) && (e.id == exception_id) && is_none e.closed_at

abbrev pub close_row : ℕ → String → ExceptionRow → ExceptionRow
close_row now notes e = record e { closed_at = some now; resolution_notes = some notes }

-- The UPDATE and its RETURNING; none where the call raises.
unfoldable pub close_exception : ℕ → Tenant → ℕ → String → Db → Option (Option ExceptionRow × Db)
close_exception now tenant exception_id notes db =
    Option.map
      (λ closed. (
        closed,
        record db {
          exceptions =
              map
                (λ (e : ExceptionRow).
                  if closable tenant exception_id e then close_row now notes e else e)
                db.exceptions;
        },
      ))
      (one_or_none
        (map (close_row now notes) (filter (closable tenant exception_id) db.exceptions)))

pub data WindowName : Type 0 where
  hour day week : WindowName

abbrev pub window_seconds : WindowName → ℕ
window_seconds WindowName.hour = 3600
window_seconds WindowName.day = 86400
window_seconds WindowName.week = 604800

abbrev pub unmatched_statuses : ReconStatus → Bool
unmatched_statuses ReconStatus.unmatched_gateway_only = true
unmatched_statuses ReconStatus.unmatched_ledger_only = true
unmatched_statuses _ = false

abbrev pub drift_statuses : ReconStatus → Bool
drift_statuses ReconStatus.amount_drift = true
drift_statuses ReconStatus.time_drift = true
drift_statuses _ = false

abbrev pub is_time_drift : MatchLayer → Bool
is_time_drift MatchLayer.time_drift = true
is_time_drift _ = false

-- `F` is the type of a percentile, a float.
pub record StatsRow (F : Type 0) : Type 0 where
  pub matched : ℕ
  pub unmatched : ℕ
  pub unmatched_gateway : ℕ
  pub unmatched_ledger : ℕ
  pub via_time_drift : ℕ
  pub duplicates : ℕ
  pub drift : ℕ
  pub p50 : Option F
  pub p95 : Option F
  pub p99 : Option F
  pub open_exceptions : ℕ

-- `func.count().filter(...)`
abbrev pub count_where {ℓ} : {A : Type ℓ} → (A → Bool) → List A → ℕ
count_where p rows = length (filter p rows)

-- The WHERE clause of `fetch_stats`: the account's results of the window.
abbrev pub in_window : ℕ → Tenant → WindowName → ReconciliationResult → Bool
in_window now tenant window r =
    (r.tenant_id == tenant.account_id) && leb now (r.resolved_at + window_seconds window * 1000000)

-- `percentile_cont q values` is PostgreSQL's: q is in percent, and nulls do not count.
module _ {F : Type 0} (percentile_cont : ℕ → List ℕ → Option F) where
  unfoldable pub fetch_stats : ℕ → Tenant → WindowName → Db → StatsRow F
  fetch_stats now tenant window db =
      let rows = filter (in_window now tenant window) db.results in
      let latencies =
        filter_map (λ (r : ReconciliationResult). r.match_latency_ms)
          (filter (λ (r : ReconciliationResult). not (same_status r.status ReconStatus.duplicate))
            rows) in
      record {
        matched =
            count_where (λ (r : ReconciliationResult). same_status r.status ReconStatus.matched)
              rows;
        unmatched = count_where (λ (r : ReconciliationResult). unmatched_statuses r.status) rows;
        unmatched_gateway =
            count_where
              (λ (r : ReconciliationResult).
                same_status r.status ReconStatus.unmatched_gateway_only)
              rows;
        unmatched_ledger =
            count_where
              (λ (r : ReconciliationResult). same_status r.status ReconStatus.unmatched_ledger_only)
              rows;
        via_time_drift =
            count_where (λ (r : ReconciliationResult). is_time_drift r.match_layer) rows;
        duplicates =
            count_where (λ (r : ReconciliationResult). same_status r.status ReconStatus.duplicate)
              rows;
        drift = count_where (λ (r : ReconciliationResult). drift_statuses r.status) rows;
        p50 = percentile_cont 50 latencies;
        p95 = percentile_cont 95 latencies;
        p99 = percentile_cont 99 latencies;
        open_exceptions =
            count_where
              (λ (e : ExceptionRow). (e.tenant_id == tenant.account_id) && is_none e.closed_at)
              db.exceptions;
      }
