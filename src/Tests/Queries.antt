-- ===== src/Tests/Queries.antt =====
-- Reads over a store with three results, one of another account's, and one open case.
use ledger_loop.Prelude.{
  ℕ, ◌+◌, ◌≡◌, ◌≤◌, refl, inl, inr, none, some, [], ◌∷◌, In, arith, filter, length, Option, pos,
  List,
}
use ledger_loop.Enums.{ReconStatus, MatchLayer, AccountKind}
use ledger_loop.Store.{ReconciliationResult, ExceptionRow, Db}
use ledger_loop.Tenancy.{Tenant}
use ledger_loop.Coherence.{Coherent}
use ledger_loop.Queries.{
  row_at, insert_desc, order_desc, apply_keyset, cut_page, fetch_results_page, with_result,
  fetch_exceptions_page, close_row, close_exception, WindowName, in_window, fetch_stats,
}
use ledger_loop.Queries.Feeds.{Feeds}
use ledger_loop.Queries.Close.{close_exception_once}
use ledger_loop.Queries.Stats.{fetch_stats_buckets}
use ledger_loop.Tests.{db}

-- What a run computes with.
unfoldable pub reading : Unit {0}
unfolding row_at insert_desc order_desc apply_keyset cut_page fetch_results_page with_result
    fetch_exceptions_page close_exception fetch_stats
reading = tt

abbrev result_of : ℕ → ℕ → ReconStatus → MatchLayer → ReconciliationResult
result_of id tenant status layer = record {
  id = id;
  tenant_id = tenant;
  gateway_txn_id = some 1;
  ledger_entry_id = none;
  status = status;
  match_layer = layer;
  notes = none;
  match_latency_ms = some 40;
  resolved_at = 650000000;
  source_message_id = none;
}

abbrev pub open_case : ExceptionRow
open_case = record {
  id = 9;
  tenant_id = 7;
  reconciliation_result_id = 3;
  opened_at = 650000000;
  closed_at = none;
  resolution_notes = none;
}

abbrev pub busy : Db
busy = record db {
  results =
      result_of 3 7 ReconStatus.unmatched_gateway_only MatchLayer.unmatched_sweep
      ∷ result_of 2 8 ReconStatus.matched MatchLayer.exact
      ∷ result_of 1 7 ReconStatus.matched MatchLayer.time_drift
      ∷ [];
  exceptions = open_case ∷ [];
  next_result = 4;
  next_exception = 10;
}

abbrev pub operator : Tenant
operator = record { account_id = 7; name = "acme"; kind = AccountKind.real }

pub busy-Feeds : Feeds busy
busy-Feeds = record {
  results = (omega arith, (omega arith, (omega arith, tt)));
  cases = (omega arith, tt);
}

busy-Coherent : Coherent busy
busy-Coherent r (inl e) = ground (arith, e)
busy-Coherent r (inr (inl e)) = ground (arith, e)
busy-Coherent r (inr (inr (inl e))) = ground (arith, e)
busy-Coherent r (inr (inr (inr m))) = elim m [ ]

first_page : (fetch_results_page operator none 1 none busy).1 ≡ some 3
unfolding reading
first_page = refl

second_page : (fetch_results_page operator none 1 (some (pos 3)) busy).1 ≡ none
unfolding reading
second_page = refl

close_exception_once_example :
    (db' : Db) × (close_exception 660000000 operator 9 "refunded" busy
      ≡ some (some (close_row 660000000 "refunded" open_case), db'))
    × In (close_row 660000000 "refunded" open_case) db'.exceptions
    × (close_exception 670000000 operator 9 "written off" db' ≡ some (none, db'))
close_exception_once_example =
    close_exception_once 660000000 670000000 operator "refunded" "written off" busy open_case
      busy-Feeds (inl refl) refl

-- A percentile of a list, for these runs its first value.
abbrev pub lowest : ℕ → List ℕ → Option ℕ
lowest q [] = none
lowest q (x ∷ xs) = some x

fetch_stats_buckets_example :
    let s = fetch_stats lowest 700000000 operator WindowName.hour busy in
    (s.matched + s.unmatched + s.drift + s.duplicates
      ≡ length (filter (in_window 700000000 operator WindowName.hour) busy.results))
    × (s.unmatched_gateway + s.unmatched_ledger ≡ s.unmatched)
    × (s.via_time_drift ≤ s.matched)
fetch_stats_buckets_example =
    fetch_stats_buckets lowest 700000000 operator WindowName.hour busy busy-Coherent
