-- ===== src/Tests/Reads.antt =====
-- Closing a case that a sweep opened, under settings that accept no drift in time, and following the
-- cursors of a feed and of a queue.
use ledger_loop.Prelude.{
  ℕ, ◌+◌, ◌≡◌, refl, arith, Option, none, some, length, map, filter, filter_map, ℤ,
}
use ledger_loop.Enums.{ReconStatus, IngestSource}
use ledger_loop.Matching.{MatchConfig}
use ledger_loop.Text.{Text}
use ledger_loop.Store.{Db}
use ledger_loop.Persist.{Clock}
use ledger_loop.Sweeper.{sweep_once}
use ledger_loop.Sweeper.Drain.{sweep_once-Inv}
use ledger_loop.Queries.{CaseStatus, load, result_wanted, case_wanted, with_result}
use ledger_loop.Queries.Feeds.{Feeds}
use ledger_loop.Reads.{
  result_out, exception_out, list_transactions, list_exceptions, resolve_exception,
}
use ledger_loop.Reads.Resolve.{Resolved, resolve_exception-Resolved}
use ledger_loop.Reads.Follow.{browse, list_transactions-browse, list_exceptions-browse}
use ledger_loop.Tests.{config, clock, db, db-Inv, program}
use ledger_loop.Tests.Queries.{operator, busy, busy-Feeds}

abbrev tight : MatchConfig
tight = record config { exact_window = 0; drift_window = 0 }

abbrev clocks : IngestSource → ℕ → Clock
clocks source n = clock

abbrev swept : Db
swept = (sweep_once clocks tight 300000000 500 db).1

opens_two : swept.next_exception ≡ 2
unfolding program
opens_two = refl

swept-Feeds : Feeds swept
unfolding program
swept-Feeds = record {
  results = (omega arith, (omega arith, tt));
  cases = (omega arith, (omega arith, tt));
}

resolve_exception-Resolved_example :
    Resolved 800000000 operator 1 "refunded" swept
      (resolve_exception 800000000 operator 1 "refunded" swept)
resolve_exception-Resolved_example =
    resolve_exception-Resolved 800000000 operator 1 "refunded" swept
      (sweep_once-Inv tight 300000000 500 clocks db db-Inv) swept-Feeds

-- int() on a text outside ASCII, as if it refused every one.
abbrev exotic : Text → Option ℤ
exotic s = none

list_transactions-browse_example :
    browse
      (length busy.results + 1)
      (λ t. list_transactions exotic operator (some ReconStatus.matched) 1 t busy)
      none
    ≡ some (
        map result_out (
          map
            (load busy)
            (filter (result_wanted operator (some ReconStatus.matched)) busy.results)))
list_transactions-browse_example =
    list_transactions-browse exotic operator (some ReconStatus.matched) 1 busy (omega arith)
      busy-Feeds (omega arith)

list_exceptions-browse_example :
    browse
      (length busy.exceptions + 1)
      (λ t. list_exceptions exotic operator (some CaseStatus.open_only) 50 t busy)
      none
    ≡ some (
        map
          (λ p. exception_out p.0 p.1)
          (filter_map
            (with_result busy)
            (filter (case_wanted operator (some CaseStatus.open_only)) busy.exceptions)))
list_exceptions-browse_example =
    list_exceptions-browse exotic operator (some CaseStatus.open_only) 50 busy (omega arith)
      busy-Feeds (omega arith)
