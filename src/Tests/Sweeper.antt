-- ===== src/Tests/Sweeper.antt =====
-- The sweep, ten minutes after the rows of the concrete store arrived.
use ledger_loop.Prelude.{◌≡◌, ◌<◌, ℕ, refl, arith, true}
use ledger_loop.Enums.{IngestSource}
use ledger_loop.Persist.{Clock}
use ledger_loop.Sweeper.{sweep_once, sweep}
use ledger_loop.Sweeper.Drain.{Drained, sweep-Drained}
use ledger_loop.Tests.{config, clock, db, db-Inv, program}

abbrev clocks : IngestSource → ℕ → Clock
clocks source n = clock

abbrev after : ℕ
after = 300000000

resolves_one : (sweep_once clocks config after 500 db).0 ≡ 1
unfolding program
resolves_one = refl

drained : (sweep (λ k. clocks) config after 500 20 db).0.drained ≡ true
unfolding program
drained = refl

sweep-Drained_example :
    (k : ℕ) × (k < 20)
    × Drained config after 500 clocks db (sweep (λ k. clocks) config after 500 20 db).1
sweep-Drained_example =
    sweep-Drained config after 500 (λ k. clocks) 20 db db-Inv (omega arith) drained
