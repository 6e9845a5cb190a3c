-- ===== src/Sweeper/Passes.antt =====
-- Whole passes of backend/ledgerloop/worker/sweeper.py and the draining loop of worker/sweep.py.
use ledger_loop.Prelude.{ℕ, ◌+◌, ◌<◌, refl, inl, inr, List, [], ◌∷◌, arith, In}
use ledger_loop.Matching.{TxnFacts, MatchConfig}
use ledger_loop.Store.{Db}
use ledger_loop.Persist.{Clock}
use ledger_loop.Persist.Invariant.{Inv}
use ledger_loop.Persist.Reads.{ReadOff}
use ledger_loop.Persist.Pending.{PendingAt}
use ledger_loop.Sweeper.{resolve_stale, sweep_rows}
use ledger_loop.Sweeper.Settles.{resolve_stale-Inv, resolve_stale-ReadOff, resolve_stale_pending}

-- The rows to sweep can be read in the store.
abbrev pub AllRead : Db → List TxnFacts → Type 0
AllRead db cs = (c : TxnFacts) → In c cs → ReadOff db c.side c

module _ (clocks : ℕ → Clock) (config : MatchConfig) where
  after_row : ℕ → TxnFacts → Db → Db
  after_row n c db = (resolve_stale (clocks n) config c db).1

  AllRead-after :
      (n : ℕ) (c : TxnFacts) (cs : List TxnFacts) (db : Db)
      → Inv db
      → AllRead db (c ∷ cs)
      → AllRead (after_row n c db) cs
  unfolding after_row
  AllRead-after n c cs db v reads x h =
      resolve_stale-ReadOff (clocks n) config c db x.side x v (reads x (inr h))

  pub sweep_rows-Inv :
      (n : ℕ) (cs : List TxnFacts) (db : Db)
      → Inv db
      → AllRead db cs
      → Inv (sweep_rows clocks n config cs db).1
  unfolding sweep_rows after_row
  sweep_rows-Inv n [] db v reads = v
  sweep_rows-Inv n (c ∷ cs) db v reads =
      sweep_rows-Inv (n + 1) cs (after_row n c db)
        (resolve_stale-Inv (clocks n) config c db v (reads c (inl refl)))
        (AllRead-after n c cs db v reads)

  -- If the first row is pending, something is resolved.
  pub sweep_rows-pos :
      (n : ℕ) (c : TxnFacts) (cs : List TxnFacts) (db : Db)
      → Inv db
      → PendingAt db c.side c.row_id
      → 0 < (sweep_rows clocks n config (c ∷ cs) db).0
  unfolding sweep_rows
  sweep_rows-pos n c cs db v p =
      ground (arith, (resolve_stale_pending (clocks n) config c db v p).0)
