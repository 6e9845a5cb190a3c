-- ===== src/Sweeper/Drain.antt =====
-- `sweep_once` of backend/ledgerloop/worker/sweeper.py and the draining loop of worker/sweep.py:
-- a run that reports a drained backlog has drained it.
use ledger_loop.Prelude.{
  ℕ, zero, suc, ◌<◌, ◌≡◌, refl, sym, ap, ◌∙◌, subst, inl, inr, true, none, List, [], ◌∷◌, arith, In,
  Bool-cases, ◌==◌,
}
use ledger_loop.Enums.{IngestSource}
use ledger_loop.Matching.{TxnFacts, MatchConfig}
use ledger_loop.Store.{Db, RawRow, table}
use ledger_loop.Persist.{Clock, find_stale_pending}
use ledger_loop.Persist.Invariant.{Inv}
use ledger_loop.Persist.Stale.{PastWindow, find_stale_pending-StaleRow, find_stale_pending-nil}
use ledger_loop.Sweeper.{sweep_rows, sweep_side, sweep_once, sweep}
use ledger_loop.Sweeper.Passes.{AllRead, sweep_rows-Inv, sweep_rows-pos}

module _ (config : MatchConfig) (after limit : ℕ) where
  module _ (clocks : IngestSource → ℕ → Clock) (side : IngestSource) (db : Db) where
    abbrev pub stale : List TxnFacts
    stale = find_stale_pending (clocks side 0) side after limit db

    stale-AllRead : AllRead db stale
    stale-AllRead c h = (find_stale_pending-StaleRow (clocks side 0) side after limit db c h).own

    pub sweep_side-Inv : Inv db → Inv (sweep_side clocks config side after limit db).1
    unfolding sweep_side
    sweep_side-Inv v = sweep_rows-Inv (clocks side) config 1 stale db v stale-AllRead

    rows-zero :
        (cs : List TxnFacts)
        → Inv db
        → stale ≡ cs
        → (sweep_rows (clocks side) 1 config cs db).0 ≡ 0
        → cs ≡ []
    rows-zero [] v e z = refl
    rows-zero (c ∷ cs) v e z =
        let first =
          find_stale_pending-StaleRow (clocks side 0) side after limit db c
            (subst (In c) (sym e) (inl refl)) in
        absurd (omega (arith, sweep_rows-pos (clocks side) config 1 c cs db v first.pending, z))

    -- A side on which nothing is resolved had nothing stale, and is left alone.
    sweep_side-zero :
        Inv db
        → (sweep_side clocks config side after limit db).0 ≡ 0
        → (stale ≡ []) × ((sweep_side clocks config side after limit db).1 ≡ db)
    unfolding sweep_side sweep_rows
    sweep_side-zero v z =
        let nothing = rows-zero stale v refl z in
        (nothing, ap (λ cs. (sweep_rows (clocks side) 1 config cs db).1) nothing)

  module _ (clocks : IngestSource → ℕ → Clock) (db : Db) where
    -- The store between the two sides of a pass.
    pub between : Db
    between = (sweep_side clocks config IngestSource.gateway after limit db).1

    -- A pass keeps the store well formed.
    pub sweep_once-Inv : Inv db → Inv (sweep_once clocks config after limit db).1
    unfolding sweep_once
    sweep_once-Inv v =
        sweep_side-Inv clocks IngestSource.ledger _
          (sweep_side-Inv clocks IngestSource.gateway db v)

    -- Nothing pending is past the window, by the readings of the pass.
    abbrev pub Drained : Db → Type 0
    Drained db' =
        (side : IngestSource) (row : RawRow)
        → In row (table side db')
        → row.reconciled_at ≡ none
        → ¬ PastWindow (clocks side 0) after row.received_at

    sweep_once-zero :
        Inv db
        → 0 < limit
        → (sweep_once clocks config after limit db).0 ≡ 0
        → ((sweep_once clocks config after limit db).1 ≡ db) × Drained db
    unfolding sweep_once between
    sweep_once-zero v some_limit z =
        let (none_g, same_g) =
          sweep_side-zero clocks IngestSource.gateway db v (omega (arith, z)) in
        let (none_l, same_l) =
          sweep_side-zero clocks IngestSource.ledger between
            (sweep_side-Inv clocks IngestSource.gateway db v) (omega (arith, z)) in
        (
          same_l ∙ same_g,
          drained none_g (subst (λ t. stale clocks IngestSource.ledger t ≡ []) same_g none_l),
        )
      where
        drained :
            stale clocks IngestSource.gateway db ≡ []
            → stale clocks IngestSource.ledger db ≡ []
            → Drained db
        drained g l IngestSource.gateway row there pending =
            find_stale_pending-nil (clocks IngestSource.gateway 0) IngestSource.gateway after limit
              db row some_limit g there pending
        drained g l IngestSource.ledger row there pending =
            find_stale_pending-nil (clocks IngestSource.ledger 0) IngestSource.ledger after limit db
              row some_limit l there pending

  -- On a well-formed store and with a positive batch limit, when the draining loop reports that the
  -- backlog is drained, then by the clock of its last pass
  -- no pending row of either side is past the window.
  pub sweep-Drained :
      (clocks : ℕ → IngestSource → ℕ → Clock) (passes : ℕ) (db : Db)
      → Inv db
      → 0 < limit
      → (sweep clocks config after limit passes db).0.drained ≡ true
      → (k : ℕ) × (k < passes) × Drained (clocks k) db (sweep clocks config after limit passes db).1
  unfolding sweep
  sweep-Drained clocks zero db v some_limit h = cc
  sweep-Drained clocks (suc passes) db v some_limit h =
      elim (Bool-cases ((sweep_once (clocks passes) config after limit db).0 == 0)) [
        | inl z ↦
            let (same, drained) =
              sweep_once-zero (clocks passes) db v some_limit (ground (arith, z)) in
            (passes, omega arith, rw (z, same) drained)
        | inr more ↦
            let (k, below, drained) =
              sweep-Drained clocks passes (sweep_once (clocks passes) config after limit db).1
                (sweep_once-Inv (clocks passes) db v) some_limit (rw more at h) in
            (k, omega (arith, below), rw more drained)
      ]
