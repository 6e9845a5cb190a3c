-- ===== src/Sweeper/Settles.antt =====
-- The sweep of backend/ledgerloop/worker/sweeper.py: it keeps the store well formed, and settles
-- a pending row that it looks at.
use ledger_loop.Prelude.{
  ℕ, ◌≡◌, refl, sym, ap, ◌∙◌, subst, inl, inr, true, none, some, arith, Option, Option-cases, sub_ℕ,
}
use mathlib.Core.Option.{some-injective}
use ledger_loop.Enums.{IngestSource, is_active}
use ledger_loop.Matching.{TxnFacts, MatchConfig, Decision, decide, decide_unmatched}
use ledger_loop.Matching.Choice.{decide-active}
use ledger_loop.Store.{Db}
use ledger_loop.Persist.{
  Clock, PersistResult, other_side, facts, find_counterparties, apply_decision, compute_latency_ms,
}
use ledger_loop.Persist.Settle.{row_of}
use ledger_loop.Persist.Invariant.{Inv, Applies}
use ledger_loop.Persist.Preserved.{apply_decision-Inv}
use ledger_loop.Persist.Reads.{ReadOff, find_counterparties-iff-Offered}
use ledger_loop.Persist.Pending.{
  PendingAt, SettledAt, AllPending, apply_decision-ReadOff, apply_decision_pending,
}
use ledger_loop.Worker.Decides.{
  Names, side_cases, decide-Names, decide-Applies, decide-partner, decide_unmatched-Names,
  decide_unmatched-OnlyNames, decide_unmatched-Applies,
}
use ledger_loop.Sweeper.{last_attempt, resolve_stale}

-- The decision of a last attempt is `decide`'s, or the one that gives up.
last_attempt_cases {ℓ} :
    (P : Decision → Type ℓ) (clock : Clock) (config : MatchConfig) (c : TxnFacts) (db : Db)
    → ((d : Decision) → decide c (find_counterparties c config db) config ≡ some d → P d)
    → P (decide_unmatched c (sub_ℕ clock.now c.received_at))
    → P (last_attempt clock config c db).0
unfolding last_attempt
last_attempt_cases P clock config c db matched gave_up =
    elim (Option-cases (decide c (find_counterparties c config db) config)) [
      | inl e ↦ rw (e, last_attempt) gave_up
      | inr (d, e) ↦ rw (e, last_attempt) (matched d e)
    ]

decide_unmatched-active :
    (c : TxnFacts) (clock : Clock)
    → is_active (decide_unmatched c (sub_ℕ clock.now c.received_at)).status ≡ true
unfolding decide_unmatched
decide_unmatched-active c clock = ground arith

module _ (clock : Clock) (config : MatchConfig) (c : TxnFacts) (db : Db) where
  abbrev pub attempted : Decision
  attempted = (last_attempt clock config c db).0

  attempted-Names : Names c attempted
  attempted-Names =
      last_attempt_cases (Names c) clock config c db
        (λ d e. decide-Names c (find_counterparties c config db) config e)
        (decide_unmatched-Names c _)

  attempted-active : is_active attempted.status ≡ true
  attempted-active =
      last_attempt_cases (λ d. is_active d.status ≡ true) clock config c db
        (λ d e. decide-active c (find_counterparties c config db) config e)
        (decide_unmatched-active c clock)

  attempted-Applies : ReadOff db c.side c → Applies db attempted c.tenant_id
  attempted-Applies r =
      last_attempt_cases (λ d. Applies db d c.tenant_id) clock config c db
        (λ d e. decide-Applies db c config r e) (decide_unmatched-Applies db c _ r)

  matched-AllPending :
      (d : Decision)
      → PendingAt db c.side c.row_id
      → decide c (find_counterparties c config db) config ≡ some d
      → AllPending db d
  unfolding facts
  matched-AllPending d p e side i named =
      let (best, offered, partner) =
        decide-partner c (find_counterparties c config db) config {d = d} e in
      let o = (find_counterparties-iff-Offered db c config best).0 offered in
      elim (side_cases c.side side) [
        | inl s ↦
            subst (λ t. PendingAt db t i) s
              (subst (PendingAt db c.side)
                (some-injective _ _ (
                  sym (decide-Names c (find_counterparties c config db) config {d = d} e)
                  ∙ ap (λ t. row_of t d) s
                  ∙ named))
                p)
        | inr s ↦
            subst (λ t. PendingAt db t i) s
              (subst (PendingAt db (other_side c.side))
                (some-injective _ _ (sym partner ∙ ap (λ t. row_of t d) s ∙ named))
                (record {
                  row = o.row;
                  stored = o.stored;
                  key = ap (λ (t : TxnFacts). t.row_id) o.read;
                  pending = o.pending;
                }))
      ]

  attempted-AllPending : PendingAt db c.side c.row_id → AllPending db attempted
  attempted-AllPending p =
      last_attempt_cases (AllPending db) clock config c db (λ d e. matched-AllPending d p e)
        (λ side i named.
          let (s, k) = decide_unmatched-OnlyNames c _ side i named in
          subst (λ t. PendingAt db t i) s (subst (PendingAt db c.side) k p))

  -- The transaction of a row, as a call of `apply_decision`.
  resolve_stale-apply_decision : resolve_stale clock config c db ≡ (
      let r =
        apply_decision clock attempted c.tenant_id
          (some (compute_latency_ms (last_attempt clock config c db).1 clock))
          none
          db in
      (r.0.written, r.1))
  unfolding resolve_stale
  resolve_stale-apply_decision = refl

  pub resolve_stale-Inv : Inv db → ReadOff db c.side c → Inv (resolve_stale clock config c db).1
  resolve_stale-Inv v r =
      rw resolve_stale-apply_decision
        (apply_decision-Inv clock attempted c.tenant_id _ none db v (attempted-Applies r))

  pub resolve_stale-ReadOff :
      (side : IngestSource) (f : TxnFacts)
      → Inv db
      → ReadOff db side f
      → ReadOff (resolve_stale clock config c db).1 side f
  resolve_stale-ReadOff side f v r =
      rw resolve_stale-apply_decision
        (apply_decision-ReadOff clock attempted c.tenant_id _ none db side f v r)

  -- A pending row is written and settled, matched or given up.
  pub resolve_stale_pending :
      Inv db
      → PendingAt db c.side c.row_id
      → ((resolve_stale clock config c db).0 ≡ true)
        × SettledAt (resolve_stale clock config c db).1 c.side c.row_id
  resolve_stale_pending v p =
      let (said, settles) =
        apply_decision_pending clock attempted c.tenant_id
          (some (compute_latency_ms (last_attempt clock config c db).1 clock)) none db v
          attempted-active (attempted-AllPending p) in
      rw resolve_stale-apply_decision
        (ap (λ (t : PersistResult). t.written) said, settles c.side c.row_id attempted-Names)

  abbrev pub attempted_latency : Option ℕ
  attempted_latency = some (compute_latency_ms (last_attempt clock config c db).1 clock)
