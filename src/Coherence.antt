-- ===== src/Coherence.antt =====
-- Which statuses and layers the results of backend/ledgerloop/matching/core.py pair up, over every run
-- of backend/ledgerloop/worker/loop.py and sweeper.py.
use ledger_loop.Prelude.{
  ℕ, ◌≡◌, refl, ◌∙◌, subst, inl, inr, Bool, true, false, Option, none, some, String, List, ◌∷◌,
  arith, any, Bool-cases, Option-cases, In, ℤ, sub_ℕ,
}
use mathlib.Core.Option.{some-injective}
use ledger_loop.Enums.{ReconStatus, MatchLayer, suppressed_statuses}
use ledger_loop.Matching.{
  TxnFacts, MatchConfig, Decision, opens_exception, decide, decide_duplicate, decide_unmatched,
}
use ledger_loop.Matching.Classify.{Layered, classify_pair-iff-Classifies}
use ledger_loop.Matching.Choice.{decide-Picked}
use ledger_loop.Messages.{IngestMessage}
use ledger_loop.Store.{
  ReconciliationResult, ExceptionRow, Db, violates, insert_result, insert_exception,
}
use ledger_loop.Persist.{
  Clock, result_row, exception_row, mark_reconciled, settle, open_exception, after_insert,
  apply_decision, load_facts, find_counterparties, compute_latency_ms,
}
use ledger_loop.Worker.{choose, sides_of, conclude, process}
use ledger_loop.Sweeper.{last_attempt, resolve_stale}

-- The layer tells the status: the first two layers match, the third drifts, a duplicate is a duplicate
-- and the sweep leaves one side unmatched.
abbrev pub coherent : ReconStatus → MatchLayer → Bool
coherent ReconStatus.matched MatchLayer.exact = true
coherent ReconStatus.matched MatchLayer.time_drift = true
coherent ReconStatus.amount_drift MatchLayer.amount_drift = true
coherent ReconStatus.duplicate MatchLayer.duplicate = true
coherent ReconStatus.unmatched_gateway_only MatchLayer.unmatched_sweep = true
coherent ReconStatus.unmatched_ledger_only MatchLayer.unmatched_sweep = true
coherent _ _ = false

abbrev pub Coherent : Db → Type 0
Coherent db = (r : ReconciliationResult) → In r db.results → coherent r.status r.match_layer ≡ true

Layered-coherent :
    (a b : TxnFacts) (config : MatchConfig) (s : ReconStatus) (l : MatchLayer)
    → Layered a b config s l
    → coherent s l ≡ true
Layered-coherent a b config ReconStatus.matched MatchLayer.exact h = refl
Layered-coherent a b config ReconStatus.matched MatchLayer.time_drift h = refl
Layered-coherent a b config ReconStatus.amount_drift MatchLayer.amount_drift h = refl
Layered-coherent a b config _ _ h = absurd h

decide-coherent :
    (c : TxnFacts) (os : List TxnFacts) (config : MatchConfig) (d : Decision)
    → decide c os config ≡ some d
    → coherent d.status d.layer ≡ true
decide-coherent c os config d h =
    let p = decide-Picked c os config h in
    Layered-coherent c p.best config d.status d.layer
      ((classify_pair-iff-Classifies c p.best config d.status d.layer).0 p.verdict).1

decide_duplicate-coherent :
    (c : TxnFacts) (n : ℕ)
    → coherent (decide_duplicate c n).status (decide_duplicate c n).layer ≡ true
unfolding decide_duplicate
decide_duplicate-coherent c n = ground arith

decide_unmatched-coherent :
    (c : TxnFacts) (w : ℤ)
    → coherent (decide_unmatched c w).status (decide_unmatched c w).layer ≡ true
unfolding decide_unmatched
decide_unmatched-coherent c w = ground arith

results-settle : (clock : Clock) (d : Decision) (db : Db) → (settle clock d db).results ≡ db.results
unfolding settle mark_reconciled
results-settle clock d db = elim (Bool-cases (suppressed_statuses d.status)) [
  | inl q ↦ rw q refl
  | inr q ↦ rw q refl
]

results-insert_exception :
    (x : ExceptionRow) (db : Db) → (insert_exception x db).1.results ≡ db.results
unfolding insert_exception
results-insert_exception x db = ground arith

results-open_exception :
    (clock : Clock) (d : Decision) (tenant result_id : ℕ) (db : Db)
    → (open_exception clock d tenant result_id db).1.results ≡ db.results
unfolding open_exception
results-open_exception clock d tenant result_id db = elim (Bool-cases (opens_exception d)) [
  | inl q ↦
      rw q (results-insert_exception (exception_row clock tenant result_id db.next_exception) db)
  | inr q ↦ rw q refl
]

results-after_insert :
    (clock : Clock) (d : Decision) (tenant : ℕ) (inserted : Option ℕ) (db : Db)
    → (after_insert clock d tenant (inserted, db)).1.results ≡ db.results
unfolding after_insert
results-after_insert clock d tenant none db = refl
results-after_insert clock d tenant (some i) db =
    results-open_exception clock d tenant i (settle clock d db) ∙ results-settle clock d db

insert_result-Coherent :
    (r : ReconciliationResult) (db : Db)
    → coherent r.status r.match_layer ≡ true
    → Coherent db
    → Coherent (insert_result r db).1
unfolding insert_result
insert_result-Coherent r db e v = elim (Bool-cases (any (violates r) db.results)) [
  | inl q ↦ rw q v
  | inr q ↦ rw q both
]
  where
    both :
        (x : ReconciliationResult) → In x (r ∷ db.results) → coherent x.status x.match_layer ≡ true
    both x (inl p) =
        subst (λ (y : ReconciliationResult). coherent y.status y.match_layer ≡ true) p e
    both x (inr m) = v x m

apply_decision-Coherent :
    (clock : Clock) (d : Decision) (tenant : ℕ) (latency : Option ℕ) (message : Option String)
    (db : Db)
    → coherent d.status d.layer ≡ true
    → Coherent db
    → Coherent (apply_decision clock d tenant latency message db).1
unfolding apply_decision
apply_decision-Coherent clock d tenant latency message db e v r h =
    let row = result_row clock d tenant latency message db.next_result in
    insert_result-Coherent row db e v r (
      subst (In r)
        (results-after_insert clock d tenant (insert_result row db).0 (insert_result row db).1) h)

choose-coherent :
    (config : MatchConfig) (message : IngestMessage) (candidate : TxnFacts) (db : Db) (d : Decision)
    → choose config message candidate db ≡ some d
    → coherent d.status d.layer ≡ true
unfolding choose
choose-coherent config message candidate db d h = elim (Bool-cases message.is_duplicate) [
  | inl q ↦
      let e : some (decide_duplicate candidate message.submissions) ≡ some d = rw q at h in
      subst (λ (x : Decision). coherent x.status x.layer ≡ true) (some-injective _ _ e)
        (decide_duplicate-coherent candidate message.submissions)
  | inr q ↦
      let e : decide candidate (find_counterparties candidate config db) config ≡ some d =
        rw q at h in
      decide-coherent candidate (find_counterparties candidate config db) config d e
]

conclude-Coherent :
    (clock : Clock) (config : MatchConfig) (message : IngestMessage) (id : Option String)
    (candidate : TxnFacts) (chosen : Option Decision) (db : Db)
    → ((d : Decision) → chosen ≡ some d → coherent d.status d.layer ≡ true)
    → Coherent db
    → Coherent (conclude clock config message id candidate chosen db).1
unfolding conclude
conclude-Coherent clock config message id candidate none db e v = v
conclude-Coherent clock config message id candidate (some d) db e v =
    apply_decision-Coherent clock d candidate.tenant_id
      (some (compute_latency_ms (sides_of config message candidate d db) clock)) id db (e d refl) v

-- Every result that the matcher writes has the status of its layer.
pub process-Coherent :
    (clock : Clock) (config : MatchConfig) (message : IngestMessage) (id : Option String) (db : Db)
    → Coherent db
    → Coherent (process clock config message id db).1
unfolding process
process-Coherent clock config message id db v =
    elim (Option-cases (load_facts message.source message.row_id db)) [
      | inl q ↦ rw (process, q) v
      | inr (candidate, q) ↦
          rw (process, q)
            (conclude-Coherent clock config message id candidate
              (choose config message candidate db) db (choose-coherent config message candidate db)
              v)
    ]

last_attempt-coherent :
    (clock : Clock) (config : MatchConfig) (c : TxnFacts) (db : Db)
    → let d = (last_attempt clock config c db).0 in coherent d.status d.layer ≡ true
unfolding last_attempt
last_attempt-coherent clock config c db =
    elim (Option-cases (decide c (find_counterparties c config db) config)) [
      | inl q ↦ rw (last_attempt, q) (decide_unmatched-coherent c (sub_ℕ clock.now c.received_at))
      | inr (d, q) ↦
          rw (last_attempt, q) (decide-coherent c (find_counterparties c config db) config d q)
    ]

-- Every result that the sweep writes has the status of its layer.
pub resolve_stale-Coherent :
    (clock : Clock) (config : MatchConfig) (c : TxnFacts) (db : Db)
    → Coherent db
    → Coherent (resolve_stale clock config c db).1
unfolding resolve_stale
resolve_stale-Coherent clock config c db v =
    let attempt = last_attempt clock config c db in
    apply_decision-Coherent clock attempt.0 c.tenant_id (some (compute_latency_ms attempt.1 clock))
      none db (last_attempt-coherent clock config c db) v
