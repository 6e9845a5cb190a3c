-- ===== src/Worker/Safety.antt =====
-- `process` of backend/ledgerloop/worker/loop.py: it keeps the store well formed, and a message that
-- is delivered again changes nothing.
use ledger_loop.Prelude.{
  ℕ, ◌≡◌, sym, subst, inl, inr, String, Option, none, some, arith, Bool-cases, Option-cases,
}
use ledger_loop.Enums.{IngestSource}
use ledger_loop.Matching.{TxnFacts, MatchConfig, Decision}
use ledger_loop.Messages.{IngestMessage}
use ledger_loop.Store.{Db}
use ledger_loop.Persist.{Clock, load_facts, find_counterparties, compute_latency_ms, apply_decision}
use ledger_loop.Persist.Invariant.{Inv, Applies}
use ledger_loop.Persist.Preserved.{apply_decision-Inv}
use ledger_loop.Persist.Reads.{ReadOff, load_facts-ReadOff}
use ledger_loop.Worker.{deferred, choose, sides_of, conclude, process}
use ledger_loop.Worker.Decides.{
  Names, decide_duplicate-Names, decide_duplicate-Applies, decide-Names, decide-Applies,
}

pub process_missing :
    (clock : Clock) (config : MatchConfig) (m : IngestMessage) (id : Option String) (db : Db)
    → load_facts m.source m.row_id db ≡ none
    → process clock config m id db ≡ (deferred, db)
unfolding process
process_missing clock config m id db e = rw (e, process)

pub process_loaded :
    (clock : Clock) (config : MatchConfig) (m : IngestMessage) (id : Option String) (db : Db)
    (c : TxnFacts)
    → load_facts m.source m.row_id db ≡ some c
    → process clock config m id db ≡ conclude clock config m id c (choose config m c db) db
unfolding process
process_loaded clock config m id db c e = rw (e, process)

pub process-deferred :
    (clock : Clock) (config : MatchConfig) (m : IngestMessage) (id : Option String) (db : Db)
    (c : TxnFacts)
    → load_facts m.source m.row_id db ≡ some c
    → choose config m c db ≡ none
    → process clock config m id db ≡ (deferred, db)
unfolding conclude
process-deferred clock config m id db c e k = rw (process_loaded clock config m id db c e, k)

pub process-apply_decision :
    (clock : Clock) (config : MatchConfig) (m : IngestMessage) (id : Option String) (db : Db)
    (c : TxnFacts) (d : Decision)
    → load_facts m.source m.row_id db ≡ some c
    → choose config m c db ≡ some d
    → (process clock config m id db).1
      ≡ (apply_decision clock d c.tenant_id
          (some (compute_latency_ms (sides_of config m c d db) clock))
          id
          db).1
unfolding conclude
process-apply_decision clock config m id db c d e k =
    rw (process_loaded clock config m id db c e, k)

-- What is chosen for a row that was read may be written.
pub choose-Applies :
    (config : MatchConfig) (m : IngestMessage) (c : TxnFacts) (db : Db) (d : Decision)
    → ReadOff db c.side c
    → choose config m c db ≡ some d
    → Applies db d c.tenant_id
unfolding choose
choose-Applies config m c db d r h = elim (Bool-cases m.is_duplicate) [
  | inl e ↦
      subst (λ t. Applies db t c.tenant_id) (ground (arith, e))
        (decide_duplicate-Applies db c m.submissions r)
  | inr e ↦ decide-Applies db c config r (ground (arith, e))
]

pub choose-Names :
    (config : MatchConfig) (m : IngestMessage) (c : TxnFacts) (db : Db) (d : Decision)
    → choose config m c db ≡ some d
    → Names c d
unfolding choose
choose-Names config m c db d h = elim (Bool-cases m.is_duplicate) [
  | inl e ↦ subst (Names c) (ground (arith, e)) (decide_duplicate-Names c m.submissions)
  | inr e ↦ decide-Names c (find_counterparties c config db) config (ground (arith, e))
]

pub load_facts-own :
    (side : IngestSource) (i : ℕ) (db : Db) (c : TxnFacts)
    → load_facts side i db ≡ some c
    → ReadOff db c.side c
load_facts-own side i db c e =
    let (r, _, s) = load_facts-ReadOff side i db c e in subst (λ t. ReadOff db t c) (sym s) r

-- A message leaves the store alone, or writes what was chosen for the row that it points at.
pub process_cases {ℓ} :
    (P : Db → Type ℓ) (clock : Clock) (config : MatchConfig) (m : IngestMessage)
    (id : Option String) (db : Db)
    → P db
    → ((c : TxnFacts) (d : Decision)
        → load_facts m.source m.row_id db ≡ some c
        → choose config m c db ≡ some d
        → P
            (apply_decision clock d c.tenant_id
              (some (compute_latency_ms (sides_of config m c d db) clock))
              id
              db).1)
    → P (process clock config m id db).1
unfolding conclude
process_cases P clock config m id db same written =
    elim (Option-cases (load_facts m.source m.row_id db)) [
      | inl e ↦ rw (process_missing clock config m id db e) same
      | inr (c, e) ↦ elim (Option-cases (choose config m c db)) [
        | inl k ↦ rw (process_loaded clock config m id db c e, k) same
        | inr (d, k) ↦ rw (process_loaded clock config m id db c e, k) (written c d e k)
      ]
    ]

-- Processing any message keeps the store well formed.
pub process-Inv :
    (clock : Clock) (config : MatchConfig) (m : IngestMessage) (id : Option String) (db : Db)
    → Inv db
    → Inv (process clock config m id db).1
process-Inv clock config m id db v = process_cases Inv clock config m id db v λ c d e k.
    apply_decision-Inv clock d c.tenant_id _ id db v
      (choose-Applies config m c db d (load_facts-own m.source m.row_id db c e) k)
