-- ===== src/Worker/Redelivery.antt =====
-- `process` of backend/ledgerloop/worker/loop.py under at-least-once delivery: a row that is decided
-- stays decided, and a message that is delivered again changes nothing.
use ledger_loop.Prelude.{
  ℕ, ◌≡◌, refl, sym, ap, ◌∙◌, subst, inl, inr, not, Bool, String, Option, none, some, List, [], ◌∷◌,
  map, arith, In, Bool-cases, Option-cases, any, any-true, find, ◌==◌,
}
use mathlib.Core.Option
use mathlib.Core.Option.{some-injective}
use ledger_loop.Enums.{IngestSource, is_active}
use ledger_loop.Matching.{TxnFacts, MatchConfig, Decision, decide_duplicate}
use ledger_loop.Matching.Choice.{decide-active}
use ledger_loop.Messages.{IngestMessage}
use ledger_loop.Store.{Db, RawRow, ReconciliationResult, table, side_id, index_hit, violates}
use ledger_loop.Store.Indexes.{Clash-violates}
use ledger_loop.Persist.{
  Clock, facts, load_facts, find_counterparties, compute_latency_ms, apply_decision,
}
use ledger_loop.Persist.Settle.{row_of, settle_row, facts-settle_row, settle_row-id}
use ledger_loop.Persist.Invariant.{Inv}
use ledger_loop.Persist.Stored.{new_result, apply_decision_conflict, apply_decision-Stored, Stored}
use ledger_loop.Persist.Written.{fresh, fresh-In, fresh-side}
use ledger_loop.Worker.{choose, sides_of, process}
use ledger_loop.Worker.Decides.{Names}
use ledger_loop.Worker.Safety.{
  choose-Names, process_cases, process_missing, process-deferred, process-apply_decision,
}

-- A result is stored for the row: a duplicate marker, or one that is none.
pub record Decided (db : Db) (c : TxnFacts) (active : Bool) : Type 0 where
  pub result : ReconciliationResult
  pub stored : In result db.results
  pub points : side_id c.side result ≡ some c.row_id
  pub owner : result.tenant_id ≡ c.tenant_id
  pub kind : is_active result.status ≡ active

module _ (clock : Clock) (d : Decision) (latency : Option ℕ) (message : Option String)
    (c : TxnFacts) (db : Db) where
  new_result-side :
      (side : IngestSource)
      → side_id side (new_result clock d c.tenant_id latency message db) ≡ row_of side d
  new_result-side IngestSource.gateway = refl
  new_result-side IngestSource.ledger = refl

  -- A second result of the same kind for a row is refused.
  pub apply_decision-Decided :
      Names c d
      → Decided db c (is_active d.status)
      → (apply_decision clock d c.tenant_id latency message db).1 ≡ db
  apply_decision-Decided named r =
      rw
        (apply_decision_conflict clock d c.tenant_id latency message db (
          any-true (violates (new_result clock d c.tenant_id latency message db)) r.result
            db.results r.stored
            (Clash-violates _ r.result c.side c.row_id (record {
              left = new_result-side c.side ∙ named;
              right = r.points;
              kind = sym r.kind;
              tenant = sym r.owner;
            }))))
        refl

  -- A decision that is written decides its row.
  pub Stored-Decided :
      (db' : Db)
      → Names c d
      → Stored clock d c.tenant_id latency message db db'
      → Decided db' c (is_active d.status)
  Stored-Decided db' named w = record {
    result = fresh w;
    stored = fresh-In w;
    points = fresh-side w c.side ∙ named;
    owner = refl;
    kind = refl;
  }

  -- Whether an INSERT conflicts depends on neither the latency nor the message id.
  conflict_again :
      (clock' : Clock) (latency' : Option ℕ) (message' : Option String)
      → any (violates (new_result clock d c.tenant_id latency message db)) db.results
        ≡ any (violates (new_result clock' d c.tenant_id latency' message' db)) db.results
  unfolding violates index_hit
  conflict_again clock' latency' message' = refl

find-map :
    (f : RawRow → RawRow) (i : ℕ) (rows : List RawRow)
    → ((row : RawRow) → (f row).id ≡ row.id)
    → find (λ (row : RawRow). row.id == i) (map f rows)
      ≡ Option.map f (find (λ (row : RawRow). row.id == i) rows)
find-map f i [] h = refl
find-map f i (row ∷ rows) h = ground (arith, h row, find-map f i rows h)

-- What the matcher reads of a row never changes.
pub load_facts-Stored :
    (clock : Clock) (d : Decision) (tenant : ℕ) (latency : Option ℕ) (message : Option String)
    (db db' : Db) (side : IngestSource) (i : ℕ)
    → Stored clock d tenant latency message db db'
    → load_facts side i db' ≡ load_facts side i db
unfolding load_facts
load_facts-Stored clock d tenant latency message db db' side i w =
    ap (λ rows. Option.map (facts side) (find (λ (row : RawRow). row.id == i) rows)) (w.tables side)
    ∙ ap (Option.map (facts side))
        (find-map (settle_row clock d side) i (table side db) (settle_row-id clock d side))
    ∙ same (find (λ (row : RawRow). row.id == i) (table side db))
  where
    same :
        (o : Option RawRow)
        → Option.map (facts side) (Option.map (settle_row clock d side) o)
          ≡ Option.map (facts side) o
    same none = refl
    same (some row) = ap some (facts-settle_row clock d side row)

-- A message that says it is a duplicate yields a duplicate marker, and any other message none.
choose-kind :
    (config : MatchConfig) (m : IngestMessage) (c : TxnFacts) (db : Db) (d : Decision)
    → choose config m c db ≡ some d
    → is_active d.status ≡ not m.is_duplicate
unfolding choose decide_duplicate
choose-kind config m c db d h = elim (Bool-cases m.is_duplicate) [
  | inl e ↦ ground (arith, e)
  | inr e ↦
      let active =
        decide-active c (find_counterparties c config db) config {d = d} (ground (arith, e)) in
      ground (arith, active, e)
]

-- Once a row is decided, no later message about it of the same kind changes the store, whatever else
-- was written in between.
pub process-Decided :
    (clock : Clock) (config : MatchConfig) (m : IngestMessage) (id : Option String) (db : Db)
    (c : TxnFacts)
    → load_facts m.source m.row_id db ≡ some c
    → Decided db c (not m.is_duplicate)
    → (process clock config m id db).1 ≡ db
process-Decided clock config m id db c e r =
    process_cases (λ db'. db' ≡ db) clock config m id db refl
      λ c' d e' k.
        let same : c' ≡ c = some-injective _ _ (sym e' ∙ e) in
        apply_decision-Decided clock d _ id c' db (choose-Names config m c' db d k) (
          subst (λ t. Decided db t (is_active d.status)) (sym same)
            (subst (Decided db c) (sym (choose-kind config m c' db d k)) r))

redelivered_written :
    (clock clock' : Clock) (config : MatchConfig) (m : IngestMessage) (id id' : Option String)
    (db : Db) (c : TxnFacts) (d : Decision)
    → Inv db
    → load_facts m.source m.row_id db ≡ some c
    → choose config m c db ≡ some d
    → let latency = some (compute_latency_ms (sides_of config m c d db) clock) in
      let db' = (apply_decision clock d c.tenant_id latency id db).1 in
      (process clock' config m id' db').1 ≡ db'
redelivered_written clock clock' config m id id' db c d v e k =
    let latency = some (compute_latency_ms (sides_of config m c d db) clock) in
    let db' = (apply_decision clock d c.tenant_id latency id db).1 in
    elim (Bool-cases (any (violates (new_result clock d c.tenant_id latency id db)) db.results)) [
      | inl conflict ↦
          subst (λ t. (process clock' config m id' t).1 ≡ t)
            (sym
              (ap (λ t. t.1) (apply_decision_conflict clock d c.tenant_id latency id db conflict)))
            (process-apply_decision clock' config m id' db c d e k
              ∙ ap (λ t. t.1)
                  (apply_decision_conflict clock' d c.tenant_id
                    (some (compute_latency_ms (sides_of config m c d db) clock')) id' db
                    (conflict_again clock' d
                        (some (compute_latency_ms (sides_of config m c d db) clock')) id' c db clock
                        latency id
                      ∙ conflict)))
      | inr free ↦
          let w = (apply_decision-Stored clock d c.tenant_id latency id db v free).1 in
          process-Decided clock' config m id' db' c
            (load_facts-Stored clock d c.tenant_id latency id db db' m.source m.row_id w ∙ e)
            (subst (Decided db' c) (choose-kind config m c db d k)
              (Stored-Decided clock d latency id c db db' (choose-Names config m c db d k) w))
    ]

-- On a well-formed store, processing a message again right after it was processed, by any clock and
-- under any entry id, changes nothing.
pub process_twice :
    (clock clock' : Clock) (config : MatchConfig) (m : IngestMessage) (id id' : Option String)
    (db : Db)
    → Inv db
    → (process clock' config m id' (process clock config m id db).1).1
      ≡ (process clock config m id db).1
process_twice clock clock' config m id id' db v =
    elim (Option-cases (load_facts m.source m.row_id db)) [
      | inl e ↦ stays (λ k i. ap (λ t. t.1) (process_missing k config m i db e))
      | inr (c, e) ↦ elim (Option-cases (choose config m c db)) [
        | inl k ↦ stays (λ t i. ap (λ t. t.1) (process-deferred t config m i db c e k))
        | inr (d, k) ↦
            subst (λ t. (process clock' config m id' t).1 ≡ t)
              (sym (process-apply_decision clock config m id db c d e k))
              (redelivered_written clock clock' config m id id' db c d v e k)
      ]
    ]
  where
    stays :
        ((t : Clock) (i : Option String) → (process t config m i db).1 ≡ db)
        → (process clock' config m id' (process clock config m id db).1).1
          ≡ (process clock config m id db).1
    stays h = subst (λ t. (process clock' config m id' t).1 ≡ t) (sym (h clock id)) (h clock' id')
