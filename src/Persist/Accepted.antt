-- ===== src/Persist/Accepted.antt =====
-- apply_decision of backend/ledgerloop/worker/persist.py with the INSERTs that raise.
use ledger_loop.Prelude.{
  ℕ, ◌≡◌, refl, ap, ◌∙◌, true, false, Option, none, some, String, arith, any, any-true, In, ◌==◌,
}
use ledger_loop.Enums.{IngestSource, is_active}
use ledger_loop.Matching.{Decision, opens_exception}
use ledger_loop.Store.{RawRow, Db, table, violates, points_at, fits_integer, accepts}
use ledger_loop.Persist.{Clock, PersistResult, apply_decision, write_decision}
use ledger_loop.Persist.Settle.{row_of}
use ledger_loop.Persist.Invariant.{Inv, Applies}
use ledger_loop.Persist.Stored.{new_result, wrote, Stored}
use ledger_loop.Persist.Pending.{AllPending, SettledAt, apply_decision_pending}

row_at-points :
    (side : IngestSource) (i : ℕ) (row : RawRow) (db : Db)
    → In row (table side db)
    → row.id ≡ i
    → any (λ (r : RawRow). r.id == i) (table side db) ≡ true
row_at-points side i row db h e =
    any-true (λ (r : RawRow). r.id == i) row (table side db) h (ground (arith, e))

module _ (clock : Clock) (d : Decision) (tenant : ℕ) (latency : Option ℕ) (message : Option String)
    (db : Db) where
  -- The three ends of writing a decision.
  pub data Written : Option (PersistResult × Db) → Type 0 where
    raises : accepts (new_result clock d tenant latency message db) db ≡ false → Written none
    conflict :
        any (violates (new_result clock d tenant latency message db)) db.results ≡ true
        → Written
            (some (record { written = false; result_id = none; exception_opened = false }, db))
    stored :
        (db' : Db)
        → any (violates (new_result clock d tenant latency message db)) db.results ≡ false
        → Stored clock d tenant latency message db db'
        → Written (some (wrote clock d tenant latency message db (opens_exception d), db'))

  side_points :
      (side : IngestSource) (named : Option ℕ)
      → ((i : ℕ) → named ≡ some i → (row : RawRow) × In row (table side db) × (row.id ≡ i))
      → points_at side named db ≡ true
  side_points side none h = refl
  side_points side (some i) h =
      let (row, there, e) = h i refl in row_at-points side i row db there e

  -- The rows are there, so only the latency may be refused.
  rows-accepts :
      ((side : IngestSource) (i : ℕ)
        → row_of side d ≡ some i
        → (row : RawRow) × In row (table side db) × (row.id ≡ i))
      → (side : IngestSource) (i : ℕ) → row_of side d ≡ some i
      → accepts (new_result clock d tenant latency message db) db ≡ fits_integer latency
  unfolding accepts
  rows-accepts h IngestSource.gateway i e =
      rw
        (
          accepts,
          side_points IngestSource.gateway d.gateway_row_id (h IngestSource.gateway),
          side_points IngestSource.ledger d.ledger_row_id (h IngestSource.ledger),
          e,
        )
        refl
  rows-accepts h IngestSource.ledger i e =
      rw
        (
          accepts,
          side_points IngestSource.gateway d.gateway_row_id (h IngestSource.gateway),
          side_points IngestSource.ledger d.ledger_row_id (h IngestSource.ledger),
          e,
        )
        (ground arith)

  -- Of the decisions that the matcher and the sweep write (Applies), the table refuses exactly those
  -- whose latency is past an INTEGER.
  pub Applies-accepts :
      Applies db d tenant
      → accepts (new_result clock d tenant latency message db) db ≡ fits_integer latency
  Applies-accepts a =
      rows-accepts (λ side i e. let at = a.rows side i e in (at.row, at.stored, at.key)) a.names.0
        a.names.1 a.names.2

  -- On a well-formed store, a decision that is no duplicate marker, names at least one row and pending
  -- rows only, with a latency that an INTEGER holds, is written, and settles every row that it names.
  pub write_decision_pending :
      (side : IngestSource) (i : ℕ)
      → Inv db
      → is_active d.status ≡ true
      → AllPending db d
      → row_of side d ≡ some i
      → fits_integer latency ≡ true
      → (db' : Db) × (write_decision clock d tenant latency message db
          ≡ some (wrote clock d tenant latency message db (opens_exception d), db'))
        × ((s : IngestSource) (j : ℕ) → row_of s d ≡ some j → SettledAt db' s j)
  unfolding write_decision
  write_decision_pending side i v active pending named fits =
      let (said, settles) =
        apply_decision_pending clock d tenant latency message db v active pending in
      let accepted =
        rows-accepts (λ s j e. let p = pending s j e in (p.row, p.stored, p.key)) side i named
        ∙ fits in
      (
        (apply_decision clock d tenant latency message db).1,
        rw (write_decision, accepted)
            (ap (λ p. some (p, (apply_decision clock d tenant latency message db).1)) said),
        settles,
      )
