-- ===== src/Persist/Settle.antt =====
-- `_mark_reconciled` of backend/ledgerloop/worker/persist.py, row by row.
use ledger_loop.Prelude.{
  ℕ, ◌≡◌, refl, ap, ◌⊎◌, inl, inr, true, Option, some, List, [], ◌∷◌, map, arith, if◌then◌else◌,
  Bool-cases, is_some, ◌∙◌, sym,
}
use ledger_loop.Enums.{IngestSource, suppressed_statuses, is_active}
use ledger_loop.Matching.{Decision}
use ledger_loop.Store.{RawRow, Db, table}
use ledger_loop.Persist.{Clock, facts, mark_row, mark_reconciled, settle}

-- The row that a decision names on a side.
abbrev pub row_of : IngestSource → Decision → Option ℕ
row_of IngestSource.gateway d = d.gateway_row_id
row_of IngestSource.ledger d = d.ledger_row_id

-- What becomes of one row of a table when a decision is stored.
pub settle_row : Clock → Decision → IngestSource → RawRow → RawRow
settle_row clock d side row =
    if suppressed_statuses d.status then row else mark_row clock.now (row_of side d) row

module _ (clock : Clock) (d : Decision) (side : IngestSource) (row : RawRow) where
  -- Only `reconciled_at` is ever written.
  pub facts-settle_row : facts side (settle_row clock d side row) ≡ facts side row
  unfolding settle_row mark_row facts
  facts-settle_row = ground arith

  pub settle_row-id : (settle_row clock d side row).id ≡ row.id
  unfolding settle_row mark_row
  settle_row-id = ground arith

  pub settle_row-tenant_id : (settle_row clock d side row).tenant_id ≡ row.tenant_id
  unfolding settle_row mark_row
  settle_row-tenant_id = ground arith

  pub settle_row-key : (settle_row clock d side row).idempotency_key ≡ row.idempotency_key
  unfolding settle_row mark_row
  settle_row-key = ground arith

  pub settle_row_marks :
      is_active d.status ≡ true
      → row_of side d ≡ some row.id
      → is_some (settle_row clock d side row).reconciled_at ≡ true
  unfolding settle_row mark_row
  settle_row_marks h k = rw k (ground arith)

  pub settle_row_keeps :
      is_some row.reconciled_at ≡ true → is_some (settle_row clock d side row).reconciled_at ≡ true
  unfolding settle_row mark_row
  settle_row_keeps h = ground arith

  -- A row that was pending and is settled now is the one that the decision names.
  pub settle_row_cases :
      is_some (settle_row clock d side row).reconciled_at ≡ true
      → (is_some row.reconciled_at ≡ true)
        ⊎ ((is_active d.status ≡ true) × (row_of side d ≡ some row.id))
  unfolding settle_row mark_row
  settle_row_cases h = ground arith

map_eq {ℓ} :
    {A B : Type ℓ} (f g : A → B) (xs : List A) → ((x : A) → f x ≡ g x) → map f xs ≡ map g xs
map_eq f g [] h = refl
map_eq f g (x ∷ xs) h = rw (h x, map_eq f g xs h)

map_same {ℓ} : {A : Type ℓ} (f : A → A) (xs : List A) → ((x : A) → f x ≡ x) → map f xs ≡ xs
map_same f [] h = refl
map_same f (x ∷ xs) h = rw (h x, map_same f xs h)

table-mark_reconciled :
    (clock : Clock) (d : Decision) (side : IngestSource) (db : Db)
    → table side (mark_reconciled clock d db)
      ≡ map (mark_row clock.now (row_of side d)) (table side db)
unfolding mark_reconciled
table-mark_reconciled clock d IngestSource.gateway db = refl
table-mark_reconciled clock d IngestSource.ledger db = refl

-- Settling a decision changes each table row by row.
pub table-settle :
    (clock : Clock) (d : Decision) (side : IngestSource) (db : Db)
    → table side (settle clock d db) ≡ map (settle_row clock d side) (table side db)
unfolding settle settle_row
table-settle clock d side db = elim (Bool-cases (suppressed_statuses d.status)) [
  | inl e ↦
      ap (λ b. table side (if b then db else mark_reconciled clock d db)) e
      ∙ sym (
          map_same (settle_row clock d side) (table side db)
            (λ row. ap (λ b. if b then row else mark_row clock.now (row_of side d) row) e))
  | inr e ↦
      ap (λ b. table side (if b then db else mark_reconciled clock d db)) e
      ∙ table-mark_reconciled clock d side db
      ∙ sym (
          map_eq (settle_row clock d side) (mark_row clock.now (row_of side d)) (table side db)
            (λ row. ap (λ b. if b then row else mark_row clock.now (row_of side d) row) e))
]

-- The rest of the store stays as it was.
pub settle_keeps :
    (clock : Clock) (d : Decision) (db : Db)
    → (((settle clock d db).results ≡ db.results)
        × ((settle clock d db).exceptions ≡ db.exceptions)
        × ((settle clock d db).next_result ≡ db.next_result)
        × ((settle clock d db).next_exception ≡ db.next_exception)
        × ((settle clock d db).outbox_events ≡ db.outbox_events))
unfolding settle mark_reconciled
settle_keeps clock d db = ground arith
