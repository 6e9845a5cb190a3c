-- ===== src/Ingest/Batch/Increments.antt =====
-- The executemany of ingest_ledger_batch, backend/ledgerloop/services/ingest.py: what it makes of one
-- idempotency key.
use ledger_loop.Prelude.{
  ℕ, ◌+◌, ◌≡◌, refl, ap, ◌∙◌, subst, ◌⊎◌, inl, inr, none, some, true, false, String, arith, List,
  [], ◌∷◌, any, Bool-cases, Option, ltb,
}
use mathlib.Core.Option
use ledger_loop.Enums.{IngestSource}
use ledger_loop.Store.{RawRow, Db}
use ledger_loop.Persist.Invariant.{Inv}
use ledger_loop.Ingest.{LedgerEntryIn, bump}
use ledger_loop.Ingest.Rows.{RawInv}
use ledger_loop.Ingest.Batch.{Dict, keyed, increment, increments, bump_all}
use ledger_loop.Ingest.Batch.View.{held_row, add_count, held_row_bumped, held_row_kept, bump-Inv}
use ledger_loop.Ingest.Batch.Firsts.{keyed-eq, eq-keyed, DistinctKeys}

pub bump_all-Inv :
    (tenant : ℕ) (items : Dict) (db : Db)
    → Inv db
    → RawInv db
    → Inv (bump_all tenant items db) × RawInv (bump_all tenant items db)
unfolding bump_all
bump_all-Inv tenant [] db v w = (v, w)
bump_all-Inv tenant ((k, n) ∷ items) db v w =
    let (v', w') = bump-Inv tenant k n db v w in
    bump_all-Inv tenant items (bump IngestSource.ledger tenant k n db) v' w'

module _ (tenant : ℕ) (entries : List LedgerEntryIn) (inserted : Dict) (k : String) where
  pub bump_all_absent :
      (fs : List LedgerEntryIn) (db : Db)
      → any (keyed k) fs ≡ false
      → held_row tenant k (bump_all tenant (increments entries inserted fs) db)
        ≡ held_row tenant k db
  unfolding bump_all increments
  bump_all_absent [] db h = refl
  bump_all_absent (f ∷ fs) db h =
      elim (Bool-cases (ltb 0 (increment entries inserted f.idempotency_key))) [
        | inl p ↦ rw p (
            bump_all_absent fs
              (bump IngestSource.ledger tenant f.idempotency_key
                (increment entries inserted f.idempotency_key) db)
              (ground (arith, h))
            ∙ held_row_kept tenant f.idempotency_key _ db k
                (λ r. let x = eq-keyed k f r in ground (arith, h, x)))
        | inr p ↦ rw p (bump_all_absent fs db (ground (arith, h)))
      ]

  add_nothing : (n : ℕ) (o : Option RawRow) → ltb 0 n ≡ false → o ≡ Option.map (add_count n) o
  add_nothing n none h = refl
  add_nothing n (some row) h =
      ap some (ap (λ c. record row { duplicate_count = c }) (zero_more row.duplicate_count))
    where
      zero_more : (c : ℕ) → c ≡ c + n
      zero_more c = ground (arith, h)

  module _ (f : LedgerEntryIn) (fs : List LedgerEntryIn) (db : Db) where
    abbrev bumped : Db
    bumped =
        bump IngestSource.ledger tenant f.idempotency_key
          (increment entries inserted f.idempotency_key) db

    step_more :
        ltb 0 (increment entries inserted f.idempotency_key) ≡ true
        → bump_all tenant (increments entries inserted (f ∷ fs)) db
          ≡ bump_all tenant (increments entries inserted fs) bumped
    unfolding bump_all increments
    step_more p = rw p refl

    step_none :
        ltb 0 (increment entries inserted f.idempotency_key) ≡ false
        → bump_all tenant (increments entries inserted (f ∷ fs)) db
          ≡ bump_all tenant (increments entries inserted fs) db
    unfolding bump_all increments
    step_none p = rw p refl

  pub bump_all_present :
      (fs : List LedgerEntryIn) (db : Db)
      → DistinctKeys fs
      → any (keyed k) fs ≡ true
      → held_row tenant k (bump_all tenant (increments entries inserted fs) db)
        ≡ Option.map (add_count (increment entries inserted k)) (held_row tenant k db)
  bump_all_present [] db d h = absurd (ground (arith, h))
  bump_all_present (f ∷ fs) db d h = elim (Bool-cases (keyed k f)) [
    | inl q ↦ here (keyed-eq k f q) (Bool-cases _)
    | inr q ↦ there q (λ db' a. bump_all_present fs db' d.1 a) (Bool-cases _)
  ]
    where
      here :
          f.idempotency_key ≡ k
          → (ltb 0 (increment entries inserted f.idempotency_key) ≡ true)
            ⊎ (ltb 0 (increment entries inserted f.idempotency_key) ≡ false)
          → held_row tenant k (bump_all tenant (increments entries inserted (f ∷ fs)) db)
            ≡ Option.map (add_count (increment entries inserted k)) (held_row tenant k db)
      here r (inl p) =
          ap (held_row tenant k) (step_more f fs db p)
          ∙ bump_all_absent fs (bumped f fs db) (subst (λ j. any (keyed j) fs ≡ false) r d.0)
          ∙ subst
              (λ j.
                held_row tenant j (bumped f fs db)
                ≡ Option.map (add_count (increment entries inserted j)) (held_row tenant j db))
              r (held_row_bumped tenant f.idempotency_key _ db)
      here r (inr p) =
          ap (held_row tenant k) (step_none f fs db p)
          ∙ bump_all_absent fs db (subst (λ j. any (keyed j) fs ≡ false) r d.0)
          ∙ add_nothing (increment entries inserted k) (held_row tenant k db)
              (subst (λ j. ltb 0 (increment entries inserted j) ≡ false) r p)

      there :
          keyed k f ≡ false
          → ((db' : Db)
              → any (keyed k) fs ≡ true
              → held_row tenant k (bump_all tenant (increments entries inserted fs) db')
                ≡ Option.map (add_count (increment entries inserted k)) (held_row tenant k db'))
          → (ltb 0 (increment entries inserted f.idempotency_key) ≡ true)
            ⊎ (ltb 0 (increment entries inserted f.idempotency_key) ≡ false)
          → held_row tenant k (bump_all tenant (increments entries inserted (f ∷ fs)) db)
            ≡ Option.map (add_count (increment entries inserted k)) (held_row tenant k db)
      there q more (inl p) =
          ap (held_row tenant k) (step_more f fs db p)
          ∙ more (bumped f fs db) (ground (arith, h, q))
          ∙ ap (Option.map (add_count (increment entries inserted k))) (
              held_row_kept tenant f.idempotency_key _ db k
                (λ r. let x = eq-keyed k f r in ground (arith, q, x)))
      there q more (inr p) =
          ap (held_row tenant k) (step_none f fs db p) ∙ more db (ground (arith, h, q))
