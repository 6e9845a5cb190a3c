-- ===== src/Ingest/Batch/View.antt =====
-- The ledger table of backend/ledgerloop/services/ingest.py by its idempotency keys: the row that a
-- tenant holds under a key, and what the statements of a batch make of it.
use ledger_loop.Prelude.{
  ℕ, ◌+◌, ◌≡◌, refl, sym, ap, ◌∙◌, inl, inr, none, some, true, false, String, List, [], ◌∷◌, map,
  In, any, any-true, any-witness, find, find-some, find-none, find-In, Bool-cases, Option,
  if◌then◌else◌, str_eq, eq→str_eq,
}
use mathlib.Core.Option
use ledger_loop.Enums.{IngestSource}
use ledger_loop.Store.{RawRow, Db}
use ledger_loop.Persist.Invariant.{Inv}
use ledger_loop.Ingest.{add_row, has_key, insert_raw, bump_row, bump, map_rows}
use ledger_loop.Ingest.Extends.{Extends-Inv}
use ledger_loop.Ingest.Rows.{RawInv, has_key-parts, parts-has_key, add_row-Extends, add_row-RawInv}
use ledger_loop.Ingest.Bumps.{bump-Extends, bump-RawInv}

-- The ledger row that a tenant holds under a key.
abbrev pub held_row : ℕ → String → Db → Option RawRow
held_row tenant key db = find (has_key tenant key) db.ledger_entries

pub str_eq-false : (s t : String) → str_eq s t ≡ false → s ≡ t → ⊥
str_eq-false s t h e = cc (h, eq→str_eq s t e)

pub held_row-In :
    (tenant : ℕ) (key : String) (db : Db) (row : RawRow)
    → held_row tenant key db ≡ some row
    → In row db.ledger_entries × (row.tenant_id ≡ tenant) × (row.idempotency_key ≡ key)
held_row-In tenant key db row e =
    let (there, k) = find-some (has_key tenant key) row db.ledger_entries e in
    let (a, b) = has_key-parts tenant key row k in (there, a, b)

pub In-held_row :
    (tenant : ℕ) (key : String) (db : Db) (row : RawRow)
    → RawInv db
    → In row db.ledger_entries
    → row.tenant_id ≡ tenant
    → row.idempotency_key ≡ key
    → held_row tenant key db ≡ some row
In-held_row tenant key db row w there t k =
    let (other, found, there', keyed) =
      find-In (has_key tenant key) row db.ledger_entries there (parts-has_key tenant key row t k) in
    let (t', k') = has_key-parts tenant key other keyed in
    found ∙ ap some (w.one_row IngestSource.ledger other row there' there (t' ∙ sym t) (k' ∙ sym k))

module _ (tenant : ℕ) (db : Db) where
  -- INSERT of a key that is held, and of one that is not.
  pub insert_held :
      (row old : RawRow)
      → row.tenant_id ≡ tenant
      → held_row tenant row.idempotency_key db ≡ some old
      → insert_raw IngestSource.ledger row db ≡ (none, db)
  unfolding insert_raw
  insert_held row old t e =
      let (there, a, b) = held_row-In tenant row.idempotency_key db old e in
      let hit : any (has_key row.tenant_id row.idempotency_key) db.ledger_entries ≡ true =
        any-true (has_key row.tenant_id row.idempotency_key) old db.ledger_entries there
          (parts-has_key row.tenant_id row.idempotency_key old (a ∙ sym t) b) in
      rw hit refl

  free_key :
      (row : RawRow)
      → row.tenant_id ≡ tenant
      → held_row tenant row.idempotency_key db ≡ none
      → any (has_key row.tenant_id row.idempotency_key) db.ledger_entries ≡ false
  free_key row t e =
      elim (Bool-cases (any (has_key row.tenant_id row.idempotency_key) db.ledger_entries)) [
        | inl h ↦
            let (old, there, k) =
              any-witness (has_key row.tenant_id row.idempotency_key) db.ledger_entries h in
            let (a, b) = has_key-parts row.tenant_id row.idempotency_key old k in
            absurd (
              cc (
                find-none (has_key tenant row.idempotency_key) old db.ledger_entries e there,
                parts-has_key tenant row.idempotency_key old (a ∙ t) b,
              ))
        | inr h ↦ h
      ]

  pub insert_free :
      (row : RawRow)
      → row.tenant_id ≡ tenant
      → held_row tenant row.idempotency_key db ≡ none
      → insert_raw IngestSource.ledger row db ≡ (some row.id, add_row IngestSource.ledger row db)
  unfolding insert_raw
  insert_free row t e = rw (free_key row t e) refl

  pub add_row-Inv :
      (row : RawRow)
      → Inv db
      → RawInv db
      → row.id ≡ db.next_ledger
      → row.reconciled_at ≡ none
      → row.tenant_id ≡ tenant
      → held_row tenant row.idempotency_key db ≡ none
      → Inv (add_row IngestSource.ledger row db) × RawInv (add_row IngestSource.ledger row db)
  add_row-Inv row v w next pending t e = (
    Extends-Inv db _ v (add_row-Extends IngestSource.ledger row db next v w pending),
    add_row-RawInv IngestSource.ledger row db next w (free_key row t e),
  )

  pub held_row_added :
      (row : RawRow)
      → row.tenant_id ≡ tenant
      → held_row tenant row.idempotency_key (add_row IngestSource.ledger row db) ≡ some row
  unfolding add_row
  held_row_added row t = rw (parts-has_key tenant row.idempotency_key row t refl) refl

  pub held_row_other :
      (row : RawRow) (key : String)
      → (row.idempotency_key ≡ key → ⊥)
      → held_row tenant key (add_row IngestSource.ledger row db) ≡ held_row tenant key db
  unfolding add_row
  held_row_other row key other = elim (Bool-cases (has_key tenant key row)) [
    | inl h ↦ absurd (other (has_key-parts tenant key row h).1)
    | inr h ↦ rw h refl
  ]

abbrev pub add_count : ℕ → RawRow → RawRow
add_count n row = record row { duplicate_count = row.duplicate_count + n }

find_bumped :
    (tenant : ℕ) (key : String) (n : ℕ) (xs : List RawRow)
    → find (has_key tenant key) (map (bump_row tenant key n) xs)
      ≡ Option.map (add_count n) (find (has_key tenant key) xs)
unfolding bump_row
find_bumped tenant key n [] = refl
find_bumped tenant key n (x ∷ xs) = elim (Bool-cases (has_key tenant key x)) [
  | inl h ↦ rw (h, moved h) refl
  | inr h ↦ rw (h, h) (find_bumped tenant key n xs)
]
  where
    moved : has_key tenant key x ≡ true → has_key tenant key (add_count n x) ≡ true
    moved h =
        let (a, b) = has_key-parts tenant key x h in parts-has_key tenant key (add_count n x) a b

find_kept :
    (tenant : ℕ) (key other : String) (n : ℕ) (xs : List RawRow)
    → (key ≡ other → ⊥)
    → find (has_key tenant other) (map (bump_row tenant key n) xs) ≡ find (has_key tenant other) xs
unfolding bump_row
find_kept tenant key other n [] differ = refl
find_kept tenant key other n (x ∷ xs) differ = elim (Bool-cases (has_key tenant key x)) [
  | inl h ↦ rw (h, moved h, here h) (find_kept tenant key other n xs differ)
  | inr h ↦ rw h (
      ap (λ o. if has_key tenant other x then some x else o)
        (find_kept tenant key other n xs differ))
]
  where
    absent : (row : RawRow) → row.idempotency_key ≡ key → has_key tenant other row ≡ false
    absent row k = elim (Bool-cases (has_key tenant other row)) [
      | inl h ↦ absurd (differ (sym k ∙ (has_key-parts tenant other row h).1))
      | inr h ↦ h
    ]

    moved : has_key tenant key x ≡ true → has_key tenant other (add_count n x) ≡ false
    moved h = absent (add_count n x) (has_key-parts tenant key x h).1

    here : has_key tenant key x ≡ true → has_key tenant other x ≡ false
    here h = absent x (has_key-parts tenant key x h).1

module _ (tenant : ℕ) (key : String) (n : ℕ) (db : Db) where
  pub held_row_bumped :
      held_row tenant key (bump IngestSource.ledger tenant key n db)
      ≡ Option.map (add_count n) (held_row tenant key db)
  unfolding bump map_rows
  held_row_bumped = find_bumped tenant key n db.ledger_entries

  pub held_row_kept :
      (other : String)
      → (key ≡ other → ⊥)
      → held_row tenant other (bump IngestSource.ledger tenant key n db) ≡ held_row tenant other db
  unfolding bump map_rows
  held_row_kept other differ = find_kept tenant key other n db.ledger_entries differ

  pub bump-Inv :
      Inv db
      → RawInv db
      → Inv (bump IngestSource.ledger tenant key n db)
        × RawInv (bump IngestSource.ledger tenant key n db)
  bump-Inv v w = (
    Extends-Inv db _ v (bump-Extends IngestSource.ledger tenant key n db v),
    bump-RawInv IngestSource.ledger tenant key n db w,
  )
