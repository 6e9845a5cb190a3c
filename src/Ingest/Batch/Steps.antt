-- ===== src/Ingest/Batch/Steps.antt =====
-- The statements of ingest_ledger_batch, backend/ledgerloop/services/ingest.py: what the INSERT
-- makes of one idempotency key.
use ledger_loop.Prelude.{
  ℕ, ◌≡◌, refl, sym, ap, ◌∙◌, subst, ◌⊎◌, inl, inr, none, some, true, false, String, arith, List,
  [], ◌∷◌, any, Bool-cases, Option-cases, Option,
}
use ledger_loop.Enums.{IngestSource}
use ledger_loop.Store.{RawRow, Db}
use ledger_loop.Persist.Invariant.{Inv}
use ledger_loop.Ingest.{LedgerEntryIn, add_row}
use ledger_loop.Ingest.Rows.{RawInv}
use ledger_loop.Ingest.Batch.{Dict, get, ledger_values, keyed, returning, insert_ledger}
use ledger_loop.Ingest.Batch.View.{
  held_row, insert_held, insert_free, add_row-Inv, held_row_added, held_row_other,
}
use ledger_loop.Ingest.Batch.Dicts.{get-here, get-there}
use ledger_loop.Ingest.Batch.Firsts.{keyed-eq, eq-keyed, DistinctKeys}

module _ (now tenant : ℕ) where
  abbrev added : LedgerEntryIn → Db → Db
  added e db = add_row IngestSource.ledger (ledger_values now tenant e db.next_ledger) db

  abbrev stepped : LedgerEntryIn → List LedgerEntryIn → Option ℕ × Db → Dict × Db
  stepped e es (row_id, db) = (
    returning e.idempotency_key row_id (insert_ledger now tenant es db).0,
    (insert_ledger now tenant es db).1,
  )

  insert_ledger_held :
      (e : LedgerEntryIn) (es : List LedgerEntryIn) (db : Db) (old : RawRow)
      → held_row tenant e.idempotency_key db ≡ some old
      → insert_ledger now tenant (e ∷ es) db ≡ insert_ledger now tenant es db
  unfolding insert_ledger returning
  insert_ledger_held e es db old h =
      ap (stepped e es)
        (insert_held tenant db (ledger_values now tenant e db.next_ledger) old refl h)

  insert_ledger_free :
      (e : LedgerEntryIn) (es : List LedgerEntryIn) (db : Db)
      → held_row tenant e.idempotency_key db ≡ none
      → insert_ledger now tenant (e ∷ es) db ≡ (
        (e.idempotency_key, db.next_ledger) ∷ (insert_ledger now tenant es (added e db)).0,
        (insert_ledger now tenant es (added e db)).1,
      )
  unfolding insert_ledger returning
  insert_ledger_free e es db h =
      ap (stepped e es) (insert_free tenant db (ledger_values now tenant e db.next_ledger) refl h)

  pub insert_ledger-Inv :
      (es : List LedgerEntryIn) (db : Db)
      → Inv db
      → RawInv db
      → Inv (insert_ledger now tenant es db).1 × RawInv (insert_ledger now tenant es db).1
  unfolding insert_ledger
  insert_ledger-Inv [] db v w = (v, w)
  insert_ledger-Inv (e ∷ es) db v w = elim (Option-cases (held_row tenant e.idempotency_key db)) [
    | inl h ↦
        let (v', w') =
          add_row-Inv tenant db (ledger_values now tenant e db.next_ledger) v w refl refl refl h in
        subst (λ (t : Dict × Db). Inv t.1 × RawInv t.1) (sym (insert_ledger_free e es db h))
          (insert_ledger-Inv es (added e db) v' w')
    | inr (old, h) ↦
        subst (λ (t : Dict × Db). Inv t.1 × RawInv t.1) (sym (insert_ledger_held e es db old h))
          (insert_ledger-Inv es db v w)
  ]

  -- A key that the INSERT does not name, or that is held already.
  abbrev Untouched : String → Db → Dict × Db → Type 0
  Untouched k db (d, db') = (held_row tenant k db' ≡ held_row tenant k db) × (get k d ≡ none)

  Untouched-free :
      (k : String) (e : LedgerEntryIn) (es : List LedgerEntryIn) (db : Db)
      → held_row tenant e.idempotency_key db ≡ none
      → (e.idempotency_key ≡ k → ⊥)
      → Untouched k (added e db) (insert_ledger now tenant es (added e db))
      → Untouched k db (insert_ledger now tenant (e ∷ es) db)
  Untouched-free k e es db h differ (same, absent) =
      subst (Untouched k db) (sym (insert_ledger_free e es db h)) (
        same ∙ held_row_other tenant db (ledger_values now tenant e db.next_ledger) k differ,
        get-there k e.idempotency_key db.next_ledger _ differ ∙ absent,
      )

  pub insert_ledger_absent :
      (k : String) (es : List LedgerEntryIn) (db : Db)
      → any (keyed k) es ≡ false
      → Untouched k db (insert_ledger now tenant es db)
  unfolding insert_ledger get
  insert_ledger_absent k [] db h = (refl, refl)
  insert_ledger_absent k (e ∷ es) db h =
      elim (Option-cases (held_row tenant e.idempotency_key db)) [
        | inl q ↦
            Untouched-free k e es db q (λ r. let x = eq-keyed k e r in ground (arith, h, x))
              (insert_ledger_absent k es (added e db) (ground (arith, h)))
        | inr (old, q) ↦
            subst (Untouched k db) (sym (insert_ledger_held e es db old q))
              (insert_ledger_absent k es db (ground (arith, h)))
      ]

  pub insert_ledger_known :
      (k : String) (es : List LedgerEntryIn) (db : Db) (row : RawRow)
      → held_row tenant k db ≡ some row
      → Untouched k db (insert_ledger now tenant es db)
  unfolding insert_ledger get
  insert_ledger_known k [] db row h = (refl, refl)
  insert_ledger_known k (e ∷ es) db row h =
      elim (Option-cases (held_row tenant e.idempotency_key db)) [
        | inl q ↦
            let differ : e.idempotency_key ≡ k → ⊥ =
              λ r. cc (h, subst (λ j. held_row tenant j db ≡ none) r q) in
            Untouched-free k e es db q differ (
              insert_ledger_known k es (added e db) row
                (held_row_other tenant db (ledger_values now tenant e db.next_ledger) k differ ∙ h))
        | inr (old, q) ↦
            subst (Untouched k db) (sym (insert_ledger_held e es db old q))
              (insert_ledger_known k es db row h)
      ]

  -- A key that the INSERT stores.
  pub record StoredAs (k : String) (d : Dict) (db : Db) : Type 0 where
    pub row : RawRow
    pub found : held_row tenant k db ≡ some row
    pub count : row.duplicate_count ≡ 0
    pub listed : get k d ≡ some row.id

  pub insert_ledger_new :
      (k : String) (es : List LedgerEntryIn) (db : Db)
      → DistinctKeys es
      → any (keyed k) es ≡ true
      → held_row tenant k db ≡ none
      → StoredAs k (insert_ledger now tenant es db).0 (insert_ledger now tenant es db).1
  insert_ledger_new k [] db d h free = absurd (ground (arith, h))
  insert_ledger_new k (e ∷ es) db d h free = elim (Bool-cases (keyed k e)) [
    | inl q ↦ here (keyed-eq k e q)
    | inr q ↦
        there q (λ db' a b. insert_ledger_new k es db' d.1 a b)
          (Option-cases (held_row tenant e.idempotency_key db))
  ]
    where
      here :
          e.idempotency_key ≡ k
          → StoredAs k
              (insert_ledger now tenant (e ∷ es) db).0
              (insert_ledger now tenant (e ∷ es) db).1
      here r =
          let row = ledger_values now tenant e db.next_ledger in
          let absent = insert_ledger_absent e.idempotency_key es (added e db) d.0 in
          subst (λ (t : Dict × Db). StoredAs k t.0 t.1)
            (sym
              (insert_ledger_free e es db (subst (λ j. held_row tenant j db ≡ none) (sym r) free)))
            (subst
              (λ j.
                StoredAs j
                  ((e.idempotency_key, db.next_ledger)
                    ∷ (insert_ledger now tenant es (added e db)).0)
                  (insert_ledger now tenant es (added e db)).1)
              r
              (record {
                row = row;
                found = absent.0 ∙ held_row_added tenant db row refl;
                count = refl;
                listed = get-here e.idempotency_key db.next_ledger _;
              }))

      there :
          keyed k e ≡ false
          → ((db' : Db)
              → any (keyed k) es ≡ true
              → held_row tenant k db' ≡ none
              → StoredAs k (insert_ledger now tenant es db').0 (insert_ledger now tenant es db').1)
          → ((held_row tenant e.idempotency_key db ≡ none)
              ⊎ ((a : RawRow) × (held_row tenant e.idempotency_key db ≡ some a)))
          → StoredAs k
              (insert_ledger now tenant (e ∷ es) db).0
              (insert_ledger now tenant (e ∷ es) db).1
      there q more (inl u) =
          let differ : e.idempotency_key ≡ k → ⊥ =
            λ r. let x = eq-keyed k e r in ground (arith, q, x) in
          let rest = more (added e db) (ground (arith, h, q)) (
            held_row_other tenant db (ledger_values now tenant e db.next_ledger) k differ ∙ free) in
          subst (λ (t : Dict × Db). StoredAs k t.0 t.1) (sym (insert_ledger_free e es db u))
            (record {
              row = rest.row;
              found = rest.found;
              count = rest.count;
              listed = get-there k e.idempotency_key db.next_ledger _ differ ∙ rest.listed;
            })
      there q more (inr (old, u)) =
          subst (λ (t : Dict × Db). StoredAs k t.0 t.1) (sym (insert_ledger_held e es db old u))
            (more db (ground (arith, h, q)) free)
