-- ===== src/Ingest/Rows.antt =====
-- The raw tables under the statements of backend/ledgerloop/services/ingest.py.
use ledger_loop.Prelude.{
  Falling, Falling-lt, ℕ, ◌<◌, ◌≡◌, List, refl, sym, ap, ◌∙◌, subst, ◌⊎◌, inl, inr, none, true,
  false, String, arith, In, any, any-true, str_eq→eq, eq→str_eq,
}
use ledger_loop.Enums.{IngestSource}
use ledger_loop.Store.{RawRow, Db, table}
use ledger_loop.Persist.Invariant.{Inv}
use ledger_loop.Ingest.{next_raw, add_row, has_key}
use ledger_loop.Ingest.Extends.{Extends}

-- The rows of a table, newest first, by falling ids below a bound.
abbrev pub Descending : ℕ → List RawRow → Type 0
Descending n rows = Falling (λ (r : RawRow). r.id) n rows

-- The identity columns are ahead of the rows, and UNIQUE (tenant_id, idempotency_key).
pub record RawInv (db : Db) : Type 0 where
  pub descending : (side : IngestSource) → Descending (next_raw side db) (table side db)
  pub one_row :
      (side : IngestSource) (a b : RawRow)
      → In a (table side db)
      → In b (table side db)
      → a.tenant_id ≡ b.tenant_id
      → a.idempotency_key ≡ b.idempotency_key
      → a ≡ b

pub below :
    {db : Db}
    → RawInv db
    → (side : IngestSource) (row : RawRow) → In row (table side db)
    → row.id < next_raw side db
below {db} w side row h =
    Falling-lt (λ (r : RawRow). r.id) (next_raw side db) row (table side db) (w.descending side) h

pub has_key-parts :
    (t : ℕ) (k : String) (row : RawRow)
    → has_key t k row ≡ true
    → (row.tenant_id ≡ t) × (row.idempotency_key ≡ k)
unfolding has_key
has_key-parts t k row h = (ground arith, str_eq→eq row.idempotency_key k (ground arith))

pub parts-has_key :
    (t : ℕ) (k : String) (row : RawRow)
    → row.tenant_id ≡ t
    → row.idempotency_key ≡ k
    → has_key t k row ≡ true
unfolding has_key
parts-has_key t k row a b = let e = eq→str_eq row.idempotency_key k b in ground (arith, a, e)

-- INSERT

pub add_row_cases :
    (s side : IngestSource) (row x : RawRow) (db : Db)
    → In x (table side (add_row s row db))
    → ((s ≡ side) × (row ≡ x)) ⊎ In x (table side db)
unfolding add_row
add_row_cases IngestSource.gateway IngestSource.gateway row x db (inl e) = inl (refl, e)
add_row_cases IngestSource.gateway IngestSource.gateway row x db (inr m) = inr m
add_row_cases IngestSource.gateway IngestSource.ledger row x db m = inr m
add_row_cases IngestSource.ledger IngestSource.ledger row x db (inl e) = inl (refl, e)
add_row_cases IngestSource.ledger IngestSource.ledger row x db (inr m) = inr m
add_row_cases IngestSource.ledger IngestSource.gateway row x db m = inr m

pub add_row-In :
    (s side : IngestSource) (row x : RawRow) (db : Db)
    → In x (table side db)
    → In x (table side (add_row s row db))
unfolding add_row
add_row-In IngestSource.gateway IngestSource.gateway row x db m = inr m
add_row-In IngestSource.gateway IngestSource.ledger row x db m = m
add_row-In IngestSource.ledger IngestSource.ledger row x db m = inr m
add_row-In IngestSource.ledger IngestSource.gateway row x db m = m

add_row-Descending :
    (s side : IngestSource) (row : RawRow) (db : Db)
    → row.id ≡ next_raw s db
    → Descending (next_raw side db) (table side db)
    → Descending (next_raw side (add_row s row db)) (table side (add_row s row db))
unfolding add_row
add_row-Descending IngestSource.gateway IngestSource.gateway row db e d =
    (omega (arith, e), subst (λ n. Descending n db.gateway_transactions) (sym e) d)
add_row-Descending IngestSource.gateway IngestSource.ledger row db e d = d
add_row-Descending IngestSource.ledger IngestSource.ledger row db e d =
    (omega (arith, e), subst (λ n. Descending n db.ledger_entries) (sym e) d)
add_row-Descending IngestSource.ledger IngestSource.gateway row db e d = d

results-add_row :
    (s : IngestSource) (row : RawRow) (db : Db)
    → ((add_row s row db).results ≡ db.results)
      × ((add_row s row db).exceptions ≡ db.exceptions)
      × ((add_row s row db).next_result ≡ db.next_result)
unfolding add_row
results-add_row IngestSource.gateway row db = (refl, refl, refl)
results-add_row IngestSource.ledger row db = (refl, refl, refl)

module _ (s : IngestSource) (row : RawRow) (db : Db) (next : row.id ≡ next_raw s db) where
  fresh_id : (w : RawInv db) (old : RawRow) → In old (table s db) → old.id ≡ row.id → ⊥
  fresh_id w old h e = omega (arith, below w s old h, next, e)

  add_row-keys :
      (side : IngestSource) (a b : RawRow)
      → Inv db
      → RawInv db
      → In a (table side (add_row s row db))
      → In b (table side (add_row s row db))
      → a.id ≡ b.id
      → a ≡ b
  add_row-keys side a b v w ha hb e = elim (add_row_cases s side row a db ha) [
    | inl (q, p) ↦ elim (add_row_cases s side row b db hb) [
      | inl (_, r) ↦ sym p ∙ r
      | inr m ↦ absurd (
          fresh_id w b (subst (λ t. In b (table t db)) (sym q) m)
            (sym e ∙ sym (ap (λ (t : RawRow). t.id) p)))
    ]
    | inr m ↦ elim (add_row_cases s side row b db hb) [
      | inl (q, r) ↦ absurd (
          fresh_id w a (subst (λ t. In a (table t db)) (sym q) m)
            (e ∙ sym (ap (λ (t : RawRow). t.id) r)))
      | inr n ↦ v.raw_keys side a b m n e
    ]
  ]

  pub add_row-Extends :
      Inv db → RawInv db → row.reconciled_at ≡ none → Extends db (add_row s row db)
  add_row-Extends v w pending = record {
    results = (results-add_row s row db).0;
    exceptions = (results-add_row s row db).1;
    next_result = (results-add_row s row db).2;
    origin = λ side x h. elim (add_row_cases s side row x db h) [
      | inl (q, p) ↦ inr (record {
        pending = ap (λ (t : RawRow). t.reconciled_at) (sym p) ∙ pending;
        fresh = λ old there e.
            fresh_id w old (subst (λ t. In old (table t db)) (sym q) there)
              (e ∙ sym (ap (λ (t : RawRow). t.id) p));
      })
      | inr m ↦ inl (record { old = x; stored = m; same_id = refl; same_mark = refl })
    ];
    image = λ side x h. record {
      row = x;
      stored = add_row-In s side row x db h;
      key = refl;
      owner = refl;
    };
    keys = λ side a b ha hb e. add_row-keys side a b v w ha hb e;
  }

  pub add_row-RawInv :
      RawInv db
      → any (has_key row.tenant_id row.idempotency_key) (table s db) ≡ false
      → RawInv (add_row s row db)
  add_row-RawInv w free = record {
    descending = λ side. add_row-Descending s side row db next (w.descending side);
    one_row = λ side a b ha hb et ek. elim (add_row_cases s side row a db ha) [
      | inl (q, p) ↦ elim (add_row_cases s side row b db hb) [
        | inl (_, r) ↦ sym p ∙ r
        | inr m ↦ absurd (
            taken b (subst (λ t. In b (table t db)) (sym q) m)
              (sym et ∙ ap (λ (t : RawRow). t.tenant_id) (sym p))
              (sym ek ∙ ap (λ (t : RawRow). t.idempotency_key) (sym p)))
      ]
      | inr m ↦ elim (add_row_cases s side row b db hb) [
        | inl (q, r) ↦ absurd (
            taken a (subst (λ t. In a (table t db)) (sym q) m)
              (et ∙ ap (λ (t : RawRow). t.tenant_id) (sym r))
              (ek ∙ ap (λ (t : RawRow). t.idempotency_key) (sym r)))
        | inr n ↦ w.one_row side a b m n et ek
      ]
    ];
  }
    where
      taken :
          (b : RawRow)
          → In b (table s db)
          → b.tenant_id ≡ row.tenant_id
          → b.idempotency_key ≡ row.idempotency_key
          → ⊥
      taken b m et ek = cc (
        free,
        any-true (has_key row.tenant_id row.idempotency_key) b (table s db) m
            (parts-has_key row.tenant_id row.idempotency_key b et ek),
      )
