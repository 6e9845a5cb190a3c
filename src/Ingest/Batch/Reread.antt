-- ===== src/Ingest/Batch/Reread.antt =====
-- The second read of ingest_ledger_batch, backend/ledgerloop/services/ingest.py: what it tells of one
-- idempotency key.
use ledger_loop.Prelude.{
  ℕ, ◌≡◌, refl, sym, ap, ◌∙◌, subst, ◌⊎◌, inl, inr, none, some, String, arith, List, [], ◌∷◌, In,
  Bool-cases, str_eq, str_eq→eq, eq→str_eq,
}
use ledger_loop.Store.{RawRow}
use ledger_loop.Ingest.Batch.{Dict, get, setdefault, reread}
use ledger_loop.Ingest.Batch.Dicts.{
  get-here, get-there, setdefault_held, setdefault_free, setdefault_other,
}

module _ (k : String) where
  reread-keeps :
      (rows : List RawRow) (inserted counts : Dict) (i : ℕ)
      → get k inserted ≡ some i
      → get k (reread rows inserted counts).0 ≡ some i
  unfolding reread
  reread-keeps [] inserted counts i h = h
  reread-keeps (r ∷ rs) inserted counts i h =
      reread-keeps rs _ ((r.idempotency_key, r.duplicate_count) ∷ counts) i
        (setdefault_held k r.idempotency_key i r.id inserted h)

  pub reread_absent :
      (rows : List RawRow) (inserted counts : Dict)
      → ((r : RawRow) → In r rows → r.idempotency_key ≡ k → ⊥)
      → (get k (reread rows inserted counts).0 ≡ get k inserted)
        × (get k (reread rows inserted counts).1 ≡ get k counts)
  unfolding reread
  reread_absent [] inserted counts none_of = (refl, refl)
  reread_absent (r ∷ rs) inserted counts none_of =
      let differ = none_of r (inl refl) in
      let (a, b) =
        reread_absent rs (setdefault r.idempotency_key r.id inserted)
          ((r.idempotency_key, r.duplicate_count) ∷ counts) (λ x h e. none_of x (inr h) e) in
      (
        a ∙ setdefault_other k r.idempotency_key r.id inserted differ,
        b ∙ get-there k r.idempotency_key r.duplicate_count counts differ,
      )

  module _ (row : RawRow) (own : row.idempotency_key ≡ k) where
    abbrev OnlyRow : List RawRow → Type 0
    OnlyRow rows = (r : RawRow) → In r rows → r.idempotency_key ≡ k → r ≡ row

    counts_step :
        (r : RawRow) (counts : Dict)
        → (r.idempotency_key ≡ k → r ≡ row)
        → get k counts ≡ some row.duplicate_count
        → get k ((r.idempotency_key, r.duplicate_count) ∷ counts) ≡ some row.duplicate_count
    counts_step r counts only h = elim (Bool-cases (str_eq r.idempotency_key k)) [
      | inl e ↦ counts_head r counts (only (str_eq→eq r.idempotency_key k e))
      | inr e ↦
          get-there k r.idempotency_key r.duplicate_count counts
            (λ q. let x = eq→str_eq r.idempotency_key k q in ground (arith, e, x))
          ∙ h
    ]
      where
        counts_head :
            (r : RawRow) (counts : Dict)
            → r ≡ row
            → get k ((r.idempotency_key, r.duplicate_count) ∷ counts) ≡ some row.duplicate_count
        counts_head r counts e =
            subst
              (λ (t : RawRow).
                get k ((t.idempotency_key, t.duplicate_count) ∷ counts) ≡ some row.duplicate_count)
              (sym e)
              (subst (λ j. get k ((j, row.duplicate_count) ∷ counts) ≡ some row.duplicate_count)
                (sym own) (get-here k row.duplicate_count counts))

    reread-counts_kept :
        (rows : List RawRow) (inserted counts : Dict)
        → OnlyRow rows
        → get k counts ≡ some row.duplicate_count
        → get k (reread rows inserted counts).1 ≡ some row.duplicate_count
    unfolding reread
    reread-counts_kept [] inserted counts only h = h
    reread-counts_kept (r ∷ rs) inserted counts only h =
        reread-counts_kept rs (setdefault r.idempotency_key r.id inserted) _
          (λ x m e. only x (inr m) e) (counts_step r counts (only r (inl refl)) h)

    pub reread-counts :
        (rows : List RawRow) (inserted counts : Dict)
        → OnlyRow rows
        → In row rows
        → get k (reread rows inserted counts).1 ≡ some row.duplicate_count
    unfolding reread
    reread-counts [] inserted counts only h = elim h [ ]
    reread-counts (r ∷ rs) inserted counts only (inr m) =
        reread-counts rs (setdefault r.idempotency_key r.id inserted)
          ((r.idempotency_key, r.duplicate_count) ∷ counts) (λ x n e. only x (inr n) e) m
    reread-counts (r ∷ rs) inserted counts only (inl q) =
        reread-counts_kept rs (setdefault r.idempotency_key r.id inserted) _
          (λ x n e. only x (inr n) e)
          (subst
            (λ (t : RawRow).
              get k ((t.idempotency_key, t.duplicate_count) ∷ counts) ≡ some row.duplicate_count)
            (sym q)
            (subst (λ j. get k ((j, row.duplicate_count) ∷ counts) ≡ some row.duplicate_count)
              (sym own) (get-here k row.duplicate_count counts)))

    reread-new :
        (rows : List RawRow) (inserted counts : Dict)
        → OnlyRow rows
        → In row rows
        → get k inserted ≡ none
        → get k (reread rows inserted counts).0 ≡ some row.id
    unfolding reread
    reread-new [] inserted counts only h e = elim h [ ]
    reread-new (r ∷ rs) inserted counts only h e = elim (Bool-cases (str_eq r.idempotency_key k)) [
      | inl q ↦
          let same = only r (inl refl) (str_eq→eq r.idempotency_key k q) in
          reread-keeps rs (setdefault r.idempotency_key r.id inserted)
            ((r.idempotency_key, r.duplicate_count) ∷ counts) row.id
            (subst
              (λ (t : RawRow). get k (setdefault t.idempotency_key t.id inserted) ≡ some row.id)
              (sym same)
              (subst (λ j. get k (setdefault j row.id inserted) ≡ some row.id) (sym own)
                (setdefault_free k row.id inserted e)))
      | inr q ↦
          let differ : r.idempotency_key ≡ k → ⊥ =
            λ p. let x = eq→str_eq r.idempotency_key k p in ground (arith, q, x) in
          reread-new rs (setdefault r.idempotency_key r.id inserted)
            ((r.idempotency_key, r.duplicate_count) ∷ counts) (λ x n p. only x (inr n) p)
            (elsewhere r differ h) (setdefault_other k r.idempotency_key r.id inserted differ ∙ e)
    ]
      where
        elsewhere : (r : RawRow) → (r.idempotency_key ≡ k → ⊥) → In row (r ∷ rs) → In row rs
        elsewhere r differ (inl p) =
            absurd (differ (ap (λ (t : RawRow). t.idempotency_key) p ∙ own))
        elsewhere r differ (inr m) = m

    pub reread-listed :
        (rows : List RawRow) (inserted counts : Dict)
        → OnlyRow rows
        → In row rows
        → (get k inserted ≡ none) ⊎ (get k inserted ≡ some row.id)
        → get k (reread rows inserted counts).0 ≡ some row.id
    reread-listed rows inserted counts only h (inr e) = reread-keeps rows inserted counts row.id e
    reread-listed rows inserted counts only h (inl e) = reread-new rows inserted counts only h e
