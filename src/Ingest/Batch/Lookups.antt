-- ===== src/Ingest/Batch/Lookups.antt =====
-- The comprehensions and the last lookups of ingest_ledger_batch,
-- backend/ledgerloop/services/ingest.py.
use ledger_loop.Prelude.{
  ℕ, ◌+◌, ◌≡◌, refl, sym, ap, ◌∙◌, subst, inl, inr, none, some, true, arith, List, [], ◌∷◌, In,
  Bool-cases, Option-cases, Option, ◌==◌, is_some,
}
use ledger_loop.Enums.{IngestSource}
use ledger_loop.Store.{Db}
use ledger_loop.Ingest.{LedgerEntryIn, IngestOutcome, enqueue}
use ledger_loop.Ingest.Batch.{Dict, get, outcome_of, each, by_key, answer, respond, counted}

-- Two lists in step.
abbrev pub Zipped {ℓ} :
    {A : Type ℓ} → (LedgerEntryIn → A → Type 0) → List LedgerEntryIn → List A → Type 0
Zipped P [] [] = Unit
Zipped P (e ∷ es) (a ∷ bs) = P e a × Zipped P es bs
Zipped P _ _ = ⊥

module _ {ℓ} {A : Type ℓ} where
  pub Zipped-In :
      (P : LedgerEntryIn → A → Type 0) (es : List LedgerEntryIn) (bs : List A) (e : LedgerEntryIn)
      → Zipped P es bs
      → In e es
      → (a : A) × In a bs × P e a
  Zipped-In P [] bs e z h = elim h [ ]
  Zipped-In P (x ∷ es) [] e z h = elim z [ ]
  Zipped-In P (x ∷ es) (a ∷ bs) e z (inl q) = (a, inl refl, subst (λ t. P t a) q z.0)
  Zipped-In P (x ∷ es) (a ∷ bs) e z (inr m) =
      let (b, there, p) = Zipped-In P es bs e z.1 m in (b, inr there, p)

  pub Zipped-from :
      (P : LedgerEntryIn → A → Type 0) (es : List LedgerEntryIn) (bs : List A) (a : A)
      → Zipped P es bs
      → In a bs
      → (e : LedgerEntryIn) × In e es × P e a
  Zipped-from P es [] a z h = elim h [ ]
  Zipped-from P [] (b ∷ bs) a z h = elim z [ ]
  Zipped-from P (e ∷ es) (b ∷ bs) a z (inl q) = (e, inl refl, subst (P e) q z.0)
  Zipped-from P (e ∷ es) (b ∷ bs) a z (inr m) =
      let (x, there, p) = Zipped-from P es bs a z.1 m in (x, inr there, p)

  -- A comprehension whose elements all have values has a value.
  pub each-all :
      (P : LedgerEntryIn → A → Type 0) (f : LedgerEntryIn → Option A) (es : List LedgerEntryIn)
      → ((e : LedgerEntryIn) → In e es → (a : A) × (f e ≡ some a) × P e a)
      → (bs : List A) × (each f es ≡ some bs) × Zipped P es bs
  unfolding each
  each-all P f [] all = ([], refl, tt)
  each-all P f (e ∷ es) all =
      let (a, q, p) = all e (inl refl) in
      let (bs, r, z) = each-all P f es (λ x h. all x (inr h)) in
      (a ∷ bs, rw (each, q, r) refl, (p, z))

by_key-found :
    (os : List IngestOutcome) (i : ℕ) (o : IngestOutcome)
    → by_key os i ≡ some o
    → In o os × (o.row_id ≡ i)
unfolding by_key
by_key-found [] i o e = absurd (ground (arith, e))
by_key-found (x ∷ xs) i o e = elim (Option-cases (by_key xs i)) [
  | inr (y, q) ↦
      let (there, r) = by_key-found xs i y q in
      let same : y ≡ o = ground (arith, e, q) in
      (inr (subst (λ t. In t xs) same there), ap (λ (t : IngestOutcome). t.row_id) (sym same) ∙ r)
  | inl q ↦ elim (Bool-cases (x.row_id == i)) [
    | inl h ↦
        let same : x ≡ o = ground (arith, e, q, h) in
        (inl same, ap (λ (t : IngestOutcome). t.row_id) (sym same) ∙ ground (arith, h))
    | inr h ↦ absurd (ground (arith, e, q, h))
  ]
]

by_key-none :
    (os : List IngestOutcome) (o : IngestOutcome) → In o os → by_key os o.row_id ≡ none → ⊥
unfolding by_key
by_key-none [] o h e = elim h [ ]
by_key-none (x ∷ xs) o (inl q) e = ground (arith, q, e)
by_key-none (x ∷ xs) o (inr m) e = by_key-none xs o m (ground (arith, e))

pub by_key-some :
    (os : List IngestOutcome) (o : IngestOutcome)
    → In o os
    → (found : IngestOutcome) × (by_key os o.row_id ≡ some found)
      × In found os
      × (found.row_id ≡ o.row_id)
unfolding by_key
by_key-some [] o h = elim h [ ]
by_key-some (x ∷ xs) o h = elim (Option-cases (by_key xs o.row_id)) [
  | inr (y, e) ↦ let (there, q) = by_key-found xs o.row_id y e in (y, rw e refl, inr there, q)
  | inl e ↦ first e h
]
  where
    first :
        by_key xs o.row_id ≡ none
        → In o (x ∷ xs)
        → (found : IngestOutcome) × (by_key (x ∷ xs) o.row_id ≡ some found)
          × In found (x ∷ xs)
          × (found.row_id ≡ o.row_id)
    first e (inl q) =
        let same : (x.row_id == o.row_id) ≡ true = ground (arith, q) in
        (x, rw (e, same) refl, inl refl, ap (λ (t : IngestOutcome). t.row_id) q)
    first e (inr m) = absurd (by_key-none xs o m e)

pub outcome_of_listed :
    (inserted counts its : Dict) (f : LedgerEntryIn) (i : ℕ)
    → get f.idempotency_key inserted ≡ some i
    → outcome_of inserted counts its f
      ≡ some (record {
        row_id = i;
        txn_id = f.txn_id;
        duplicate = is_some (get f.idempotency_key its);
        submissions = counted f.idempotency_key counts + 1;
      })
unfolding outcome_of
outcome_of_listed inserted counts its f i e = rw (outcome_of, e) refl

pub answer_listed :
    (inserted : Dict) (os : List IngestOutcome) (e : LedgerEntryIn) (i : ℕ)
    → get e.idempotency_key inserted ≡ some i
    → answer inserted os e ≡ by_key os i
unfolding answer
answer_listed inserted os e i h = rw (answer, h) refl

pub respond_listed :
    (entries : List LedgerEntryIn) (inserted : Dict) (os bs : List IngestOutcome) (db : Db)
    → each (answer inserted os) entries ≡ some bs
    → respond entries inserted (some os) db ≡ some (bs, enqueue IngestSource.ledger os db)
unfolding respond
respond_listed entries inserted os bs db e = rw (respond, e) refl

pub Zipped-map :
    {P Q : LedgerEntryIn → IngestOutcome → Type 0} (es : List LedgerEntryIn)
    (os : List IngestOutcome)
    → ((e : LedgerEntryIn) (o : IngestOutcome) → P e o → Q e o)
    → Zipped P es os
    → Zipped Q es os
Zipped-map [] [] f z = tt
Zipped-map (e ∷ es) (o ∷ os) f z = (f e o z.0, Zipped-map es os f z.1)
Zipped-map [] (o ∷ os) f z = z
Zipped-map (e ∷ es) [] f z = z
