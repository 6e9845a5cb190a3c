-- ===== src/Ingest/Batch/Firsts.antt =====
-- The keys of a batch of ingest_ledger_batch, backend/ledgerloop/services/ingest.py: one entry for
-- each, the first.
use ledger_loop.Prelude.{
  In-append, ◌⊎◌, ◌<◌, ◌≡◌, refl, sym, ap, subst, inl, inr, true, false, String, Bool, ◌||◌, arith,
  List, [], ◌∷◌, ◌++◌, In, any, any-true, Bool-cases, if◌then◌else◌, str_eq→eq, eq→str_eq,
}
use ledger_loop.Ingest.{LedgerEntryIn}
use ledger_loop.Ingest.Batch.{keyed, first_by_key, submissions_per_key}

pub keyed-eq : (k : String) (e : LedgerEntryIn) → keyed k e ≡ true → e.idempotency_key ≡ k
unfolding keyed
keyed-eq k e h = str_eq→eq e.idempotency_key k h

pub eq-keyed : (k : String) (e : LedgerEntryIn) → e.idempotency_key ≡ k → keyed k e ≡ true
unfolding keyed
eq-keyed k e h = eq→str_eq e.idempotency_key k h

-- Entries of different keys.
abbrev pub DistinctKeys : List LedgerEntryIn → Type 0
DistinctKeys [] = Unit
DistinctKeys (e ∷ es) = (any (keyed e.idempotency_key) es ≡ false) × DistinctKeys es

any-append :
    (p : LedgerEntryIn → Bool) (xs ys : List LedgerEntryIn)
    → any p (xs ++ ys) ≡ (any p xs || any p ys)
any-append p [] ys = refl
any-append p (x ∷ xs) ys = ground (arith, any-append p xs ys)

distinct-append :
    (es : List LedgerEntryIn) (e : LedgerEntryIn)
    → DistinctKeys es
    → any (keyed e.idempotency_key) es ≡ false
    → DistinctKeys (es ++ (e ∷ []))
distinct-append [] e d free = (refl, tt)
distinct-append (x ∷ xs) e d free = (
  rw (any-append (keyed x.idempotency_key) xs (e ∷ []), d.0) (last (Bool-cases _)),
  distinct-append xs e d.1 (ground (arith, free)),
)
  where
    last :
        (keyed x.idempotency_key e ≡ true) ⊎ (keyed x.idempotency_key e ≡ false)
        → any (keyed x.idempotency_key) (e ∷ []) ≡ false
    last (inl h) =
        let back = eq-keyed e.idempotency_key x (sym (keyed-eq x.idempotency_key e h)) in
        absurd (ground (arith, free, back))
    last (inr h) = rw h refl

pub first_by_key-Distinct :
    (fs es : List LedgerEntryIn) → DistinctKeys fs → DistinctKeys (first_by_key fs es)
unfolding first_by_key
first_by_key-Distinct fs [] d = d
first_by_key-Distinct fs (e ∷ es) d = elim (Bool-cases (any (keyed e.idempotency_key) fs)) [
  | inl h ↦ rw h (first_by_key-Distinct fs es d)
  | inr h ↦ rw h (first_by_key-Distinct (fs ++ (e ∷ [])) es (distinct-append fs e d h))
]

first_by_key-keeps :
    (k : String) (fs es : List LedgerEntryIn)
    → any (keyed k) fs ≡ true
    → any (keyed k) (first_by_key fs es) ≡ true
unfolding first_by_key
first_by_key-keeps k fs [] h = h
first_by_key-keeps k fs (e ∷ es) h = elim (Bool-cases (any (keyed e.idempotency_key) fs)) [
  | inl q ↦ rw q (first_by_key-keeps k fs es h)
  | inr q ↦
      rw q
        (first_by_key-keeps k (fs ++ (e ∷ [])) es (rw (any-append (keyed k) fs (e ∷ []), h) refl))
]

pub first_by_key-In :
    (fs es : List LedgerEntryIn) (e : LedgerEntryIn)
    → In e es
    → any (keyed e.idempotency_key) (first_by_key fs es) ≡ true
unfolding first_by_key
first_by_key-In fs [] e h = elim h [ ]
first_by_key-In fs (x ∷ xs) e (inr m) =
    first_by_key-In (if any (keyed x.idempotency_key) fs then fs else fs ++ (x ∷ [])) xs e m
first_by_key-In fs (x ∷ xs) e (inl q) = elim (Bool-cases (any (keyed x.idempotency_key) fs)) [
  | inl h ↦ rw h (
      first_by_key-keeps e.idempotency_key fs xs
        (subst (λ (t : LedgerEntryIn). any (keyed t.idempotency_key) fs ≡ true) q h))
  | inr h ↦ rw h (
      first_by_key-keeps e.idempotency_key (fs ++ (x ∷ [])) xs (
        any-true (keyed e.idempotency_key) x (fs ++ (x ∷ [])) (at_end fs)
          (eq-keyed e.idempotency_key x (ap (λ (t : LedgerEntryIn). t.idempotency_key) q))))
]
  where
    at_end : (ys : List LedgerEntryIn) → In x (ys ++ (x ∷ []))
    at_end [] = inl refl
    at_end (y ∷ ys) = inr (at_end ys)

pub first_by_key_absent :
    (k : String) (fs es : List LedgerEntryIn)
    → any (keyed k) fs ≡ false
    → any (keyed k) es ≡ false
    → any (keyed k) (first_by_key fs es) ≡ false
unfolding first_by_key
first_by_key_absent k fs [] h q = h
first_by_key_absent k fs (e ∷ es) h q = elim (Bool-cases (any (keyed e.idempotency_key) fs)) [
  | inl p ↦ rw p (first_by_key_absent k fs es h (ground (arith, q)))
  | inr p ↦ rw p (
      first_by_key_absent k (fs ++ (e ∷ [])) es
        (rw (any-append (keyed k) fs (e ∷ []), h) (ground (arith, q))) (ground (arith, q)))
]

pub submissions_per_key-pos :
    (es : List LedgerEntryIn) (e : LedgerEntryIn)
    → In e es
    → 0 < submissions_per_key es e.idempotency_key
unfolding submissions_per_key
submissions_per_key-pos [] e h = elim h [ ]
submissions_per_key-pos (x ∷ xs) e (inl q) =
    let here = eq-keyed e.idempotency_key x (ap (λ (t : LedgerEntryIn). t.idempotency_key) q) in
    ground (arith, here)
submissions_per_key-pos (x ∷ xs) e (inr m) = ground (arith, submissions_per_key-pos xs e m)

pub first_by_key-from :
    (fs es : List LedgerEntryIn) (e : LedgerEntryIn) → In e (first_by_key fs es) → In e fs ⊎ In e es
unfolding first_by_key
first_by_key-from fs [] e h = inl h
first_by_key-from fs (x ∷ xs) e h = elim (Bool-cases (any (keyed x.idempotency_key) fs)) [
  | inl q ↦ later (first_by_key-from fs xs e (rw q at h))
  | inr q ↦ elim (first_by_key-from (fs ++ (x ∷ [])) xs e (rw q at h)) [
    | inl m ↦ elim (In-append e fs (x ∷ []) m) [
      | inl n ↦ inl n
      | inr (inl p) ↦ inr (inl p)
      | inr (inr n) ↦ elim n [ ]
    ]
    | inr m ↦ inr (inr m)
  ]
]
  where
    later : In e fs ⊎ In e xs → In e fs ⊎ In e (x ∷ xs)
    later (inl m) = inl m
    later (inr m) = inr (inr m)
