-- ===== src/Ingest/Batch/Dicts.antt =====
-- The dictionaries of ingest_ledger_batch, backend/ledgerloop/services/ingest.py, read key by key.
use ledger_loop.Prelude.{
  ℕ, ◌≡◌, refl, ◌∙◌, subst, inl, inr, none, some, true, false, String, arith, List, [], ◌∷◌, ◌++◌,
  any, Bool-cases, Option-cases, Option, ltb, if◌then◌else◌, str_eq, str_eq→eq, eq→str_eq, is_some,
}
use ledger_loop.Ingest.{LedgerEntryIn}
use ledger_loop.Ingest.Batch.{Dict, get, setdefault, keyed, counted, increment, increments}
use ledger_loop.Ingest.Batch.Firsts.{keyed-eq, eq-keyed, DistinctKeys}

pub get-here : (k : String) (v : ℕ) (d : Dict) → get k ((k, v) ∷ d) ≡ some v
unfolding get
get-here k v d = rw (eq→str_eq k k refl) refl

pub get-there : (k j : String) (v : ℕ) (d : Dict) → (j ≡ k → ⊥) → get k ((j, v) ∷ d) ≡ get k d
unfolding get
get-there k j v d differ = elim (Bool-cases (str_eq j k)) [
  | inl h ↦ absurd (differ (str_eq→eq j k h))
  | inr h ↦ rw h refl
]

pub counted-some : (k : String) (d : Dict) (n : ℕ) → get k d ≡ some n → counted k d ≡ n
unfolding counted
counted-some k d n e = rw (e, counted) refl

pub counted-none : (k : String) (d : Dict) → get k d ≡ none → counted k d ≡ 0
unfolding counted
counted-none k d e = rw (e, counted) refl

get-append :
    (k : String) (d : Dict) (j : String) (v : ℕ)
    → get k (d ++ ((j, v) ∷ []))
      ≡ (elim (get k d) as (λ o. Option ℕ) [ some i ↦ some i | none ↦ get k ((j, v) ∷ []) ])
unfolding get
get-append k [] j v = refl
get-append k ((i, w) ∷ d) j v = elim (Bool-cases (str_eq i k)) [
  | inl h ↦ rw h refl
  | inr h ↦ rw h (get-append k d j v)
]

pub setdefault_held :
    (k j : String) (i v : ℕ) (d : Dict) → get k d ≡ some i → get k (setdefault j v d) ≡ some i
unfolding setdefault
setdefault_held k j i v d e = elim (Bool-cases (is_some (get j d))) [
  | inl h ↦ rw h e
  | inr h ↦ rw (h, get-append k d j v, e) refl
]

pub setdefault_free :
    (k : String) (v : ℕ) (d : Dict) → get k d ≡ none → get k (setdefault k v d) ≡ some v
unfolding setdefault
setdefault_free k v d e = rw (e, get-append k d k v, e) (get-here k v [])

pub setdefault_other :
    (k j : String) (v : ℕ) (d : Dict) → (j ≡ k → ⊥) → get k (setdefault j v d) ≡ get k d
unfolding setdefault get
setdefault_other k j v d differ = elim (Bool-cases (is_some (get j d))) [
  | inl h ↦ rw h refl
  | inr h ↦ elim (Option-cases (get k d)) [
    | inl e ↦ rw (h, get-append k d j v, e) (get-there k j v [] differ ∙ missing)
    | inr (i, e) ↦ rw (h, get-append k d j v, e) refl
  ]
]
  where
    missing : get k [] ≡ none
    missing = refl

-- The items of a dictionary that holds positive numbers.
abbrev pub positive : ℕ → Option ℕ
positive n = if ltb 0 n then some n else none

module _ (entries : List LedgerEntryIn) (inserted : Dict) (k : String) where
  pub increments_absent :
      (fs : List LedgerEntryIn)
      → any (keyed k) fs ≡ false
      → get k (increments entries inserted fs) ≡ none
  unfolding increments get
  increments_absent [] h = refl
  increments_absent (f ∷ fs) h =
      elim (Bool-cases (ltb 0 (increment entries inserted f.idempotency_key))) [
        | inl p ↦ rw p (
            get-there k f.idempotency_key _ (increments entries inserted fs) differ
            ∙ increments_absent fs (ground (arith, h)))
        | inr p ↦ rw p (increments_absent fs (ground (arith, h)))
      ]
    where
      differ : f.idempotency_key ≡ k → ⊥
      differ e = let q = eq-keyed k f e in ground (arith, h, q)

  pub increments_present :
      (fs : List LedgerEntryIn)
      → DistinctKeys fs
      → any (keyed k) fs ≡ true
      → get k (increments entries inserted fs) ≡ positive (increment entries inserted k)
  unfolding increments
  increments_present [] d h = absurd (ground (arith, h))
  increments_present (f ∷ fs) d h = elim (Bool-cases (keyed k f)) [
    | inl q ↦ here (keyed-eq k f q)
    | inr q ↦ elim (Bool-cases (ltb 0 (increment entries inserted f.idempotency_key))) [
      | inl p ↦ rw p (
          get-there k f.idempotency_key _ (increments entries inserted fs)
            (λ e. let r = eq-keyed k f e in ground (arith, q, r))
          ∙ increments_present fs d.1 (ground (arith, h, q)))
      | inr p ↦ rw p (increments_present fs d.1 (ground (arith, h, q)))
    ]
  ]
    where
      here :
          f.idempotency_key ≡ k
          → get k (increments entries inserted (f ∷ fs)) ≡ positive (increment entries inserted k)
      here e = elim (Bool-cases (ltb 0 (increment entries inserted k))) [
        | inl p ↦ rw (e, p) (get-here k (increment entries inserted k) _)
        | inr p ↦ rw (e, p) (increments_absent fs (subst (λ j. any (keyed j) fs ≡ false) e d.0))
      ]
