-- ===== src/Queries/Pages.antt =====
-- fetch_results_page and fetch_exceptions_page of backend/ledgerloop/services/queries.py as pages of
-- the account's rows.
use ledger_loop.Prelude.{
  ℕ, suc, ◌+◌, ◌≤◌, ◌<◌, ◌≡◌, refl, sym, ap, ◌∙◌, inl, inr, Bool, Option, none, some, List, [], ◌∷◌,
  map, arith, Bool-cases, Option-cases, length, take, filter, filter_map, ℤ, Falling,
  Falling-filter, ◌==◌, find,
}
use ledger_loop.Enums.{ReconStatus}
use ledger_loop.Store.{ReconciliationResult, ExceptionRow, Db}
use ledger_loop.Tenancy.{Tenant}
use ledger_loop.Queries.{
  Loaded, load, before, apply_keyset, cut_page, result_wanted, result_key, fetch_results_page,
  CaseStatus, case_wanted, with_result, case_key, fetch_exceptions_page,
}
use ledger_loop.Queries.Keyset.{page, order_desc-Falling, cut_page-map}
use ledger_loop.Queries.Feeds.{Feeds}

keyset_rows {ℓ} :
    {A : Type ℓ} (key : A → ℕ) (n limit : ℕ) (cursor : Option ℤ) (rows : List A)
    → Falling key n rows
    → apply_keyset key cursor limit rows ≡ take (limit + 1) (filter (before key cursor) rows)
unfolding apply_keyset
keyset_rows key n limit cursor rows fall = ap (take (limit + 1)) (
    order_desc-Falling key n (filter (before key cursor) rows)
      (Falling-filter key (before key cursor) n n rows (omega arith) fall))

before_all {ℓ} : {A : Type ℓ} (key : A → ℕ) (rows : List A) → filter (before key none) rows ≡ rows
before_all key [] = refl
before_all key (x ∷ xs) = ap (λ t. x ∷ t) (before_all key xs)

length-filter_le {ℓ} :
    {A : Type ℓ} (p : A → Bool) (rows : List A) → length (filter p rows) ≤ length rows
length-filter_le p [] = omega arith
length-filter_le p (x ∷ xs) = elim (Bool-cases (p x)) [
  | inl e ↦ rw e (omega (arith, length-filter_le p xs))
  | inr e ↦ rw e (omega (arith, length-filter_le p xs))
]

module _ (tenant : Tenant) (status : Option ReconStatus) (k : ℕ) (db : Db) (v : Feeds db) where
  abbrev feed_rows : List ReconciliationResult
  feed_rows = filter (result_wanted tenant status) db.results

  pub feed_rows-Falling : Falling (λ (r : ReconciliationResult). r.id) db.next_result feed_rows
  feed_rows-Falling =
      Falling-filter (λ (r : ReconciliationResult). r.id) (result_wanted tenant status)
        db.next_result db.next_result db.results (omega arith) v.results

  -- A page of the feed is a page of the account's results.
  pub fetch_results_page-page :
      (cursor : Option ℤ)
      → let key = λ (r : ReconciliationResult). r.id in
        let p = page key (suc k) (filter (before key cursor) feed_rows) in
        fetch_results_page tenant status (suc k) cursor db ≡ (map (load db) p.0, p.1)
  unfolding fetch_results_page
  fetch_results_page-page cursor =
      let key = λ (r : ReconciliationResult). r.id in
      ap (λ xs. cut_page result_key (suc k) (map (load db) xs))
        (keyset_rows key db.next_result (suc k) cursor feed_rows feed_rows-Falling)
      ∙ cut_page-map (load db) key result_key k _ (λ r. refl)

  pub length-feed_rows : length feed_rows < length db.results + 1
  length-feed_rows = omega (arith, length-filter_le (result_wanted tenant status) db.results)

module _ (db : Db) where
  with_result_key :
      (e : ExceptionRow) (p : ExceptionRow × Loaded) → with_result db e ≡ some p → case_key p ≡ e.id
  unfolding with_result
  with_result_key e p h =
      elim (Option-cases
        (find (λ (r : ReconciliationResult). r.id == e.reconciliation_result_id) db.results)) [
          | inl q ↦ absurd (cc (rw q at h))
          | inr (r, q) ↦ ground (arith, rw q at h)
        ]

  Falling-joined :
      (n m : ℕ) (es : List ExceptionRow)
      → n < m + 1
      → Falling (λ (e : ExceptionRow). e.id) n es
      → Falling case_key m (filter_map (with_result db) es)
  Falling-joined n m [] le d = tt
  Falling-joined n m (e ∷ es) le d = elim (Option-cases (with_result db e)) [
    | inl q ↦ rw (Falling, q) (Falling-joined e.id m es (omega (arith, d.0, le)) d.1)
    | inr (p, q) ↦
        rw (Falling, q)
          ((
            omega (arith, d.0, le, with_result_key e p q),
            Falling-joined e.id (case_key p) es (omega (arith, with_result_key e p q)) d.1,
          ))
  ]

  length-joined : (es : List ExceptionRow) → length (filter_map (with_result db) es) ≤ length es
  length-joined [] = omega arith
  length-joined (e ∷ es) = elim (Option-cases (with_result db e)) [
    | inl q ↦ rw (length, q) (omega (arith, length-joined es))
    | inr (p, q) ↦ rw (length, q) (omega (arith, length-joined es))
  ]

pub map_id {ℓ} : {A : Type ℓ} (xs : List A) → map (λ (x : A). x) xs ≡ xs
map_id [] = refl
map_id (x ∷ xs) = ap (λ t. x ∷ t) (map_id xs)

module _ (tenant : Tenant) (status : Option CaseStatus) (k : ℕ) (db : Db) (v : Feeds db) where
  abbrev queue_rows : List (ExceptionRow × Loaded)
  queue_rows = filter_map (with_result db) (filter (case_wanted tenant status) db.exceptions)

  pub queue_rows-Falling : Falling case_key db.next_exception queue_rows
  queue_rows-Falling =
      Falling-joined db db.next_exception db.next_exception
        (filter (case_wanted tenant status) db.exceptions) (omega arith)
        (Falling-filter (λ (e : ExceptionRow). e.id) (case_wanted tenant status) db.next_exception
          db.next_exception db.exceptions (omega arith) v.cases)

  -- A page of the queue is a page of the account's cases.
  pub fetch_exceptions_page-page :
      (cursor : Option ℤ)
      → let p = page case_key (suc k) (filter (before case_key cursor) queue_rows) in
        fetch_exceptions_page tenant status (suc k) cursor db ≡ (map (λ p. p) p.0, p.1)
  unfolding fetch_exceptions_page
  fetch_exceptions_page-page cursor =
      ap (cut_page case_key (suc k))
        (keyset_rows case_key db.next_exception (suc k) cursor queue_rows queue_rows-Falling)
      ∙ sym (
          ap (λ ys. (ys, (page case_key (suc k) (filter (before case_key cursor) queue_rows)).1))
            (map_id _))

  pub length-queue_rows : length queue_rows < length db.exceptions + 1
  length-queue_rows = omega (
    arith,
    length-joined db (filter (case_wanted tenant status) db.exceptions),
    length-filter_le (case_wanted tenant status) db.exceptions,
  )
