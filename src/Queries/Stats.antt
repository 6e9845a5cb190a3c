-- ===== src/Queries/Stats.antt =====
-- The counts of fetch_stats in backend/ledgerloop/services/queries.py: each result of the window is in
-- one bucket.
use ledger_loop.Prelude.{
  ℕ, ◌+◌, ◌≤◌, ◌≡◌, refl, inl, inr, Bool, true, Option, List, [], ◌∷◌, arith, length, filter,
  Bool-cases, In, In-filter,
}
use ledger_loop.Enums.{ReconStatus}
use ledger_loop.Store.{ReconciliationResult, Db}
use ledger_loop.Coherence.{coherent, Coherent}
use ledger_loop.Tenancy.{Tenant}
use ledger_loop.Queries.{
  same_status, WindowName, unmatched_statuses, drift_statuses, is_time_drift, count_where,
  in_window, fetch_stats,
}

abbrev matched_rows : List ReconciliationResult → ℕ
matched_rows = count_where (λ (x : ReconciliationResult). same_status x.status ReconStatus.matched)

abbrev unmatched_rows : List ReconciliationResult → ℕ
unmatched_rows = count_where (λ (x : ReconciliationResult). unmatched_statuses x.status)

abbrev gateway_rows : List ReconciliationResult → ℕ
gateway_rows =
    count_where
      (λ (x : ReconciliationResult). same_status x.status ReconStatus.unmatched_gateway_only)

abbrev ledger_rows : List ReconciliationResult → ℕ
ledger_rows =
    count_where
      (λ (x : ReconciliationResult). same_status x.status ReconStatus.unmatched_ledger_only)

abbrev drift_rows : List ReconciliationResult → ℕ
drift_rows = count_where (λ (x : ReconciliationResult). drift_statuses x.status)

abbrev duplicate_rows : List ReconciliationResult → ℕ
duplicate_rows =
    count_where (λ (x : ReconciliationResult). same_status x.status ReconStatus.duplicate)

abbrev late_rows : List ReconciliationResult → ℕ
late_rows = count_where (λ (x : ReconciliationResult). is_time_drift x.match_layer)

count_cons {ℓ} :
    {A : Type ℓ} (p : A → Bool) (x : A) (xs : List A)
    → count_where p (x ∷ xs) ≡ count_where p (x ∷ []) + count_where p xs
count_cons p x xs = elim (Bool-cases (p x)) [
  | inl e ↦ rw (length, e) (omega arith)
  | inr e ↦ rw (length, e) (omega arith)
]

one_bucket :
    (r : ReconciliationResult)
    → (matched_rows (r ∷ [])
          + unmatched_rows (r ∷ [])
          + drift_rows (r ∷ [])
          + duplicate_rows (r ∷ [])
        ≡ 1)
      × (gateway_rows (r ∷ []) + ledger_rows (r ∷ []) ≡ unmatched_rows (r ∷ []))
one_bucket r = (ground arith, ground arith)

buckets :
    (rows : List ReconciliationResult)
    → (matched_rows rows + unmatched_rows rows + drift_rows rows + duplicate_rows rows
        ≡ length rows)
      × (gateway_rows rows + ledger_rows rows ≡ unmatched_rows rows)
buckets [] = (omega arith, omega arith)
buckets (r ∷ rs) =
    let (whole, split) = buckets rs in
    let (one, sides) = one_bucket r in
    let m =
      count_cons (λ (x : ReconciliationResult). same_status x.status ReconStatus.matched) r rs in
    let u = count_cons (λ (x : ReconciliationResult). unmatched_statuses x.status) r rs in
    let d = count_cons (λ (x : ReconciliationResult). drift_statuses x.status) r rs in
    let c =
      count_cons (λ (x : ReconciliationResult). same_status x.status ReconStatus.duplicate) r rs in
    let g =
      count_cons
        (λ (x : ReconciliationResult). same_status x.status ReconStatus.unmatched_gateway_only) r
        rs in
    let l =
      count_cons
        (λ (x : ReconciliationResult). same_status x.status ReconStatus.unmatched_ledger_only) r
        rs in
    (omega (arith, whole, one, m, u, d, c), omega (arith, split, sides, u, g, l))

late_matched :
    (r : ReconciliationResult)
    → coherent r.status r.match_layer ≡ true
    → late_rows (r ∷ []) ≤ matched_rows (r ∷ [])
late_matched r h = ground (arith, h)

late_le :
    (rows : List ReconciliationResult)
    → ((r : ReconciliationResult) → In r rows → coherent r.status r.match_layer ≡ true)
    → late_rows rows ≤ matched_rows rows
late_le [] h = omega arith
late_le (r ∷ rs) h =
    let rec = late_le rs (λ x m. h x (inr m)) in
    let one = late_matched r (h r (inl refl)) in
    let l = count_cons (λ (x : ReconciliationResult). is_time_drift x.match_layer) r rs in
    let m =
      count_cons (λ (x : ReconciliationResult). same_status x.status ReconStatus.matched) r rs in
    omega (arith, rec, one, l, m)

-- Every result of the account in the window is counted in exactly one of matched, unmatched, drift and
-- duplicates, the two unmatched sides add up to unmatched, and the matches that needed the fuzzy-time
-- layer are part of the matched ones; given that each stored result has the status of its layer
-- (Coherent).
pub fetch_stats_buckets :
    {F : Type 0} (percentile_cont : ℕ → List ℕ → Option F) (now : ℕ) (tenant : Tenant)
    (window : WindowName) (db : Db)
    → Coherent db
    → let s = fetch_stats percentile_cont now tenant window db in
      (s.matched + s.unmatched + s.drift + s.duplicates
        ≡ length (filter (in_window now tenant window) db.results))
      × (s.unmatched_gateway + s.unmatched_ledger ≡ s.unmatched)
      × (s.via_time_drift ≤ s.matched)
unfolding fetch_stats
fetch_stats_buckets percentile_cont now tenant window db v =
    let rows = filter (in_window now tenant window) db.results in
    let (whole, sides) = buckets rows in
    (
      whole,
      sides,
      late_le rows (λ r m. v r (In-filter (in_window now tenant window) r db.results m).0),
    )
