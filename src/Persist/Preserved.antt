-- ===== src/Persist/Preserved.antt =====
-- `apply_decision` of backend/ledgerloop/worker/persist.py keeps the store well formed.
use ledger_loop.Prelude.{
  ℕ, ◌<◌, ◌≡◌, sym, ap, ◌∙◌, subst, inl, inr, true, false, Option, some, String, arith, any,
  any-true, Bool-cases, In, is_some,
}
use ledger_loop.Enums.{IngestSource, is_active}
use ledger_loop.Matching.{Decision}
use ledger_loop.Store.{RawRow, ReconciliationResult, Db, table, side_id, violates}
use ledger_loop.Store.Indexes.{violates-Clash, Clash-violates}
use ledger_loop.Persist.{Clock, apply_decision}
use ledger_loop.Persist.Settle.{
  settle_row, settle_row-id, settle_row_marks, settle_row_keeps, settle_row_cases,
}
use ledger_loop.Persist.Invariant.{RowAt, SettledBy, Inv, Applies}
use ledger_loop.Persist.Cases.{opened-after, justified-after, one_case-after}
use ledger_loop.Persist.Written.{
  fresh, row_before, result_cases, result_kept, fresh-In, fresh-side, RowAt-after, fresh-id,
  fresh-tenant, fresh-status,
}
use ledger_loop.Persist.Stored.{new_result, Stored, apply_decision-Stored, apply_decision_conflict}

pub violates_comm : (r t : ReconciliationResult) → violates r t ≡ true → violates t r ≡ true
violates_comm r t h =
    let (side, i, c) = violates-Clash r t h in
    Clash-violates t r side i
      (record { left = c.right; right = c.left; kind = sym c.kind; tenant = sym c.tenant })

module _ (clock : Clock) (d : Decision) (tenant : ℕ) (latency : Option ℕ) (message : Option String)
    (db db' : Db) (v : Inv db) (a : Applies db d tenant)
    (free : any (violates (new_result clock d tenant latency message db)) db.results ≡ false)
    (w : Stored clock d tenant latency message db db') where
  raw_keys-after :
      (side : IngestSource) (x y : RawRow)
      → In x (table side db')
      → In y (table side db')
      → x.id ≡ y.id
      → x ≡ y
  raw_keys-after side x y hx hy e =
      let (ox, inx, qx) = row_before w side x hx in
      let (oy, iny, qy) = row_before w side y hy in
      let same : ox.id ≡ oy.id =
        sym (settle_row-id clock d side ox)
        ∙ ap (λ (t : RawRow). t.id) qx
        ∙ e
        ∙ sym (ap (λ (t : RawRow). t.id) qy)
        ∙ settle_row-id clock d side oy in
      sym qx ∙ ap (settle_row clock d side) (v.raw_keys side ox oy inx iny same) ∙ qy

  result_below-after : (r : ReconciliationResult) → In r db'.results → r.id < db'.next_result
  result_below-after r h = elim (result_cases w r h) [
    | inl e ↦ omega (arith, w.next_result, fresh-id w, ap (λ (t : ReconciliationResult). t.id) e)
    | inr m ↦ omega (arith, w.next_result, v.result_below r m)
  ]

  result_keys-after :
      (r t : ReconciliationResult) → In r db'.results → In t db'.results → r.id ≡ t.id → r ≡ t
  result_keys-after r t hr ht e = elim (result_cases w r hr) [
    | inl p ↦ elim (result_cases w t ht) [
      | inl q ↦ sym p ∙ q
      | inr n ↦
          absurd (
            omega
              (arith, v.result_below t n, fresh-id w, ap (λ (t : ReconciliationResult). t.id) p))
    ]
    | inr m ↦ elim (result_cases w t ht) [
      | inl q ↦
          absurd (
            omega
              (arith, v.result_below r m, fresh-id w, ap (λ (t : ReconciliationResult). t.id) q))
      | inr n ↦ v.result_keys r t m n e
    ]
  ]

  referenced-after :
      (side : IngestSource) (r : ReconciliationResult) (i : ℕ)
      → In r db'.results
      → side_id side r ≡ some i
      → RowAt db' side i r.tenant_id
  referenced-after side r i h e = elim (result_cases w r h) [
    | inl p ↦
        subst (RowAt db' side i)
          (sym (fresh-tenant w) ∙ ap (λ (t : ReconciliationResult). t.tenant_id) p)
          (RowAt-after w side i tenant
            (a.rows side i (sym (fresh-side w side) ∙ ap (side_id side) p ∙ e)))
    | inr m ↦ RowAt-after w side i r.tenant_id (v.referenced side r i m e)
  ]

  sided-after :
      (r : ReconciliationResult)
      → In r db'.results
      → (side : IngestSource) × (i : ℕ) × (side_id side r ≡ some i)
  sided-after r h = elim (result_cases w r h) [
    | inl p ↦
        let (side, i, e) = a.names in (side, i, sym (ap (side_id side) p) ∙ fresh-side w side ∙ e)
    | inr m ↦ v.sided r m
  ]

  free_of : (t : ReconciliationResult) → In t db.results → violates (fresh w) t ≡ true → ⊥
  free_of t n e = cc (free, any-true (violates (fresh w)) t db.results n e)

  unique-after :
      (r t : ReconciliationResult)
      → In r db'.results
      → In t db'.results
      → violates r t ≡ true
      → r ≡ t
  unique-after r t hr ht e = elim (result_cases w r hr) [
    | inl p ↦ elim (result_cases w t ht) [
      | inl q ↦ sym p ∙ q
      | inr n ↦ absurd (free_of t n (subst (λ x. violates x t ≡ true) (sym p) e))
    ]
    | inr m ↦ elim (result_cases w t ht) [
      | inl q ↦
          absurd (free_of r m (subst (λ x. violates x r ≡ true) (sym q) (violates_comm r t e)))
      | inr n ↦ v.unique r t m n e
    ]
  ]

  settled-after :
      (side : IngestSource) (r : ReconciliationResult) (row : RawRow)
      → In r db'.results
      → is_active r.status ≡ true
      → In row (table side db')
      → side_id side r ≡ some row.id
      → is_some row.reconciled_at ≡ true
  settled-after side r row hr active hrow e =
      let (old, there, q) = row_before w side row hrow in
      let same : row.id ≡ old.id =
        ap (λ (t : RawRow). t.id) (sym q) ∙ settle_row-id clock d side old in
      subst (λ (t : RawRow). is_some t.reconciled_at ≡ true) q
        (elim (result_cases w r hr) [
          | inl p ↦
              settle_row_marks clock d side old
                (ap is_active (sym (fresh-status w) ∙ ap (λ (t : ReconciliationResult). t.status) p)
                  ∙ active)
                (sym (fresh-side w side) ∙ ap (side_id side) p ∙ e ∙ ap some same)
          | inr m ↦
              settle_row_keeps clock d side old
                (v.settled side r old m active there (e ∙ ap some same))
        ])

  resolved-after :
      (side : IngestSource) (row : RawRow)
      → In row (table side db')
      → is_some row.reconciled_at ≡ true
      → SettledBy db' side row.id
  resolved-after side row hrow marked =
      let (old, there, q) = row_before w side row hrow in
      let same : old.id ≡ row.id =
        sym (settle_row-id clock d side old) ∙ ap (λ (t : RawRow). t.id) q in
      subst (SettledBy db' side) same
        (elim (settle_row_cases clock d side old
          (subst (λ (t : RawRow). is_some t.reconciled_at ≡ true) (sym q) marked)) [
            | inl before ↦
                let s = v.resolved side old there before in
                record {
                  result = s.result;
                  stored = result_kept w s.result s.stored;
                  active = s.active;
                  points = s.points;
                }
            | inr (active, named) ↦ record {
              result = fresh w;
              stored = fresh-In w;
              active = ap is_active (fresh-status w) ∙ active;
              points = fresh-side w side ∙ named;
            }
          ])

module _ (clock : Clock) (d : Decision) (tenant : ℕ) (latency : Option ℕ) (message : Option String)
    (db : Db) where
  -- Writing a decision of a tenant about the tenant's own rows keeps the store well formed, whether
  -- the INSERT meets a conflict or not: keys, foreign keys within one tenant, the unique indexes,
  -- `reconciled_at` set exactly on the rows of a result that is no duplicate marker, and one case
  -- for each result that needs a human.
  pub apply_decision-Inv :
      Inv db → Applies db d tenant → Inv (apply_decision clock d tenant latency message db).1
  apply_decision-Inv v a =
      elim (Bool-cases (any (violates (new_result clock d tenant latency message db)) db.results)) [
        | inl e ↦ rw (apply_decision_conflict clock d tenant latency message db e) v
        | inr e ↦
            let w = (apply_decision-Stored clock d tenant latency message db v e).1 in
            let db' = (apply_decision clock d tenant latency message db).1 in
            record {
              raw_keys = raw_keys-after clock d tenant latency message db db' v a e w;
              result_below = result_below-after clock d tenant latency message db db' v a e w;
              result_keys = result_keys-after clock d tenant latency message db db' v a e w;
              referenced = referenced-after clock d tenant latency message db db' v a e w;
              sided = sided-after clock d tenant latency message db db' v a e w;
              unique = unique-after clock d tenant latency message db db' v a e w;
              settled = settled-after clock d tenant latency message db db' v a e w;
              resolved = resolved-after clock d tenant latency message db db' v a e w;
              opened = opened-after clock d tenant latency message db db' v w;
              justified = justified-after clock d tenant latency message db db' v w;
              one_case = one_case-after clock d tenant latency message db db' v w;
            }
      ]
