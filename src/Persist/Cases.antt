-- ===== src/Persist/Cases.antt =====
-- The exceptions that `apply_decision` of backend/ledgerloop/worker/persist.py opens.
use ledger_loop.Prelude.{
  ℕ, ◌≡◌, refl, sym, ap, ◌∙◌, subst, ◌⊎◌, inl, inr, true, Option, String, ◌∷◌, arith, Bool-cases,
  In, if◌then◌else◌,
}
use ledger_loop.Enums.{exception_statuses}
use ledger_loop.Matching.{Decision, opens_exception}
use ledger_loop.Store.{ReconciliationResult, ExceptionRow, Db}
use ledger_loop.Persist.{Clock, exception_row}
use ledger_loop.Persist.Invariant.{CaseFor, OpenedFor, Inv}
use ledger_loop.Persist.Stored.{Stored}
use ledger_loop.Persist.Written.{
  fresh, result_cases, result_kept, fresh-In, fresh-id, fresh-tenant, fresh-status,
}

module _ (clock : Clock) (d : Decision) (tenant : ℕ) (latency : Option ℕ) (message : Option String)
    (db db' : Db) (v : Inv db) (w : Stored clock d tenant latency message db db') where
  abbrev new_case : ExceptionRow
  new_case = exception_row clock tenant db.next_result db.next_exception

  case_before :
      (e : ExceptionRow)
      → In e db'.exceptions
      → ((opens_exception d ≡ true) × (new_case ≡ e)) ⊎ In e db.exceptions
  case_before e h = elim (Bool-cases (opens_exception d)) [
    | inl b ↦
        elim (let k : In e (new_case ∷ db.exceptions) =
            subst (In e)
              (w.exceptions ∙ ap (λ t. if t then new_case ∷ db.exceptions else db.exceptions) b)
              h in
          k) [ inl q ↦ inl (b, q) | inr m ↦ inr m ]
    | inr b ↦ inr (
        subst (In e)
          (w.exceptions ∙ ap (λ t. if t then new_case ∷ db.exceptions else db.exceptions) b) h)
  ]

  case_kept : (e : ExceptionRow) → In e db.exceptions → In e db'.exceptions
  case_kept e m = elim (Bool-cases (opens_exception d)) [
    | inl b ↦
        subst (In e)
          (sym (w.exceptions ∙ ap (λ t. if t then new_case ∷ db.exceptions else db.exceptions) b))
          (inr m)
    | inr b ↦
        subst (In e)
          (sym (w.exceptions ∙ ap (λ t. if t then new_case ∷ db.exceptions else db.exceptions) b)) m
  ]

  new_case-In : opens_exception d ≡ true → In new_case db'.exceptions
  new_case-In b =
      subst (In new_case)
        (sym (w.exceptions ∙ ap (λ t. if t then new_case ∷ db.exceptions else db.exceptions) b))
        (inl refl)

  -- No case of the store before is for the new result.
  old_case_elsewhere :
      (e : ExceptionRow) → In e db.exceptions → e.reconciliation_result_id ≡ db.next_result → ⊥
  old_case_elsewhere e m q =
      let c = v.justified e m in omega (arith, v.result_below c.result c.stored, c.key)

  pub opened-after :
      (r : ReconciliationResult)
      → In r db'.results
      → exception_statuses r.status ≡ true
      → OpenedFor db' r
  opened-after r h needs = elim (result_cases w r h) [
    | inl p ↦ record {
      case = new_case;
      stored = new_case-In (
          ap exception_statuses
            (sym (fresh-status w) ∙ ap (λ (t : ReconciliationResult). t.status) p)
          ∙ needs);
      key = sym (fresh-id w) ∙ ap (λ (t : ReconciliationResult). t.id) p;
    }
    | inr m ↦
        let o = v.opened r m needs in
        record { case = o.case; stored = case_kept o.case o.stored; key = o.key }
  ]

  pub justified-after : (e : ExceptionRow) → In e db'.exceptions → CaseFor db' e
  justified-after e h = elim (case_before e h) [
    | inl (b, q) ↦ subst (CaseFor db') q (record {
      result = fresh w;
      stored = fresh-In w;
      key = fresh-id w;
      needs_human = ap exception_statuses (fresh-status w) ∙ b;
      owner = fresh-tenant w;
    })
    | inr m ↦
        let c = v.justified e m in
        record {
          result = c.result;
          stored = result_kept w c.result c.stored;
          key = c.key;
          needs_human = c.needs_human;
          owner = c.owner;
        }
  ]

  pub one_case-after :
      (e f : ExceptionRow)
      → In e db'.exceptions
      → In f db'.exceptions
      → e.reconciliation_result_id ≡ f.reconciliation_result_id
      → e ≡ f
  one_case-after e f he hf same = elim (case_before e he) [
    | inl (b, p) ↦ elim (case_before f hf) [
      | inl (c, q) ↦ sym p ∙ q
      | inr n ↦ absurd (
          old_case_elsewhere f n
            (sym same ∙ sym (ap (λ (t : ExceptionRow). t.reconciliation_result_id) p)))
    ]
    | inr m ↦ elim (case_before f hf) [
      | inl (c, q) ↦ absurd (
          old_case_elsewhere e m
            (same ∙ sym (ap (λ (t : ExceptionRow). t.reconciliation_result_id) q)))
      | inr n ↦ v.one_case e f m n same
    ]
  ]
