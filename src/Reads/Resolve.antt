-- ===== src/Reads/Resolve.antt =====
-- resolve_exception of backend/ledgerloop/api/routes_read.py: what the operator is answered.
use ledger_loop.Prelude.{
  ◌≤◌, ◌<◌, ◌^◌, leb, ltb, ℕ, ◌≡◌, ◌&&◌, refl, sym, ap, ◌∙◌, subst, inl, inr, String, Bool, true,
  false, Option, none, some, [], ◌∷◌, arith, ◌==◌, In, map-In, find-In, filter, filter-nil,
  filter_map, one-filter, Bool-cases, any, any-true, any-witness, is_some,
}
use ledger_loop.Store.{ReconciliationResult, ExceptionRow, Db}
use ledger_loop.Tenancy.{Tenant, first}
use ledger_loop.Persist.Invariant.{Inv}
use ledger_loop.Queries.{Loaded, load, with_result, fetch_exception, closable, close_row}
use ledger_loop.Queries.Feeds.{Feeds}
use ledger_loop.Queries.Close.{
  Falling-unique, one-some, update_row, closed_db, closed_db-Feeds, close_exception_wins,
  close_exception_loses,
}
use ledger_loop.Queries.Closing.{closed_db-Inv}
use ledger_loop.Webhooks.{Answer, answered, http_exception, plain, server_error}
use ledger_loop.Reads.{
  ExceptionOut, exception_out, refusal, found_again, opened_later, resolve_case, resolve_exception,
}

-- The WHERE clause of fetch_exception.
abbrev pub wanted : Tenant → ℕ → ExceptionRow → Bool
wanted tenant i e = (e.tenant_id == tenant.account_id) && (e.id == i)

-- The result that a case was opened for.
abbrev pub OpenedBy : Db → ExceptionRow → ReconciliationResult → Type 0
OpenedBy db e r = In r db.results × (r.id ≡ e.reconciliation_result_id)

with_result-OpenedBy :
    (db : Db) (e : ExceptionRow)
    → Inv db
    → In e db.exceptions
    → (r : ReconciliationResult) × OpenedBy db e r × (with_result db e ≡ some (e, load db r))
unfolding with_result
with_result-OpenedBy db e v h =
    let p = v.justified e h in
    let key : p.result.id == e.reconciliation_result_id ≡ true = ground (arith, p.key) in
    let (r, found, stored, same) =
      find-In (λ (x : ReconciliationResult). x.id == e.reconciliation_result_id) p.result db.results
        p.stored key in
    (r, (stored, ground (arith, same)), rw found refl)

-- A stored case of the account is found, with the result that opened it.
fetch_exception_found :
    (tenant : Tenant) (i : ℕ) (db : Db) (e : ExceptionRow)
    → Inv db
    → Feeds db
    → In e db.exceptions
    → wanted tenant i e ≡ true
    → (r : ReconciliationResult) × OpenedBy db e r
      × (fetch_exception tenant i db ≡ some (e, load db r))
unfolding fetch_exception
fetch_exception_found tenant i db e v f h w =
    let alone : filter (wanted tenant i) db.exceptions ≡ e ∷ [] = one-some e _ (
      one-filter (λ (x : ExceptionRow). x.id) (wanted tenant i) db.next_exception e db.exceptions
        f.cases
        (λ a b ha hb qa qb.
          Falling-unique (λ (x : ExceptionRow). x.id) db.next_exception a b db.exceptions f.cases ha
            hb (ground (arith, qa, qb)))
        h w) in
    let (r, opened, joined) = with_result-OpenedBy db e v h in
    (
      r,
      opened,
      ap (λ es. first (filter_map (with_result db) es)) alone ∙ rw (filter_map, first, joined) refl,
    )

fetch_exception_missing :
    (tenant : Tenant) (i : ℕ) (db : Db)
    → ((e : ExceptionRow) → In e db.exceptions → wanted tenant i e ≡ false)
    → fetch_exception tenant i db ≡ none
unfolding fetch_exception
fetch_exception_missing tenant i db h =
    ap (λ es. first (filter_map (with_result db) es)) (filter-nil (wanted tenant i) db.exceptions h)

module _ (now : ℕ) (tenant : Tenant) (i : ℕ) (notes : String) (db : Db) where
  -- The five answers to an operator, each with the state that it leaves.
  pub data Resolved : Answer ExceptionOut × Db → Type 0 where
    resolved :
        (e : ExceptionRow) (r : ReconciliationResult)
        → In e db.exceptions
        → wanted tenant i e ≡ true
        → e.closed_at ≡ none
        → e.opened_at ≤ now
        → OpenedBy db e r
        → Resolved (
          answered
              (exception_out (close_row now notes e) (load (closed_db now tenant i notes db) r)),
          closed_db now tenant i notes db,
        )
    already_closed :
        (e : ExceptionRow)
        → In e db.exceptions
        → wanted tenant i e ≡ true
        → is_some e.closed_at ≡ true
        → Resolved (http_exception 409 (plain "exception already closed"), db)
    missing :
        ((e : ExceptionRow) → In e db.exceptions → wanted tenant i e ≡ false)
        → Resolved (http_exception 404 (plain "not found"), db)
    past_bigint : 2 ^ 63 ≤ i → Resolved (server_error, db)
    refused :
        (e : ExceptionRow)
        → In e db.exceptions
        → wanted tenant i e ≡ true
        → e.closed_at ≡ none
        → now < e.opened_at
        → Resolved (server_error, db)

  lost :
      (x : Option (ExceptionRow × Loaded))
      → ((e : ExceptionRow) → In e db.exceptions → closable tenant i e ≡ false)
      → fetch_exception tenant i db ≡ x
      → resolve_case now tenant i notes db ≡ (refusal x, db)
  unfolding resolve_case
  lost x shut e = rw (resolve_case, close_exception_loses now tenant i notes db shut, e) refl

  won :
      (e : ExceptionRow) (x : ExceptionRow × Loaded)
      → Feeds db
      → In e db.exceptions
      → closable tenant i e ≡ true
      → fetch_exception tenant i (closed_db now tenant i notes db) ≡ some x
      → resolve_case now tenant i notes db
        ≡ (answered (exception_out x.0 x.1), closed_db now tenant i notes db)
  unfolding resolve_case found_again
  won e x f h c q = rw (resolve_case, close_exception_wins now tenant i notes db e f h c, q) refl

  -- A case that can be closed was opened before.
  in_order :
      (e : ExceptionRow)
      → In e db.exceptions
      → closable tenant i e ≡ true
      → opened_later now tenant i db ≡ false
      → e.opened_at ≤ now
  unfolding opened_later
  in_order e h c early = elim (Bool-cases (ltb now e.opened_at)) [
    | inl q ↦
        let late =
          any-true (λ (x : ExceptionRow). closable tenant i x && ltb now x.opened_at) e
            db.exceptions h (rw (c, q) refl) in
        absurd (cc (late, early))
    | inr q ↦ ground (arith, q)
  ]

  late_case : opened_later now tenant i db ≡ true → Resolved (server_error, db)
  unfolding opened_later
  late_case q =
      let (e, h, w) =
        any-witness (λ (x : ExceptionRow). closable tenant i x && ltb now x.opened_at) db.exceptions
          q in
      refused e h (ground (arith, w)) (ground (arith, w)) (ground (arith, w))

  case_of :
      (e : ExceptionRow)
      → Inv db
      → Feeds db
      → In e db.exceptions
      → wanted tenant i e ≡ true
      → opened_later now tenant i db ≡ false
      → Resolved (resolve_case now tenant i notes db)
  unfolding refusal
  case_of e v f h w early = elim (Bool-cases (closable tenant i e)) [
    | inl c ↦
        let update = update_row now tenant i notes in
        let written : update e ≡ close_row now notes e = rw (update_row, c) refl in
        let there =
          subst (λ x. In x (closed_db now tenant i notes db).exceptions) written
            (map-In update e db.exceptions h) in
        let (r, opened, q) =
          fetch_exception_found tenant i (closed_db now tenant i notes db) (close_row now notes e)
            (closed_db-Inv now tenant i notes db v) (closed_db-Feeds now tenant i notes db f) there
            w in
        subst Resolved (sym (won e _ f h c q))
          (resolved e r h w (ground (arith, c)) (in_order e h c early) opened)
    | inr c ↦
        let (r, opened, q) = fetch_exception_found tenant i db e v f h w in
        let shut : (x : ExceptionRow) → In x db.exceptions → closable tenant i x ≡ false = λ x hx.
          elim (Bool-cases (closable tenant i x)) [
            | inl k ↦
                let same =
                  Falling-unique (λ (y : ExceptionRow). y.id) db.next_exception x e db.exceptions
                    f.cases hx h (ground (arith, k, w)) in
                absurd (cc (sym (ap (closable tenant i) same) ∙ k, c))
            | inr k ↦ k
          ] in
        subst Resolved (sym (lost _ shut q)) (already_closed e h w (ground (arith, c, w)))
  ]

  resolve_case-Resolved :
      Inv db
      → Feeds db
      → opened_later now tenant i db ≡ false
      → Resolved (resolve_case now tenant i notes db)
  unfolding refusal
  resolve_case-Resolved v f early = elim (Bool-cases (any (wanted tenant i) db.exceptions)) [
    | inl q ↦
        let (e, h, w) = any-witness (wanted tenant i) db.exceptions q in case_of e v f h w early
    | inr q ↦
        let absent : (e : ExceptionRow) → In e db.exceptions → wanted tenant i e ≡ false = λ e h.
          elim (Bool-cases (wanted tenant i e)) [
            | inl w ↦ absurd (cc (any-true (wanted tenant i) e db.exceptions h w, q))
            | inr w ↦ w
          ] in
        let shut : (e : ExceptionRow) → In e db.exceptions → closable tenant i e ≡ false =
          λ e h. let w = absent e h in ground (arith, w) in
        subst Resolved (sym (lost none shut (fetch_exception_missing tenant i db absent)))
          (missing absent)
  ]

  -- Resolving a case has five ends and no other. The account's open case of that id: it is closed with
  -- the notes and answered, with the result that opened it. The account's case, already closed: 409. No
  -- case of that id that is the account's, another account's included: 404. Or a server error, where the
  -- id is past what a BIGINT holds, or where the account's open case of that id was opened later than
  -- now, which the table's CHECK refuses. Only the first changes anything, and the assertion after the
  -- close never fails; given a well-formed store whose ids fall (Feeds).
  pub resolve_exception-Resolved :
      Inv db → Feeds db → Resolved (resolve_exception now tenant i notes db)
  unfolding resolve_exception
  resolve_exception-Resolved v f = elim (Bool-cases (leb (2 ^ 63) i)) [
    | inl big ↦ rw (resolve_exception, big) (past_bigint (ground (arith, big)))
    | inr small ↦ elim (Bool-cases (opened_later now tenant i db)) [
      | inl late ↦ rw (resolve_exception, small, late) (late_case late)
      | inr early ↦ rw (resolve_exception, small, early) (resolve_case-Resolved v f early)
    ]
  ]
