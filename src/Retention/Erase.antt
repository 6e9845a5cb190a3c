-- ===== src/Retention/Erase.antt =====
-- One account's deletion in backend/ledgerloop/worker/sweeper.py: no foreign key refuses it, and what
-- is left is well formed.
use ledger_loop.Prelude.{
  ℕ, ◌<◌, ◌≡◌, sym, ap, ◌∙◌, subst, ◌⊎◌, inl, inr, some, true, false, arith, not, List, In, filter,
  In-filter, filter-In, Bool-cases, ◌==◌, is_some,
}
use ledger_loop.Enums.{IngestSource, exception_statuses}
use ledger_loop.Store.{RawRow, ReconciliationResult, ExceptionRow, Db, table, side_id}
use ledger_loop.Persist.Invariant.{RowAt, SettledBy, CaseFor, OpenedFor, Inv}

-- Who owns what is left.
abbrev pub without {ℓ} : {A : Type ℓ} → (A → ℕ) → ℕ → List A → List A
without tenant account xs = filter (λ x. not (tenant x == account)) xs

pub without-In :
    {A : Type 0} (tenant : A → ℕ) (account : ℕ) (a : A) (xs : List A)
    → In a (without tenant account xs)
    → In a xs × (tenant a ≡ account → ⊥)
without-In tenant account a xs h =
    let (there, p) = In-filter (λ x. not (tenant x == account)) a xs h in
    (there, λ e. ground (arith, p, e))

pub In-without :
    {A : Type 0} (tenant : A → ℕ) (account : ℕ) (a : A) (xs : List A)
    → In a xs
    → (tenant a ≡ account → ⊥)
    → In a (without tenant account xs)
In-without tenant account a xs h differ =
    filter-In (λ x. not (tenant x == account)) a xs h (other (Bool-cases (tenant a == account)))
  where
    other :
        ((tenant a == account) ≡ true) ⊎ ((tenant a == account) ≡ false)
        → not (tenant a == account) ≡ true
    other (inl e) = absurd (differ (ground (arith, e)))
    other (inr e) = ap not e

-- What is left of a store without a tenant.
pub record Left (account : ℕ) (db db' : Db) : Type 0 where
  pub rows :
      (side : IngestSource)
      → table side db' ≡ without (λ (r : RawRow). r.tenant_id) account (table side db)
  pub results : db'.results ≡ without (λ (r : ReconciliationResult). r.tenant_id) account db.results
  pub exceptions :
      db'.exceptions ≡ without (λ (e : ExceptionRow). e.tenant_id) account db.exceptions
  pub next_result : db'.next_result ≡ db.next_result

module _ (account : ℕ) (db db' : Db) (v : Inv db) (l : Left account db db') where
  row_before :
      (side : IngestSource) (r : RawRow)
      → In r (table side db')
      → In r (table side db) × (r.tenant_id ≡ account → ⊥)
  row_before side r h =
      without-In (λ (x : RawRow). x.tenant_id) account r (table side db)
        (subst (In r) (l.rows side) h)

  row_after :
      (side : IngestSource) (r : RawRow)
      → In r (table side db)
      → (r.tenant_id ≡ account → ⊥)
      → In r (table side db')
  row_after side r h d =
      subst (In r) (sym (l.rows side))
        (In-without (λ (x : RawRow). x.tenant_id) account r (table side db) h d)

  result_before :
      (r : ReconciliationResult) → In r db'.results → In r db.results × (r.tenant_id ≡ account → ⊥)
  result_before r h =
      without-In (λ (x : ReconciliationResult). x.tenant_id) account r db.results
        (subst (In r) l.results h)

  result_after :
      (r : ReconciliationResult) → In r db.results → (r.tenant_id ≡ account → ⊥) → In r db'.results
  result_after r h d =
      subst (In r) (sym l.results)
        (In-without (λ (x : ReconciliationResult). x.tenant_id) account r db.results h d)

  case_before :
      (e : ExceptionRow) → In e db'.exceptions → In e db.exceptions × (e.tenant_id ≡ account → ⊥)
  case_before e h =
      without-In (λ (x : ExceptionRow). x.tenant_id) account e db.exceptions
        (subst (In e) l.exceptions h)

  referenced-Left :
      (side : IngestSource) (r : ReconciliationResult) (i : ℕ)
      → In r db'.results
      → side_id side r ≡ some i
      → RowAt db' side i r.tenant_id
  referenced-Left side r i h e =
      let (there, differ) = result_before r h in
      let at = v.referenced side r i there e in
      record {
        row = at.row;
        stored = row_after side at.row at.stored (λ q. differ (sym at.owner ∙ q));
        key = at.key;
        owner = at.owner;
      }

  resolved-Left :
      (side : IngestSource) (row : RawRow)
      → In row (table side db')
      → is_some row.reconciled_at ≡ true
      → SettledBy db' side row.id
  resolved-Left side row h marked =
      let (there, differ) = row_before side row h in
      let s = v.resolved side row there marked in
      let at = v.referenced side s.result row.id s.stored s.points in
      let same : at.row ≡ row = v.raw_keys side at.row row at.stored there at.key in
      record {
        result = s.result;
        stored =
            result_after s.result s.stored
              (λ q. differ (ap (λ (t : RawRow). t.tenant_id) (sym same) ∙ at.owner ∙ q));
        active = s.active;
        points = s.points;
      }

  opened-Left :
      (r : ReconciliationResult)
      → In r db'.results
      → exception_statuses r.status ≡ true
      → OpenedFor db' r
  opened-Left r h e =
      let (there, differ) = result_before r h in
      let o = v.opened r there e in
      let c = v.justified o.case o.stored in
      let same : c.result ≡ r = v.result_keys c.result r c.stored there (c.key ∙ o.key) in
      record {
        case = o.case;
        stored = subst (In o.case) (sym l.exceptions) (
            In-without (λ (x : ExceptionRow). x.tenant_id) account o.case db.exceptions o.stored
              (λ q.
                differ (ap (λ (t : ReconciliationResult). t.tenant_id) (sym same) ∙ c.owner ∙ q)));
        key = o.key;
      }

  justified-Left : (e : ExceptionRow) → In e db'.exceptions → CaseFor db' e
  justified-Left e h =
      let (there, differ) = case_before e h in
      let c = v.justified e there in
      record {
        result = c.result;
        stored = result_after c.result c.stored (λ q. differ (sym c.owner ∙ q));
        key = c.key;
        needs_human = c.needs_human;
        owner = c.owner;
      }

  pub Left-Inv : Inv db'
  Left-Inv = record {
    raw_keys =
        λ side a b ha hb e. v.raw_keys side a b (row_before side a ha).0 (row_before side b hb).0 e;
    result_below =
        λ r h. subst (λ n. r.id < n) (sym l.next_result) (v.result_below r (result_before r h).0);
    result_keys = λ r t hr ht e. v.result_keys r t (result_before r hr).0 (result_before t ht).0 e;
    referenced = referenced-Left;
    sided = λ r h. v.sided r (result_before r h).0;
    unique = λ r t hr ht e. v.unique r t (result_before r hr).0 (result_before t ht).0 e;
    settled = λ side r row hr active hrow e.
        v.settled side r row (result_before r hr).0 active (row_before side row hrow).0 e;
    resolved = resolved-Left;
    opened = opened-Left;
    justified = justified-Left;
    one_case = λ e f he hf q. v.one_case e f (case_before e he).0 (case_before f hf).0 q;
  }
