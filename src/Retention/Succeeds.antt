-- ===== src/Retention/Succeeds.antt =====
-- sweep_demo_accounts of backend/ledgerloop/worker/sweeper.py never fails on a foreign key, deletes
-- the accounts it chose with all their rows, and leaves every other tenant's rows.
use ledger_loop.Prelude.{
  ℕ, ◌≡◌, refl, sym, ap, ◌∙◌, subst, inl, inr, none, some, true, false, arith, Bool, not, Option,
  List, [], ◌∷◌, In, any, any-witness, filter, Bool-cases, ◌==◌, ◌&&◌,
}
use ledger_loop.Enums.{IngestSource}
use ledger_loop.Store.{RawRow, ReconciliationResult, ExceptionRow, Db, table, side_id, same_id}
use ledger_loop.Persist.Invariant.{Inv}
use ledger_loop.Tenancy.{Account, ApiKey, WebhookSource, Tables}
use ledger_loop.Retention.{
  delete_exceptions, delete_results, refers, keep_rows, delete_rows, owns, delete_account, erase,
}
use ledger_loop.Retention.Erase.{without, without-In, Left}

any-false {ℓ} :
    {A : Type ℓ} (p : A → Bool) (xs : List A)
    → ((a : A) → In a xs → p a ≡ true → ⊥)
    → any p xs ≡ false
any-false p xs never = elim (Bool-cases (any p xs)) [
  | inl e ↦ let (a, there, h) = any-witness p xs e in absurd (never a there h)
  | inr e ↦ e
]

filter-all {ℓ} :
    {A : Type ℓ} (p : A → Bool) (xs : List A) → ((a : A) → In a xs → p a ≡ true) → filter p xs ≡ xs
filter-all p [] all = refl
filter-all p (x ∷ xs) all =
    rw (all x (inl refl)) (ap (x ∷◌) (filter-all p xs (λ a h. all a (inr h))))

none_owned :
    {A : Type 0} (tenant : A → ℕ) (account : ℕ) (xs : List A)
    → any (λ a. tenant a == account) (without tenant account xs) ≡ false
none_owned tenant account xs =
    any-false (λ a. tenant a == account) (without tenant account xs)
      λ a h e. (without-In tenant account a xs h).1 (ground (arith, e))

module _ (account : ℕ) (db : Db) (v : Inv db) where
  abbrev emptied : Db
  emptied = delete_results account (delete_exceptions account db)

  -- No result that is left refers to a row of the account.
  refers-false :
      (side : IngestSource) (x : Db)
      → x.results ≡ without (λ (r : ReconciliationResult). r.tenant_id) account db.results
      → table side x ≡ table side db
      → refers account side x ≡ false
  unfolding refers
  refers-false side x results rows = any-false _ (table side x) λ row h e.
      let (r, there, k) =
        any-witness (λ (t : ReconciliationResult). same_id (side_id side t) (some row.id)) x.results
          (ground (arith, e)) in
      let (stored, differ) =
        without-In (λ (t : ReconciliationResult). t.tenant_id) account r db.results
          (subst (In r) results there) in
      let at = v.referenced side r row.id stored (pointed (side_id side r) row.id k) in
      let same = v.raw_keys side at.row row at.stored (subst (In row) rows h) at.key in
      differ (sym at.owner ∙ ap (λ (t : RawRow). t.tenant_id) same ∙ ground (arith, e))
    where
      pointed : (o : Option ℕ) (i : ℕ) → same_id o (some i) ≡ true → o ≡ some i
      pointed none i k = absurd (ground (arith, k))
      pointed (some j) i k = ground (arith, k)

  -- The cascade finds nothing that is not deleted already.
  cascade :
      filter
        (λ (e : ExceptionRow). not (
          any
            (λ (r : ReconciliationResult).
              (r.tenant_id == account) && (r.id == e.reconciliation_result_id))
            db.results))
        (without (λ (e : ExceptionRow). e.tenant_id) account db.exceptions)
      ≡ without (λ (e : ExceptionRow). e.tenant_id) account db.exceptions
  cascade = filter-all _ _ λ e h.
      let (there, differ) =
        without-In (λ (t : ExceptionRow). t.tenant_id) account e db.exceptions h in
      let c = v.justified e there in
      ap not (
        any-false _ db.results λ r hr k.
          let same = v.result_keys r c.result hr c.stored (ground (arith, k, c.key)) in
          differ (
            sym c.owner
            ∙ ap (λ (t : ReconciliationResult). t.tenant_id) (sym same)
            ∙ ground (arith, k)))

  abbrev pub remains : Db
  remains = keep_rows account IngestSource.ledger (keep_rows account IngestSource.gateway emptied)

  pub remains-Left : Left account db remains
  unfolding delete_results delete_exceptions
  remains-Left = record { rows = rows; results = refl; exceptions = cascade; next_result = refl }
    where
      rows :
          (side : IngestSource)
          → table side remains ≡ without (λ (r : RawRow). r.tenant_id) account (table side db)
      rows IngestSource.gateway = refl
      rows IngestSource.ledger = refl

  owns-false : owns account remains ≡ false
  unfolding owns delete_results delete_exceptions
  owns-false =
      rw
        (
          none_owned (λ (r : RawRow). r.tenant_id) account db.gateway_transactions,
          none_owned (λ (r : RawRow). r.tenant_id) account db.ledger_entries,
          none_owned (λ (r : ReconciliationResult). r.tenant_id) account db.results,
          cascade,
          none_owned (λ (e : ExceptionRow). e.tenant_id) account db.exceptions,
        )
        refl

  abbrev pub tables_left : Tables → Tables
  tables_left t = record t {
    accounts = filter (λ (a : Account). not (a.id == account)) t.accounts;
    api_keys = filter (λ (k : ApiKey). not (k.account_id == account)) t.api_keys;
    webhook_sources =
        filter (λ (s : WebhookSource). not (s.account_id == account)) t.webhook_sources;
  }

  emptied_rows :
      (emptied.gateway_transactions ≡ db.gateway_transactions)
      × (emptied.ledger_entries ≡ db.ledger_entries)
  unfolding delete_results delete_exceptions
  emptied_rows = (refl, refl)

  pub erase-remains : (t : Tables) → erase account t db ≡ some (tables_left t, remains)
  unfolding erase delete_rows delete_account
  erase-remains t =
      rw
        (
          erase,
          delete_rows,
          refers-false IngestSource.gateway emptied kept_results kept_gateway,
          refers-false IngestSource.ledger (keep_rows account IngestSource.gateway emptied)
              kept_results_2 kept_ledger,
          delete_account,
          owns-false,
        )
        refl
    where
      kept_results :
          emptied.results ≡ without (λ (r : ReconciliationResult). r.tenant_id) account db.results
      kept_results = remains-Left.results

      kept_results_2 :
          (keep_rows account IngestSource.gateway emptied).results
          ≡ without (λ (r : ReconciliationResult). r.tenant_id) account db.results
      kept_results_2 = remains-Left.results

      kept_gateway : table IngestSource.gateway emptied ≡ table IngestSource.gateway db
      kept_gateway = emptied_rows.0

      kept_ledger :
          table IngestSource.ledger (keep_rows account IngestSource.gateway emptied)
          ≡ table IngestSource.ledger db
      kept_ledger = emptied_rows.1
