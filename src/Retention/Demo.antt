-- ===== src/Retention/Demo.antt =====
-- The whole run of sweep_demo_accounts, backend/ledgerloop/worker/sweeper.py.
use ledger_loop.Prelude.{
  ℕ, ◌+◌, ◌<◌, ◌≡◌, refl, sym, ap, ◌∙◌, subst, ◌⊎◌, inl, inr, some, true, arith, List, [], ◌∷◌, In,
  In-take, In-filter, Bool-cases, ltb, length,
}
use ledger_loop.Enums.{IngestSource, AccountKind}
use ledger_loop.Store.{RawRow, ReconciliationResult, ExceptionRow, Db, table}
use ledger_loop.Persist.Invariant.{Inv}
use ledger_loop.Tenancy.{Account, ApiKey, WebhookSource, Tables, is_demo}
use ledger_loop.Tenancy.Directory.{DirectoryInv, Falling-same}
use ledger_loop.Retention.{
  erase, erase_all, insert_by_last_seen, order_by_last_seen, idle_demo_accounts,
  sweep_demo_accounts,
}
use ledger_loop.Retention.Erase.{without, without-In, In-without, Left-Inv}
use ledger_loop.Retention.Succeeds.{remains, remains-Left, tables_left, erase-remains}

-- An account is among those.
abbrev pub Among : ℕ → List Account → Type 0
Among i doomed = (a : Account) × In a doomed × (i ≡ a.id)

-- What is left of a list without what those accounts own, and nothing else.
abbrev pub Rid : {A : Type 0} → (A → ℕ) → List Account → List A → List A → Type 0
Rid {A} owner doomed xs xs' =
    (x : A)
    → (In x xs' → In x xs × (Among (owner x) doomed → ⊥))
      × (In x xs → (Among (owner x) doomed → ⊥) → In x xs')

Rid-nil : {A : Type 0} (owner : A → ℕ) (xs : List A) → Rid owner [] xs xs
Rid-nil owner xs x = (λ h. (h, λ among. elim among.1 [ ]), λ h n. h)

Rid-cons :
    {A : Type 0} (owner : A → ℕ) (a : Account) (rest : List Account) (xs mid xs' : List A)
    → mid ≡ without owner a.id xs
    → Rid owner rest mid xs'
    → Rid owner (a ∷ rest) xs xs'
Rid-cons {A} owner a rest xs mid xs' e r x = (forth, back)
  where
    forth : In x xs' → In x xs × (Among (owner x) (a ∷ rest) → ⊥)
    forth h =
        let (left, differ) = (r x).0 h in
        let (there, other) = without-In owner a.id x xs (subst (In x) e left) in
        (there, λ among. neither differ other among)
      where
        neither : (Among (owner x) rest → ⊥) → (owner x ≡ a.id → ⊥) → Among (owner x) (a ∷ rest) → ⊥
        neither differ other (b, inl p, q) = other (q ∙ ap (λ (z : Account). z.id) (sym p))
        neither differ other (b, inr m, q) = differ (b, m, q)

    back : In x xs → (Among (owner x) (a ∷ rest) → ⊥) → In x xs'
    back h n =
        (r x).1 (subst (In x) (sym e) (In-without owner a.id x xs h (λ q. n (a, inl refl, q))))
          (λ among. n (among.0, inr among.1, among.2))

-- What a run over a list of accounts comes to.
pub record Erased (doomed : List Account) (t : Tables) (db : Db) (t' : Tables) (db' : Db)
    : Type 0 where
  pub kept : Inv db'
  pub rows :
      (side : IngestSource)
      → Rid (λ (r : RawRow). r.tenant_id) doomed (table side db) (table side db')
  pub results : Rid (λ (r : ReconciliationResult). r.tenant_id) doomed db.results db'.results
  pub exceptions : Rid (λ (e : ExceptionRow). e.tenant_id) doomed db.exceptions db'.exceptions
  pub accounts : Rid (λ (a : Account). a.id) doomed t.accounts t'.accounts
  pub api_keys : Rid (λ (k : ApiKey). k.account_id) doomed t.api_keys t'.api_keys
  pub sources :
      Rid (λ (s : WebhookSource). s.account_id) doomed t.webhook_sources t'.webhook_sources

erase_all_step :
    (a : Account) (rest : List Account) (t t1 t2 : Tables) (db db1 db2 : Db) (n : ℕ)
    → erase a.id t db ≡ some (t1, db1)
    → erase_all rest t1 db1 ≡ (some n, t2, db2)
    → erase_all (a ∷ rest) t db ≡ (some (n + 1), t2, db2)
unfolding erase_all
erase_all_step a rest t t1 t2 db db1 db2 n e r = rw (erase_all, e, r) refl

erase_all-Erased :
    (doomed : List Account) (t : Tables) (db : Db)
    → Inv db
    → (t' : Tables) × (db' : Db) × (erase_all doomed t db ≡ (some (length doomed), t', db'))
      × Erased doomed t db t' db'
unfolding erase_all
erase_all-Erased [] t db v = (
  t,
  db,
  refl,
  record {
    kept = v;
    rows = λ side. Rid-nil _ (table side db);
    results = Rid-nil _ db.results;
    exceptions = Rid-nil _ db.exceptions;
    accounts = Rid-nil _ t.accounts;
    api_keys = Rid-nil _ t.api_keys;
    sources = Rid-nil _ t.webhook_sources;
  },
)
erase_all-Erased (a ∷ rest) t db v =
    let l = remains-Left a.id db v in
    let mid = remains a.id db v in
    let mid_t = tables_left a.id db v t in
    let v1 : Inv mid = Left-Inv a.id db mid v l in
    let (t', db', e, r) = erase_all-Erased rest mid_t mid v1 in
    (
      t',
      db',
      erase_all_step a rest t mid_t t' db mid db' (length rest) (erase-remains a.id db v t) e
          ∙ ap (λ n. (some n, t', db')) (omega arith),
      record {
        kept = r.kept;
        rows = λ side.
            Rid-cons _ a rest (table side db) (table side mid) (table side db') (l.rows side)
              (r.rows side);
        results = Rid-cons _ a rest db.results mid.results db'.results l.results r.results;
        exceptions =
            Rid-cons _ a rest db.exceptions mid.exceptions db'.exceptions l.exceptions r.exceptions;
        accounts = Rid-cons _ a rest t.accounts mid_t.accounts t'.accounts refl r.accounts;
        api_keys = Rid-cons _ a rest t.api_keys mid_t.api_keys t'.api_keys refl r.api_keys;
        sources =
            Rid-cons _ a rest t.webhook_sources mid_t.webhook_sources t'.webhook_sources refl
              r.sources;
      },
    )

In-insert :
    (x a : Account) (bs : List Account) → In x (insert_by_last_seen a bs) → (a ≡ x) ⊎ In x bs
unfolding insert_by_last_seen
In-insert x a [] (inl e) = inl e
In-insert x a [] (inr m) = inr m
In-insert x a (b ∷ bs) h = elim (Bool-cases (ltb b.last_seen_at a.last_seen_at)) [
  | inl e ↦ later (In-insert x a bs) (rw e at h)
  | inr e ↦ let k : In x (a ∷ b ∷ bs) = rw e at h in k
]
  where
    later :
        (In x (insert_by_last_seen a bs) → (a ≡ x) ⊎ In x bs)
        → In x (b ∷ insert_by_last_seen a bs)
        → (a ≡ x) ⊎ In x (b ∷ bs)
    later more (inl p) = inr (inl p)
    later more (inr m) = elim (more m) [ inl p ↦ inl p | inr n ↦ inr (inr n) ]

In-order : (x : Account) (bs : List Account) → In x (order_by_last_seen bs) → In x bs
unfolding order_by_last_seen
In-order x [] h = h
In-order x (b ∷ bs) h = elim (In-insert x b (order_by_last_seen bs) h) [
  | inl p ↦ inl p
  | inr m ↦ inr (In-order x bs m)
]

idle-demo :
    (now retention limit : ℕ) (t : Tables) (a : Account)
    → In a (idle_demo_accounts now retention limit t)
    → In a t.accounts × (a.kind ≡ AccountKind.demo) × (a.last_seen_at + retention < now)
unfolding idle_demo_accounts
idle-demo now retention limit t a h =
    let (there, e) = In-filter _ a t.accounts (In-order a _ (In-take a limit _ h)) in
    (there, demo a.kind (ground (arith, e)), ground (arith, e))
  where
    demo : (k : AccountKind) → is_demo k ≡ true → k ≡ AccountKind.demo
    demo AccountKind.demo e = refl
    demo AccountKind.real e = absurd (ground (arith, e))

-- On a well-formed store and directory the run always ends without an error. What it leaves is exactly
-- what none of the idle demo accounts that it chose owns: their rows, results, cases, API keys and
-- webhook sources and the accounts themselves are gone, and of every other account all of these are
-- there and none is new. Every real account is there, whenever it was last seen, and so is every demo
-- account that was seen since the cutoff, and the store stays well formed.
pub sweep_demo_accounts-Erased :
    (now retention limit : ℕ) (t : Tables) (db : Db)
    → DirectoryInv t
    → Inv db
    → (t' : Tables) × (db' : Db) × (sweep_demo_accounts now retention limit t db
        ≡ (some (length (idle_demo_accounts now retention limit t)), t', db'))
      × Erased (idle_demo_accounts now retention limit t) t db t' db'
      × ((a : Account)
          → In a t.accounts
          → (a.kind ≡ AccountKind.real) ⊎ (now < a.last_seen_at + retention + 1)
          → In a t'.accounts)
unfolding sweep_demo_accounts
sweep_demo_accounts-Erased now retention limit t db d v =
    let (t', db', e, r) = erase_all-Erased (idle_demo_accounts now retention limit t) t db v in
    (t', db', e, r, λ a h safe. (r.accounts a).1 h (spared a h safe))
  where
    contradiction :
        (a b : Account)
        → a ≡ b
        → b.kind ≡ AccountKind.demo
        → b.last_seen_at + retention < now
        → (a.kind ≡ AccountKind.real) ⊎ (now < a.last_seen_at + retention + 1)
        → ⊥
    contradiction a b same demo idle (inl real) =
        let k = ap (λ (x : Account). x.kind) same in cc (k, demo, real)
    contradiction a b same demo idle (inr recent) =
        omega (arith, ap (λ (x : Account). x.last_seen_at) same, idle, recent)

    spared :
        (a : Account)
        → In a t.accounts
        → (a.kind ≡ AccountKind.real) ⊎ (now < a.last_seen_at + retention + 1)
        → Among a.id (idle_demo_accounts now retention limit t)
        → ⊥
    spared a h safe (b, chosen, q) =
        let (there, demo, idle) = idle-demo now retention limit t b chosen in
        let same = Falling-same t.next_account t.accounts d.account_ids a b h there q in
        contradiction a b same demo idle safe
