-- ===== src/Tenancy/Keys.antt =====
-- API keys of backend/ledgerloop/services/tenancy.py: an issued key resolves to its account.
use ledger_loop.Prelude.{
  ℕ, ◌+◌, ◌≡◌, refl, sym, ap, ◌∙◌, subst, inl, inr, none, some, true, false, String, arith, List,
  [], ◌∷◌, In, any, any-true, filter, In-filter, filter_map, Bool-cases, str_eq→eq, eq→str_eq,
  str_eq, Option-cases,
}
use text.Mathlib.TextPositions.{starts_with-append}
use text.Mathlib.Text.{starts_with}
use ledger_loop.Enums.{AccountKind}
use ledger_loop.Tenancy.{
  Account, ApiKey, Tables, Tenant, tenant_of, is_demo, first, with_account, accept_key,
  resolve_api_key, generate_key, key_prefix_text, add_api_key, mint, issue_api_key, account_of,
  key_prefix,
}
use ledger_loop.Tenancy.Directory.{DirectoryInv, account_of-In}
use ledger_loop.Tenancy.Accounts.{Upserted, upsert_account-Upserted, upsert_taken}

module _ (hash_key : String → String) where
  -- A key row of a raw key: stored, in force, of an account.
  pub record InForce (raw : String) (t : Tables) (tenant : Tenant) : Type 0 where
    pub prefixed : starts_with raw key_prefix_text ≡ true
    pub key : ApiKey
    pub account : Account
    pub stored : In key t.api_keys
    pub hashed : key.key_hash ≡ hash_key raw
    pub in_force : key.revoked_at ≡ none
    pub its_account : account_of key.account_id t ≡ some account
    pub resolved : tenant_of account ≡ tenant

  accept-InForce :
      (raw : String) (t : Tables) (tenant : Tenant) (row : ApiKey × Account)
      → starts_with raw key_prefix_text ≡ true
      → In row.0 t.api_keys
      → account_of row.0.account_id t ≡ some row.1
      → accept_key (hash_key raw) (some row) ≡ some tenant
      → InForce raw t tenant
  unfolding accept_key
  accept-InForce raw t tenant (key, account) ours there own h =
      elim (Bool-cases (str_eq key.key_hash (hash_key raw))) [
        | inr q ↦ absurd (ground (arith, h, q))
        | inl q ↦ record {
          prefixed = ours;
          key = key;
          account = account;
          stored = there;
          hashed = str_eq→eq key.key_hash (hash_key raw) q;
          in_force = ground (arith, h, q);
          its_account = own;
          resolved = ground (arith, h, q);
        }
      ]

  first-joined :
      (t : Tables) (ks : List ApiKey) (row : ApiKey × Account)
      → first (filter_map (with_account t) ks) ≡ some row
      → In row.0 ks × (account_of row.0.account_id t ≡ some row.1)
  unfolding with_account
  first-joined t [] row h = absurd (ground (arith, h))
  first-joined t (k ∷ ks) row h = elim (Option-cases (account_of k.account_id t)) [
    | inl e ↦ let r = first-joined t ks row (ground (arith, h, e)) in (inr r.0, r.1)
    | inr (a, e) ↦
        let same : (k, a) ≡ row = ground (arith, h, e) in
        (
          inl (ap (λ (p : ApiKey × Account). p.0) same),
          subst (λ (p : ApiKey × Account). account_of p.0.account_id t ≡ some p.1) same e,
        )
  ]

  -- A raw key that resolves has our prefix, and a stored key of its hash is in force and belongs to
  -- the tenant: a revoked or unknown key resolves to nothing.
  pub resolve_api_key-InForce :
      (raw : String) (t : Tables) (tenant : Tenant)
      → resolve_api_key hash_key raw t ≡ some tenant
      → InForce raw t tenant
  unfolding resolve_api_key accept_key
  resolve_api_key-InForce raw t tenant h =
      elim (Option-cases (
        first (
          filter_map (with_account t)
            (filter (λ (k : ApiKey). str_eq k.key_hash (hash_key raw)) t.api_keys)))) [
              | inl e ↦ absurd (missing e)
              | inr (row, e) ↦
                  let (there, own) = first-joined t _ row e in
                  accept-InForce raw t tenant row ours
                    (In-filter (λ (k : ApiKey). str_eq k.key_hash (hash_key raw)) row.0 t.api_keys
                      there).0
                    own (found row e)
            ]
    where
      ours : starts_with raw key_prefix_text ≡ true
      ours = elim (Bool-cases (starts_with raw key_prefix_text)) [
        | inl p ↦ p
        | inr p ↦ absurd (cc (rw (resolve_api_key, p) at h))
      ]

      accept_none : accept_key (hash_key raw) none ≡ none
      accept_none = refl

      missing :
          first (
              filter_map
                (with_account t)
                (filter (λ (k : ApiKey). str_eq k.key_hash (hash_key raw)) t.api_keys))
            ≡ none
          → ⊥
      missing e = ground (arith, h, e, accept_none)

      found :
          (row : ApiKey × Account)
          → first (
              filter_map
                (with_account t)
                (filter (λ (k : ApiKey). str_eq k.key_hash (hash_key raw)) t.api_keys))
            ≡ some row
          → accept_key (hash_key raw) (some row) ≡ some tenant
      found row e = ground (arith, h, e)

  -- The tables with a key added.
  abbrev with_key : ℕ → String → String → Tables → Tables
  with_key account_id raw label t = record t {
    api_keys =
        record {
          id = t.next_api_key;
          account_id = account_id;
          key_hash = hash_key raw;
          prefix = key_prefix raw;
          label = label;
          revoked_at = none;
        }
        ∷ t.api_keys;
    next_api_key = t.next_api_key + 1;
  }

  no_such_hash :
      (raw : String) (t : Tables)
      → any (λ (k : ApiKey). str_eq k.key_hash (hash_key raw)) t.api_keys ≡ false
      → (k : ApiKey) → In k t.api_keys
      → k.key_hash ≡ hash_key raw
      → ⊥
  no_such_hash raw t free k h e = cc (
    free,
    any-true (λ (x : ApiKey). str_eq x.key_hash (hash_key raw)) k t.api_keys h
        (eq→str_eq k.key_hash (hash_key raw) e),
  )

  with_key-DirectoryInv :
      (account_id : ℕ) (raw label : String) (t : Tables)
      → DirectoryInv t
      → any (λ (k : ApiKey). str_eq k.key_hash (hash_key raw)) t.api_keys ≡ false
      → DirectoryInv (with_key account_id raw label t)
  with_key-DirectoryInv account_id raw label t v free = record {
    account_ids = v.account_ids;
    names = v.names;
    hashes = unique;
  }
    where
      unique :
          (k j : ApiKey)
          → In k (with_key account_id raw label t).api_keys
          → In j (with_key account_id raw label t).api_keys
          → k.key_hash ≡ j.key_hash
          → k ≡ j
      unique k j (inl p) (inl q) e = sym p ∙ q
      unique k j (inl p) (inr q) e =
          absurd (no_such_hash raw t free j q (sym e ∙ ap (λ (x : ApiKey). x.key_hash) (sym p)))
      unique k j (inr p) (inl q) e =
          absurd (no_such_hash raw t free k p (e ∙ ap (λ (x : ApiKey). x.key_hash) (sym q)))
      unique k j (inr p) (inr q) e = v.hashes k j p q e

  resolve-with_key :
      (raw label : String) (t : Tables) (a : Account)
      → starts_with raw key_prefix_text ≡ true
      → DirectoryInv t
      → In a t.accounts
      → resolve_api_key hash_key raw (with_key a.id raw label t) ≡ some (tenant_of a)
  unfolding resolve_api_key with_account accept_key account_of
  resolve-with_key raw label t a ours v h =
      let hit = eq→str_eq (hash_key raw) (hash_key raw) refl in
      let found = account_of-In t a v h in rw (ours, hit, with_account, found, accept_key, hit) refl

  mint_real :
      (token label : String) (tenant : Tenant) (t : Tables)
      → tenant.kind ≡ AccountKind.real
      → any (λ (k : ApiKey). str_eq k.key_hash (hash_key (generate_key token))) t.api_keys ≡ false
      → mint hash_key token label (some (tenant, t))
        ≡ some (generate_key token, tenant, with_key tenant.account_id (generate_key token) label t)
  unfolding mint add_api_key
  mint_real token label tenant t real free =
      let q : is_demo tenant.kind ≡ false = ap is_demo real in rw (q, free) refl

  mint_demo :
      (token label : String) (tenant : Tenant) (t : Tables)
      → tenant.kind ≡ AccountKind.demo
      → mint hash_key token label (some (tenant, t)) ≡ none
  unfolding mint
  mint_demo token label tenant t demo = rw demo refl

  -- On a well-formed directory, issuing a key under a name that no demo account holds, with a key whose hash is not stored yet,
  -- succeeds: the raw key that it hands out resolves to the account of that name, which is a real
  -- one, and the directory stays well formed.
  pub issue_api_key-resolves :
      (now : ℕ) (token name label : String) (t : Tables)
      → DirectoryInv t
      → any (λ (k : ApiKey). str_eq k.key_hash (hash_key (generate_key token))) t.api_keys ≡ false
      → ((a : Account) → In a t.accounts → a.name ≡ name → a.kind ≡ AccountKind.real)
      → (tenant : Tenant) × (t' : Tables) × (issue_api_key hash_key now token name label t
          ≡ some (generate_key token, tenant, t'))
        × (resolve_api_key hash_key (generate_key token) t' ≡ some tenant)
        × (tenant.name ≡ name)
        × (tenant.kind ≡ AccountKind.real)
        × DirectoryInv t'
  unfolding issue_api_key
  issue_api_key-resolves now token name label t v free real_name =
      let (tenant, t1, e, u) = upsert_account-Upserted now name AccountKind.real t v in
      let a = u.named.account in
      let raw = generate_key token in
      let same : a.id ≡ tenant.account_id = ap (λ (x : Tenant). x.account_id) u.named.resolved in
      let real : tenant.kind ≡ AccountKind.real = kind_of t1 tenant u in
      let free1 : any (λ (k : ApiKey). str_eq k.key_hash (hash_key raw)) t1.api_keys ≡ false =
        ap (any (λ (k : ApiKey). str_eq k.key_hash (hash_key raw))) u.api_keys ∙ free in
      (
        tenant,
        with_key tenant.account_id raw label t1,
        ap (mint hash_key token label) e ∙ mint_real token label tenant t1 real free1,
        subst (λ i. resolve_api_key hash_key raw (with_key i raw label t1) ≡ some tenant) same
            (resolve-with_key raw label t1 a (starts_with-append key_prefix_text token) u.kept
                u.named.stored
              ∙ ap some u.named.resolved),
        sym (ap (λ (x : Tenant). x.name) u.named.resolved) ∙ u.named.its_name,
        real,
        with_key-DirectoryInv tenant.account_id raw label t1 u.kept free1,
      )
    where
      kind_of :
          (t1 : Tables) (tenant : Tenant)
          → Upserted now name AccountKind.real t tenant t1
          → tenant.kind ≡ AccountKind.real
      kind_of t1 tenant u = elim u.outcome [
        | inl q ↦
            ap (λ (x : Tenant). x.kind) (sym u.named.resolved)
            ∙ real_name u.named.account
                (subst (λ (x : Tables). In u.named.account x.accounts) q u.named.stored)
                u.named.its_name
        | inr (_, k, _) ↦ k
      ]

  -- Under the name of a demo account no key is issued.
  pub issue_api_key_demo :
      (now : ℕ) (token name label : String) (t : Tables) (a : Account)
      → DirectoryInv t
      → In a t.accounts
      → a.name ≡ name
      → a.kind ≡ AccountKind.demo
      → issue_api_key hash_key now token name label t ≡ none
  unfolding issue_api_key
  issue_api_key_demo now token name label t a v h e k =
      ap (mint hash_key token label) (upsert_taken now name AccountKind.real t a v h e)
      ∙ mint_demo token label (tenant_of a) t k
