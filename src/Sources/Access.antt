-- ===== src/Sources/Access.antt =====
-- Who a webhook source of backend/ledgerloop/services/sources.py resolves for.
use ledger_loop.Prelude.{
  ℕ, ◌+◌, ◌≡◌, refl, sym, ap, ◌∙◌, subst, inl, inr, none, some, true, false, arith, Bool, Option,
  String, List, [], ◌∷◌, In, any, find, find-some, filter, In-filter, filter_map, Option-cases,
  ◌==◌, str_eq, eq→str_eq,
}
use ledger_loop.Enums.{WebhookProvider}
use ledger_loop.Tenancy.{Account, WebhookSource, Tables, Tenant, tenant_of, account_of, first}
use ledger_loop.Tenancy.Directory.{DirectoryInv, account_of-In}
use ledger_loop.Sources.{
  ResolvedSource, with_owner, live_source, look_up, resolve_source, resolve_source_for_tenant,
  secret_or, new_source, create_source,
}

-- The row that a lookup resolved: stored, in force, with its own account as the tenant.
pub record Live (t : Tables) (r : ResolvedSource) : Type 0 where
  pub source : WebhookSource
  pub stored : In source t.webhook_sources
  pub in_force : source.revoked_at ≡ none
  pub its_id : r.source_id ≡ source.id
  pub its_secret : r.signing_secret ≡ source.signing_secret
  pub owner : r.tenant.account_id ≡ source.account_id

owner-id : (i : ℕ) (t : Tables) (a : Account) → account_of i t ≡ some a → a.id ≡ i
unfolding account_of
owner-id i t a e = found-id t.accounts e
  where
    found-id : (xs : List Account) → find (λ (x : Account). x.id == i) xs ≡ some a → a.id ≡ i
    found-id xs q = let k = (find-some (λ (x : Account). x.id == i) a xs q).1 in ground (arith, k)

first-owned :
    (t : Tables) (ss : List WebhookSource) (row : WebhookSource × Account)
    → first (filter_map (with_owner t) ss) ≡ some row
    → In row.0 ss × (account_of row.0.account_id t ≡ some row.1)
unfolding with_owner
first-owned t [] row h = absurd (ground (arith, h))
first-owned t (s ∷ ss) row h = elim (Option-cases (account_of s.account_id t)) [
  | inl e ↦ let r = first-owned t ss row (ground (arith, h, e)) in (inr r.0, r.1)
  | inr (a, e) ↦
      let same : (s, a) ≡ row = ground (arith, h, e) in
      (
        inl (ap (λ (p : WebhookSource × Account). p.0) same),
        subst (λ (p : WebhookSource × Account). account_of p.0.account_id t ≡ some p.1) same e,
      )
]

live_source-Live :
    (t : Tables) (s : WebhookSource) (a : Account) (r : ResolvedSource)
    → In s t.webhook_sources
    → account_of s.account_id t ≡ some a
    → live_source (some (s, a)) ≡ some r
    → (l : Live t r) × (l.source ≡ s)
unfolding live_source
live_source-Live t s a r there own h = elim (Option-cases s.revoked_at) [
  | inr (w, e) ↦ absurd (ground (arith, h, e))
  | inl e ↦
      let id : r.source_id ≡ s.id = ground (arith, h, e) in
      let tenant : r.tenant ≡ tenant_of a = ground (arith, h, e) in
      (
        record {
          source = s;
          stored = there;
          in_force = e;
          its_id = id;
          its_secret = ground (arith, h, e);
          owner = ap (λ (x : Tenant). x.account_id) tenant ∙ owner-id s.account_id t a own;
        },
        refl,
      )
]

pub look_up-Live :
    (wanted : WebhookSource → Bool) (t : Tables) (r : ResolvedSource)
    → look_up wanted t ≡ some r
    → (l : Live t r) × (wanted l.source ≡ true)
unfolding look_up live_source
look_up-Live wanted t r h =
    elim (Option-cases (first (filter_map (with_owner t) (filter wanted t.webhook_sources)))) [
      | inl e ↦ absurd (nothing (sym (ap live_source e) ∙ h))
      | inr ((s, a), e) ↦
          let (there, own) = first-owned t (filter wanted t.webhook_sources) (s, a) e in
          let (stored, passes) = In-filter wanted s t.webhook_sources there in
          resolved s a stored own passes (sym (ap live_source e) ∙ h)
    ]
  where
    nothing : live_source none ≡ some r → ⊥
    nothing q = ground (arith, q)

    resolved :
        (s : WebhookSource) (a : Account)
        → In s t.webhook_sources
        → account_of s.account_id t ≡ some a
        → wanted s ≡ true
        → live_source (some (s, a)) ≡ some r
        → (l : Live t r) × (wanted l.source ≡ true)
    resolved s a stored own passes q =
        let (l, same) = live_source-Live t s a r stored own q in (l, ap wanted same ∙ passes)

-- A lookup by id within an account resolves only a source in force of that account, and so a source
-- of another account to nothing: the tenant that deliveries are written for is the one that asked.
pub resolve_source_for_tenant-Live :
    (tenant : Tenant) (source_id : ℕ) (t : Tables) (r : ResolvedSource)
    → resolve_source_for_tenant tenant source_id t ≡ some r
    → Live t r × (r.source_id ≡ source_id) × (r.tenant.account_id ≡ tenant.account_id)
unfolding resolve_source_for_tenant
resolve_source_for_tenant-Live tenant source_id t r h =
    let (l, e) = look_up-Live _ t r h in
    (l, l.its_id ∙ ground (arith, e), l.owner ∙ ground (arith, e))

-- Creating a source under a token that no source has succeeds, for an account of a well-formed directory: a
-- delivery to the token then resolves to the new source, with its secret, and writes for that account.
pub create_source-resolves :
    (token secret : String) (a : Account) (provider : WebhookProvider) (label : String)
    (given : Option String) (t : Tables)
    → DirectoryInv t
    → In a t.accounts
    → any (λ (s : WebhookSource). str_eq s.source_token token) t.webhook_sources ≡ false
    → (source : WebhookSource) × (t' : Tables) × (create_source token secret
          (tenant_of a)
          provider
          label
          given
          t
        ≡ some (source, t'))
      × (resolve_source token t'
          ≡ some (record {
            source_id = source.id;
            provider = provider;
            signing_secret = secret_or secret given;
            tenant = tenant_of a;
          }))
unfolding create_source resolve_source look_up with_owner live_source account_of
create_source-resolves token secret a provider label given t v h free =
    let source =
      new_source (tenant_of a) provider label token (secret_or secret given) t.next_source in
    let found = account_of-In t a v h in
    let hit = eq→str_eq token token refl in
    (
      source,
      record t { webhook_sources = source ∷ t.webhook_sources; next_source = t.next_source + 1 },
      rw free refl,
      rw (hit, with_owner, found, live_source) refl,
    )
