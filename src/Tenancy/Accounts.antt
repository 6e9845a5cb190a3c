-- ===== src/Tenancy/Accounts.antt =====
-- _upsert_account of backend/ledgerloop/services/tenancy.py: one account per name.
use ledger_loop.Prelude.{
  ℕ, ◌+◌, ◌≡◌, refl, sym, ap, ◌∙◌, ◌⊎◌, inl, inr, some, false, String, arith, ◌∷◌, In, any,
  any-true, any-witness, one, one-filter, filter, Bool-cases, str_eq→eq, eq→str_eq,
}
use ledger_loop.Enums.{AccountKind}
use ledger_loop.Tenancy.{Account, Tables, Tenant, tenant_of, has_name, upsert_account}
use ledger_loop.Tenancy.Directory.{DirectoryInv}

-- The account of a name, and the tenant that stands for it.
pub record Named (name : String) (tenant : Tenant) (t : Tables) : Type 0 where
  pub account : Account
  pub stored : In account t.accounts
  pub its_name : account.name ≡ name
  pub resolved : tenant_of account ≡ tenant

module _ (now : ℕ) (name : String) (kind : AccountKind) (t : Tables) where
  -- What an upsert does, by whether the name is taken.
  pub record Upserted (tenant : Tenant) (t' : Tables) : Type 0 where
    pub named : Named name tenant t'
    pub api_keys : t'.api_keys ≡ t.api_keys
    pub outcome :
        (t' ≡ t)
        ⊎ ((any (has_name name) t.accounts ≡ false)
            × (tenant.kind ≡ kind)
            × (t'.accounts
                ≡ record { id = t.next_account; name = name; kind = kind; last_seen_at = now }
                  ∷ t.accounts))
    pub kept : DirectoryInv t'

  pub upsert_taken :
      (a : Account)
      → DirectoryInv t
      → In a t.accounts
      → a.name ≡ name
      → upsert_account now name kind t ≡ some (tenant_of a, t)
  unfolding upsert_account
  upsert_taken a v h e =
      let named = eq→str_eq a.name name e in
      let alone : one (filter (has_name name) t.accounts) ≡ some a =
        one-filter (λ (x : Account). x.id) (has_name name) t.next_account a t.accounts v.account_ids
          (λ x y hx hy nx ny.
            v.names x y hx hy (str_eq→eq x.name name nx ∙ sym (str_eq→eq y.name name ny)))
          h named in
      rw (any-true (has_name name) a t.accounts h named, alone) refl

  -- On a well-formed directory an upsert always resolves the name to the account that holds it,
  -- which it creates, with the kind that is asked for, when there is none, and changes nothing
  -- otherwise; the directory stays well formed.
  pub upsert_account-Upserted :
      DirectoryInv t
      → (tenant : Tenant) × (t' : Tables) × (upsert_account now name kind t ≡ some (tenant, t'))
        × Upserted tenant t'
  unfolding upsert_account
  upsert_account-Upserted v = elim (Bool-cases (any (has_name name) t.accounts)) [
    | inl taken ↦
        let (a, there, e) = any-witness (has_name name) t.accounts taken in
        (
          tenant_of a,
          t,
          upsert_taken a v there (str_eq→eq a.name name e),
          record {
            named = record {
              account = a;
              stored = there;
              its_name = str_eq→eq a.name name e;
              resolved = refl;
            };
            api_keys = refl;
            outcome = inl refl;
            kept = v;
          },
        )
    | inr free ↦
        let a : Account = record {
          id = t.next_account;
          name = name;
          kind = kind;
          last_seen_at = now;
        } in
        (
          tenant_of a,
          record t { accounts = a ∷ t.accounts; next_account = t.next_account + 1 },
          rw free refl,
          record {
            named = record { account = a; stored = inl refl; its_name = refl; resolved = refl };
            api_keys = refl;
            outcome = inr (free, refl, refl);
            kept = record {
              account_ids = (omega arith, v.account_ids);
              names = unique free;
              hashes = v.hashes;
            };
          },
        )
  ]
    where
      not_taken :
          any (has_name name) t.accounts ≡ false
          → (b : Account) → In b t.accounts
          → b.name ≡ name
          → ⊥
      not_taken free b h e =
          cc (free, any-true (has_name name) b t.accounts h (eq→str_eq b.name name e))

      unique :
          any (has_name name) t.accounts ≡ false
          → (x y : Account)
          → In x (
              record { id = t.next_account; name = name; kind = kind; last_seen_at = now }
              ∷ t.accounts)
          → In y (
              record { id = t.next_account; name = name; kind = kind; last_seen_at = now }
              ∷ t.accounts)
          → x.name ≡ y.name
          → x ≡ y
      unique free x y (inl p) (inl q) e = sym p ∙ q
      unique free x y (inl p) (inr q) e =
          absurd (not_taken free y q (sym e ∙ sym (ap (λ (a : Account). a.name) p)))
      unique free x y (inr p) (inl q) e =
          absurd (not_taken free x p (e ∙ sym (ap (λ (a : Account). a.name) q)))
      unique free x y (inr p) (inr q) e = v.names x y p q e

-- On a well-formed directory a name resolves to one account: whoever asks for it later, as whatever kind, is given the same
-- tenant, and nothing changes.
pub upsert_account_again :
    (now now' : ℕ) (name : String) (kind kind' : AccountKind) (t : Tables)
    → DirectoryInv t
    → (tenant : Tenant) × (t' : Tables) × (upsert_account now name kind t ≡ some (tenant, t'))
      × (upsert_account now' name kind' t' ≡ some (tenant, t'))
upsert_account_again now now' name kind kind' t v =
    let (tenant, t', e, u) = upsert_account-Upserted now name kind t v in
    (
      tenant,
      t',
      e,
      upsert_taken now' name kind' t' u.named.account u.kept u.named.stored u.named.its_name
          ∙ ap (λ x. some (x, t')) u.named.resolved,
    )
