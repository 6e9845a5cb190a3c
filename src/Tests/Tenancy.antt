-- ===== src/Tests/Tenancy.antt =====
-- A directory with a real and an idle demo account, which owns the rows of the concrete store.
use ledger_loop.Prelude.{
  eq→str_eq, ◌+◌, ◌≡◌, ◌<◌, refl, sym, ap, ◌∙◌, ◌⊎◌, inl, inr, none, some, false, any, String, [],
  ◌∷◌, arith, In, length, str_eq, eq→str_eq,
}
use Prim.Native.String.{◌++◌ as append}
use ledger_loop.Enums.{AccountKind}
use ledger_loop.Store.{Db}
use ledger_loop.Tenancy.{
  Account, ApiKey, Tables, Tenant, account_of, with_account, accept_key, resolve_api_key,
  upsert_account, generate_key, issue_api_key,
}
use ledger_loop.Tenancy.Directory.{DirectoryInv}
use ledger_loop.Tenancy.Accounts.{upsert_account_again}
use ledger_loop.Tenancy.Keys.{InForce, resolve_api_key-InForce, issue_api_key-resolves}
use ledger_loop.Retention.{
  insert_by_last_seen, order_by_last_seen, idle_demo_accounts, sweep_demo_accounts,
}
use ledger_loop.Retention.Demo.{Erased, sweep_demo_accounts-Erased}
use ledger_loop.Tests.{db, db-Inv}

-- What a run computes with.
unfoldable tenancy : Unit {0}
unfolding str_eq account_of with_account accept_key resolve_api_key insert_by_last_seen
    order_by_last_seen idle_demo_accounts
tenancy = tt

abbrev pub acme : Account
acme = record { id = 3; name = "acme"; kind = AccountKind.real; last_seen_at = 0 }

abbrev visitor : Account
visitor = record { id = 7; name = "demo:1"; kind = AccountKind.demo; last_seen_at = 100 }

abbrev acme_key : ApiKey
acme_key = record {
  id = 1;
  account_id = 3;
  key_hash = "#llk_abc";
  prefix = "llk_abc";
  label = "first";
  revoked_at = none;
}

abbrev pub tables : Tables
tables = record {
  accounts = visitor ∷ acme ∷ [];
  api_keys = acme_key ∷ [];
  webhook_sources = [];
  next_account = 8;
  next_api_key = 2;
  next_source = 1;
}

-- A stand-in for the digest.
abbrev digest : String → String
digest raw = append "#" raw

other_name : visitor.name ≡ acme.name → ⊥
unfolding tenancy
other_name e = cc (eq→str_eq visitor.name acme.name e)

pub tables-DirectoryInv : DirectoryInv tables
tables-DirectoryInv = record {
  account_ids = (omega arith, (omega arith, tt));
  names = names;
  hashes = hashes;
}
  where
    names : (a b : Account) → In a tables.accounts → In b tables.accounts → a.name ≡ b.name → a ≡ b
    names a b (inl p) (inl q) e = sym p ∙ q
    names a b (inr (inl p)) (inr (inl q)) e = sym p ∙ q
    names a b (inl p) (inr (inl q)) e =
        absurd
          (other_name (ap (λ (x : Account). x.name) p ∙ e ∙ sym (ap (λ (x : Account). x.name) q)))
    names a b (inr (inl p)) (inl q) e =
        absurd (
          other_name
            (ap (λ (x : Account). x.name) q ∙ sym e ∙ sym (ap (λ (x : Account). x.name) p)))
    names a b (inr (inr n)) h e = elim n [ ]
    names a b h (inr (inr n)) e = elim n [ ]

    hashes :
        (k j : ApiKey)
        → In k tables.api_keys
        → In j tables.api_keys
        → k.key_hash ≡ j.key_hash
        → k ≡ j
    hashes k j (inl p) (inl q) e = sym p ∙ q
    hashes k j (inr n) h e = elim n [ ]
    hashes k j h (inr n) e = elim n [ ]

upsert_account_again_example :
    (tenant : Tenant) × (t' : Tables) × (upsert_account 500 "demo:2" AccountKind.demo tables
      ≡ some (tenant, t'))
    × (upsert_account 600 "demo:2" AccountKind.real t' ≡ some (tenant, t'))
upsert_account_again_example =
    upsert_account_again 500 600 "demo:2" AccountKind.demo AccountKind.real tables
      tables-DirectoryInv

known_key :
    resolve_api_key digest "llk_abc" tables
    ≡ some (record { account_id = 3; name = "acme"; kind = AccountKind.real })
unfolding tenancy
known_key = refl

resolve_api_key-InForce_example :
    InForce digest "llk_abc" tables
      (record { account_id = 3; name = "acme"; kind = AccountKind.real })
resolve_api_key-InForce_example =
    resolve_api_key-InForce digest "llk_abc" tables
      (record { account_id = 3; name = "acme"; kind = AccountKind.real }) known_key

fresh_hash :
    any (λ (k : ApiKey). str_eq k.key_hash (digest (generate_key "xyz"))) tables.api_keys ≡ false
unfolding tenancy
fresh_hash = refl

acme_is_real : (a : Account) → In a tables.accounts → a.name ≡ "acme" → a.kind ≡ AccountKind.real
acme_is_real a (inl p) e = absurd (other_name (ap (λ (x : Account). x.name) p ∙ e))
acme_is_real a (inr (inl p)) e = ap (λ (x : Account). x.kind) (sym p)
acme_is_real a (inr (inr n)) e = elim n [ ]

issue_api_key-resolves_example :
    (tenant : Tenant) × (t' : Tables) × (issue_api_key digest 500 "xyz" "acme" "second" tables
      ≡ some ("llk_xyz", tenant, t'))
    × (resolve_api_key digest "llk_xyz" t' ≡ some tenant)
    × (tenant.name ≡ "acme")
    × (tenant.kind ≡ AccountKind.real)
    × DirectoryInv t'
issue_api_key-resolves_example =
    issue_api_key-resolves digest 500 "xyz" "acme" "second" tables tables-DirectoryInv fresh_hash
      acme_is_real

-- The idle visitor is the one to go.
chosen : idle_demo_accounts 1000 500 100 tables ≡ visitor ∷ []
unfolding tenancy
chosen = refl

sweep_demo_accounts-Erased_example :
    (t' : Tables) × (db' : Db) × (sweep_demo_accounts 1000 500 100 tables db
      ≡ (some (length (idle_demo_accounts 1000 500 100 tables)), t', db'))
    × Erased (idle_demo_accounts 1000 500 100 tables) tables db t' db'
    × ((a : Account)
        → In a tables.accounts
        → (a.kind ≡ AccountKind.real) ⊎ (1000 < a.last_seen_at + 500 + 1)
        → In a t'.accounts)
sweep_demo_accounts-Erased_example =
    sweep_demo_accounts-Erased 1000 500 100 tables db tables-DirectoryInv db-Inv
