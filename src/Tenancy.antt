-- ===== src/Tenancy.antt =====
-- backend/ledgerloop/services/tenancy.py, with the tables accounts, api_keys and webhook_sources of
-- backend/ledgerloop/db/models.py. The directory is these three tables, newest row first. `hash_key`
-- is an argument, the SHA-256 hex of a text, and `token` the text that secrets.token_urlsafe draws.
-- A result is none where the source raises, which rolls the transaction back.
pub mod Directory
pub mod Accounts
pub mod Keys
use ledger_loop.Prelude.{
  ℕ, ◌+◌, ◌-◌, String, Bool, true, false, not, ◌&&◌, Option, none, some, List, [], ◌∷◌, map, ltb,
  ◌==◌, if◌then◌else◌, str_eq, is_some, one, find, filter, filter_map, any,
}
use Prim.Native.String.{◌++◌ as append, slice}
use text.Mathlib.Text.{starts_with}
use ledger_loop.Enums.{AccountKind, WebhookProvider, WebhookDeliveryStatus}

pub record Account : Type 0 where
  pub id : ℕ
  pub name : String
  pub kind : AccountKind
  pub last_seen_at : ℕ

pub record ApiKey : Type 0 where
  pub id : ℕ
  pub account_id : ℕ
  pub key_hash : String
  pub prefix : String
  pub label : String
  pub revoked_at : Option ℕ

pub record WebhookSource : Type 0 where
  pub id : ℕ
  pub account_id : ℕ
  pub provider : WebhookProvider
  pub source_token : String
  pub signing_secret : String
  pub label : String
  pub last_event_at : Option ℕ
  pub last_delivery_status : Option WebhookDeliveryStatus
  pub revoked_at : Option ℕ

pub record Tables : Type 0 where
  pub accounts : List Account
  pub api_keys : List ApiKey
  pub webhook_sources : List WebhookSource
  pub next_account : ℕ
  pub next_api_key : ℕ
  pub next_source : ℕ

pub record Tenant : Type 0 where
  pub account_id : ℕ
  pub name : String
  pub kind : AccountKind

abbrev pub is_demo : AccountKind → Bool
is_demo AccountKind.demo = true
is_demo AccountKind.real = false

abbrev pub tenant_of : Account → Tenant
tenant_of account = record { account_id = account.id; name = account.name; kind = account.kind }

-- The account that a foreign key points at.
unfoldable pub account_of : ℕ → Tables → Option Account
account_of account_id tables = find (λ (a : Account). a.id == account_id) tables.accounts

-- `.first()`
abbrev pub first {ℓ} : {A : Type ℓ} → List A → Option A
first [] = none
first (x ∷ xs) = some x

-- A row of api_keys joined with its account.
unfoldable pub with_account : Tables → ApiKey → Option (ApiKey × Account)
with_account tables key = elim (account_of key.account_id tables) [
  | none ↦ none
  | some account ↦ some (key, account)
]

abbrev pub key_prefix_text : String
key_prefix_text = "llk_"

-- What `resolve_api_key` makes of the row that it read.
unfoldable pub accept_key : String → Option (ApiKey × Account) → Option Tenant
accept_key digest none = none
accept_key digest (some (api_key, account)) =
    if not (str_eq api_key.key_hash digest)
    then none
    else if is_some api_key.revoked_at
    then none
    else some (tenant_of account)

unfoldable pub resolve_api_key : (String → String) → String → Tables → Option Tenant
resolve_api_key hash_key raw_key tables =
    if not (starts_with raw_key key_prefix_text)
    then none
    else accept_key (hash_key raw_key) (
        first (
          filter_map (with_account tables)
            (filter (λ (k : ApiKey). str_eq k.key_hash (hash_key raw_key)) tables.api_keys)))

abbrev pub has_name : String → Account → Bool
has_name name account = str_eq account.name name

-- `INSERT INTO accounts ... ON CONFLICT (name) DO NOTHING`, and the SELECT after a conflict.
unfoldable pub upsert_account : ℕ → String → AccountKind → Tables → Option (Tenant × Tables)
upsert_account now name kind tables =
    if any (has_name name) tables.accounts
    then elim (one (filter (has_name name) tables.accounts)) [
      | none ↦ none
      | some existing ↦ some (tenant_of existing, tables)
    ]
    else (let created : Account = record {
      id = tables.next_account;
      name = name;
      kind = kind;
      last_seen_at = now;
    } in
        some (
          tenant_of created,
          record tables {
            accounts = created ∷ tables.accounts;
            next_account = tables.next_account + 1;
          },
        ))

unfoldable pub resolve_demo_account : ℕ → String → Tables → Option (Tenant × Tables)
resolve_demo_account now name tables = upsert_account now name AccountKind.demo tables

-- `generate_key()`
abbrev pub generate_key : String → String
generate_key token = append key_prefix_text token

-- `key_prefix(raw)`, the first twelve characters, each of one byte.
abbrev pub key_prefix : String → String
key_prefix raw = slice raw 0 12

-- `session.add(ApiKey(...))`: the unique index over key_hash refuses a second one.
unfoldable pub add_api_key : ℕ → String → String → String → Tables → Option Tables
add_api_key account_id key_hash prefix label tables =
    if any (λ (k : ApiKey). str_eq k.key_hash key_hash) tables.api_keys
    then none
    else some (record tables {
      api_keys =
          record {
            id = tables.next_api_key;
            account_id = account_id;
            key_hash = key_hash;
            prefix = prefix;
            label = label;
            revoked_at = none;
          }
          ∷ tables.api_keys;
      next_api_key = tables.next_api_key + 1;
    })

-- `issue_api_key` past its account.
unfoldable pub mint :
    (String → String)
    → String
    → String
    → Option (Tenant × Tables)
    → Option (String × Tenant × Tables)
mint hash_key token label none = none
mint hash_key token label (some (account, tables)) =
    if is_demo account.kind
    then none
    else (let raw = generate_key token in
        elim (add_api_key account.account_id (hash_key raw) (key_prefix raw) label tables) [
          | none ↦ none
          | some tables' ↦ some (raw, account, tables')
        ])

unfoldable pub issue_api_key :
    (String → String) → ℕ → String → String → String → Tables → Option (String × Tenant × Tables)
issue_api_key hash_key now token account_name label tables =
    mint hash_key token label (upsert_account now account_name AccountKind.real tables)

-- `touch_account`: refreshes last_seen_at where it is older than `refresh_after`.
unfoldable pub touch_account : ℕ → Tenant → ℕ → Tables → Tables
touch_account now tenant refresh_after tables = record tables {
  accounts =
      map
        (λ (a : Account).
          if (a.id == tenant.account_id) && ltb (a.last_seen_at + refresh_after) now
          then record a { last_seen_at = now }
          else a)
        tables.accounts;
}
