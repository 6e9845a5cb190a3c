-- ===== src/Sources.antt =====
-- backend/ledgerloop/services/sources.py: webhook sources, over the tables of Tenancy. `token` and
-- `secret` are the texts that secrets.token_urlsafe draws. A result is none where the source raises.
pub mod Access
pub mod Listing
use ledger_loop.Prelude.{
  ℕ, ◌+◌, String, Bool, true, false, ◌&&◌, Option, none, some, List, [], ◌∷◌, map, ltb, ◌==◌,
  if◌then◌else◌, str_eq, is_some, filter, filter_map, any,
}
use Prim.Native.String.{◌++◌ as append}
use ledger_loop.Enums.{WebhookProvider, WebhookDeliveryStatus}
use ledger_loop.Tenancy.{Account, WebhookSource, Tables, Tenant, tenant_of, account_of, first}

pub record ResolvedSource : Type 0 where
  pub source_id : ℕ
  pub provider : WebhookProvider
  pub signing_secret : String
  pub tenant : Tenant

-- A row of webhook_sources joined with its account.
unfoldable pub with_owner : Tables → WebhookSource → Option (WebhookSource × Account)
with_owner tables source = elim (account_of source.account_id tables) [
  | none ↦ none
  | some account ↦ some (source, account)
]

-- What both lookups make of the row that they read.
unfoldable pub live_source : Option (WebhookSource × Account) → Option ResolvedSource
live_source none = none
live_source (some (source, account)) =
    if is_some source.revoked_at
    then none
    else some (record {
      source_id = source.id;
      provider = source.provider;
      signing_secret = source.signing_secret;
      tenant = tenant_of account;
    })

-- A lookup by a WHERE clause.
unfoldable pub look_up : (WebhookSource → Bool) → Tables → Option ResolvedSource
look_up wanted tables =
    live_source (first (filter_map (with_owner tables) (filter wanted tables.webhook_sources)))

unfoldable pub resolve_source : String → Tables → Option ResolvedSource
resolve_source source_token tables =
    look_up (λ (s : WebhookSource). str_eq s.source_token source_token) tables

unfoldable pub resolve_source_for_tenant : Tenant → ℕ → Tables → Option ResolvedSource
resolve_source_for_tenant tenant source_id tables =
    look_up (λ (s : WebhookSource). (s.id == source_id) && (s.account_id == tenant.account_id))
      tables

unfoldable pub record_delivery : ℕ → ℕ → WebhookDeliveryStatus → Tables → Tables
record_delivery now source_id status tables = record tables {
  webhook_sources =
      map
        (λ (s : WebhookSource).
          if s.id == source_id
          then record s { last_event_at = some now; last_delivery_status = some status }
          else s)
        tables.webhook_sources;
}

-- `ORDER BY id`
unfoldable pub insert_source : WebhookSource → List WebhookSource → List WebhookSource
insert_source s [] = s ∷ []
insert_source s (x ∷ xs) =
    let rest = insert_source s xs in if ltb x.id s.id then x ∷ rest else s ∷ x ∷ xs

unfoldable pub order_sources : List WebhookSource → List WebhookSource
order_sources [] = []
order_sources (s ∷ rest) = insert_source s (order_sources rest)

unfoldable pub list_sources : Tenant → Tables → List WebhookSource
list_sources tenant tables =
    order_sources
      (filter (λ (s : WebhookSource). s.account_id == tenant.account_id) tables.webhook_sources)

-- `signing_secret or generate_signing_secret()`: an empty text counts as none.
unfoldable pub secret_or : String → Option String → String
secret_or secret none = append "whsec_" secret
secret_or secret (some given) = if str_eq given "" then append "whsec_" secret else given

abbrev pub new_source : Tenant → WebhookProvider → String → String → String → ℕ → WebhookSource
new_source tenant provider label token signing_secret id = record {
  id = id;
  account_id = tenant.account_id;
  provider = provider;
  source_token = token;
  signing_secret = signing_secret;
  label = label;
  last_event_at = none;
  last_delivery_status = none;
  revoked_at = none;
}

-- The unique index over source_token refuses a second source.
unfoldable pub create_source :
    String
    → String
    → Tenant
    → WebhookProvider
    → String
    → Option String
    → Tables
    → Option (WebhookSource × Tables)
create_source token secret tenant provider label signing_secret tables =
    if any (λ (s : WebhookSource). str_eq s.source_token token) tables.webhook_sources
    then none
    else (let source =
          new_source tenant provider label token (secret_or secret signing_secret)
            tables.next_source in
        some (
          source,
          record tables {
            webhook_sources = source ∷ tables.webhook_sources;
            next_source = tables.next_source + 1;
          },
        ))
