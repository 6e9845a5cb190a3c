-- ===== src/Tests/Sources.antt =====
-- A webhook source of the real account.
use ledger_loop.Prelude.{In, ◌↔◌, ◌≡◌, refl, inl, inr, none, some, false, any, [], ◌∷◌, str_eq}
use ledger_loop.Enums.{WebhookProvider}
use ledger_loop.Tenancy.{WebhookSource, Tables, tenant_of, account_of}
use ledger_loop.Sources.{
  ResolvedSource, with_owner, live_source, look_up, resolve_source, resolve_source_for_tenant,
  secret_or, new_source, create_source, list_sources,
}
use ledger_loop.Sources.Listing.{Rising, list_sources_iff}
use ledger_loop.Sources.Access.{Live, resolve_source_for_tenant-Live, create_source-resolves}
use ledger_loop.Tests.Tenancy.{acme, tables, tables-DirectoryInv}

-- What a run computes with.
unfoldable pub sourcing : Unit {0}
unfolding str_eq account_of with_owner live_source look_up resolve_source_for_tenant secret_or
sourcing = tt

abbrev first_source : WebhookSource
first_source = new_source (tenant_of acme) WebhookProvider.stripe "shop" "tok_1" "whsec_1" 1

abbrev pub with_source : Tables
with_source = record tables {
  webhook_sources =
      new_source (tenant_of acme) WebhookProvider.stripe "shop" "tok_1" "whsec_1" 1 ∷ [];
}

abbrev pub resolved : ResolvedSource
resolved = record {
  source_id = 1;
  provider = WebhookProvider.stripe;
  signing_secret = "whsec_1";
  tenant = tenant_of acme;
}

pub own_source : resolve_source_for_tenant (tenant_of acme) 1 with_source ≡ some resolved
unfolding sourcing
own_source = refl

resolve_source_for_tenant-Live_example :
    Live with_source resolved
    × (resolved.source_id ≡ 1)
    × (resolved.tenant.account_id ≡ (tenant_of acme).account_id)
resolve_source_for_tenant-Live_example =
    resolve_source_for_tenant-Live (tenant_of acme) 1 with_source resolved own_source

new_token :
    any (λ (s : WebhookSource). str_eq s.source_token "tok_2") with_source.webhook_sources ≡ false
unfolding sourcing
new_token = refl

create_source-resolves_example :
    (source : WebhookSource) × (t' : Tables) × (create_source "tok_2" "xyz"
        (tenant_of acme)
        WebhookProvider.custom
        "test"
        none
        tables
      ≡ some (source, t'))
    × (resolve_source "tok_2" t'
        ≡ some (record {
          source_id = source.id;
          provider = WebhookProvider.custom;
          signing_secret = "whsec_xyz";
          tenant = tenant_of acme;
        }))
unfolding sourcing
create_source-resolves_example =
    create_source-resolves "tok_2" "xyz" acme WebhookProvider.custom "test" none tables
      tables-DirectoryInv (inr (inl refl)) refl

list_sources_iff_example :
    (In first_source (list_sources (tenant_of acme) with_source) ↔ (
      In first_source with_source.webhook_sources
      × (first_source.account_id ≡ (tenant_of acme).account_id)))
    × Rising 0 (list_sources (tenant_of acme) with_source)
list_sources_iff_example = list_sources_iff (tenant_of acme) with_source first_source
