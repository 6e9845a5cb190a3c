-- ===== src/Webhooks/SelfTest.antt =====
-- test_gateway_source of backend/ledgerloop/api/routes_ingest.py: what a test of a live source does.
use ledger_loop.Prelude.{ℕ, ◌+◌, ◌*◌, ◌/◌, ◌≤◌, ◌≡◌, refl, true, none, some, arith}
use ledger_loop.Enums.{WebhookProvider, WebhookDeliveryStatus}
use ledger_loop.Instants.{unix_epoch, last_second}
use ledger_loop.Text.{codes}
use ledger_loop.Store.{Db}
use ledger_loop.Tenancy.{Tenant}
use ledger_loop.Sources.{ResolvedSource, resolve_source_for_tenant}
use ledger_loop.Signatures.{default_tolerance, verify, sign, accepted}
use ledger_loop.Signatures.RoundTrip.{HexDigests, verify-sign}
use ledger_loop.Adapters.{Result, AdaptedWebhook, adapt}
use ledger_loop.Persist.Invariant.{Inv}
use ledger_loop.Ingest.{GatewayWebhookIn, IngestOutcome, ingest_gateway, short_key}
use ledger_loop.Ingest.Rows.{RawInv}
use ledger_loop.Ingest.Gateway.{Received, ingest_gateway-Received}
use ledger_loop.Webhooks.{Env, stdlib, builtins, answered, World, recorded}
use ledger_loop.Webhooks.Endpoints.{
  synthetic_event, test_ingest, test_payload, test_verdict, test_source, test_gateway_source,
}
use ledger_loop.Webhooks.Synthetic.{custom_key, event-adapts}

run_test :
    (env : Env) (signed_at ingested_at recorded_at : ℕ) (tenant : Tenant) (source_id : ℕ)
    (source : ResolvedSource) (w : World) (a : AdaptedWebhook) (o : IngestOutcome) (db' : Db)
    → resolve_source_for_tenant tenant source_id w.tables ≡ some source
    → (let raw_body = env.dumps (synthetic_event env source.provider signed_at) in
        let secret = codes source.signing_secret in
        verify
          (stdlib env)
          source.provider
          raw_body
          (some (sign (stdlib env) source.provider raw_body secret signed_at))
          secret
          signed_at
          default_tolerance
        ≡ some accepted)
    → adapt
        (builtins env)
        env.model_validate
        source.provider
        (synthetic_event env source.provider signed_at)
      ≡ Result.ok a
    → ingest_gateway ingested_at source.tenant.account_id a.payload a.idempotency_key w.db
      ≡ some (o, db')
    → test_gateway_source env signed_at ingested_at recorded_at tenant source_id w ≡ (
      answered (record {
        delivered = true;
        http_status = 202;
        duplicate = o.duplicate;
        txn_id = some o.txn_id;
        detail = none;
      }),
      recorded recorded_at source WebhookDeliveryStatus.ok (record w { db = db' }),
    )
unfolding test_gateway_source test_source test_verdict test_payload test_ingest
run_test env signed_at ingested_at recorded_at tenant source_id source w a o db' resolved verified
      mapped run =
    rw (test_gateway_source, resolved, verified, mapped, test_payload, test_ingest, run) refl

-- A test of a source that resolves for the account is delivered: the event that the server signs with
-- the source's own secret verifies, maps, and is received as a transaction of the source's account; the
-- answer is 202 with whether it was a duplicate, and the delivery is recorded as ok. This holds for the
-- three providers, for the custom one where the schema library accepts the event, with texts that make a
-- key of at most 255 characters; given that a digest
-- is hexadecimal, that the instant is from 1970 on and of a year up to 9999, and that the store is
-- well formed.
pub test_gateway_source-delivers :
    (env : Env) (signed_at ingested_at recorded_at : ℕ) (tenant : Tenant) (source_id : ℕ)
    (source : ResolvedSource) (p : GatewayWebhookIn) (w : World)
    → HexDigests (stdlib env)
    → unix_epoch * 1000000 ≤ signed_at
    → signed_at / 1000000 ≤ unix_epoch + last_second
    → Inv w.db
    → RawInv w.db
    → resolve_source_for_tenant tenant source_id w.tables ≡ some source
    → (source.provider ≡ WebhookProvider.custom
        → (env.model_validate (synthetic_event env WebhookProvider.custom signed_at) ≡ some p)
          × (short_key (custom_key p) ≡ true))
    → (a : AdaptedWebhook) × (o : IngestOutcome) × (db' : Db) × Received ingested_at
        source.tenant.account_id a.payload a.idempotency_key w.db o db'
      × (test_gateway_source env signed_at ingested_at recorded_at tenant source_id w ≡ (
        answered (record {
          delivered = true;
          http_status = 202;
          duplicate = o.duplicate;
          txn_id = some o.txn_id;
          detail = none;
        }),
        recorded recorded_at source WebhookDeliveryStatus.ok (record w { db = db' }),
      ))
test_gateway_source-delivers env signed_at ingested_at recorded_at tenant source_id source p w h
      modern years v r resolved custom =
    let (a, short, mapped) = event-adapts env signed_at (omega arith) source.provider p custom in
    let (o, db', run, received) =
      ingest_gateway-Received ingested_at source.tenant.account_id a.payload a.idempotency_key w.db
        v r short in
    let raw_body = env.dumps (synthetic_event env source.provider signed_at) in
    let verified =
      verify-sign (stdlib env) h source.provider raw_body (codes source.signing_secret) signed_at
        default_tolerance (omega arith) modern years in
    (
      a,
      o,
      db',
      received,
      run_test env signed_at ingested_at recorded_at tenant source_id source w a o db' resolved
          verified mapped run,
    )
