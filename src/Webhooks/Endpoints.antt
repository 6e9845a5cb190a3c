-- ===== src/Webhooks/Endpoints.antt =====
-- backend/ledgerloop/api/routes_ingest.py: the endpoints that list, create and test the webhook sources
-- of an account.
use ledger_loop.Prelude.{
  ℕ, String, Bool, true, false, Option, none, some, List, map, if◌then◌else◌, pos,
}
use Prim.Native.String.{◌++◌ as append}
use ledger_loop.Enums.{WebhookProvider, WebhookDeliveryStatus}
use ledger_loop.Instants.{unix_seconds}
use ledger_loop.Text.{codes}
use ledger_loop.Tenancy.{Tenant, WebhookSource, is_demo}
use ledger_loop.Sources.{ResolvedSource, resolve_source_for_tenant, list_sources, create_source}
use ledger_loop.Signatures.{Verdict, default_tolerance, verify, sign}
use ledger_loop.Json.{Json, Fields, num_str}
use ledger_loop.Adapters.{AdaptedWebhook, adapt}
use ledger_loop.Ingest.{ingest_gateway}
use ledger_loop.Webhooks.{
  Env, stdlib, builtins, Detail, plain, Answer, answered, http_exception, server_error, World,
  recorded, Payload, mapped, rejected, uncaught, caught,
}

-- WebhookSourceOut, without created_at: the secret is left out.
pub record WebhookSourceOut : Type 0 where
  pub id : ℕ
  pub provider : WebhookProvider
  pub source_token : String
  pub label : String
  pub last_event_at : Option ℕ
  pub last_delivery_status : Option WebhookDeliveryStatus
  pub revoked_at : Option ℕ

abbrev pub source_out : WebhookSource → WebhookSourceOut
source_out row = record {
  id = row.id;
  provider = row.provider;
  source_token = row.source_token;
  label = row.label;
  last_event_at = row.last_event_at;
  last_delivery_status = row.last_delivery_status;
  revoked_at = row.revoked_at;
}

unfoldable pub list_gateway_sources : Tenant → World → List WebhookSourceOut
list_gateway_sources tenant w = map source_out (list_sources tenant w.tables)

-- `token` and `secret` are what secrets.token_urlsafe draws.
unfoldable pub create_gateway_source :
    String → String → Tenant → WebhookProvider → String → World → Answer WebhookSourceOut × World
create_gateway_source token secret tenant provider label w =
    if is_demo tenant.kind
    then (
      http_exception 403
          (plain "a live endpoint requires an account key; demo tenants expire after 24h"),
      w,
    )
    else elim (create_source token secret tenant provider label none w.tables) [
      | none ↦ (server_error, w)
      | some (source, tables') ↦ (answered (source_out source), record w { tables = tables' })
    ]

-- One field of an object in front of others.
abbrev pub entry : String → Json → Fields → Fields
entry key v rest = Fields.field key v rest

abbrev pub no_more : Fields
no_more = Fields.no_fields

unfoldable pub synthetic_event : Env → WebhookProvider → ℕ → Json
synthetic_event env provider at =
    let stamp = unix_seconds at in
    let text = num_str stamp in
    let txn_id = Json.str (append "LEDGERLOOP-TEST-" text) in
    elim provider [
      | WebhookProvider.stripe ↦ Json.object (
          entry "id" (Json.str (append "evt_test_" text)) (
            entry "type" (Json.str "payment_intent.succeeded") (
              entry "created" (Json.int (pos stamp)) (
                entry "data"
                  (Json.object (
                    entry "object"
                      (Json.object (
                        entry "id" (Json.str (append "pi_test_" text)) (
                          entry "amount" (Json.int (pos 105000)) (
                            entry "currency" (Json.str "inr") (
                              entry "created" (Json.int (pos stamp)) (
                                entry "metadata" (Json.object (entry "txn_id" txn_id no_more))
                                  no_more))))))
                      no_more))
                  no_more))))
      | WebhookProvider.razorpay ↦ Json.object (
          entry "event" (Json.str "payment.captured") (
            entry "payload"
              (Json.object (
                entry "payment"
                  (Json.object (
                    entry "entity"
                      (Json.object (
                        entry "id" (Json.str (append "pay_test_" text)) (
                          entry "amount" (Json.int (pos 105000)) (
                            entry "currency" (Json.str "INR") (
                              entry "created_at" (Json.int (pos stamp)) (
                                entry "notes" (Json.object (entry "txn_id" txn_id no_more))
                                  no_more))))))
                      no_more))
                  no_more))
              no_more))
      | WebhookProvider.custom ↦ Json.object (
          entry "txn_id" txn_id (
            entry "amount" (Json.str "1050.00") (
              entry "currency" (Json.str "INR") (
                entry "occurred_at" (Json.str (env.isoformat at))
                  (entry "gateway_ref" (Json.str (append "REF-TEST-" text)) no_more)))))
    ]

pub record WebhookTestResult : Type 0 where
  pub delivered : Bool
  pub http_status : ℕ
  pub duplicate : Bool
  pub txn_id : Option String
  pub detail : Option Detail

abbrev pub not_delivered : ℕ → Detail → WebhookTestResult
not_delivered http_status detail = record {
  delivered = false;
  http_status = http_status;
  duplicate = false;
  txn_id = none;
  detail = some detail;
}

-- The rest of the test behind the adapter; `ingested_at` and `recorded_at` are later readings.
unfoldable pub test_ingest :
    ℕ → ℕ → ResolvedSource → AdaptedWebhook → World → Answer WebhookTestResult × World
test_ingest ingested_at recorded_at source adapted w =
    elim (ingest_gateway ingested_at source.tenant.account_id adapted.payload
      adapted.idempotency_key w.db) [
        | none ↦ (server_error, w)
        | some (outcome, db') ↦ (
          answered (record {
            delivered = true;
            http_status = 202;
            duplicate = outcome.duplicate;
            txn_id = some outcome.txn_id;
            detail = none;
          }),
          recorded recorded_at source WebhookDeliveryStatus.ok (record w { db = db' }),
        )
      ]

unfoldable pub test_payload :
    ℕ → ℕ → ResolvedSource → Payload → World → Answer WebhookTestResult × World
test_payload ingested_at recorded_at source (mapped adapted) w =
    test_ingest ingested_at recorded_at source adapted w
test_payload ingested_at recorded_at source (rejected detail) w = (
  answered (not_delivered 422 detail),
  recorded recorded_at source WebhookDeliveryStatus.invalid_payload w,
)
test_payload ingested_at recorded_at source uncaught w = (server_error, w)

unfoldable pub test_verdict :
    Env → ℕ → ℕ → ResolvedSource → Json → Option Verdict → World → Answer WebhookTestResult × World
test_verdict env ingested_at recorded_at source body none w = (server_error, w)
test_verdict env ingested_at recorded_at source body (some verdict) w =
    if verdict.ok
    then test_payload ingested_at recorded_at source
        (caught (adapt (builtins env) env.model_validate source.provider body)) w
    else (
      answered (not_delivered 401 (plain verdict.reason)),
      recorded recorded_at source WebhookDeliveryStatus.invalid_signature w,
    )

-- The synthetic event's bytes are signed and verified with the source's own secret.
unfoldable pub test_source :
    Env → ℕ → ℕ → ℕ → ResolvedSource → World → Answer WebhookTestResult × World
test_source env signed_at ingested_at recorded_at source w =
    let body = synthetic_event env source.provider signed_at in
    let raw_body = env.dumps body in
    let secret = codes source.signing_secret in
    let header = sign (stdlib env) source.provider raw_body secret signed_at in
    test_verdict env ingested_at recorded_at source body
      (verify (stdlib env) source.provider raw_body (some header) secret signed_at
        default_tolerance)
      w

unfoldable pub test_gateway_source :
    Env → ℕ → ℕ → ℕ → Tenant → ℕ → World → Answer WebhookTestResult × World
test_gateway_source env signed_at ingested_at recorded_at tenant source_id w =
    elim (resolve_source_for_tenant tenant source_id w.tables) [
      | none ↦ (http_exception 404 (plain "unknown source"), w)
      | some source ↦ test_source env signed_at ingested_at recorded_at source w
    ]
