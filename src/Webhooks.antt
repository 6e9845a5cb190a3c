-- ===== src/Webhooks.antt =====
-- backend/ledgerloop/api/routes_ingest.py: the endpoints that take transactions and that manage webhook
-- sources, over the services they call. A request's body is parsed and its caller resolved before a
-- handler runs. `http_exception` is a handler's own refusal, `server_error` an exception that it does
-- not catch. Metrics and logs are left out.
pub mod Delivered
pub mod Endpoints
pub mod Synthetic
pub mod SelfTest
use ledger_loop.Prelude.{
  ℕ, ◌+◌, ◌-◌, String, Bool, true, false, not, Option, none, some, List, [], ◌∷◌, map, length,
  filter, if◌then◌else◌, ℤ, pos,
}
use Prim.Native.String.{◌++◌ as append}
use ledger_loop.Enums.{WebhookProvider, WebhookDeliveryStatus}
use ledger_loop.Instants.{unix_seconds}
use ledger_loop.Text.{Text, codes}
use ledger_loop.Store.{Db}
use ledger_loop.Tenancy.{Tables, Tenant, WebhookSource, is_demo}
use ledger_loop.Sources.{
  ResolvedSource, resolve_source, resolve_source_for_tenant, record_delivery, list_sources,
  create_source,
}
use ledger_loop.Signatures.{Stdlib, Verdict, default_tolerance, signature_header, verify, sign}
use ledger_loop.Json.{Json, Fields, Builtins, is_dict, num_str}
use ledger_loop.Adapters.{Complaint, Failure, Result, AdaptedWebhook, adapt}
use ledger_loop.Ingest.{GatewayWebhookIn, LedgerEntryIn, IngestOutcome, ingest_gateway}
use ledger_loop.Ingest.Batch.{ingest_ledger_batch}

-- What json.loads gives: a value, a JSONDecodeError, or another exception, as UnicodeDecodeError.
pub data Loads : Type 0 where
  value : Json → Loads
  json_decode_error : Loads
  other_error : Loads

-- What stands outside the repository: the standard library and the schema library.
pub record Env : Type 0 where
  pub hmac_sha256_hex : List ℕ → List ℕ → Text
  pub exotic_int : Text → Option ℤ
  pub exotic_upper : String → String
  pub repr : Json → String
  pub loads : List ℕ → Loads
  pub dumps : Json → List ℕ
  pub isoformat : ℕ → String
  pub model_validate : Json → Option GatewayWebhookIn

abbrev pub stdlib : Env → Stdlib
stdlib env = record { hmac_sha256_hex = env.hmac_sha256_hex; exotic_int = env.exotic_int }

abbrev pub builtins : Env → Builtins
builtins env = record {
  exotic_int = env.exotic_int;
  exotic_upper = env.exotic_upper;
  repr = env.repr;
}

-- A detail of a refusal: a text, what an AdapterError says, or what a JSONDecodeError says.
pub data Detail : Type 0 where
  plain : String → Detail
  complaint : Complaint → Detail
  not_json : Detail

pub data Answer {ℓ} (A : Type ℓ) : Type ℓ where
  answered : A → Answer A
  http_exception : ℕ → Detail → Answer A
  server_error : Answer A

pub record World : Type 0 where
  pub tables : Tables
  pub db : Db

pub record IngestAck : Type 0 where
  pub row_id : ℕ
  pub txn_id : String
  pub duplicate : Bool
  pub submissions : ℕ

abbrev pub ack : IngestOutcome → IngestAck
ack outcome = record {
  row_id = outcome.row_id;
  txn_id = outcome.txn_id;
  duplicate = outcome.duplicate;
  submissions = outcome.submissions;
}

unfoldable pub gateway_webhook :
    ℕ → Tenant → GatewayWebhookIn → String → World → Answer IngestAck × World
gateway_webhook now tenant payload idempotency_key w =
    elim (ingest_gateway now tenant.account_id payload idempotency_key w.db) [
      | none ↦ (server_error, w)
      | some (outcome, db') ↦ (answered (ack outcome), record w { db = db' })
    ]

pub record LedgerSyncAccepted : Type 0 where
  pub accepted : ℕ
  pub duplicates : ℕ
  pub results : List IngestAck

-- `duplicates`, `accepted` and the answers of a batch's outcomes.
abbrev pub sync_accepted : List IngestOutcome → LedgerSyncAccepted
sync_accepted outcomes =
    let duplicates = length (filter (λ (o : IngestOutcome). o.duplicate) outcomes) in
    record {
      accepted = length outcomes - duplicates;
      duplicates = duplicates;
      results = map ack outcomes;
    }

unfoldable pub ledger_sync :
    ℕ → Tenant → List LedgerEntryIn → World → Answer LedgerSyncAccepted × World
ledger_sync now tenant entries w = elim (ingest_ledger_batch now tenant.account_id entries w.db) [
  | none ↦ (server_error, w)
  | some (outcomes, db') ↦ (answered (sync_accepted outcomes), record w { db = db' })
]

-- A delivery: the path's token, the headers, the raw body, and the clock's readings at its verification,
-- at its ingestion and at the recording of its outcome.
pub record Delivery : Type 0 where
  pub source_token : String
  pub headers : String → Option Text
  pub raw_body : List ℕ
  pub verified_at : ℕ
  pub ingested_at : ℕ
  pub recorded_at : ℕ

pub record WebhookAccepted : Type 0 where
  pub provider : WebhookProvider
  pub event_type : String
  pub result : IngestAck

abbrev pub recorded : ℕ → ResolvedSource → WebhookDeliveryStatus → World → World
recorded now source status w = record w {
  tables = record_delivery now source.source_id status w.tables;
}

-- What the try block over the body comes to.
pub data Payload : Type 0 where
  mapped : AdaptedWebhook → Payload
  rejected : Detail → Payload
  uncaught : Payload

abbrev pub caught : Result AdaptedWebhook → Payload
caught (Result.ok adapted) = mapped adapted
caught (Result.raise (Failure.adapter_error c)) = rejected (complaint c)
caught (Result.raise _) = uncaught

unfoldable pub read_value : Env → WebhookProvider → Json → Payload
read_value env provider body =
    if is_dict body
    then caught (adapt (builtins env) env.model_validate provider body)
    else rejected (complaint Complaint.not_an_object)

unfoldable pub read_payload : Env → WebhookProvider → Loads → Payload
read_payload env provider (Loads.value body) = read_value env provider body
read_payload env provider Loads.json_decode_error = rejected not_json
read_payload env provider Loads.other_error = uncaught

-- The transaction that stores an adapted delivery, and the record of its success.
unfoldable pub store_delivery :
    Delivery → ResolvedSource → AdaptedWebhook → World → Answer WebhookAccepted × World
store_delivery d source adapted w =
    elim (ingest_gateway d.ingested_at source.tenant.account_id adapted.payload
      adapted.idempotency_key w.db) [
        | none ↦ (server_error, w)
        | some (outcome, db') ↦ (
          answered (record {
            provider = source.provider;
            event_type = adapted.event_type;
            result = ack outcome;
          }),
          recorded d.recorded_at source WebhookDeliveryStatus.ok (record w { db = db' }),
        )
      ]

unfoldable pub deliver :
    Delivery → ResolvedSource → Payload → World → Answer WebhookAccepted × World
deliver d source (mapped adapted) w = store_delivery d source adapted w
deliver d source (rejected detail) w = (
  http_exception 422 detail,
  recorded d.recorded_at source WebhookDeliveryStatus.invalid_payload w,
)
deliver d source uncaught w = (server_error, w)

unfoldable pub judge :
    Env → Delivery → ResolvedSource → Option Verdict → World → Answer WebhookAccepted × World
judge env d source none w = (server_error, w)
judge env d source (some verdict) w =
    if verdict.ok
    then deliver d source (read_payload env source.provider (env.loads d.raw_body)) w
    else (
      http_exception 401 (plain "invalid signature"),
      recorded d.recorded_at source WebhookDeliveryStatus.invalid_signature w,
    )

unfoldable pub provider_webhook : Env → Delivery → World → Answer WebhookAccepted × World
provider_webhook env d w = elim (resolve_source d.source_token w.tables) [
  | none ↦ (http_exception 404 (plain "unknown source"), w)
  | some source ↦
      judge env d source
        (verify (stdlib env) source.provider d.raw_body
          (d.headers (signature_header source.provider)) (codes source.signing_secret) d.verified_at
          default_tolerance)
        w
]
