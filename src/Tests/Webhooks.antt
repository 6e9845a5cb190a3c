-- ===== src/Tests/Webhooks.antt =====
-- A Stripe delivery and a self-test, under a digest that counts.
use ledger_loop.Prelude.{
  ℕ, ◌+◌, ◌*◌, ◌%◌, ◌≡◌, ◌≢◌, ◌↔◌, refl, true, false, none, some, List, [], ◌∷◌, arith,
  if◌then◌else◌, any,
}
use ledger_loop.Enums.{WebhookProvider, WebhookDeliveryStatus}
use ledger_loop.Instants.{unix_epoch}
use ledger_loop.Text.{Text, codes, text_eq, is_ascii, is_empty, strip}
use ledger_loop.Store.{Db}
use ledger_loop.Tenancy.{tenant_of}
use ledger_loop.Signatures.{accepted, refused, default_tolerance, verify_stripe, sign, verify}
use ledger_loop.Signatures.Stripe.{stripe_header, stripe_digest, verify_stripe-rotation}
use ledger_loop.Signatures.RoundTrip.{HexDigests, verify-sign}
use ledger_loop.Signatures.Sound.{Signed, verify-Signed}
use ledger_loop.Signatures.Raises.{verify-none_iff}
use ledger_loop.Json.{Json, num_str, text_digits}
use ledger_loop.Adapters.{AdaptedWebhook}
use ledger_loop.Adapters.Admitted.{FromBody, adapt-FromBody}
use ledger_loop.Ingest.{IngestOutcome, short_key}
use ledger_loop.Ingest.Gateway.{Received}
use ledger_loop.Webhooks.{
  Loads, Env, stdlib, builtins, World, Delivery, answered, recorded, provider_webhook,
}
use ledger_loop.Webhooks.Delivered.{Outcome, provider_webhook-Outcome}
use ledger_loop.Webhooks.Endpoints.{synthetic_event, test_gateway_source}
use ledger_loop.Webhooks.Synthetic.{custom_key, test_payment, stripe_event-adapts}
use ledger_loop.Webhooks.SelfTest.{test_gateway_source-delivers}
use ledger_loop.Tests.{db, db-Inv}
use ledger_loop.Tests.Ingest.{db-RawInv}
use ledger_loop.Tests.Tenancy.{acme}
use ledger_loop.Tests.Sources.{with_source, resolved, own_source}

abbrev total : List ℕ → ℕ
total [] = 0
total (c ∷ cs) = c + total cs

-- One hexadecimal digit.
abbrev short_digest : List ℕ → List ℕ → Text
short_digest key message = (97 + (total key + total message) % 6) ∷ []

abbrev plain_env : Env
plain_env = record {
  hmac_sha256_hex = short_digest;
  exotic_int = λ s. none;
  exotic_upper = λ s. s;
  repr = λ v. "[]";
  loads = λ bytes. Loads.json_decode_error;
  dumps = λ v. codes "{}";
  isoformat = λ at. "";
  model_validate = λ v. some (test_payment "REF-TEST-" 1700000000);
}

abbrev at : ℕ
at = (unix_epoch + 1700000000) * 1000000

abbrev event : Json
event = synthetic_event plain_env WebhookProvider.stripe at

abbrev env : Env
env = record plain_env { loads = λ bytes. Loads.value event }

abbrev secret : Text
secret = codes "whsec_1"

short_digest-HexDigests : HexDigests (stdlib env)
short_digest-HexDigests = record {
  hex = λ key message. (ground arith, tt);
  present = λ key message. refl;
}

verify_stripe-rotation_example :
    verify_stripe
      (stdlib env)
      (codes "{}")
      (some (stripe_header 1700000000 (codes "0" ∷ codes "a" ∷ [])))
      secret
      at
      default_tolerance
    ≡ some (
        if any
          (text_eq (stripe_digest (stdlib env) secret 1700000000 (codes "{}")))
          (codes "0" ∷ codes "a" ∷ [])
        then accepted
        else refused "signature mismatch")
verify_stripe-rotation_example =
    verify_stripe-rotation (stdlib env) (codes "{}") secret at default_tolerance 1700000000
      (codes "0") (codes "a" ∷ []) (ground arith) ((refl, tt), ((refl, tt), tt)) (omega arith)
      (omega arith)

verify-sign_example :
    verify
      (stdlib env)
      WebhookProvider.stripe
      (codes "{}")
      (some (sign (stdlib env) WebhookProvider.stripe (codes "{}") secret at))
      secret
      at
      default_tolerance
    ≡ some accepted
verify-sign_example =
    verify-sign (stdlib env) short_digest-HexDigests WebhookProvider.stripe (codes "{}") secret at
      default_tolerance (omega arith) (omega arith) (omega arith)

verify-Signed_example :
    Signed
      (stdlib env)
      WebhookProvider.stripe
      (codes "{}")
      (sign (stdlib env) WebhookProvider.stripe (codes "{}") secret at)
      secret
      at
      default_tolerance
verify-Signed_example =
    verify-Signed (stdlib env) (codes "{}")
      (sign (stdlib env) WebhookProvider.stripe (codes "{}") secret at) secret at default_tolerance
      WebhookProvider.stripe accepted verify-sign_example refl

not_stripe : WebhookProvider.razorpay ≢ WebhookProvider.stripe
not_stripe e = cc e

not_custom : WebhookProvider.stripe ≢ WebhookProvider.custom
not_custom e = cc e

verify-none_iff_example :
    (verify
        (stdlib env)
        WebhookProvider.razorpay
        (codes "{}")
        (some (233 ∷ []))
        secret
        at
        default_tolerance
      ≡ none)
    ↔ ((is_empty (233 ∷ []) ≡ false) × (is_ascii (strip (233 ∷ [])) ≡ false))
verify-none_iff_example =
    verify-none_iff (stdlib env) (codes "{}") (233 ∷ []) secret at default_tolerance
      WebhookProvider.razorpay not_stripe (ground arith)

adapt-FromBody_example :
    FromBody
      (builtins env)
      env.model_validate
      WebhookProvider.stripe
      (synthetic_event env WebhookProvider.stripe at)
      (test_payment "pi_test_" 1700000000)
adapt-FromBody_example =
    adapt-FromBody (builtins env) env.model_validate WebhookProvider.stripe
      (synthetic_event env WebhookProvider.stripe at) _ not_custom
      (stripe_event-adapts env at (omega arith))

abbrev world : World
world = record { tables = with_source; db = db }

abbrev delivery : Delivery
delivery = record {
  source_token = "tok_1";
  headers = λ name. some (sign (stdlib env) WebhookProvider.stripe (codes "{}") secret at);
  raw_body = codes "{}";
  verified_at = at;
  ingested_at = at;
  recorded_at = at;
}

provider_webhook-Outcome_example : Outcome env delivery world (provider_webhook env delivery world)
provider_webhook-Outcome_example = provider_webhook-Outcome env delivery world db-Inv db-RawInv

short_custom : short_key (custom_key (test_payment "REF-TEST-" 1700000000)) ≡ true
unfolding num_str text_digits
short_custom = refl

test_gateway_source-delivers_example :
    (a : AdaptedWebhook) × (o : IngestOutcome) × (db' : Db) × Received at 3 a.payload
      a.idempotency_key db o db'
    × (test_gateway_source env at at at (tenant_of acme) 1 world ≡ (
      answered (record {
        delivered = true;
        http_status = 202;
        duplicate = o.duplicate;
        txn_id = some o.txn_id;
        detail = none;
      }),
      recorded at resolved WebhookDeliveryStatus.ok (record world { db = db' }),
    ))
test_gateway_source-delivers_example =
    test_gateway_source-delivers env at at at (tenant_of acme) 1 resolved
      (test_payment "REF-TEST-" 1700000000) world short_digest-HexDigests (omega arith)
      (omega arith) db-Inv db-RawInv own_source (λ e. (refl, short_custom))
