-- ===== src/Webhooks/Delivered.antt =====
-- What becomes of one delivery to provider_webhook of backend/ledgerloop/api/routes_ingest.py.
use ledger_loop.Prelude.{
  ℕ, ◌≡◌, refl, sym, ap, ◌⊎◌, inl, inr, true, false, Option, none, some, Bool-cases, Option-cases,
  str_eq,
}
use mathlib.Core.Option.{some-injective}
use ledger_loop.Enums.{WebhookProvider, WebhookDeliveryStatus}
use ledger_loop.Text.{Text, codes}
use ledger_loop.Store.{Db}
use ledger_loop.Tenancy.{WebhookSource}
use ledger_loop.Sources.{ResolvedSource, resolve_source}
use ledger_loop.Sources.Access.{Live, look_up-Live}
use ledger_loop.Signatures.{
  Verdict, default_tolerance, signature_header, verify, verify_stripe, verify_razorpay,
  verify_custom,
}
use ledger_loop.Signatures.Sound.{Signed, verify-Signed}
use ledger_loop.Adapters.{AdaptedWebhook}
use ledger_loop.Persist.Invariant.{Inv}
use ledger_loop.Ingest.{IngestOutcome, short_key}
use ledger_loop.Ingest.Rows.{RawInv}
use ledger_loop.Ingest.Gateway.{Received, long_key-refused, ingest_gateway-Received}
use ledger_loop.Webhooks.{
  Env, stdlib, Detail, plain, Answer, answered, http_exception, server_error, World, ack, Delivery,
  WebhookAccepted, recorded, Payload, mapped, rejected, uncaught, read_payload, store_delivery,
  deliver, judge, provider_webhook,
}

module _ (env : Env) (d : Delivery) (w : World) where
  -- The verdict on the delivery, for a source.
  abbrev pub verdict_for : ResolvedSource → Option Verdict
  verdict_for source =
      verify (stdlib env) source.provider d.raw_body (d.headers (signature_header source.provider))
        (codes source.signing_secret) d.verified_at default_tolerance

  -- The header that was sent for a source, and that it is signed with the source's secret.
  pub record Authentic (source : ResolvedSource) : Type 0 where
    pub header : Text
    pub sent : d.headers (signature_header source.provider) ≡ some header
    pub signed :
        Signed
          (stdlib env)
          source.provider
          d.raw_body
          header
          (codes source.signing_secret)
          d.verified_at
          default_tolerance

  -- The six ways that a delivery ends, with the answer and the state that each leaves.
  pub data Outcome : Answer WebhookAccepted × World → Type 0 where
    unknown :
        resolve_source d.source_token w.tables ≡ none
        → Outcome (http_exception 404 (plain "unknown source"), w)
    unsigned :
        (source : ResolvedSource)
        → Live w.tables source
        → (v : Verdict) → verdict_for source ≡ some v
        → v.ok ≡ false
        → Outcome (
          http_exception 401 (plain "invalid signature"),
          recorded d.recorded_at source WebhookDeliveryStatus.invalid_signature w,
        )
    unmapped :
        (source : ResolvedSource)
        → Live w.tables source
        → Authentic source
        → (detail : Detail)
        → read_payload env source.provider (env.loads d.raw_body) ≡ rejected detail
        → Outcome (
          http_exception 422 detail,
          recorded d.recorded_at source WebhookDeliveryStatus.invalid_payload w,
        )
    stored :
        (source : ResolvedSource)
        → Live w.tables source
        → Authentic source
        → (adapted : AdaptedWebhook)
        → read_payload env source.provider (env.loads d.raw_body) ≡ mapped adapted
        → (o : IngestOutcome) → (db' : Db)
        → Received d.ingested_at source.tenant.account_id adapted.payload adapted.idempotency_key
            w.db o db'
        → Outcome (
          answered (record {
            provider = source.provider;
            event_type = adapted.event_type;
            result = ack o;
          }),
          recorded d.recorded_at source WebhookDeliveryStatus.ok (record w { db = db' }),
        )
    too_long :
        (source : ResolvedSource)
        → Live w.tables source
        → Authentic source
        → (adapted : AdaptedWebhook)
        → read_payload env source.provider (env.loads d.raw_body) ≡ mapped adapted
        → short_key adapted.idempotency_key ≡ false
        → Outcome (server_error, w)
    crashed :
        (source : ResolvedSource)
        → Live w.tables source
        → (verdict_for source ≡ none)
          ⊎ (Authentic source
              × (read_payload env source.provider (env.loads d.raw_body) ≡ uncaught))
        → Outcome (server_error, w)

  no_header :
      (provider : WebhookProvider) (secret : Text) (now tolerance : ℕ) (v : Verdict)
      → verify (stdlib env) provider d.raw_body none secret now tolerance ≡ some v
      → v.ok ≡ false
  unfolding verify verify_stripe verify_razorpay verify_custom
  no_header WebhookProvider.stripe secret now tolerance v h =
      sym (ap (λ (x : Verdict). x.ok) (some-injective _ _ h))
  no_header WebhookProvider.razorpay secret now tolerance v h =
      sym (ap (λ (x : Verdict). x.ok) (some-injective _ _ h))
  no_header WebhookProvider.custom secret now tolerance v h =
      sym (ap (λ (x : Verdict). x.ok) (some-injective _ _ h))

  authentic :
      (source : ResolvedSource) (v : Verdict)
      → verdict_for source ≡ some v
      → v.ok ≡ true
      → Authentic source
  authentic source v h ok = elim (Option-cases (d.headers (signature_header source.provider))) [
    | inl e ↦
        let failed =
          no_header source.provider (codes source.signing_secret) d.verified_at default_tolerance v
            (rw e at h) in
        absurd (cc (failed, ok))
    | inr (header, e) ↦ record {
      header = header;
      sent = e;
      signed =
          verify-Signed (stdlib env) d.raw_body header (codes source.signing_secret) d.verified_at
            default_tolerance source.provider v (rw e at h) ok;
    }
  ]

  deliver-Outcome :
      (source : ResolvedSource) (p : Payload)
      → Inv w.db
      → RawInv w.db
      → Live w.tables source
      → Authentic source
      → read_payload env source.provider (env.loads d.raw_body) ≡ p
      → Outcome (deliver d source p w)
  unfolding deliver store_delivery
  deliver-Outcome source (mapped adapted) v r live a e =
      elim (Bool-cases (short_key adapted.idempotency_key)) [
        | inl short ↦
            let (o, db', run, received) =
              ingest_gateway-Received d.ingested_at source.tenant.account_id adapted.payload
                adapted.idempotency_key w.db v r short in
            rw (deliver, store_delivery, run) (stored source live a adapted e o db' received)
        | inr long ↦
            let run =
              long_key-refused d.ingested_at source.tenant.account_id adapted.payload
                adapted.idempotency_key w.db long in
            rw (deliver, store_delivery, run) (too_long source live a adapted e long)
      ]
  deliver-Outcome source (rejected detail) v r live a e = unmapped source live a detail e
  deliver-Outcome source uncaught v r live a e = crashed source live (inr (a, e))

  judge-Outcome :
      (source : ResolvedSource) (verdict : Option Verdict)
      → Inv w.db
      → RawInv w.db
      → Live w.tables source
      → verdict_for source ≡ verdict
      → Outcome (judge env d source verdict w)
  unfolding judge
  judge-Outcome source none v r live e = crashed source live (inl e)
  judge-Outcome source (some verdict) v r live e = elim (Bool-cases verdict.ok) [
    | inl q ↦
        rw (judge, q)
          (deliver-Outcome source (read_payload env source.provider (env.loads d.raw_body)) v r live
            (authentic source verdict e q) refl)
    | inr q ↦ rw (judge, q) (unsigned source live verdict e q)
  ]

  -- Every delivery to a webhook ends in one of six ways. An unknown or revoked token: 404, nothing
  -- changes. A live source and a signature that is refused: 401, and only the source's last delivery
  -- is recorded as invalid_signature. A body that is signed with the source's secret but is not JSON or
  -- cannot be mapped: 422 with what was wrong, and the delivery is recorded as invalid_payload. A
  -- signed and mapped body whose idempotency key has at most 255 characters: the source's account
  -- receives the transaction as ingestion does, and the delivery is recorded as ok. One with a longer
  -- key: a server error, with nothing stored or recorded. Or an exception that the endpoint does not
  -- catch, before anything is written: the comparison of the digests raised, or reading the signed body
  -- did. The store is well formed before.
  pub provider_webhook-Outcome : Inv w.db → RawInv w.db → Outcome (provider_webhook env d w)
  unfolding provider_webhook resolve_source
  provider_webhook-Outcome v r = elim (Option-cases (resolve_source d.source_token w.tables)) [
    | inl e ↦ rw (provider_webhook, e) (unknown e)
    | inr (source, e) ↦
        let live =
          (look_up-Live (λ (s : WebhookSource). str_eq s.source_token d.source_token) w.tables
            source e).0 in
        rw (provider_webhook, e) (judge-Outcome source (verdict_for source) v r live refl)
  ]
