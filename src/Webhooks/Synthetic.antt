-- ===== src/Webhooks/Synthetic.antt =====
-- _synthetic_event of backend/ledgerloop/api/routes_ingest.py through the adapters.
use ledger_loop.Prelude.{
  ℕ, ◌+◌, ◌*◌, ◌≤◌, ◌<◌, ◌≡◌, refl, String, true, false, Option, some, arith, length, leb, str_eq,
  pos,
}
use Prim.Native.String.{◌++◌ as append}
use ledger_loop.Enums.{WebhookProvider}
use ledger_loop.Instants.{unix_epoch, last_second, fromtimestamp, unix_seconds}
use ledger_loop.Text.{codes}
use ledger_loop.Text.Decimal.{max_id}
use ledger_loop.Json.{Json, Builtins, lookup, num_str, upper, str_of, int_value}
use ledger_loop.Json.Numbers.{length-append-num_str, length-codes-append, nonempty-str_eq}
use ledger_loop.Ingest.{GatewayWebhookIn, short_key}
use ledger_loop.Adapters.{
  Result, AdaptedWebhook, zero_decimal, three_decimal, short_id, admits, construct, require,
  minor_to_major, instant_of, stripe_payment, adapt_stripe, razorpay_payment, adapt_razorpay,
  adapt_custom, adapt,
}
use ledger_loop.Webhooks.{Env, builtins}
use ledger_loop.Webhooks.Endpoints.{synthetic_event}

-- What the adapters make of the test event of a second.
abbrev pub test_payment : String → ℕ → GatewayWebhookIn
test_payment reference stamp = record {
  txn_id = append "LEDGERLOOP-TEST-" (num_str stamp);
  amount = pos 105000;
  currency = "INR";
  occurred_at = (unix_epoch + stamp) * 1000000;
  gateway_ref = append reference (num_str stamp);
}

short_prefix :
    (s : String) (n : ℕ)
    → n < max_id
    → 1 ≤ length (codes s)
    → length (codes s) ≤ 100
    → short_id (append s (num_str n)) ≡ true
short_prefix s n h some_text few =
    let (longer, bounded) = length-append-num_str s n h in ground (arith, longer, bounded)

not_empty :
    (s : String) (n : ℕ)
    → n < max_id
    → 1 ≤ length (codes s)
    → str_eq (append s (num_str n)) "" ≡ false
not_empty s n h some_text =
    nonempty-str_eq (append s (num_str n)) (omega (arith, (length-append-num_str s n h).0))

-- The key of a custom event.
abbrev pub custom_key : GatewayWebhookIn → String
custom_key p = append "custom:" (append p.txn_id (append ":" p.gateway_ref))

short_prefixed :
    (provider s : String) (n : ℕ)
    → n < max_id
    → length (codes provider) + length (codes s) ≤ 200
    → short_key (append provider (append s (num_str n))) ≡ true
short_prefixed provider s n h few =
    let whole = length-codes-append provider (append s (num_str n)) in
    let (longer, bounded) = length-append-num_str s n h in ground (arith, whole, bounded, few)

test_payment-admits :
    (reference : String) (stamp : ℕ)
    → stamp < max_id
    → 1 ≤ length (codes reference)
    → length (codes reference) ≤ 100
    → admits (test_payment reference stamp) ≡ true
unfolding admits
test_payment-admits reference stamp h some_text few =
    let txn = short_prefix "LEDGERLOOP-TEST-" stamp h (omega arith) (omega arith) in
    let ref = short_prefix reference stamp h some_text few in rw (txn, ref) refl

custom-adapts :
    (py : Builtins) (model_validate : Json → Option GatewayWebhookIn) (body : Json)
    (p : GatewayWebhookIn)
    → model_validate body ≡ some p
    → adapt py model_validate WebhookProvider.custom body
      ≡ Result.ok (record {
        payload = p;
        idempotency_key = append "custom:" (append p.txn_id (append ":" p.gateway_ref));
        event_type = "custom";
      })
unfolding adapt adapt_custom
custom-adapts py model_validate body p h = rw (adapt_custom, h) refl

module _ (env : Env) (at : ℕ) (years : unix_seconds at ≤ last_second) where
  pub stripe_event-adapts :
      adapt
        (builtins env)
        env.model_validate
        WebhookProvider.stripe
        (synthetic_event env WebhookProvider.stripe at)
      ≡ Result.ok (record {
        payload = test_payment "pi_test_" (unix_seconds at);
        idempotency_key = append "stripe:" (append "evt_test_" (num_str (unix_seconds at)));
        event_type = "payment_intent.succeeded";
      })
  unfolding adapt adapt_stripe stripe_payment synthetic_event require lookup str_eq upper str_of
      int_value minor_to_major instant_of construct three_decimal zero_decimal fromtimestamp
  stripe_event-adapts =
      let stamp = unix_seconds at in
      let year : leb stamp last_second ≡ true = ground (arith, years) in
      let id = not_empty "evt_test_" stamp (omega arith) (omega arith) in
      let txn = not_empty "LEDGERLOOP-TEST-" stamp (omega arith) (omega arith) in
      let fine = test_payment-admits "pi_test_" stamp (omega arith) (omega arith) (omega arith) in
      rw (txn, id, year, fine) refl

  razorpay_event-adapts :
      adapt
        (builtins env)
        env.model_validate
        WebhookProvider.razorpay
        (synthetic_event env WebhookProvider.razorpay at)
      ≡ Result.ok (record {
        payload = test_payment "pay_test_" (unix_seconds at);
        idempotency_key = append "razorpay:" (append "pay_test_" (num_str (unix_seconds at)));
        event_type = "payment.captured";
      })
  unfolding adapt adapt_razorpay razorpay_payment synthetic_event require lookup str_eq upper str_of
      int_value minor_to_major instant_of construct three_decimal zero_decimal fromtimestamp
  razorpay_event-adapts =
      let stamp = unix_seconds at in
      let year : leb stamp last_second ≡ true = ground (arith, years) in
      let txn = not_empty "LEDGERLOOP-TEST-" stamp (omega arith) (omega arith) in
      let fine = test_payment-admits "pay_test_" stamp (omega arith) (omega arith) (omega arith) in
      rw (txn, year, fine) refl

  -- The test event of every provider is mapped; for the custom one, given that the schema library
  -- accepts it.
  pub event-adapts :
      (provider : WebhookProvider) (p : GatewayWebhookIn)
      → (provider ≡ WebhookProvider.custom
          → (env.model_validate (synthetic_event env WebhookProvider.custom at) ≡ some p)
            × (short_key (custom_key p) ≡ true))
      → (a : AdaptedWebhook) × (short_key a.idempotency_key ≡ true)
        × (adapt (builtins env) env.model_validate provider (synthetic_event env provider at)
            ≡ Result.ok a)
  event-adapts WebhookProvider.stripe p h = (
    _,
    short_prefixed "stripe:" "evt_test_" (unix_seconds at) (omega arith) (omega arith),
    stripe_event-adapts,
  )
  event-adapts WebhookProvider.razorpay p h = (
    _,
    short_prefixed "razorpay:" "pay_test_" (unix_seconds at) (omega arith) (omega arith),
    razorpay_event-adapts,
  )
  event-adapts WebhookProvider.custom p h = (
    record {
      payload = p;
      idempotency_key = append "custom:" (append p.txn_id (append ":" p.gateway_ref));
      event_type = "custom";
    },
    (h refl).1,
    custom-adapts (builtins env) env.model_validate (synthetic_event env WebhookProvider.custom at)
        p (h refl).0,
  )
