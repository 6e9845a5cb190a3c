-- ===== src/Adapters/Admitted.antt =====
-- What the adapters of backend/ledgerloop/webhooks/adapters.py let through.
use ledger_loop.Prelude.{
  ◌≡◌, refl, sym, ap, ◌∙◌, inl, inr, String, Bool, true, false, Option, none, some, pos, List, [],
  ◌∷◌, Bool-cases, if◌then◌else◌, str_eq, ℤ, subst, ◌≢◌,
}
use ledger_loop.Enums.{WebhookProvider}
use ledger_loop.Text.{codes, int_of}
use ledger_loop.Json.{or_value_error, Real, Json, Builtins, upper, str_of, IntResult, int_value}
use ledger_loop.Ingest.{GatewayWebhookIn}
use ledger_loop.Adapters.{
  Failure, Result, ◌>>=◌, three_decimal, zero_decimal, AdaptedWebhook, hundredths, admits,
  construct, or_raise_int, require, get_key, minor_to_major, instant_of, event_name, merchant_id,
  stripe_payment, adapt_stripe, razorpay_payment, adapt_razorpay, adapt,
}

-- A predicate of the value, where there is one.
abbrev pub Always {ℓ κ} : {A : Type ℓ} → (A → Type κ) → Result A → Type κ
Always P (Result.ok a) = P a
Always P (Result.raise e) = Unit

pub Always-bind {ℓ ℓ' κ} :
    {A : Type ℓ} {B : Type ℓ'} (P : B → Type κ) (m : Result A) (f : A → Result B)
    → ((a : A) → m ≡ Result.ok a → Always P (f a))
    → Always P (m >>= f)
Always-bind P (Result.ok a) f h = h a refl
Always-bind P (Result.raise e) f h = tt

Always_of {ℓ κ} :
    {A : Type ℓ} (P : A → Type κ) (m : Result A) (a : A) → Always P m → m ≡ Result.ok a → P a
Always_of P m a h e = subst (Always P) e h

when {ℓ κ} :
    {A : Type ℓ} (P : A → Type κ) (b : Bool) (m : Result A) (e : Failure)
    → Always P m
    → Always P (if b then m else Result.raise e)
when P true m e h = h
when P false m e h = tt

construct-admits :
    (p q : GatewayWebhookIn) → construct p ≡ Result.ok q → (p ≡ q) × (admits q ≡ true)
unfolding construct
construct-admits p q h = elim (Bool-cases (admits p)) [
  | inl e ↦
      let same : p ≡ q = ok-injective (rw e at h) in (same, subst (λ x. admits x ≡ true) same e)
  | inr e ↦ absurd (cc (rw e at h))
]
  where
    payload_of : Result GatewayWebhookIn → GatewayWebhookIn
    payload_of (Result.ok x) = x
    payload_of (Result.raise e) = p

    ok-injective : Result.ok p ≡ Result.ok q → p ≡ q
    ok-injective e = ap payload_of e

counted_case :
    (whole : Bool) (r : IntResult) (major : ℤ)
    → (or_raise_int r >>= λ n. Result.ok (hundredths whole n)) ≡ Result.ok major
    → (count : ℤ) × (r ≡ IntResult.number count) × (major ≡ hundredths whole count)
counted_case whole (IntResult.number n) major h = (n, refl, sym (ap value_of h))
  where
    value_of : Result ℤ → ℤ
    value_of (Result.ok x) = x
    value_of (Result.raise e) = major
counted_case whole (IntResult.raises e) major h = absurd (cc h)

number-injective : {m n : ℤ} → IntResult.number m ≡ IntResult.number n → m ≡ n
number-injective {m} e = ap value_of e
  where
    value_of : IntResult → ℤ
    value_of (IntResult.number x) = x
    value_of (IntResult.raises e) = m

of_value : {n : ℤ} (o : Option ℤ) → or_value_error o ≡ IntResult.number n → o ≡ some n
of_value none h = absurd (cc h)
of_value (some m) h = ap some (number-injective h)

module _ (py : Builtins) (model_validate : Json → Option GatewayWebhookIn) where
  -- The count that int() makes of a value: an integer is its own, a float is cut towards zero, a truth
  -- value is 0 or 1, and a text is read.
  pub data Counts (units : Json) (n : ℤ) : Type 0 where
    whole : units ≡ Json.int n → Counts units n
    cut : (r : Real) → units ≡ Json.real r → r.truncated ≡ some n → Counts units n
    yes_or_no : (b : Bool) → units ≡ Json.bool b → n ≡ pos (if b then 1 else 0) → Counts units n
    text :
        (s : String) → units ≡ Json.str s → int_of py.exotic_int (codes s) ≡ some n → Counts units n

  int_value-Counts :
      (units : Json) (n : ℤ) → int_value py units ≡ IntResult.number n → Counts units n
  unfolding int_value
  int_value-Counts Json.null n h = absurd (cc h)
  int_value-Counts (Json.bool true) n h = yes_or_no true refl (sym (number-injective h))
  int_value-Counts (Json.bool false) n h = yes_or_no false refl (sym (number-injective h))
  int_value-Counts (Json.int m) n h = whole (ap Json.int (number-injective h))
  int_value-Counts (Json.real r) n h = cut r refl (of_value r.truncated h)
  int_value-Counts (Json.str s) n h = text s refl (of_value (int_of py.exotic_int (codes s)) h)
  int_value-Counts (Json.array xs) n h = absurd (cc h)
  int_value-Counts (Json.object xs) n h = absurd (cc h)

  -- The amount is that count of minor units: a hundredth each, or a whole unit in a currency without
  -- minor units; and the currency is not one of thousandths.
  pub record Exact (units : Json) (payload : GatewayWebhookIn) : Type 0 where
    pub count : ℤ
    pub counted : Counts units count
    pub amount : payload.amount ≡ hundredths (zero_decimal (upper py payload.currency)) count
    pub storable : three_decimal (upper py payload.currency) ≡ false
    pub admitted : admits payload ≡ true

  minor_to_major-exact :
      (units : Json) (currency : String) (major : ℤ)
      → minor_to_major py model_validate units currency ≡ Result.ok major
      → (count : ℤ) × (int_value py units ≡ IntResult.number count)
        × (major ≡ hundredths (zero_decimal (upper py currency)) count)
        × (three_decimal (upper py currency) ≡ false)
  unfolding minor_to_major
  minor_to_major-exact units currency major h =
      elim (Bool-cases (three_decimal (upper py currency))) [
        | inl e ↦ absurd (cc (rw e at h))
        | inr e ↦
            let (count, counted, exact) =
              counted_case (zero_decimal (upper py currency)) (int_value py units) major
                (rw e at h) in
            (count, counted, exact, e)
      ]

  construct-Exact :
      (units : Json) (currency : String) (major : ℤ) (p : GatewayWebhookIn)
      → minor_to_major py model_validate units currency ≡ Result.ok major
      → p.amount ≡ major
      → p.currency ≡ currency
      → (q : GatewayWebhookIn) → construct p ≡ Result.ok q
      → Exact units q
  construct-Exact units currency major p m a c q h =
      let (same, fine) = construct-admits p q h in
      let (count, counted, exact, storable) = minor_to_major-exact units currency major m in
      let here : q.currency ≡ currency = sym (ap (λ (x : GatewayWebhookIn). x.currency) same) ∙ c in
      record {
        count = count;
        counted = int_value-Counts units count counted;
        amount =
            sym (ap (λ (x : GatewayWebhookIn). x.amount) same)
            ∙ a
            ∙ exact
            ∙ ap (λ t. hundredths (zero_decimal (upper py t)) count) (sym here);
        storable = ap (λ t. three_decimal (upper py t)) here ∙ storable;
        admitted = fine;
      }

  -- The path to the amount of a provider that counts in minor units.
  abbrev pub amount_path : WebhookProvider → List String
  amount_path WebhookProvider.stripe = "data" ∷ "object" ∷ "amount" ∷ []
  amount_path _ = "payload" ∷ "payment" ∷ "entity" ∷ "amount" ∷ []

  -- The payload of a webhook holds the amount that stands in the body.
  abbrev pub FromBody : WebhookProvider → Json → GatewayWebhookIn → Type 0
  FromBody provider body payload =
      (units : Json) × (require [] body (amount_path provider) ≡ Result.ok units)
      × Exact units payload

  from_body :
      (provider : WebhookProvider) (body units : Json) (payload : GatewayWebhookIn)
      → require [] body (amount_path provider) ≡ Result.ok units
      → Exact units payload
      → FromBody provider body payload
  from_body provider body units payload e x = (units, e, x)

  stripe_payment-FromBody :
      (body : Json) (event_type : String)
      → Always
          (λ (x : AdaptedWebhook). FromBody WebhookProvider.stripe body x.payload)
          (stripe_payment py model_validate body event_type)
  unfolding stripe_payment
  stripe_payment-FromBody body event_type =
      let P = λ (x : AdaptedWebhook). FromBody WebhookProvider.stripe body x.payload in
      Always-bind P (require [] body ("data" ∷ "object" ∷ [])) _ λ intent e1.
        Always-bind P (require [] body ("data" ∷ "object" ∷ "amount" ∷ [])) _ λ amount e2.
          Always-bind P (require [] body ("data" ∷ "object" ∷ "currency" ∷ [])) _
            λ currency_value e3.
              let currency = upper py (str_of py currency_value) in
              Always-bind P (require [] body ("data" ∷ "object" ∷ "id" ∷ [])) _ λ intent_value e4.
                let intent_id = str_of py intent_value in
                Always-bind P (merchant_id py model_validate "metadata" intent intent_id) _
                  λ txn_id e5. Always-bind P (get_key "id" Json.null body) _ λ event_value e6.
                    Always-bind P (get_key "created" Json.null body) _ λ created e7.
                      Always-bind P (get_key "created" created intent) _ λ moment e8.
                        Always-bind P (instant_of py model_validate moment "data.object.created") _
                          λ occurred e9.
                            Always-bind P (minor_to_major py model_validate amount currency) _
                              λ major e10.
                                let built : GatewayWebhookIn = record {
                                  txn_id = txn_id;
                                  amount = major;
                                  currency = currency;
                                  occurred_at = occurred;
                                  gateway_ref = intent_id;
                                } in
                                Always-bind P (construct built) _ λ payload e11.
                                  from_body WebhookProvider.stripe body amount payload e2 (
                                    construct-Exact amount currency major built e10 refl refl
                                      payload e11)

  razorpay_payment-FromBody :
      (body : Json) (event_type : String)
      → Always
          (λ (x : AdaptedWebhook). FromBody WebhookProvider.razorpay body x.payload)
          (razorpay_payment py model_validate body event_type)
  unfolding razorpay_payment
  razorpay_payment-FromBody body event_type =
      let P = λ (x : AdaptedWebhook). FromBody WebhookProvider.razorpay body x.payload in
      let entity_path = "payload" ∷ "payment" ∷ "entity" ∷ [] in
      Always-bind P (require [] body entity_path) _ λ entity e1.
        Always-bind P (require [] body ("payload" ∷ "payment" ∷ "entity" ∷ "amount" ∷ [])) _
          λ amount e2.
            Always-bind P (require [] body ("payload" ∷ "payment" ∷ "entity" ∷ "currency" ∷ [])) _
              λ currency_value e3.
                let currency = upper py (str_of py currency_value) in
                Always-bind P (require [] body ("payload" ∷ "payment" ∷ "entity" ∷ "id" ∷ [])) _
                  λ payment_value e4.
                    let payment_id = str_of py payment_value in
                    Always-bind P (merchant_id py model_validate "notes" entity payment_id) _
                      λ txn_id e5.
                        Always-bind P (get_key "created_at" Json.null entity) _ λ moment e6.
                          Always-bind P
                            (instant_of py model_validate moment
                              "payload.payment.entity.created_at")
                            _
                            λ occurred e7.
                              Always-bind P (minor_to_major py model_validate amount currency) _
                                λ major e8.
                                  let built : GatewayWebhookIn = record {
                                    txn_id = txn_id;
                                    amount = major;
                                    currency = currency;
                                    occurred_at = occurred;
                                    gateway_ref = payment_id;
                                  } in
                                  Always-bind P (construct built) _ λ payload e9.
                                    from_body WebhookProvider.razorpay body amount payload e2 (
                                      construct-Exact amount currency major built e8 refl refl
                                        payload e9)

  -- A payload that is adapted for Stripe or Razorpay has the amount that int() makes of the body's as a
  -- count of minor units (whole units where the currency has none): an integer as it stands, a float cut
  -- towards zero, a truth value as 0 or 1, a text as it reads. Its currency is one that hundredths can
  -- hold, and it satisfies every constraint of the schema: ids of 1 to 128 characters, an amount that is
  -- not zero and has at most eighteen digits, a currency of three capitals.
  pub adapt-FromBody :
      (provider : WebhookProvider) (body : Json) (a : AdaptedWebhook)
      → provider ≢ WebhookProvider.custom
      → adapt py model_validate provider body ≡ Result.ok a
      → FromBody provider body a.payload
  unfolding adapt adapt_stripe adapt_razorpay
  adapt-FromBody WebhookProvider.stripe body a n h =
      let P = λ (x : AdaptedWebhook). FromBody WebhookProvider.stripe body x.payload in
      Always_of P _ a
        (Always-bind P (event_name py model_validate "type" body) _ λ event_type e.
          when P (str_eq event_type "payment_intent.succeeded") _ _
            (stripe_payment-FromBody body event_type))
        h
  adapt-FromBody WebhookProvider.razorpay body a n h =
      let P = λ (x : AdaptedWebhook). FromBody WebhookProvider.razorpay body x.payload in
      Always_of P _ a
        (Always-bind P (event_name py model_validate "event" body) _ λ event_type e.
          when P (str_eq event_type "payment.captured") _ _
            (razorpay_payment-FromBody body event_type))
        h
  adapt-FromBody WebhookProvider.custom body a n h = absurd (n refl)
