-- ===== src/Adapters.antt =====
-- backend/ledgerloop/webhooks/adapters.py: a provider's payload becomes a gateway transaction, or an
-- exception. The text of an AdapterError is kept by the values that are formatted into it. The
-- amounts are in hundredths of the major unit.
pub mod Admitted
use ledger_loop.Prelude.{
  ℕ, ◌+◌, ◌*◌, ◌^◌, String, Bool, true, false, ◌&&◌, not, Option, none, some, List, [], ◌∷◌, ◌++◌,
  ltb, leb, ◌==◌, if◌then◌else◌, str_eq, any, length, ℤ, pos, pos_part, neg_part, sub_ℕ, magnitude,
}
use Prim.Native.String.{◌++◌ as append}
use ledger_loop.Enums.{WebhookProvider}
use ledger_loop.Instants.{fromtimestamp}
use ledger_loop.Text.{Text, codes}
use ledger_loop.Json.{
  Json, Fields, Builtins, member, or_default, or_else, upper, str_of, IntError, IntResult,
  int_value,
}
use ledger_loop.Ingest.{GatewayWebhookIn}

-- What an AdapterError says.
pub data Complaint : Type 0 where
  three_digits : String → Complaint
  missing : List String → Complaint
  not_a_timestamp : String → Json → Complaint
  unhandled_event : WebhookProvider → String → Complaint
  not_an_object : Complaint

-- The exceptions of an adapter: its own, and those that int(), the schema and a method call raise.
pub data Failure : Type 0 where
  adapter_error : Complaint → Failure
  int_error : IntError → Failure
  validation_error : Failure
  attribute_error : Failure

pub data Result {ℓ} (A : Type ℓ) : Type ℓ where
  ok : A → Result A
  raise : Failure → Result A

infixl 5 ◌>>=◌
abbrev pub ◌>>=◌ {ℓ κ} : {A : Type ℓ} {B : Type κ} → Result A → (A → Result B) → Result B
ok a >>= f = f a
raise e >>= f = raise e

unfoldable pub zero_decimal : String → Bool
zero_decimal code = any (str_eq code) (
    "BIF" ∷ "CLP" ∷ "DJF" ∷ "GNF" ∷ "JPY" ∷ "KMF" ∷ "KRW" ∷ "MGA" ∷ "PYG" ∷ "RWF" ∷ "UGX" ∷ "VND"
    ∷ "VUV" ∷ "XAF" ∷ "XOF" ∷ "XPF" ∷ [])

unfoldable pub three_decimal : String → Bool
three_decimal code = any (str_eq code) ("BHD" ∷ "IQD" ∷ "JOD" ∷ "KWD" ∷ "LYD" ∷ "OMR" ∷ "TND" ∷ [])

pub record AdaptedWebhook : Type 0 where
  pub payload : GatewayWebhookIn
  pub idempotency_key : String
  pub event_type : String

-- `Decimal(n).scaleb(-exponent)` in hundredths, for the exponents 2 and 0.
abbrev pub hundredths : Bool → ℤ → ℤ
hundredths false n = n
hundredths true n = sub_ℕ (pos_part n * 100) (neg_part n * 100)

-- A text of 1 to 128 characters.
abbrev pub short_id : String → Bool
short_id s = leb 1 (length (codes s)) && leb (length (codes s)) 128

abbrev pub is_capital : ℕ → Bool
is_capital c = leb 65 c && leb c 90

-- `^[A-Z]{3}$`
abbrev pub three_capitals : Text → Bool
three_capitals (a ∷ b ∷ c ∷ []) = is_capital a && is_capital b && is_capital c
three_capitals _ = false

-- At most eighteen digits, two of them behind the point, and not zero.
abbrev pub money : ℤ → Bool
money amount = ltb (magnitude amount) (10 ^ 18) && not (magnitude amount == 0)

-- The constraints of GatewayWebhookIn on values of the right types.
unfoldable pub admits : GatewayWebhookIn → Bool
admits p =
    short_id p.txn_id
    && money p.amount
    && three_capitals (codes p.currency)
    && short_id p.gateway_ref

-- `GatewayWebhookIn(...)`
unfoldable pub construct : GatewayWebhookIn → Result GatewayWebhookIn
construct p = if admits p then ok p else raise validation_error

abbrev pub or_raise_int : IntResult → Result ℤ
or_raise_int (IntResult.number n) = ok n
or_raise_int (IntResult.raises e) = raise (int_error e)

-- The walk of `_require`: `walked` are the keys that were found.
unfoldable pub require : List String → Json → List String → Result Json
require walked cursor [] = ok cursor
require walked cursor (key ∷ path) = elim (member key cursor) [
  | none ↦ raise (adapter_error (missing (walked ++ key ∷ [])))
  | some value ↦ require (walked ++ key ∷ []) value path
]

-- `value.get(key)`, with a default; no method of a value that is no dict.
abbrev pub get_key : String → Json → Json → Result Json
get_key key default (Json.object contents) =
    ok (or_default default (member key (Json.object contents)))
get_key key default _ = raise attribute_error

abbrev pub instant_or : Failure → Option ℕ → Result ℕ
instant_or failure none = raise failure
instant_or failure (some instant) = ok instant

-- `GatewayWebhookIn.model_validate`, of a library, gives none where it raises ValidationError.
module _ (py : Builtins) (model_validate : Json → Option GatewayWebhookIn) where
  unfoldable pub minor_to_major : Json → String → Result ℤ
  minor_to_major minor_units currency =
      let code = upper py currency in
      if three_decimal code
      then raise (adapter_error (three_digits code))
      else or_raise_int (int_value py minor_units) >>= λ n. ok (hundredths (zero_decimal code) n)

  unfoldable pub instant_of : Json → String → Result ℕ
  instant_of epoch_seconds name = elim (int_value py epoch_seconds) [
    | IntResult.raises e ↦ raise (adapter_error (not_a_timestamp name epoch_seconds))
    | IntResult.number n ↦
        instant_or (adapter_error (not_a_timestamp name epoch_seconds)) (fromtimestamp n)
  ]

  -- What stands in front of the first look into the payload.
  abbrev pub event_name : String → Json → Result String
  event_name key body = get_key key (Json.str "") body >>= λ value. ok (str_of py value)

  -- `str(extra.get("txn_id") or fallback)`, where `extra` is `payload.get(key) or {}`.
  abbrev pub merchant_id : String → Json → String → Result String
  merchant_id key payload fallback = do
    let extra = (← get_key key Json.null payload)
    let given = (← get_key "txn_id" Json.null (or_else extra (Json.object Fields.no_fields)))
    ok (str_of py (or_else given (Json.str fallback)))

  unfoldable pub stripe_payment : Json → String → Result AdaptedWebhook
  stripe_payment body event_type = do
    let intent = (← require [] body ("data" ∷ "object" ∷ []))
    let amount = (← require [] body ("data" ∷ "object" ∷ "amount" ∷ []))
    let currency_value = (← require [] body ("data" ∷ "object" ∷ "currency" ∷ []))
    let currency = upper py (str_of py currency_value)
    let intent_value = (← require [] body ("data" ∷ "object" ∷ "id" ∷ []))
    let intent_id = str_of py intent_value
    let txn_id = (← merchant_id "metadata" intent intent_id)
    let event_value = (← get_key "id" Json.null body)
    let event_id = str_of py (or_else event_value (Json.str intent_id))
    let created = (← get_key "created" Json.null body)
    let moment = (← get_key "created" created intent)
    let occurred = (← instant_of moment "data.object.created")
    let major = (← minor_to_major amount currency)
    let payload =
        (← construct (record {
          txn_id = txn_id;
          amount = major;
          currency = currency;
          occurred_at = occurred;
          gateway_ref = intent_id;
        }))
    ok (record {
      payload = payload;
      idempotency_key = append "stripe:" event_id;
      event_type = event_type;
    })

  unfoldable pub adapt_stripe : Json → Result AdaptedWebhook
  adapt_stripe body = event_name "type" body >>= λ event_type.
      if str_eq event_type "payment_intent.succeeded"
      then stripe_payment body event_type
      else raise (adapter_error (unhandled_event WebhookProvider.stripe event_type))

  unfoldable pub razorpay_payment : Json → String → Result AdaptedWebhook
  razorpay_payment body event_type = do
    let entity = (← require [] body ("payload" ∷ "payment" ∷ "entity" ∷ []))
    let amount = (← require [] body ("payload" ∷ "payment" ∷ "entity" ∷ "amount" ∷ []))
    let currency_value = (← require [] body ("payload" ∷ "payment" ∷ "entity" ∷ "currency" ∷ []))
    let currency = upper py (str_of py currency_value)
    let payment_value = (← require [] body ("payload" ∷ "payment" ∷ "entity" ∷ "id" ∷ []))
    let payment_id = str_of py payment_value
    let txn_id = (← merchant_id "notes" entity payment_id)
    let moment = (← get_key "created_at" Json.null entity)
    let occurred = (← instant_of moment "payload.payment.entity.created_at")
    let major = (← minor_to_major amount currency)
    let payload =
        (← construct (record {
          txn_id = txn_id;
          amount = major;
          currency = currency;
          occurred_at = occurred;
          gateway_ref = payment_id;
        }))
    ok (record {
      payload = payload;
      idempotency_key = append "razorpay:" payment_id;
      event_type = event_type;
    })

  unfoldable pub adapt_razorpay : Json → Result AdaptedWebhook
  adapt_razorpay body = event_name "event" body >>= λ event_type.
      if str_eq event_type "payment.captured"
      then razorpay_payment body event_type
      else raise (adapter_error (unhandled_event WebhookProvider.razorpay event_type))

  unfoldable pub adapt_custom : Json → Result AdaptedWebhook
  adapt_custom body = elim (model_validate body) [
    | none ↦ raise validation_error
    | some payload ↦ ok (record {
      payload = payload;
      idempotency_key = append "custom:" (append payload.txn_id (append ":" payload.gateway_ref));
      event_type = "custom";
    })
  ]

  unfoldable pub adapt : WebhookProvider → Json → Result AdaptedWebhook
  adapt WebhookProvider.stripe body = adapt_stripe body
  adapt WebhookProvider.razorpay body = adapt_razorpay body
  adapt WebhookProvider.custom body = adapt_custom body
