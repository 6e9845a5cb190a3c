-- ===== src/Signatures.antt =====
-- backend/ledgerloop/webhooks/signatures.py: the signature schemes of the three providers. A verifier
-- returns none where hmac.compare_digest raises TypeError, which it does on a text with a character
-- outside ASCII. Instants are as in Instants.
pub mod Texts
pub mod Stripe
pub mod RoundTrip
pub mod Fields
pub mod Sound
pub mod Raises
use ledger_loop.Prelude.{
  ℕ, suc, ◌+◌, ◌*◌, ◌/◌, ◌≤◌, String, Bool, true, false, ◌&&◌, not, Option, none, some, List, [],
  ◌∷◌, ◌++◌, ltb, leb, if◌then◌else◌, dist, ℤ, pos, negsuc, is_none,
}
use ledger_loop.Instants.{fromtimestamp, unix_seconds}
use ledger_loop.Enums.{WebhookProvider}
use ledger_loop.Text.{
  Text, codes, text_eq, is_empty, is_ascii, strip, partition, split, encode, int_of, str_of,
}

-- What the standard library computes: HMAC-SHA256 of a key and a message in hexadecimal, and int() on
-- texts outside ASCII.
pub record Stdlib : Type 0 where
  pub hmac_sha256_hex : List ℕ → List ℕ → Text
  pub exotic_int : Text → Option ℤ

-- Five minutes.
abbrev pub default_tolerance : ℕ
default_tolerance = 300000000

abbrev pub signature_header : WebhookProvider → String
signature_header WebhookProvider.stripe = "Stripe-Signature"
signature_header WebhookProvider.razorpay = "X-Razorpay-Signature"
signature_header WebhookProvider.custom = "X-LedgerLoop-Signature"

pub record Verdict : Type 0 where
  pub ok : Bool
  pub reason : String

abbrev pub accepted : Verdict
accepted = record { ok = true; reason = "" }

abbrev pub refused : String → Verdict
refused reason = record { ok = false; reason = reason }

-- `hmac.compare_digest` of two texts.
unfoldable pub compare_digest : Text → Text → Option Bool
compare_digest a b = if is_ascii a && is_ascii b then some (text_eq a b) else none

-- `any(hmac.compare_digest(expected, candidate) for candidate in candidates)`
unfoldable pub any_digest : Text → List Text → Option Bool
any_digest expected [] = some false
any_digest expected (c ∷ cs) = elim (compare_digest expected c) [
  | none ↦ none
  | some true ↦ some true
  | some false ↦ any_digest expected cs
]

-- `timestamp` and `candidates` of the loop over the header's parts.
abbrev pub Parsed : Type 0
Parsed = Option Text × List Text

abbrev pub take_field : Text × Bool × Text → Parsed → Parsed
take_field (key, separator, value) (timestamp, candidates) =
    if not separator
    then (timestamp, candidates)
    else if text_eq key (codes "t")
    then (some value, candidates)
    else if text_eq key (codes "v1")
    then (timestamp, candidates ++ value ∷ [])
    else (timestamp, candidates)

unfoldable pub read_parts : List Text → Parsed → Parsed
read_parts [] parsed = parsed
read_parts (part ∷ parts) parsed =
    read_parts parts (take_field (partition b'=' (strip part)) parsed)

abbrev pub of_comparison : Option Bool → Option Verdict
of_comparison none = none
of_comparison (some true) = some accepted
of_comparison (some false) = some (refused "signature mismatch")

module _ (py : Stdlib) where
  -- `_hexdigest`
  abbrev pub hexdigest : Text → List ℕ → Text
  hexdigest secret payload = py.hmac_sha256_hex (encode secret) payload

  -- `int(timestamp)` and `datetime.fromtimestamp`; none where they raise.
  unfoldable pub signed_at : Text → Option ℕ
  signed_at timestamp = elim (int_of py.exotic_int timestamp) [
    | none ↦ none
    | some seconds ↦ fromtimestamp seconds
  ]

  unfoldable pub check_instant :
      List ℕ → Text → ℕ → ℕ → Text → List Text → Option ℕ → Option Verdict
  check_instant raw_body secret now tolerance timestamp candidates none =
      some (refused "malformed signature timestamp")
  check_instant raw_body secret now tolerance timestamp candidates (some instant) =
      if ltb tolerance (dist now instant)
      then some (refused "timestamp outside tolerance")
      else of_comparison
          (any_digest (hexdigest secret (encode (timestamp ++ codes ".") ++ raw_body)) candidates)

  unfoldable pub check_parsed : List ℕ → Text → ℕ → ℕ → Parsed → Option Verdict
  check_parsed raw_body secret now tolerance (none, candidates) =
      some (refused "malformed signature header")
  check_parsed raw_body secret now tolerance (some timestamp, []) =
      some (refused "malformed signature header")
  check_parsed raw_body secret now tolerance (some timestamp, c ∷ cs) =
      check_instant raw_body secret now tolerance timestamp (c ∷ cs) (signed_at timestamp)

  unfoldable pub verify_stripe : List ℕ → Option Text → Text → ℕ → ℕ → Option Verdict
  verify_stripe raw_body none secret now tolerance = some (refused "missing signature header")
  verify_stripe raw_body (some header) secret now tolerance =
      if is_empty header
      then some (refused "missing signature header")
      else check_parsed raw_body secret now tolerance (read_parts (split b',' header) (none, []))

  unfoldable pub verify_razorpay : List ℕ → Option Text → Text → Option Verdict
  verify_razorpay raw_body none secret = some (refused "missing signature header")
  verify_razorpay raw_body (some header) secret =
      if is_empty header
      then some (refused "missing signature header")
      else of_comparison (compare_digest (hexdigest secret raw_body) (strip header))

  unfoldable pub verify_custom : List ℕ → Option Text → Text → Option Verdict
  verify_custom raw_body none secret = some (refused "missing signature header")
  verify_custom raw_body (some header) secret =
      if is_empty header
      then some (refused "missing signature header")
      else of_comparison (compare_digest (hexdigest secret raw_body) (strip header))

  -- The header that is signed.
  unfoldable pub sign : WebhookProvider → List ℕ → Text → ℕ → Text
  sign WebhookProvider.stripe raw_body secret now =
      let timestamp = str_of (unix_seconds now) in
      let digest = hexdigest secret (encode (timestamp ++ codes ".") ++ raw_body) in
      codes "t=" ++ timestamp ++ codes ",v1=" ++ digest
  sign _ raw_body secret now = hexdigest secret raw_body

  unfoldable pub verify : WebhookProvider → List ℕ → Option Text → Text → ℕ → ℕ → Option Verdict
  verify WebhookProvider.stripe raw_body header secret now tolerance =
      verify_stripe raw_body header secret now tolerance
  verify WebhookProvider.razorpay raw_body header secret now tolerance =
      verify_razorpay raw_body header secret
  verify WebhookProvider.custom raw_body header secret now tolerance =
      verify_custom raw_body header secret
