-- ===== src/Signatures/RoundTrip.antt =====
-- What sign of backend/ledgerloop/webhooks/signatures.py produces is verified.
use ledger_loop.Prelude.{
  ℕ, ◌+◌, ◌*◌, ◌/◌, ◌≤◌, ◌≡◌, refl, sym, ap, ◌∙◌, true, false, not, some, List, [], ◌∷◌, ◌++◌,
  arith, ltb, any,
}
use mathlib.Core.List.{append_assoc, append-nil}
use ledger_loop.Enums.{WebhookProvider}
use ledger_loop.Instants.{unix_epoch, last_second, unix_seconds}
use ledger_loop.Text.{Text, codes, text_eq, is_empty, is_ascii, is_space, strip, encode, str_of}
use ledger_loop.Text.Decimal.{All, strip_by-same, is_ascii-All}
use ledger_loop.Signatures.{
  Stdlib, accepted, compare_digest, of_comparison, verify_razorpay, verify_custom, sign, verify,
  verify_stripe,
}
use ledger_loop.Signatures.Texts.{All-imp, text_eq_refl}
use ledger_loop.Signatures.Stripe.{is_hex, stripe_header, stripe_digest, verify_stripe-rotation}

-- hexdigest() is a text of hexadecimal digits, and not an empty one.
pub record HexDigests (py : Stdlib) : Type 0 where
  pub hex : (key message : List ℕ) → All is_hex (py.hmac_sha256_hex key message)
  pub present : (key message : List ℕ) → is_empty (py.hmac_sha256_hex key message) ≡ false

module _ (py : Stdlib) (h : HexDigests py) where
  digest-ascii : (key message : List ℕ) → is_ascii (py.hmac_sha256_hex key message) ≡ true
  digest-ascii key message = is_ascii-All (py.hmac_sha256_hex key message) (
      All-imp is_hex (λ c. ltb c 128) (py.hmac_sha256_hex key message) (λ c k. ground (arith, k))
        (h.hex key message))

  strip-digest :
      (key message : List ℕ)
      → strip (py.hmac_sha256_hex key message) ≡ py.hmac_sha256_hex key message
  unfolding strip
  strip-digest key message = strip_by-same is_space (py.hmac_sha256_hex key message) (
      All-imp is_hex (λ c. not (is_space c)) (py.hmac_sha256_hex key message)
        (λ c k. ground (arith, k)) (h.hex key message))

  own_digest :
      (key message : List ℕ)
      → of_comparison
          (compare_digest (py.hmac_sha256_hex key message) (strip (py.hmac_sha256_hex key message)))
        ≡ some accepted
  unfolding compare_digest
  own_digest key message =
      rw
        (
          strip-digest key message,
          digest-ascii key message,
          text_eq_refl (py.hmac_sha256_hex key message),
        )
        refl

  sign-stripe :
      (raw_body : List ℕ) (secret : Text) (now : ℕ)
      → sign py WebhookProvider.stripe raw_body secret now
        ≡ stripe_header
            (unix_seconds now)
            (stripe_digest py secret (unix_seconds now) raw_body ∷ [])
  unfolding sign
  sign-stripe raw_body secret now =
      let ts = str_of (unix_seconds now) in
      let digest = stripe_digest py secret (unix_seconds now) raw_body in
      append_assoc (codes "t=" ++ ts) (codes ",v1=") digest
      ∙ append_assoc (codes "t=") ts (codes ",v1=" ++ digest)
      ∙ ap (λ t. codes "t=" ++ (ts ++ (codes ",v1=" ++ t))) (sym (append-nil digest))

  -- A body that is signed for a provider is accepted by that provider's verifier at the same instant;
  -- given that a digest is hexadecimal and not empty, that the tolerance is at least the second that
  -- the timestamp is cut to, and that the instant is from 1970 on and of a year up to 9999.
  pub verify-sign :
      (provider : WebhookProvider) (raw_body : List ℕ) (secret : Text) (now tolerance : ℕ)
      → 1000000 ≤ tolerance
      → unix_epoch * 1000000 ≤ now
      → now / 1000000 ≤ unix_epoch + last_second
      → verify py provider raw_body
          (some (sign py provider raw_body secret now))
          secret
          now
          tolerance
        ≡ some accepted
  unfolding verify verify_razorpay verify_custom sign
  verify-sign WebhookProvider.stripe raw_body secret now tolerance wide modern years =
      let second = unix_seconds now in
      let digest = stripe_digest py secret second raw_body in
      let ascii : is_ascii digest ≡ true = digest-ascii _ _ in
      let found : any (text_eq digest) (digest ∷ []) ≡ true = rw (text_eq_refl digest) refl in
      ap (λ header. verify_stripe py raw_body (some header) secret now tolerance)
        (sign-stripe raw_body secret now)
      ∙ verify_stripe-rotation py raw_body secret now tolerance second digest [] ascii
          (h.hex _ _, tt) (omega arith) (omega arith)
      ∙ rw found refl
  verify-sign WebhookProvider.razorpay raw_body secret now tolerance wide modern years =
      rw (h.present (encode secret) raw_body) (own_digest (encode secret) raw_body)
  verify-sign WebhookProvider.custom raw_body secret now tolerance wide modern years =
      rw (h.present (encode secret) raw_body) (own_digest (encode secret) raw_body)
