-- ===== src/Signatures/Raises.antt =====
-- Where the verifiers of backend/ledgerloop/webhooks/signatures.py raise.
use ledger_loop.Prelude.{
  ℕ, ◌≡◌, refl, inl, inr, Bool, true, false, none, some, List, Bool-cases, if◌then◌else◌, ◌↔◌, ◌≢◌,
}
use ledger_loop.Enums.{WebhookProvider}
use ledger_loop.Text.{Text, is_empty, is_ascii, strip}
use ledger_loop.Signatures.{
  Stdlib, refused, compare_digest, of_comparison, hexdigest, verify_razorpay, verify_custom, verify,
}

module _ (py : Stdlib) (raw_body : List ℕ) (header secret : Text) (now tolerance : ℕ) where
  plain_none :
      is_ascii (hexdigest py secret raw_body) ≡ true
      → ((if is_empty header
            then some (refused "missing signature header")
            else of_comparison (compare_digest (hexdigest py secret raw_body) (strip header)))
          ≡ none)
        ↔ ((is_empty header ≡ false) × (is_ascii (strip header) ≡ false))
  unfolding compare_digest
  plain_none a = (forth, back)
    where
      answered : (b : Bool) → of_comparison (some b) ≡ none → ⊥
      answered true h = cc h
      answered false h = cc h

      forth :
          (if is_empty header
              then some (refused "missing signature header")
              else of_comparison (compare_digest (hexdigest py secret raw_body) (strip header)))
            ≡ none
          → (is_empty header ≡ false) × (is_ascii (strip header) ≡ false)
      forth h = elim (Bool-cases (is_empty header)) [
        | inl e ↦ absurd (cc (rw e at h))
        | inr e ↦ elim (Bool-cases (is_ascii (strip header))) [
          | inl q ↦ absurd (answered _ (rw (e, a, q) at h))
          | inr q ↦ (e, q)
        ]
      ]

      back :
          (is_empty header ≡ false) × (is_ascii (strip header) ≡ false)
          → (if is_empty header
              then some (refused "missing signature header")
              else of_comparison (compare_digest (hexdigest py secret raw_body) (strip header)))
            ≡ none
      back (e, q) = rw (e, a, q) refl

  -- A header is never answered but raised on, TypeError of compare_digest, exactly where it is not
  -- empty and its stripped text has a character outside ASCII; for the two providers that sign the
  -- bare body, given that the digest itself is ASCII.
  pub verify-none_iff :
      (provider : WebhookProvider)
      → provider ≢ WebhookProvider.stripe
      → is_ascii (hexdigest py secret raw_body) ≡ true
      → (verify py provider raw_body (some header) secret now tolerance ≡ none)
        ↔ ((is_empty header ≡ false) × (is_ascii (strip header) ≡ false))
  unfolding verify verify_razorpay verify_custom
  verify-none_iff WebhookProvider.stripe n a = absurd (n refl)
  verify-none_iff WebhookProvider.razorpay n a = plain_none a
  verify-none_iff WebhookProvider.custom n a = plain_none a
