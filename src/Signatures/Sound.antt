-- ===== src/Signatures/Sound.antt =====
-- What verify of backend/ledgerloop/webhooks/signatures.py accepts is signed with the secret.
use ledger_loop.Prelude.{
  dist, ℕ, ◌≤◌, ◌≡◌, refl, sym, ap, inl, inr, String, Bool, true, false, ◌&&◌, Option, none, some,
  List, [], ◌∷◌, ◌++◌, arith, Bool-cases, Option-cases, ltb, if◌then◌else◌, In, ℤ,
}
use mathlib.Core.Option.{some-injective}
use ledger_loop.Enums.{WebhookProvider}
use ledger_loop.Instants.{fromtimestamp}
use ledger_loop.Text.{Text, codes, is_empty, is_ascii, strip, split, encode, int_of}
use ledger_loop.Signatures.{
  Stdlib, Verdict, refused, compare_digest, any_digest, Parsed, read_parts, of_comparison,
  hexdigest, signed_at, check_instant, check_parsed, verify_stripe, verify_razorpay, verify_custom,
  verify,
}
use ledger_loop.Signatures.Texts.{text_eq→eq}
use ledger_loop.Signatures.Fields.{Field, From, read_parts-From}

-- The header carries a timestamp within the tolerance and a digest of it and of the body.
pub record StripeSigned (py : Stdlib) (raw_body : List ℕ) (header secret : Text) (now tolerance : ℕ)
    : Type 0 where
  pub timestamp : Text
  pub seconds : ℤ
  pub instant : ℕ
  pub timed : Field "t" timestamp (split b',' header)
  pub read : int_of py.exotic_int timestamp ≡ some seconds
  pub dated : fromtimestamp seconds ≡ some instant
  pub fresh : dist now instant ≤ tolerance
  pub digest :
      Field "v1"
        (hexdigest py secret (encode (timestamp ++ codes ".") ++ raw_body))
        (split b',' header)

abbrev pub Signed : Stdlib → WebhookProvider → List ℕ → Text → Text → ℕ → ℕ → Type 0
Signed py WebhookProvider.stripe raw_body header secret now tolerance =
    StripeSigned py raw_body header secret now tolerance
Signed py _ raw_body header secret now tolerance = strip header ≡ hexdigest py secret raw_body

compare_digest-eq : (a b : Text) → compare_digest a b ≡ some true → a ≡ b
unfolding compare_digest
compare_digest-eq a b h = elim (Bool-cases (is_ascii a && is_ascii b)) [
  | inl e ↦ text_eq→eq a b (some-injective _ _ (rw e at h))
  | inr e ↦ absurd (cc (rw e at h))
]

any_digest-In :
    (expected : Text) (cs : List Text) → any_digest expected cs ≡ some true → In expected cs
unfolding any_digest
any_digest-In expected [] h = absurd (cc h)
any_digest-In expected (c ∷ cs) h = elim (Option-cases (compare_digest expected c)) [
  | inl q ↦ absurd (cc (rw (any_digest, q) at h))
  | inr (true, q) ↦ inl (sym (compare_digest-eq expected c q))
  | inr (false, q) ↦ inr (any_digest-In expected cs (rw (any_digest, q) at h))
]

accepting : (o : Option Bool) (v : Verdict) → of_comparison o ≡ some v → v.ok ≡ true → o ≡ some true
accepting none v h ok = absurd (cc h)
accepting (some true) v h ok = refl
accepting (some false) v h ok =
    let same = ap (λ (x : Verdict). x.ok) (some-injective _ _ h) in absurd (cc (same, ok))

refusing : (reason : String) (v : Verdict) → some (refused reason) ≡ some v → v.ok ≡ true → ⊥
refusing reason v h ok =
    let same = ap (λ (x : Verdict). x.ok) (some-injective _ _ h) in cc (same, ok)

signed_at-reads :
    (py : Stdlib) (timestamp : Text) (instant : ℕ)
    → signed_at py timestamp ≡ some instant
    → (seconds : ℤ) × (int_of py.exotic_int timestamp ≡ some seconds)
      × (fromtimestamp seconds ≡ some instant)
unfolding signed_at
signed_at-reads py timestamp instant h = elim (Option-cases (int_of py.exotic_int timestamp)) [
  | inl q ↦ absurd (cc (rw (signed_at, q) at h))
  | inr (n, q) ↦ (n, q, rw (signed_at, q) at h)
]

module _ (py : Stdlib) (raw_body : List ℕ) (header secret : Text) (now tolerance : ℕ) where
  check_instant-Signed :
      (timestamp : Text) (candidates : List Text) (instant : Option ℕ) (v : Verdict)
      → signed_at py timestamp ≡ instant
      → Field "t" timestamp (split b',' header)
      → ((c : Text) → In c candidates → Field "v1" c (split b',' header))
      → check_instant py raw_body secret now tolerance timestamp candidates instant ≡ some v
      → v.ok ≡ true
      → StripeSigned py raw_body header secret now tolerance
  unfolding check_instant
  check_instant-Signed timestamp candidates none v e t cs h ok = absurd (refusing _ v h ok)
  check_instant-Signed timestamp candidates (some instant) v e t cs h ok =
      elim (Bool-cases (ltb tolerance (dist now instant))) [
        | inl late ↦ absurd (refusing _ v (rw late at h) ok)
        | inr soon ↦
            let digest = hexdigest py secret (encode (timestamp ++ codes ".") ++ raw_body) in
            let compared : of_comparison (any_digest digest candidates) ≡ some v = rw soon at h in
            let (seconds, read, dated) = signed_at-reads py timestamp instant e in
            record {
              timestamp = timestamp;
              seconds = seconds;
              instant = instant;
              timed = t;
              read = read;
              dated = dated;
              fresh = ground (arith, soon);
              digest = cs digest (any_digest-In digest candidates (accepting _ v compared ok));
            }
      ]

  check_parsed-Signed :
      (parsed : Parsed) (v : Verdict)
      → From (split b',' header) parsed
      → check_parsed py raw_body secret now tolerance parsed ≡ some v
      → v.ok ≡ true
      → StripeSigned py raw_body header secret now tolerance
  unfolding check_parsed
  check_parsed-Signed (none, candidates) v f h ok = absurd (refusing _ v h ok)
  check_parsed-Signed (some timestamp, []) v f h ok = absurd (refusing _ v h ok)
  check_parsed-Signed (some timestamp, c ∷ cs) v f h ok =
      check_instant-Signed timestamp (c ∷ cs) (signed_at py timestamp) v refl
        (f.time timestamp refl) f.sign h ok

  verify_stripe-Signed :
      (v : Verdict)
      → verify_stripe py raw_body (some header) secret now tolerance ≡ some v
      → v.ok ≡ true
      → StripeSigned py raw_body header secret now tolerance
  unfolding verify_stripe
  verify_stripe-Signed v h ok = elim (Bool-cases (is_empty header)) [
    | inl e ↦ absurd (refusing _ v (rw e at h) ok)
    | inr e ↦
        check_parsed-Signed (read_parts (split b',' header) (none, [])) v
          (read_parts-From (split b',' header) (split b',' header) (none, []) (λ p m. m)
            (record { time = λ t k. absurd (cc k); sign = λ c m. elim m [ ] }))
          (rw e at h) ok
  ]

  plain-Signed :
      (v : Verdict)
      → (if is_empty header
          then some (refused "missing signature header")
          else of_comparison (compare_digest (hexdigest py secret raw_body) (strip header)))
        ≡ some v
      → v.ok ≡ true
      → strip header ≡ hexdigest py secret raw_body
  plain-Signed v h ok = elim (Bool-cases (is_empty header)) [
    | inl e ↦ absurd (refusing _ v (rw e at h) ok)
    | inr e ↦ sym (compare_digest-eq _ _ (accepting _ v (rw e at h) ok))
  ]

  -- A delivery that is accepted is signed: its header holds, for Stripe, a timestamp within the
  -- tolerance and a digest of that timestamp and of the raw body under the secret, each as a field of
  -- its own, and for the other providers the digest of the raw body.
  pub verify-Signed :
      (provider : WebhookProvider) (v : Verdict)
      → verify py provider raw_body (some header) secret now tolerance ≡ some v
      → v.ok ≡ true
      → Signed py provider raw_body header secret now tolerance
  unfolding verify verify_razorpay verify_custom
  verify-Signed WebhookProvider.stripe v h ok = verify_stripe-Signed v h ok
  verify-Signed WebhookProvider.razorpay v h ok = plain-Signed v h ok
  verify-Signed WebhookProvider.custom v h ok = plain-Signed v h ok
