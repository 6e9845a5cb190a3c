-- ===== src/Signatures/Stripe.antt =====
-- verify_stripe of backend/ledgerloop/webhooks/signatures.py on the header that Stripe documents:
-- `t=<unix>,v1=<hex>[,v1=<hex>...]`.
use ledger_loop.Prelude.{
  ℕ, ◌+◌, ◌*◌, ◌≤◌, ◌<◌, ◌≡◌, refl, sym, ap, ◌∙◌, inl, inr, Bool, true, false, ◌&&◌, ◌||◌, not,
  Option, none, some, List, [], ◌∷◌, ◌++◌, map, arith, Bool-cases, ltb, leb, ◌==◌, if◌then◌else◌,
  any, dist,
}
use mathlib.Core.List.{append_assoc, append-nil}
use ledger_loop.Instants.{unix_epoch, last_second, fromtimestamp}
use ledger_loop.Text.{
  Text, codes, text_eq, is_ascii, is_space, is_digit, strip, partition, split, encode, str_of,
}
use ledger_loop.Text.Decimal.{All, digit_text, strip_by-same, int_of-str_of, is_ascii-All}
use ledger_loop.Signatures.{
  Stdlib, accepted, refused, compare_digest, any_digest, take_field, read_parts, of_comparison,
  hexdigest, signed_at, check_instant, check_parsed, verify_stripe,
}
use ledger_loop.Signatures.Texts.{All-imp, split-none, split-append}

-- A hexadecimal digit in lower case.
abbrev pub is_hex : ℕ → Bool
is_hex c = is_digit c || (leb 97 c && leb c 102)

abbrev pub AllHex : List Text → Type 0
AllHex [] = Unit
AllHex (d ∷ ds) = All is_hex d × AllHex ds

-- The digests of a header, each behind a comma.
abbrev signatures : List Text → Text
signatures [] = []
signatures (d ∷ ds) = codes ",v1=" ++ (d ++ signatures ds)

-- The header with the second and the digests that a provider sends.
abbrev pub stripe_header : ℕ → List Text → Text
stripe_header second digests = codes "t=" ++ (str_of second ++ signatures digests)

-- A part of the header with one digest.
abbrev v1_part : Text → Text
v1_part d = codes "v1=" ++ d

hex_part :
    (p : ℕ → Bool) (d : Text)
    → ((c : ℕ) → is_hex c ≡ true → p c ≡ true)
    → p b'v' ≡ true
    → p b'1' ≡ true
    → p b'=' ≡ true
    → All is_hex d
    → All p (v1_part d)
hex_part p d imp v one eq a = (v, (one, (eq, All-imp is_hex p d imp a)))

no_comma : ℕ → Bool
no_comma c = not (c == b',')

split-signatures :
    (s : Text) (ds : List Text)
    → All no_comma s
    → AllHex ds
    → split b',' (s ++ signatures ds) ≡ s ∷ map v1_part ds
unfolding no_comma
split-signatures s [] a h = ap (split b',') (append-nil s) ∙ split-none b',' s a
split-signatures s (d ∷ ds) a (hd, hs) =
    split-append b',' s (v1_part d ++ signatures ds) a
    ∙ ap (λ t. s ∷ t)
        (split-signatures (v1_part d) ds
          (hex_part no_comma d (λ c h. ground (arith, h)) refl refl refl hd) hs)

strip_hex : (d : Text) → All is_hex d → strip (v1_part d) ≡ v1_part d
unfolding strip
strip_hex d h =
    strip_by-same is_space (v1_part d)
      (hex_part (λ c. not (is_space c)) d (λ c k. ground (arith, k)) refl refl refl h)

read_v1 :
    (ds cs : List Text) (timestamp : Option Text)
    → AllHex ds
    → read_parts (map v1_part ds) (timestamp, cs) ≡ (timestamp, cs ++ ds)
unfolding read_parts partition
read_v1 [] cs timestamp h = ap (λ xs. (timestamp, xs)) (sym (append-nil cs))
read_v1 (d ∷ ds) cs timestamp (hd, hs) =
    ap (λ t. read_parts (map v1_part ds) (take_field (partition b'=' t) (timestamp, cs)))
      (strip_hex d hd)
    ∙ read_v1 ds (cs ++ d ∷ []) timestamp hs
    ∙ ap (λ xs. (timestamp, xs)) (append_assoc cs (d ∷ []) ds)

second_part :
    (p : ℕ → Bool) (second : ℕ)
    → ((d : ℕ) → d < 10 → p (48 + d) ≡ true)
    → p b't' ≡ true
    → p b'=' ≡ true
    → All p (codes "t=" ++ str_of second)
second_part p second digit t eq = (t, (eq, digit_text p second digit))

strip_second : (second : ℕ) → strip (codes "t=" ++ str_of second) ≡ codes "t=" ++ str_of second
unfolding strip
strip_second second =
    strip_by-same is_space (codes "t=" ++ str_of second)
      (second_part (λ c. not (is_space c)) second (λ d h. ground (arith, h)) refl refl)

-- The header parses to its second and its digests.
read_parts-header :
    (second : ℕ) (ds : List Text)
    → AllHex ds
    → read_parts (split b',' (stripe_header second ds)) (none, []) ≡ (some (str_of second), ds)
unfolding read_parts partition no_comma
read_parts-header second ds h =
    ap (λ ps. read_parts ps (none, []))
      (split-signatures (codes "t=" ++ str_of second) ds
        (second_part no_comma second (λ d k. ground (arith, k)) refl refl) h)
    ∙ ap (λ t. read_parts (map v1_part ds) (take_field (partition b'=' t) (none, [])))
        (strip_second second)
    ∙ read_v1 ds [] (some (str_of second)) h

any_digest-hex :
    (expected : Text) (ds : List Text)
    → is_ascii expected ≡ true
    → AllHex ds
    → any_digest expected ds ≡ some (any (text_eq expected) ds)
unfolding any_digest compare_digest
any_digest-hex expected [] e h = refl
any_digest-hex expected (d ∷ ds) e (hd, hs) =
    let plain : is_ascii d ≡ true =
      is_ascii-All d (All-imp is_hex (λ c. ltb c 128) d (λ c k. ground (arith, k)) hd) in
    elim (Bool-cases (text_eq expected d)) [
      | inl q ↦ rw (any_digest, e, plain, q) refl
      | inr q ↦ rw (any_digest, e, plain, q) (any_digest-hex expected ds e hs)
    ]

module _ (py : Stdlib) where
  -- The digest that the secret gives for a second and a body.
  abbrev pub stripe_digest : Text → ℕ → List ℕ → Text
  stripe_digest secret second raw_body =
      hexdigest py secret (encode (str_of second ++ codes ".") ++ raw_body)

  signed_at-str :
      (second : ℕ)
      → second ≤ last_second
      → signed_at py (str_of second) ≡ some ((unix_epoch + second) * 1000000)
  unfolding signed_at fromtimestamp
  signed_at-str second h =
      let read = int_of-str_of py.exotic_int second (omega arith) in
      let there : leb second last_second ≡ true = ground (arith, h) in
      rw (signed_at, read, fromtimestamp, there) refl

  -- A header with a fresh timestamp and any number of well-formed digests, one for each secret while
  -- the secrets are rotated, is accepted exactly when one of them, at any place, is the body's digest
  -- under the endpoint's secret, and refused as a mismatch otherwise; given that the digests are
  -- hexadecimal and the second is one of the years up to 9999.
  pub verify_stripe-rotation :
      (raw_body : List ℕ) (secret : Text) (now tolerance second : ℕ) (d : Text) (ds : List Text)
      → is_ascii (stripe_digest secret second raw_body) ≡ true
      → AllHex (d ∷ ds)
      → second ≤ last_second
      → dist now ((unix_epoch + second) * 1000000) ≤ tolerance
      → verify_stripe py raw_body (some (stripe_header second (d ∷ ds))) secret now tolerance
        ≡ some (
            if any (text_eq (stripe_digest secret second raw_body)) (d ∷ ds)
            then accepted
            else refused "signature mismatch")
  unfolding verify_stripe check_parsed check_instant
  verify_stripe-rotation raw_body secret now tolerance second d ds e h years fresh =
      let soon : ltb tolerance (dist now ((unix_epoch + second) * 1000000)) ≡ false =
        ground (arith, fresh) in
      let compared = any_digest-hex (stripe_digest secret second raw_body) (d ∷ ds) e h in
      ap (check_parsed py raw_body secret now tolerance) (read_parts-header second (d ∷ ds) h)
      ∙ ap (check_instant py raw_body secret now tolerance (str_of second) (d ∷ ds))
          (signed_at-str second years)
      ∙ rw (soon, compared)
          (verdict (any (text_eq (stripe_digest secret second raw_body)) (d ∷ ds)))
    where
      verdict :
          (b : Bool)
          → of_comparison (some b) ≡ some (if b then accepted else refused "signature mismatch")
      verdict true = refl
      verdict false = refl
