-- ===== src/Text/Decimal.antt =====
-- str() and int() of Python on numbers: what is printed is read back.
use ledger_loop.Prelude.{
  ℕ, zero, suc, ◌+◌, ◌*◌, ◌/◌, ◌%◌, ◌^◌, ◌≤◌, ◌<◌, ◌≡◌, refl, ap, ◌∙◌, Bool, true, false, ◌&&◌, not,
  inl, inr, Option, some, List, [], ◌∷◌, arith, Bool-cases, ltb, ◌==◌, length, filter, ℤ, pos,
}
use ledger_loop.Text.{
  Text, is_ascii, is_empty, rstrip_by, strip_by, is_digit, kind_of, Kind, scan, max_digits,
  magnitude_of, as_positive, signed, is_ascii_space, int_of, digits, str_of,
}

abbrev pub All {ℓ} : {A : Type ℓ} → (A → Bool) → List A → Type 0
All p [] = Unit
All p (x ∷ xs) = (p x ≡ true) × All p xs

pub digits-All :
    (p : ℕ → Bool) (fuel n : ℕ) (out : Text)
    → ((d : ℕ) → d < 10 → p (48 + d) ≡ true)
    → All p out
    → All p (digits fuel n out)
unfolding digits
digits-All p zero n out h a = a
digits-All p (suc fuel) n out h a = elim (Bool-cases (ltb n 10)) [
  | inl e ↦ rw (digits, e) (h n (ground (arith, e)), a)
  | inr e ↦
      rw (digits, e)
        (digits-All p fuel (n / 10) ((48 + n % 10) ∷ out) h (h (n % 10) (omega arith), a))
]

kind_of-digit : (d : ℕ) → d < 10 → kind_of (48 + d) ≡ Kind.digit d
kind_of-digit d h = ground arith

scan-digit :
    (d n : ℕ) (out : Text) (pending : Bool)
    → d < 10
    → scan ((48 + d) ∷ out) pending n ≡ scan out false (n * 10 + d)
unfolding scan
scan-digit d n out pending h = rw (scan, kind_of-digit d h) refl

scan-digits :
    (fuel n : ℕ) (out : Text) → n < fuel → scan (digits fuel n out) true 0 ≡ scan out false n
unfolding digits
scan-digits zero n out h = absurd (omega arith)
scan-digits (suc fuel) n out h = elim (Bool-cases (ltb n 10)) [
  | inl e ↦
      rw (digits, e)
        (scan-digit n 0 out true (ground (arith, e)) ∙ ap (scan out false) (omega arith))
  | inr e ↦
      let big : 10 ≤ n = ground (arith, e) in
      let whole : n / 10 * 10 + n % 10 ≡ n = omega arith in
      rw (digits, e)
        (scan-digits fuel (n / 10) ((48 + n % 10) ∷ out) (omega arith)
          ∙ scan-digit (n % 10) (n / 10) out false (omega arith)
          ∙ ap (scan out false) whole)
]

count-digits :
    (fuel n k : ℕ) (out : Text)
    → n < 10 ^ suc k
    → length (filter is_digit (digits fuel n out)) ≤ suc k + length (filter is_digit out)
unfolding digits
count-digits zero n k out h = omega arith
count-digits (suc fuel) n k out h = elim (Bool-cases (ltb n 10)) [
  | inl e ↦
      let one : is_digit (48 + n) ≡ true = ground (arith, e) in
      rw (length, digits, e, one) (omega arith)
  | inr e ↦
      rw (digits, e)
        (rest (λ j lt. count-digits fuel (n / 10) j ((48 + n % 10) ∷ out) lt) k h
          (ground (arith, e)))
]
  where
    last : is_digit (48 + n % 10) ≡ true
    last = let small : n % 10 < 10 = omega arith in ground (arith, small)

    more :
        (j : ℕ)
        → length (filter is_digit (digits fuel (n / 10) ((48 + n % 10) ∷ out)))
          ≤ suc j + length (filter is_digit ((48 + n % 10) ∷ out))
        → length (filter is_digit (digits fuel (n / 10) ((48 + n % 10) ∷ out)))
          ≤ suc (suc j) + length (filter is_digit out)
    more j le =
        let grown : length (filter is_digit ((48 + n % 10) ∷ out))
            ≡ suc (length (filter is_digit out)) =
          rw (length, last) refl in
        omega (arith, le, grown)

    rest :
        ((j : ℕ)
          → n / 10 < 10 ^ suc j
          → length (filter is_digit (digits fuel (n / 10) ((48 + n % 10) ∷ out)))
            ≤ suc j + length (filter is_digit ((48 + n % 10) ∷ out)))
        → (j : ℕ) → n < 10 ^ suc j
        → 10 ≤ n
        → length (filter is_digit (digits fuel (n / 10) ((48 + n % 10) ∷ out)))
          ≤ suc j + length (filter is_digit out)
    rest ih zero lt le = absurd (omega arith)
    rest ih (suc j) lt le =
        let ten : 10 ^ suc (suc j) ≡ 10 * 10 ^ suc j = omega arith in
        more j (ih j (omega (arith, ten)))

abbrev pub max_id : ℕ
max_id = 10 ^ 19

pub is_ascii-All : (s : Text) → All (λ c. ltb c 128) s → is_ascii s ≡ true
is_ascii-All [] a = refl
is_ascii-All (c ∷ cs) (h, a) = rw (h, is_ascii-All cs a) refl

-- A text without spaces is its own strip.
pub strip_by-same :
    (space : ℕ → Bool) (s : Text) → All (λ c. not (space c)) s → strip_by space s ≡ s
strip_by-same space [] a = refl
strip_by-same space (c ∷ cs) (h, a) =
    let no : space c ≡ false = ground (arith, h) in rw no (right (c ∷ cs) (h, a))
  where
    right : (t : Text) → All (λ x. not (space x)) t → rstrip_by space t ≡ t
    right [] b = refl
    right (x ∷ xs) (k, b) =
        let no : space x ≡ false = ground (arith, k) in
        let rest = right xs b in
        let kept : (is_empty xs && space x) ≡ false = ground (arith, no) in rw (rest, kept) refl

pub digit_text : (p : ℕ → Bool) (n : ℕ) → ((d : ℕ) → d < 10 → p (48 + d) ≡ true) → All p (str_of n)
unfolding str_of
digit_text p n h = digits-All p (suc n) n [] h tt

magnitude_of-str : (n : ℕ) → n < max_id → magnitude_of (str_of n) ≡ some n
unfolding magnitude_of str_of scan
magnitude_of-str n h =
    let few : length (filter is_digit (digits (suc n) n [])) ≤ 19 =
      count-digits (suc n) n 18 [] h in
    let fits : ltb max_digits (length (filter is_digit (digits (suc n) n []))) ≡ false =
      ground (arith, few) in
    rw fits (scan-digits (suc n) n [] (omega arith))

magnitude_of-nonempty : (s : Text) (n : ℕ) → magnitude_of s ≡ some n → is_empty s ≡ false
unfolding magnitude_of scan
magnitude_of-nonempty [] n h = cc
magnitude_of-nonempty (c ∷ cs) n h = refl

-- A text of digits has no sign.
signed_digit :
    (s : Text) → All is_digit s → is_empty s ≡ false → signed s ≡ as_positive (magnitude_of s)
unfolding signed
signed_digit [] a h = absurd (ground (arith, h))
signed_digit (c ∷ cs) (d, a) h =
    let minus : c == b'-' ≡ false = ground (arith, d) in
    let plus : c == b'+' ≡ false = ground (arith, d) in rw (minus, plus) refl

-- What str prints of a number is read back by int.
pub int_of-str_of :
    (exotic : Text → Option ℤ) (n : ℕ) → n < max_id → int_of exotic (str_of n) ≡ some (pos n)
unfolding int_of
int_of-str_of exotic n h =
    let plain : is_ascii (str_of n) ≡ true =
      is_ascii-All (str_of n) (digit_text (λ c. ltb c 128) n (λ d lt. ground (arith, lt))) in
    let bare : strip_by is_ascii_space (str_of n) ≡ str_of n =
      strip_by-same is_ascii_space (str_of n)
        (digit_text (λ c. not (is_ascii_space c)) n (λ d lt. ground (arith, lt))) in
    rw (plain, bare)
      (signed_digit (str_of n) (digit_text is_digit n (λ d lt. ground (arith, lt)))
          (magnitude_of-nonempty (str_of n) n (magnitude_of-str n h))
        ∙ ap as_positive (magnitude_of-str n h))

-- A text of digits is as long as it has digits.
count-All : (s : Text) → All is_digit s → length (filter is_digit s) ≡ length s
count-All [] a = refl
count-All (c ∷ cs) (h, a) = rw h (ap suc (count-All cs a))

pub length-str_of : (n : ℕ) → n < max_id → length (str_of n) ≤ 19
unfolding str_of
length-str_of n h =
    let counted =
      count-All (digits (suc n) n []) (digit_text is_digit n (λ d lt. ground (arith, lt))) in
    omega (arith, counted, count-digits (suc n) n 18 [] h)
