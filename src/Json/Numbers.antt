-- ===== src/Json/Numbers.antt =====
-- How many characters str() of a number has.
use ledger_loop.Prelude.{
  ℕ, zero, suc, ◌+◌, ◌/◌, ◌%◌, ◌≤◌, ◌<◌, ◌≡◌, refl, ap, ◌∙◌, inl, inr, String, false, [], ◌∷◌, ◌++◌,
  arith, Bool-cases, ltb, length, str_eq, str_eq→eq,
}
use Prim.Native.Char.{code}
use Prim.Native.String.{◌++◌ as append}
use Prim.Native.String.append.{nil as append_nil, cons as append_cons}
use ledger_loop.Text.{Text, codes, digits, str_of}
use ledger_loop.Text.Decimal.{max_id, length-str_of}
use ledger_loop.Json.{pick, text_digits, num_str}

pick-digit : (d : ℕ) → d < 10 → code (pick d "0123456789" "0") ≡ 48 + d
pick-digit zero h = refl
pick-digit (suc zero) h = refl
pick-digit (suc (suc zero)) h = refl
pick-digit (suc (suc (suc zero))) h = refl
pick-digit (suc (suc (suc (suc zero)))) h = refl
pick-digit (suc (suc (suc (suc (suc zero))))) h = refl
pick-digit (suc (suc (suc (suc (suc (suc zero)))))) h = refl
pick-digit (suc (suc (suc (suc (suc (suc (suc zero))))))) h = refl
pick-digit (suc (suc (suc (suc (suc (suc (suc (suc zero)))))))) h = refl
pick-digit (suc (suc (suc (suc (suc (suc (suc (suc (suc zero))))))))) h = refl
pick-digit (suc (suc (suc (suc (suc (suc (suc (suc (suc (suc n)))))))))) h = absurd (omega arith)

-- The characters of a printed number are its digits.
codes-text_digits :
    (fuel n : ℕ) (out : String) → codes (text_digits fuel n out) ≡ digits fuel n (codes out)
unfolding text_digits digits
codes-text_digits zero n out = refl
codes-text_digits (suc fuel) n out = elim (Bool-cases (ltb n 10)) [
  | inl e ↦ rw (text_digits, digits, e) (ap (λ c. c ∷ codes out) (pick-digit n (ground (arith, e))))
  | inr e ↦
      rw (text_digits, digits, e)
        (codes-text_digits fuel (n / 10) (String.◌∷◌ (pick (n % 10) "0123456789" "0") out)
          ∙ ap (λ c. digits fuel (n / 10) (c ∷ codes out)) (pick-digit (n % 10) (omega arith)))
]

pub codes-append : (s t : String) → codes (append s t) ≡ codes s ++ codes t
codes-append String.[] t = ap codes (append_nil t)
codes-append (String.◌∷◌ c s) t =
    ap codes (append_cons c s t) ∙ ap (λ x. code c ∷ x) (codes-append s t)

length-append : (s t : Text) → length (s ++ t) ≡ length s + length t
length-append [] t = omega arith
length-append (c ∷ cs) t = omega (arith, length-append cs t)

pub length-codes-append :
    (s t : String) → length (codes (append s t)) ≡ length (codes s) + length (codes t)
length-codes-append s t = ap length (codes-append s t) ∙ length-append (codes s) (codes t)

-- A text with a printed number behind it is at most nineteen characters longer.
pub length-append-num_str :
    (s : String) (n : ℕ)
    → n < max_id
    → (length (codes s) ≤ length (codes (append s (num_str n))))
      × (length (codes (append s (num_str n))) ≤ length (codes s) + 19)
unfolding num_str str_of
length-append-num_str s n h =
    let whole = length-codes-append s (num_str n) in
    let digits_of = ap length (codes-text_digits (suc n) n "") in
    (omega (arith, whole), omega (arith, whole, digits_of, length-str_of n h))

-- A text with a character is not the empty text.
pub nonempty-str_eq : (s : String) → 1 ≤ length (codes s) → str_eq s "" ≡ false
nonempty-str_eq s h = elim (Bool-cases (str_eq s "")) [
  | inl e ↦ absurd (omega (arith, h, ap (λ t. length (codes t)) (str_eq→eq s "" e)))
  | inr e ↦ e
]
