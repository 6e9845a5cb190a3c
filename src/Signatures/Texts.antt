-- ===== src/Signatures/Texts.antt =====
-- Cutting the header of backend/ledgerloop/webhooks/signatures.py into its parts and fields.
use ledger_loop.Prelude.{
  ℕ, ◌≡◌, refl, ap, ◌∙◌, inl, inr, Bool, true, false, not, [], ◌∷◌, ◌++◌, arith, Bool-cases, ◌==◌,
}
use ledger_loop.Text.{Text, text_eq, partition, split}
use ledger_loop.Text.Decimal.{All}

pub text_eq_refl : (s : Text) → text_eq s s ≡ true
text_eq_refl [] = refl
text_eq_refl (c ∷ cs) = let same : c == c ≡ true = ground arith in rw (same, text_eq_refl cs) refl

pub text_eq→eq : (s t : Text) → text_eq s t ≡ true → s ≡ t
text_eq→eq [] [] h = refl
text_eq→eq [] (d ∷ ds) h = absurd (ground (arith, h))
text_eq→eq (c ∷ cs) [] h = absurd (ground (arith, h))
text_eq→eq (c ∷ cs) (d ∷ ds) h =
    let heads : c ≡ d = ground (arith, h) in
    let tails : cs ≡ ds = text_eq→eq cs ds (ground (arith, h)) in
    ap (λ x. x ∷ cs) heads ∙ ap (λ t. d ∷ t) tails

pub All-append : (p : ℕ → Bool) (s t : Text) → All p s → All p t → All p (s ++ t)
All-append p [] t a b = b
All-append p (c ∷ cs) t (h, a) b = (h, All-append p cs t a b)

pub All-imp : (p q : ℕ → Bool) (s : Text) → ((c : ℕ) → p c ≡ true → q c ≡ true) → All p s → All q s
All-imp p q [] imp a = tt
All-imp p q (c ∷ cs) imp (h, a) = (imp c h, All-imp p q cs imp a)

pub split-none : (sep : ℕ) (s : Text) → All (λ c. not (c == sep)) s → split sep s ≡ s ∷ []
unfolding split
split-none sep [] a = refl
split-none sep (c ∷ cs) (h, a) =
    let no : c == sep ≡ false = ground (arith, h) in rw (no, split-none sep cs a) refl

-- A separator ends a part that has none.
pub split-append :
    (sep : ℕ) (s t : Text)
    → All (λ c. not (c == sep)) s
    → split sep (s ++ sep ∷ t) ≡ s ∷ split sep t
unfolding split
split-append sep [] t a = let yes : sep == sep ≡ true = ground arith in rw yes refl
split-append sep (c ∷ cs) t (h, a) =
    let no : c == sep ≡ false = ground (arith, h) in rw (no, split-append sep cs t a) refl

-- What partition finds is where it cut.
pub partition-found :
    (sep : ℕ) (s : Text)
    → (partition sep s).1 ≡ true
    → s ≡ (partition sep s).0 ++ sep ∷ (partition sep s).2
unfolding partition
partition-found sep [] h = absurd (ground (arith, h))
partition-found sep (c ∷ cs) h = elim (Bool-cases (c == sep)) [
  | inl e ↦ let same : c ≡ sep = ground (arith, e) in rw e (ap (λ x. x ∷ cs) same)
  | inr e ↦ rw e (ap (λ t. c ∷ t) (partition-found sep cs (rw e at h)))
]
