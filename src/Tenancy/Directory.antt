-- ===== src/Tenancy/Directory.antt =====
-- The well-formedness of the directory of backend/ledgerloop/services/tenancy.py, and the reads of
-- it.
use ledger_loop.Prelude.{
  ℕ, ◌≡◌, sym, ap, ◌∙◌, inl, inr, some, arith, List, [], ◌∷◌, In, ◌==◌, Falling, Falling-lt,
  find-In,
}
use ledger_loop.Tenancy.{Account, ApiKey, Tables, account_of}

pub record DirectoryInv (t : Tables) : Type 0 where
  pub account_ids : Falling (λ (a : Account). a.id) t.next_account t.accounts
  -- UNIQUE (name)
  pub names : (a b : Account) → In a t.accounts → In b t.accounts → a.name ≡ b.name → a ≡ b
  -- UNIQUE (key_hash)
  pub hashes : (k j : ApiKey) → In k t.api_keys → In j t.api_keys → k.key_hash ≡ j.key_hash → k ≡ j

pub Falling-same :
    (n : ℕ) (rows : List Account)
    → Falling (λ (a : Account). a.id) n rows
    → (a b : Account) → In a rows
    → In b rows
    → a.id ≡ b.id
    → a ≡ b
Falling-same n [] d a b h k e = elim h [ ]
Falling-same n (x ∷ xs) d a b (inl p) (inl q) e = sym p ∙ q
Falling-same n (x ∷ xs) d a b (inl p) (inr q) e = absurd (
    omega
      (arith, Falling-lt (λ (t : Account). t.id) x.id b xs d.1 q, ap (λ (t : Account). t.id) p, e))
Falling-same n (x ∷ xs) d a b (inr p) (inl q) e = absurd (
    omega
      (arith, Falling-lt (λ (t : Account). t.id) x.id a xs d.1 p, ap (λ (t : Account). t.id) q, e))
Falling-same n (x ∷ xs) d a b (inr p) (inr q) e = Falling-same x.id xs d.1 a b p q e

-- An account is found by its id.
pub account_of-In :
    (t : Tables) (a : Account) → DirectoryInv t → In a t.accounts → account_of a.id t ≡ some a
unfolding account_of
account_of-In t a v h =
    let (b, found, there, e) =
      find-In (λ (x : Account). x.id == a.id) a t.accounts h (ground arith) in
    found
    ∙ ap some (Falling-same t.next_account t.accounts v.account_ids b a there h (ground (arith, e)))
