-- ===== src/Prelude/Lists.antt =====
-- Lists measured by native numbers, membership and universal predicates by recursion, and filters
-- by Boolean tests.
use Prim.Native.Nat.{ℕ, zero, suc, ◌+◌, ◌≤◌}
use mathlib.Core.Path.{◌≡◌, refl, sym, ap, ◌∙◌}
use mathlib.Core.Logic.{◌⊎◌, inl, inr}
use mathlib.Core.Bool.{Bool, true, false}
use mathlib.Core.List.{List, [], ◌∷◌, ◌++◌, map}
use mathlib.Core.Option.{Option, none, some}
use native.Mathlib.Omega.{arith}
use ledger_loop.Prelude.Tests.{if◌then◌else◌, Bool-cases}

-- No element: membership in the empty list, at every level.
pub data Nowhere {ℓ} : Type ℓ where

module _ {ℓ} {A : Type ℓ} where
  abbrev pub length : List A → ℕ
  length [] = 0
  length (x ∷ xs) = suc (length xs)

  abbrev pub take : ℕ → List A → List A
  take zero xs = []
  take (suc n) [] = []
  take (suc n) (x ∷ xs) = x ∷ take n xs

  abbrev pub drop : ℕ → List A → List A
  drop zero xs = xs
  drop (suc n) [] = []
  drop (suc n) (x ∷ xs) = drop n xs

  abbrev pub get_elem? : ℕ → List A → Option A
  get_elem? i [] = none
  get_elem? zero (x ∷ xs) = some x
  get_elem? (suc i) (x ∷ xs) = get_elem? i xs

  pub length-append : (xs ys : List A) → length (xs ++ ys) ≡ length xs + length ys
  length-append [] ys = omega arith
  length-append (x ∷ xs) ys = omega (arith, length-append xs ys)

  pub length-take-le : (n : ℕ) (xs : List A) → length (take n xs) ≤ n
  length-take-le (suc n) (x ∷ xs) = omega (arith, length-take-le n xs)
  length-take-le _ _ = omega arith

  -- Membership with its witness.
  abbrev pub In : A → List A → Type ℓ
  In a [] = Nowhere
  In a (x ∷ xs) = (x ≡ a) ⊎ In a xs

  pub In-append : (a : A) (xs ys : List A) → In a (xs ++ ys) → In a xs ⊎ In a ys
  In-append a [] ys h = inr h
  In-append a (x ∷ xs) ys (inl e) = inl (inl e)
  In-append a (x ∷ xs) ys (inr h) = elim (In-append a xs ys h) [
    | inl l ↦ inl (inr l)
    | inr r ↦ inr r
  ]

  pub In-take : (a : A) (n : ℕ) (xs : List A) → In a (take n xs) → In a xs
  In-take a zero xs h = elim h [ ]
  In-take a (suc n) [] h = elim h [ ]
  In-take a (suc n) (x ∷ xs) (inl e) = inl e
  In-take a (suc n) (x ∷ xs) (inr h) = inr (In-take a n xs h)

  -- A filter by a Boolean test.
  abbrev pub filter : (A → Bool) → List A → List A
  filter p [] = []
  filter p (x ∷ xs) = if p x then x ∷ filter p xs else filter p xs

  pub In-filter : (p : A → Bool) (a : A) (xs : List A) → In a (filter p xs) → In a xs × (p a ≡ true)
  In-filter p a [] h = elim h [ ]
  In-filter p a (x ∷ xs) h = elim (Bool-cases (p x)) [
    | inl e ↦ kept e (In-filter p a xs) (subst_if e h)
    | inr e ↦ let r = In-filter p a xs (subst_else e h) in (inr r.0, r.1)
  ]
    where
      subst_if : p x ≡ true → In a (filter p (x ∷ xs)) → In a (x ∷ filter p xs)
      subst_if e k = rw e at k

      subst_else : p x ≡ false → In a (filter p (x ∷ xs)) → In a (filter p xs)
      subst_else e k = rw e at k

      kept :
          p x ≡ true
          → (In a (filter p xs) → In a xs × (p a ≡ true))
          → In a (x ∷ filter p xs)
          → In a (x ∷ xs) × (p a ≡ true)
      kept e rec (inl q) = (inl q, sym (ap p q) ∙ e)
      kept e rec (inr m) = let r = rec m in (inr r.0, r.1)

  pub filter-In : (p : A → Bool) (a : A) (xs : List A) → In a xs → p a ≡ true → In a (filter p xs)
  filter-In p a [] h e = elim h [ ]
  filter-In p a (x ∷ xs) (inl q) e = rw (ap p q ∙ e) (inl q)
  filter-In p a (x ∷ xs) (inr m) e = elim (Bool-cases (p x)) [
    | inl k ↦ rw k (inr (filter-In p a xs m e))
    | inr k ↦ rw k (filter-In p a xs m e)
  ]

  -- Some element passes the test.
  abbrev pub any : (A → Bool) → List A → Bool
  any p [] = false
  any p (x ∷ xs) = if p x then true else any p xs

  pub any-true : (p : A → Bool) (a : A) (xs : List A) → In a xs → p a ≡ true → any p xs ≡ true
  any-true p a [] h e = elim h [ ]
  any-true p a (x ∷ xs) (inl q) e = rw (ap p q ∙ e)
  any-true p a (x ∷ xs) (inr m) e = ground (arith, any-true p a xs m e)

  pub any-witness :
      (p : A → Bool) (xs : List A) → any p xs ≡ true → (a : A) × In a xs × (p a ≡ true)
  any-witness p [] h = absurd (false-true h)
    where
      false-true : false ≡ true → ⊥
      false-true e = cc
  any-witness p (x ∷ xs) h = elim (Bool-cases (p x)) [
    | inl e ↦ (x, inl refl, e)
    | inr e ↦ let r = any-witness p xs (ground arith) in (r.0, inr r.1, r.2)
  ]

  -- The first element that passes the test.
  abbrev pub find : (A → Bool) → List A → Option A
  find p [] = none
  find p (x ∷ xs) = if p x then some x else find p xs

  pub find-some : (p : A → Bool) (a : A) (xs : List A) → find p xs ≡ some a → In a xs × (p a ≡ true)
  find-some p a [] h = cc
  find-some p a (x ∷ xs) h = elim (Bool-cases (p x)) [
    | inl e ↦ let q : x ≡ a = ground arith in (inl q, sym (ap p q) ∙ e)
    | inr e ↦ let r = find-some p a xs (ground arith) in (inr r.0, r.1)
  ]

  pub find-none : (p : A → Bool) (a : A) (xs : List A) → find p xs ≡ none → In a xs → p a ≡ false
  find-none p a [] h m = elim m [ ]
  find-none p a (x ∷ xs) h (inl q) = ground arith
  find-none p a (x ∷ xs) h (inr m) = ground (arith, find-none p a xs)

  pub find-In :
      (p : A → Bool) (a : A) (xs : List A)
      → In a xs
      → p a ≡ true
      → (b : A) × (find p xs ≡ some b) × In b xs × (p b ≡ true)
  find-In p a [] h e = elim h [ ]
  find-In p a (x ∷ xs) (inl q) e = (x, rw (ap p q ∙ e), inl refl, ap p q ∙ e)
  find-In p a (x ∷ xs) (inr m) e = elim (Bool-cases (p x)) [
    | inl k ↦ (x, rw k, inl refl, k)
    | inr k ↦ let r = find-In p a xs m e in (r.0, rw k r.1, inr r.2, r.3)
  ]

module _ {ℓ κ} {A : Type ℓ} {B : Type κ} where
  pub In-map : (f : A → B) (b : B) (xs : List A) → In b (map f xs) → (a : A) × In a xs × (f a ≡ b)
  In-map f b [] h = elim h [ ]
  In-map f b (x ∷ xs) (inl e) = (x, inl refl, e)
  In-map f b (x ∷ xs) (inr m) = let r = In-map f b xs m in (r.0, inr r.1, r.2)

  pub map-In : (f : A → B) (a : A) (xs : List A) → In a xs → In (f a) (map f xs)
  map-In f a [] h = elim h [ ]
  map-In f a (x ∷ xs) (inl e) = inl (ap f e)
  map-In f a (x ∷ xs) (inr m) = inr (map-In f a xs m)

  pub map-nil : (f : A → B) (xs : List A) → map f xs ≡ [] → xs ≡ []
  map-nil f [] h = refl
  map-nil f (x ∷ xs) h = cc

  -- Maps and drops what has no image.
  abbrev pub filter_map : (A → Option B) → List A → List B
  filter_map f [] = []
  filter_map f (x ∷ xs) = elim (f x) [ none ↦ filter_map f xs | some b ↦ b ∷ filter_map f xs ]
