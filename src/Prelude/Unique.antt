-- ===== src/Prelude/Unique.antt =====
-- Lists of rows, newest first, by falling keys below a bound: no row stands in them twice.
use Prim.Native.Nat.{ℕ, ◌<◌, ◌+◌}
use mathlib.Core.Path.{◌≡◌, refl, ap}
use mathlib.Core.Logic.{inl, inr}
use mathlib.Core.Bool.{Bool, true, false}
use mathlib.Core.List.{List, [], ◌∷◌, map}
use mathlib.Core.Option.{Option, none, some}
use native.Mathlib.Omega.{arith}
use ledger_loop.Prelude.Tests.{Bool-cases}
use ledger_loop.Prelude.Lists.{In, filter}

module _ {ℓ} {A : Type ℓ} where
  -- The only element of a list.
  abbrev pub one : List A → Option A
  one (x ∷ []) = some x
  one _ = none

  abbrev pub Falling : (A → ℕ) → ℕ → List A → Type 0
  Falling key n [] = Unit
  Falling key n (x ∷ xs) = (key x < n) × Falling key (key x) xs

  pub Falling-lt :
      (key : A → ℕ) (n : ℕ) (x : A) (xs : List A) → Falling key n xs → In x xs → key x < n
  Falling-lt key n x [] d h = elim h [ ]
  Falling-lt key n x (y ∷ ys) d (inl e) = omega (arith, d.0, ap key e)
  Falling-lt key n x (y ∷ ys) d (inr m) = omega (arith, d.0, Falling-lt key (key y) x ys d.1 m)

  pub filter-nil :
      (p : A → Bool) (xs : List A) → ((z : A) → In z xs → p z ≡ false) → filter p xs ≡ []
  filter-nil p [] f = refl
  filter-nil p (x ∷ xs) f = rw (f x (inl refl)) (filter-nil p xs (λ z h. f z (inr h)))

  -- A test that one row passes finds it alone.
  pub one-filter :
      (key : A → ℕ) (p : A → Bool) (n : ℕ) (x : A) (xs : List A)
      → Falling key n xs
      → ((a b : A) → In a xs → In b xs → p a ≡ true → p b ≡ true → a ≡ b)
      → In x xs
      → p x ≡ true
      → one (filter p xs) ≡ some x
  one-filter key p n x [] d unique h e = elim h [ ]
  one-filter key p n x (y ∷ ys) d unique h e = elim (Bool-cases (p y)) [
    | inl k ↦
        let nothing : filter p ys ≡ [] = filter-nil p ys (others k) in
        rw (k, nothing) (ap some (unique y x (inl refl) h k e))
    | inr k ↦ rw k (
        one-filter key p (key y) x ys d.1 (λ a b ha hb. unique a b (inr ha) (inr hb))
          (elsewhere k h) e)
  ]
    where
      others : p y ≡ true → (z : A) → In z ys → p z ≡ false
      others k z hz = elim (Bool-cases (p z)) [
        | inl q ↦
            let same = ap key (unique y z (inl refl) (inr hz) k q) in
            absurd (omega (arith, Falling-lt key (key y) z ys d.1 hz, same))
        | inr q ↦ q
      ]

      elsewhere : p y ≡ false → In x (y ∷ ys) → In x ys
      elsewhere k (inl q) = let q2 = ap p q in absurd (cc (k, q2, e))
      elsewhere k (inr m) = m

  pub Falling-filter :
      (key : A → ℕ) (p : A → Bool) (n m : ℕ) (xs : List A)
      → n < m + 1
      → Falling key n xs
      → Falling key m (filter p xs)
  Falling-filter key p n m [] le d = tt
  Falling-filter key p n m (x ∷ xs) le d = elim (Bool-cases (p x)) [
    | inl k ↦
        rw k (omega (arith, d.0, le), Falling-filter key p (key x) (key x) xs (omega arith) d.1)
    | inr k ↦ rw k (Falling-filter key p (key x) m xs (omega (arith, d.0, le)) d.1)
  ]

  pub Falling-map :
      (key : A → ℕ) (f : A → A) (n : ℕ) (xs : List A)
      → ((x : A) → key (f x) ≡ key x)
      → Falling key n xs
      → Falling key n (map f xs)
  Falling-map key f n [] same d = tt
  Falling-map key f n (x ∷ xs) same d =
      (omega (arith, d.0, same x), rw (same x) (Falling-map key f (key x) xs same d.1))
