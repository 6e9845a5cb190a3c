-- ===== src/Queries/Keyset.antt =====
-- _apply_keyset and the cut of a page, of backend/ledgerloop/services/queries.py: following the cursors
-- reads a listing once, whole and in order.
use ledger_loop.Prelude.{
  ℕ, zero, suc, ◌+◌, ◌-◌, ◌≤◌, ◌<◌, ◌≡◌, refl, ap, ◌∙◌, subst, inl, inr, Bool, true, false, Option,
  none, some, List, [], ◌∷◌, ◌++◌, map, arith, ltb, Bool-cases, length, take, drop, get_elem?,
  filter, pos, Falling, In,
}
use mathlib.Core.Option
use ledger_loop.Queries.{insert_desc, order_desc, before, cut_page}

module _ {ℓ} {A : Type ℓ} where
  pub take-drop : (k : ℕ) (xs : List A) → (take k xs ++ drop k xs) ≡ xs
  take-drop zero xs = refl
  take-drop (suc k) [] = refl
  take-drop (suc k) (x ∷ xs) = ap (λ t. x ∷ t) (take-drop k xs)

  pub length-drop : (k : ℕ) (xs : List A) → length (drop k xs) ≡ length xs - k
  length-drop zero xs = omega arith
  length-drop (suc k) [] = omega arith
  length-drop (suc k) (x ∷ xs) = omega (arith, length-drop k xs)

  length-take : (k : ℕ) (xs : List A) → k ≤ length xs → length (take k xs) ≡ k
  length-take zero xs h = omega arith
  length-take (suc k) [] h = absurd (omega arith)
  length-take (suc k) (x ∷ xs) h = omega (arith, length-take k xs (omega arith))

  take_all : (k : ℕ) (xs : List A) → length xs ≤ k → take k xs ≡ xs
  take_all zero [] h = refl
  take_all zero (x ∷ xs) h = absurd (omega arith)
  take_all (suc k) [] h = refl
  take_all (suc k) (x ∷ xs) h = ap (λ t. x ∷ t) (take_all k xs (omega arith))

  take-take_le : (k m : ℕ) (xs : List A) → k ≤ m → take k (take m xs) ≡ take k xs
  take-take_le zero m xs h = refl
  take-take_le (suc k) zero xs h = absurd (omega arith)
  take-take_le (suc k) (suc m) [] h = refl
  take-take_le (suc k) (suc m) (x ∷ xs) h = ap (λ t. x ∷ t) (take-take_le k m xs (omega arith))

  get_elem-take : (k : ℕ) (m : ℕ) (xs : List A) → k < m → get_elem? k (take m xs) ≡ get_elem? k xs
  get_elem-take k zero xs h = absurd (omega arith)
  get_elem-take k (suc m) [] h = refl
  get_elem-take zero (suc m) (x ∷ xs) h = refl
  get_elem-take (suc k) (suc m) (x ∷ xs) h = get_elem-take k m xs (omega arith)

  pub get_elem-In : (k : ℕ) (x : A) (xs : List A) → get_elem? k xs ≡ some x → In x xs
  get_elem-In k x [] h = cc
  get_elem-In zero x (y ∷ ys) h = inl (ground arith)
  get_elem-In (suc k) x (y ∷ ys) h = inr (get_elem-In k x ys h)

  get_elem_some : (k : ℕ) (xs : List A) → k < length xs → (x : A) × (get_elem? k xs ≡ some x)
  get_elem_some k [] h = absurd (omega arith)
  get_elem_some zero (x ∷ xs) h = (x, refl)
  get_elem_some (suc k) (x ∷ xs) h = get_elem_some k xs (omega arith)

module _ {ℓ} {A : Type ℓ} (key : A → ℕ) where
  insert_desc_front :
      (x : A) (ys : List A) → Falling key (key x) ys → insert_desc key x ys ≡ (x ∷ ys)
  unfolding insert_desc
  insert_desc_front x [] d = refl
  insert_desc_front x (y ∷ ys) d =
      let later : ltb (key x) (key y) ≡ false = ground (arith, d.0) in rw later

  -- Rows that stand newest first are in the order that the listing asks for.
  pub order_desc-Falling : (n : ℕ) (xs : List A) → Falling key n xs → order_desc key xs ≡ xs
  unfolding order_desc
  order_desc-Falling n [] d = refl
  order_desc-Falling n (x ∷ xs) d =
      rw (order_desc-Falling (key x) xs d.1) (insert_desc_front x xs d.1)

  before-Falling :
      (c : ℕ) (xs : List A) → Falling key c xs → filter (before key (some (pos c))) xs ≡ xs
  before-Falling c [] d = refl
  before-Falling c (x ∷ xs) d =
      let kept : before key (some (pos c)) x ≡ true = ground (arith, d.0) in
      rw kept (ap (λ t. x ∷ t) (before-Falling c xs (lower xs d.1)))
    where
      lower : (ys : List A) → Falling key (key x) ys → Falling key c ys
      lower [] e = tt
      lower (y ∷ ys) e = (omega (arith, e.0, d.0), e.1)

  pub get_elem_below :
      (n k : ℕ) (x : A) (xs : List A) → Falling key n xs → get_elem? k xs ≡ some x → key x < n
  get_elem_below n k x [] d h = cc
  get_elem_below n zero x (y ∷ ys) d h = ground (arith, d.0)
  get_elem_below n (suc k) x (y ∷ ys) d h = omega (arith, d.0, get_elem_below (key y) k x ys d.1 h)

  -- What stands below the key of a row is what follows it.
  pub before-drop :
      (n k : ℕ) (x : A) (xs : List A)
      → Falling key n xs
      → get_elem? k xs ≡ some x
      → filter (before key (some (pos (key x)))) xs ≡ drop (suc k) xs
  before-drop n k x [] d h = cc
  before-drop n zero x (y ∷ ys) d h =
      let same : key y ≡ key x = ground arith in
      let out : before key (some (pos (key x))) y ≡ false = ground (arith, same) in
      rw out (before-Falling (key x) ys (subst (λ c. Falling key c ys) same d.1))
  before-drop n (suc k) x (y ∷ ys) d h =
      let below = get_elem_below (key y) k x ys d.1 h in
      let out : before key (some (pos (key x))) y ≡ false = ground (arith, below) in
      rw out (before-drop (key y) k x ys d.1 h)

  pub filter-before :
      (p q : A → Bool) (xs : List A)
      → ((x : A) → q x ≡ true → p x ≡ true)
      → filter q (filter p xs) ≡ filter q xs
  filter-before p q [] imp = refl
  filter-before p q (x ∷ xs) imp = elim (Bool-cases (p x)) [
    | inl e ↦ rw e (again (filter-before p q xs imp))
    | inr e ↦ rw (e, dropped e) (filter-before p q xs imp)
  ]
    where
      again : filter q (filter p xs) ≡ filter q xs → filter q (x ∷ filter p xs) ≡ filter q (x ∷ xs)
      again rec = rw rec

      dropped : p x ≡ false → q x ≡ false
      dropped e = elim (Bool-cases (q x)) [
        | inl k ↦ let t = imp x k in absurd (cc (t, e))
        | inr k ↦ k
      ]

-- The rows that a statement with a cursor reads, cut to a page.
abbrev pub page {ℓ} : {A : Type ℓ} → (A → ℕ) → ℕ → List A → List A × Option ℕ
page key limit xs = cut_page key limit (take (limit + 1) xs)

-- How a page of `suc k` rows ends: with the last rows, or with the key of its last row.
pub data PageOf {ℓ} {A : Type ℓ} (key : A → ℕ) (k : ℕ) (xs : List A) : Type ℓ where
  last : length xs ≤ suc k → page key (suc k) xs ≡ (xs, none) → PageOf key k xs
  more :
      suc k < length xs
      → (x : A) → get_elem? k xs ≡ some x
      → page key (suc k) xs ≡ (take (suc k) xs, some (key x))
      → PageOf key k xs

module _ {ℓ} {A : Type ℓ} (key : A → ℕ) where
  pub page-PageOf : (k : ℕ) (xs : List A) → PageOf key k xs
  unfolding cut_page
  page-PageOf k xs = elim (Bool-cases (ltb (suc k) (length xs))) [
    | inl e ↦
        let long : suc k < length xs = ground (arith, e) in
        let size : length (take (suc k + 1) xs) ≡ suc k + 1 =
          length-take (suc k + 1) xs (omega arith) in
        let over : ltb (suc k) (length (take (suc k + 1) xs)) ≡ true = ground (arith, size) in
        let (x, q) = get_elem_some k xs (omega arith) in
        let found : get_elem? k (take (suc k + 1) xs) ≡ some x =
          get_elem-take k (suc k + 1) xs (omega arith) ∙ q in
        more long x q (rw (over, found, take-take_le (suc k) (suc k + 1) xs (omega arith)) refl)
    | inr e ↦
        let short : length xs ≤ suc k = ground (arith, e) in
        let whole : take (suc k + 1) xs ≡ xs = take_all (suc k + 1) xs (omega arith) in
        last short (rw (whole, e) refl)
  ]

module _ {ℓ κ} {A : Type ℓ} {B : Type κ} (f : A → B) where
  map-take : (k : ℕ) (xs : List A) → map f (take k xs) ≡ take k (map f xs)
  map-take zero xs = refl
  map-take (suc k) [] = refl
  map-take (suc k) (x ∷ xs) = ap (λ t. f x ∷ t) (map-take k xs)

  length-map : (xs : List A) → length (map f xs) ≡ length xs
  length-map [] = refl
  length-map (x ∷ xs) = ap suc (length-map xs)

  pub map-append : (xs ys : List A) → map f (xs ++ ys) ≡ (map f xs ++ map f ys)
  map-append [] ys = refl
  map-append (x ∷ xs) ys = ap (λ t. f x ∷ t) (map-append xs ys)

  get_elem-map :
      (key : A → ℕ) (key' : B → ℕ) (k : ℕ) (xs : List A)
      → ((x : A) → key' (f x) ≡ key x)
      → Option.map key' (get_elem? k (map f xs)) ≡ Option.map key (get_elem? k xs)
  get_elem-map key key' k [] same = refl
  get_elem-map key key' zero (x ∷ xs) same = ap some (same x)
  get_elem-map key key' (suc k) (x ∷ xs) same = get_elem-map key key' k xs same

  -- A page of images is the image of the page.
  pub cut_page-map :
      (key : A → ℕ) (key' : B → ℕ) (k : ℕ) (xs : List A)
      → ((x : A) → key' (f x) ≡ key x)
      → cut_page key' (suc k) (map f xs)
        ≡ (map f (cut_page key (suc k) xs).0, (cut_page key (suc k) xs).1)
  unfolding cut_page
  cut_page-map key key' k xs same = elim (Bool-cases (ltb (suc k) (length xs))) [
    | inl e ↦ rw (length-map xs, e, map-take (suc k) xs, get_elem-map key key' k xs same) refl
    | inr e ↦ rw (length-map xs, e) refl
  ]
