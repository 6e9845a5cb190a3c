-- ===== src/Queries/Walk.antt =====
-- A client that follows the cursors of backend/ledgerloop/services/queries.py reads every row of a
-- listing once, in its order.
use ledger_loop.Prelude.{
  ℕ, zero, suc, ◌<◌, ◌≡◌, refl, sym, ap, ◌∙◌, true, Option, none, some, List, ◌++◌, map, arith,
  length, take, drop, filter, ℤ, pos, Falling, Falling-filter, In, subst, In-filter,
}
use mathlib.Core.Option
use ledger_loop.Queries.{before}
use ledger_loop.Queries.Keyset.{
  page, PageOf, page-PageOf, before-drop, filter-before, get_elem-In, length-drop, take-drop,
  map-append,
}

-- What follows a page: nothing, or the pages from its cursor on.
abbrev pub turn {ℓ} : {B : Type ℓ} → List B × Option ℕ → (ℕ → Option (List B)) → Option (List B)
turn (rows, none) next = some rows
turn (rows, some id) next = Option.map (λ rest. rows ++ rest) (next id)

-- A client that follows the cursors: none where its fuel runs out before the last page.
unfoldable pub walk {ℓ} :
    {B : Type ℓ} → ℕ → (Option ℤ → List B × Option ℕ) → Option ℤ → Option (List B)
walk zero fetch cursor = none
walk (suc fuel) fetch cursor = turn (fetch cursor) (λ id. walk fuel fetch (some (pos id)))

module _ {ℓ κ} {A : Type ℓ} {B : Type κ} (key : A → ℕ) (f : A → B) (n k : ℕ) (rows : List A)
    (fall : Falling key n rows) (fetch : Option ℤ → List B × Option ℕ)
    (fetches : (cursor : Option ℤ)
      → let p = page key (suc k) (filter (before key cursor) rows) in
        fetch cursor ≡ (map f p.0, p.1)) where
  below_all :
      (c : ℕ) (cursor : Option ℤ) (x : A)
      → before key cursor x ≡ true
      → key x ≡ c
      → (y : A) → before key (some (pos c)) y ≡ true
      → before key cursor y ≡ true
  below_all c none x h e y q = refl
  below_all c (some m) x h e y q = ground (arith, h, e, q)

  -- The walk from a cursor reads the rows below it.
  pub walk-rows :
      (fuel : ℕ) (cursor : Option ℤ) (xs : List A)
      → filter (before key cursor) rows ≡ xs
      → length xs < fuel
      → walk fuel fetch cursor ≡ some (map f xs)
  unfolding walk
  walk-rows zero cursor xs e lt = absurd (omega arith)
  walk-rows (suc fuel) cursor xs e lt = elim (page-PageOf key k xs) [
    | PageOf.last short q ↦
        let got : fetch cursor ≡ (map f xs, none) =
          fetches cursor
          ∙ ap (λ ys. (map f (page key (suc k) ys).0, (page key (suc k) ys).1)) e
          ∙ ap (λ (p : List A × Option ℕ). (map f p.0, p.1)) q in
        ap (λ p. turn p (λ id. walk fuel fetch (some (pos id)))) got
    | PageOf.more long x there q ↦
        let got : fetch cursor ≡ (map f (take (suc k) xs), some (key x)) =
          fetches cursor
          ∙ ap (λ ys. (map f (page key (suc k) ys).0, (page key (suc k) ys).1)) e
          ∙ ap (λ (p : List A × Option ℕ). (map f p.0, p.1)) q in
        let falls : Falling key n xs =
          subst (λ ys. Falling key n ys) e
            (Falling-filter key (before key cursor) n n rows (omega arith) fall) in
        let kept : before key cursor x ≡ true =
          (In-filter (before key cursor) x rows
            (subst (λ ys. In x ys) (sym e) (get_elem-In k x xs there))).1 in
        let rest : filter (before key (some (pos (key x)))) rows ≡ drop (suc k) xs =
          sym (
            filter-before key (before key cursor) (before key (some (pos (key x)))) rows
              (below_all (key x) cursor x kept refl))
          ∙ ap (filter (before key (some (pos (key x))))) e
          ∙ before-drop key n k x xs falls there in
        let rec =
          walk-rows fuel (some (pos (key x))) (drop (suc k) xs) rest
            (omega (arith, length-drop (suc k) xs)) in
        ap (λ p. turn p (λ id. walk fuel fetch (some (pos id)))) got
        ∙ rw rec (
            ap some (
              sym (map-append f (take (suc k) xs) (drop (suc k) xs))
              ∙ ap (map f) (take-drop (suc k) xs)))
  ]
