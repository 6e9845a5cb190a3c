-- ===== src/Queries/Close.antt =====
-- close_exception of backend/ledgerloop/services/queries.py: a compare-and-set.
use ledger_loop.Prelude.{
  ℕ, ◌≡◌, refl, sym, ap, ◌∙◌, subst, inl, inr, String, true, false, none, some, List, [], ◌∷◌, map,
  arith, Bool-cases, if◌then◌else◌, In, filter, filter-nil, one, one-filter, In-map, map-In,
  Falling, Falling-lt, Falling-map,
}
use ledger_loop.Store.{ExceptionRow, Db}
use ledger_loop.Tenancy.{Tenant}
use ledger_loop.Queries.{closable, close_row, close_exception}
use ledger_loop.Queries.Feeds.{Feeds}

pub Falling-unique {ℓ} :
    {A : Type ℓ} (key : A → ℕ) (n : ℕ) (a b : A) (xs : List A)
    → Falling key n xs
    → In a xs
    → In b xs
    → key a ≡ key b
    → a ≡ b
Falling-unique key n a b [] d ha hb e = elim ha [ ]
Falling-unique key n a b (x ∷ xs) d (inl p) (inl q) e = sym p ∙ q
Falling-unique key n a b (x ∷ xs) d (inl p) (inr m) e =
    absurd (omega (arith, Falling-lt key (key x) b xs d.1 m, ap key p, e))
Falling-unique key n a b (x ∷ xs) d (inr m) (inl q) e =
    absurd (omega (arith, Falling-lt key (key x) a xs d.1 m, ap key q, e))
Falling-unique key n a b (x ∷ xs) d (inr m) (inr k) e = Falling-unique key (key x) a b xs d.1 m k e

pub one-some {ℓ} : {A : Type ℓ} (x : A) (xs : List A) → one xs ≡ some x → xs ≡ x ∷ []
one-some x [] h = cc
one-some x (y ∷ []) h = ap (λ t. t ∷ []) (ground arith)
one-some x (y ∷ z ∷ zs) h = cc

map_same {ℓ} :
    {A : Type ℓ} (f : A → A) (xs : List A) → ((x : A) → In x xs → f x ≡ x) → map f xs ≡ xs
map_same f [] same = refl
map_same f (x ∷ xs) same = rw (same x (inl refl), map_same f xs (λ y h. same y (inr h))) refl

-- What the UPDATE makes of a row.
abbrev pub update_row : ℕ → Tenant → ℕ → String → ExceptionRow → ExceptionRow
update_row now tenant i notes e = if closable tenant i e then close_row now notes e else e

abbrev pub closed_db : ℕ → Tenant → ℕ → String → Db → Db
closed_db now tenant i notes db = record db {
  exceptions = map (update_row now tenant i notes) db.exceptions;
}

pub update_row-id :
    (now : ℕ) (tenant : Tenant) (i : ℕ) (notes : String) (e : ExceptionRow)
    → (update_row now tenant i notes e).id ≡ e.id
update_row-id now tenant i notes e = ground arith

pub not_closable_twice :
    (now : ℕ) (tenant : Tenant) (i : ℕ) (notes : String) (e : ExceptionRow)
    → closable tenant i (update_row now tenant i notes e) ≡ false
not_closable_twice now tenant i notes e = elim (Bool-cases (closable tenant i e)) [
  | inl q ↦ rw (update_row, q) (ground arith)
  | inr q ↦ rw (update_row, q) q
]

module _ (now : ℕ) (tenant : Tenant) (i : ℕ) (notes : String) (db : Db) where
  pub closed_db-Feeds : Feeds db → Feeds (closed_db now tenant i notes db)
  closed_db-Feeds v = record {
    results = v.results;
    cases =
        Falling-map (λ (e : ExceptionRow). e.id) (update_row now tenant i notes) db.next_exception
          db.exceptions (update_row-id now tenant i notes) v.cases;
  }

  -- The first operator's close takes effect and is answered with the closed row.
  pub close_exception_wins :
      (e : ExceptionRow)
      → Feeds db
      → In e db.exceptions
      → closable tenant i e ≡ true
      → close_exception now tenant i notes db
        ≡ some (some (close_row now notes e), closed_db now tenant i notes db)
  unfolding close_exception
  close_exception_wins e v h q =
      let alone : filter (closable tenant i) db.exceptions ≡ e ∷ [] = one-some e _ (
        one-filter (λ (x : ExceptionRow). x.id) (closable tenant i) db.next_exception e
          db.exceptions v.cases
          (λ a b ha hb qa qb.
            Falling-unique (λ (x : ExceptionRow). x.id) db.next_exception a b db.exceptions v.cases
              ha hb (ground (arith, qa, qb)))
          h q) in
      rw alone refl

  -- Where nothing is closable the call changes nothing.
  pub close_exception_loses :
      ((e : ExceptionRow) → In e db.exceptions → closable tenant i e ≡ false)
      → close_exception now tenant i notes db ≡ some (none, db)
  unfolding close_exception
  close_exception_loses shut =
      let nothing : filter (closable tenant i) db.exceptions ≡ [] =
        filter-nil (closable tenant i) db.exceptions shut in
      let same : map (update_row now tenant i notes) db.exceptions ≡ db.exceptions =
        map_same (update_row now tenant i notes) db.exceptions (λ e h. kept e (shut e h)) in
      rw nothing (ap (λ es. some (none, record db { exceptions = es })) same)
    where
      kept : (e : ExceptionRow) → closable tenant i e ≡ false → update_row now tenant i notes e ≡ e
      kept e q = rw (update_row, q) refl

-- Of the operators who close one case only the first succeeds: it is answered with its own closed row,
-- and any later close of the case, at any time and with any notes, is answered with nothing and leaves
-- the store, the first notes included, as it is; given that the case is open and the account's own.
pub close_exception_once :
    (now later : ℕ) (tenant : Tenant) (notes others : String) (db : Db) (e : ExceptionRow)
    → Feeds db
    → In e db.exceptions
    → closable tenant e.id e ≡ true
    → (db' : Db) × (close_exception now tenant e.id notes db
        ≡ some (some (close_row now notes e), db'))
      × In (close_row now notes e) db'.exceptions
      × (close_exception later tenant e.id others db' ≡ some (none, db'))
close_exception_once now later tenant notes others db e v h q =
    let update = update_row now tenant e.id notes in
    let there : In (update e) (map update db.exceptions) = map-In update e db.exceptions h in
    let written : update e ≡ close_row now notes e = rw (update_row, q) refl in
    (
      closed_db now tenant e.id notes db,
      close_exception_wins now tenant e.id notes db e v h q,
      subst (λ x. In x (map update db.exceptions)) written there,
      close_exception_loses later tenant e.id others (closed_db now tenant e.id notes db) (λ x hx.
          let (old, inold, same) = In-map update x db.exceptions hx in
          sym (ap (closable tenant e.id) same) ∙ not_closable_twice now tenant e.id notes old),
    )
