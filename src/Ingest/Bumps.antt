-- ===== src/Ingest/Bumps.antt =====
-- The UPDATE of duplicate_count and the outbox INSERT of backend/ledgerloop/services/ingest.py: what
-- they leave alone.
use ledger_loop.Prelude.{
  Falling-map, ℕ, ◌+◌, ◌≡◌, refl, sym, ap, ◌∙◌, subst, inl, inr, String, List, [], ◌∷◌, map, In,
  In-map, map-In, Bool-cases,
}
use ledger_loop.Enums.{IngestSource}
use ledger_loop.Store.{RawRow, Db, table}
use ledger_loop.Persist.Invariant.{Inv}
use ledger_loop.Ingest.{
  IngestOutcome, next_raw, map_rows, has_key, bump_row, bump, event_of, enqueue,
}
use ledger_loop.Ingest.Extends.{Extends}
use ledger_loop.Ingest.Rows.{RawInv, Descending}

map-same {ℓ} : {A : Type ℓ} (xs : List A) → map (λ (x : A). x) xs ≡ xs
map-same [] = refl
map-same (x ∷ xs) = ap (x ∷◌) (map-same xs)

-- What an UPDATE on the table of `s` does to a row of `side`.
abbrev pub on_side : IngestSource → IngestSource → (RawRow → RawRow) → RawRow → RawRow
on_side IngestSource.gateway IngestSource.gateway f row = f row
on_side IngestSource.ledger IngestSource.ledger f row = f row
on_side _ _ f row = row

pub table-bump :
    (s side : IngestSource) (t : ℕ) (k : String) (n : ℕ) (db : Db)
    → table side (bump s t k n db) ≡ map (on_side s side (bump_row t k n)) (table side db)
unfolding bump map_rows
table-bump IngestSource.gateway IngestSource.gateway t k n db = refl
table-bump IngestSource.gateway IngestSource.ledger t k n db = sym (map-same db.ledger_entries)
table-bump IngestSource.ledger IngestSource.ledger t k n db = refl
table-bump IngestSource.ledger IngestSource.gateway t k n db =
    sym (map-same db.gateway_transactions)

-- The columns that a bumped row keeps.
pub record Kept (a b : RawRow) : Type 0 where
  pub id : b.id ≡ a.id
  pub tenant_id : b.tenant_id ≡ a.tenant_id
  pub idempotency_key : b.idempotency_key ≡ a.idempotency_key
  pub reconciled_at : b.reconciled_at ≡ a.reconciled_at

Kept-refl : (a : RawRow) → Kept a a
Kept-refl a = record { id = refl; tenant_id = refl; idempotency_key = refl; reconciled_at = refl }

pub bump_row-Kept : (t : ℕ) (k : String) (n : ℕ) (row : RawRow) → Kept row (bump_row t k n row)
unfolding bump_row
bump_row-Kept t k n row = elim (Bool-cases (has_key t k row)) [
  | inl e ↦
      rw e (record { id = refl; tenant_id = refl; idempotency_key = refl; reconciled_at = refl })
  | inr e ↦ rw e (Kept-refl row)
]

on_side-Kept :
    (s side : IngestSource) (t : ℕ) (k : String) (n : ℕ) (row : RawRow)
    → Kept row (on_side s side (bump_row t k n) row)
on_side-Kept IngestSource.gateway IngestSource.gateway t k n row = bump_row-Kept t k n row
on_side-Kept IngestSource.gateway IngestSource.ledger t k n row = Kept-refl row
on_side-Kept IngestSource.ledger IngestSource.ledger t k n row = bump_row-Kept t k n row
on_side-Kept IngestSource.ledger IngestSource.gateway t k n row = Kept-refl row

unchanged-bump :
    (s side : IngestSource) (t : ℕ) (k : String) (n : ℕ) (db : Db)
    → ((bump s t k n db).results ≡ db.results)
      × ((bump s t k n db).exceptions ≡ db.exceptions)
      × ((bump s t k n db).next_result ≡ db.next_result)
      × (next_raw side (bump s t k n db) ≡ next_raw side db)
unfolding bump map_rows
unchanged-bump IngestSource.gateway IngestSource.gateway t k n db = (refl, refl, refl, refl)
unchanged-bump IngestSource.gateway IngestSource.ledger t k n db = (refl, refl, refl, refl)
unchanged-bump IngestSource.ledger IngestSource.ledger t k n db = (refl, refl, refl, refl)
unchanged-bump IngestSource.ledger IngestSource.gateway t k n db = (refl, refl, refl, refl)

module _ (s : IngestSource) (t : ℕ) (k : String) (n : ℕ) (db : Db) where
  -- A row after the UPDATE, and the row that it was.
  pub bump_before :
      (side : IngestSource) (x : RawRow)
      → In x (table side (bump s t k n db))
      → (old : RawRow) × In old (table side db) × (on_side s side (bump_row t k n) old ≡ x)
  bump_before side x h =
      In-map (on_side s side (bump_row t k n)) x (table side db)
        (subst (In x) (table-bump s side t k n db) h)

  Kept-before :
      (side : IngestSource) (x : RawRow)
      → In x (table side (bump s t k n db))
      → (old : RawRow) × In old (table side db) × Kept old x
  Kept-before side x h =
      let (old, there, e) = bump_before side x h in
      (old, there, subst (Kept old) e (on_side-Kept s side t k n old))

  pub bump_after :
      (side : IngestSource) (x : RawRow)
      → In x (table side db)
      → In (on_side s side (bump_row t k n) x) (table side (bump s t k n db))
  bump_after side x h =
      subst (In (on_side s side (bump_row t k n) x)) (sym (table-bump s side t k n db))
        (map-In (on_side s side (bump_row t k n)) x (table side db) h)

  together :
      (side : IngestSource) (a b : RawRow)
      → In a (table side (bump s t k n db))
      → In b (table side (bump s t k n db))
      → ((x y : RawRow) → In x (table side db) → In y (table side db) → Kept x a → Kept y b → x ≡ y)
      → a ≡ b
  together side a b ha hb same =
      let (x, hx, ex) = bump_before side a ha in
      let (y, hy, ey) = bump_before side b hb in
      let kx : Kept x a = subst (Kept x) ex (on_side-Kept s side t k n x) in
      let ky : Kept y b = subst (Kept y) ey (on_side-Kept s side t k n y) in
      sym ex ∙ ap (on_side s side (bump_row t k n)) (same x y hx hy kx ky) ∙ ey

  pub bump-Extends : Inv db → Extends db (bump s t k n db)
  bump-Extends v = record {
    results = (unchanged-bump s s t k n db).0;
    exceptions = (unchanged-bump s s t k n db).1;
    next_result = (unchanged-bump s s t k n db).2;
    origin = λ side x h.
        let (old, there, kept) = Kept-before side x h in
        inl (record {
          old = old;
          stored = there;
          same_id = sym kept.id;
          same_mark = sym kept.reconciled_at;
        });
    image = λ side x h. record {
      row = on_side s side (bump_row t k n) x;
      stored = bump_after side x h;
      key = (on_side-Kept s side t k n x).id;
      owner = (on_side-Kept s side t k n x).tenant_id;
    };
    keys = λ side a b ha hb e.
        together side a b ha hb
          (λ x y hx hy kx ky. v.raw_keys side x y hx hy (sym kx.id ∙ e ∙ ky.id));
  }

  pub bump-RawInv : RawInv db → RawInv (bump s t k n db)
  bump-RawInv w = record {
    descending = λ side.
        subst (λ i. Descending i (table side (bump s t k n db)))
          (sym (unchanged-bump s side t k n db).3)
          (subst (Descending (next_raw side db)) (sym (table-bump s side t k n db)) (
            Falling-map (λ (r : RawRow). r.id) (on_side s side (bump_row t k n)) (next_raw side db)
              (table side db) (λ x. (on_side-Kept s side t k n x).id) (w.descending side)));
    one_row = λ side a b ha hb et ek. together side a b ha hb (λ x y hx hy kx ky.
        w.one_row side x y hx hy (sym kx.tenant_id ∙ et ∙ ky.tenant_id)
          (sym kx.idempotency_key ∙ ek ∙ ky.idempotency_key));
  }

-- The outbox INSERT stands beside the rest of the store.
pub record Beside (db db' : Db) : Type 0 where
  pub rows : (side : IngestSource) → table side db' ≡ table side db
  pub next : (side : IngestSource) → next_raw side db' ≡ next_raw side db
  pub results : db'.results ≡ db.results
  pub exceptions : db'.exceptions ≡ db.exceptions
  pub next_result : db'.next_result ≡ db.next_result

pub enqueue-Beside :
    (s : IngestSource) (os : List IngestOutcome) (db : Db) → Beside db (enqueue s os db)
unfolding enqueue
enqueue-Beside s [] db = record {
  rows = λ side. refl;
  next = λ side. refl;
  results = refl;
  exceptions = refl;
  next_result = refl;
}
enqueue-Beside s (o ∷ os) db =
    let rest = enqueue-Beside s os (record db {
      outbox_events = event_of s o db.next_outbox ∷ db.outbox_events;
      next_outbox = db.next_outbox + 1;
    }) in
    record {
      rows = rows rest.rows;
      next = next rest.next;
      results = rest.results;
      exceptions = rest.exceptions;
      next_result = rest.next_result;
    }
  where
    queued : Db
    queued = record db {
      outbox_events = event_of s o db.next_outbox ∷ db.outbox_events;
      next_outbox = db.next_outbox + 1;
    }

    rows :
        ((side : IngestSource) → table side (enqueue s os queued) ≡ table side queued)
        → (side : IngestSource) → table side (enqueue s os queued) ≡ table side db
    rows f IngestSource.gateway = f IngestSource.gateway
    rows f IngestSource.ledger = f IngestSource.ledger

    next :
        ((side : IngestSource) → next_raw side (enqueue s os queued) ≡ next_raw side queued)
        → (side : IngestSource) → next_raw side (enqueue s os queued) ≡ next_raw side db
    next f IngestSource.gateway = f IngestSource.gateway
    next f IngestSource.ledger = f IngestSource.ledger

module _ (db db' : Db) (b : Beside db db') where
  same_row : (side : IngestSource) (x : RawRow) → In x (table side db') → In x (table side db)
  same_row side x h = subst (In x) (b.rows side) h

  pub Beside-Extends : Inv db → Extends db db'
  Beside-Extends v = record {
    results = b.results;
    exceptions = b.exceptions;
    next_result = b.next_result;
    origin = λ side x h.
        inl (record { old = x; stored = same_row side x h; same_id = refl; same_mark = refl });
    image = λ side x h. record {
      row = x;
      stored = subst (In x) (sym (b.rows side)) h;
      key = refl;
      owner = refl;
    };
    keys = λ side x y hx hy e. v.raw_keys side x y (same_row side x hx) (same_row side y hy) e;
  }

  pub Beside-RawInv : RawInv db → RawInv db'
  Beside-RawInv w = record {
    descending = λ side.
        subst (λ n. Descending n (table side db')) (sym (b.next side))
          (subst (Descending (next_raw side db)) (sym (b.rows side)) (w.descending side));
    one_row =
        λ side x y hx hy et ek. w.one_row side x y (same_row side x hx) (same_row side y hy) et ek;
  }
