-- ===== src/Store/Indexes.antt =====
-- The unique indexes of backend/ledgerloop/db/models.py: when two results cannot both be stored, and
-- what the conflict-free INSERTs return.
use ledger_loop.Prelude.{
  ℕ, ◌+◌, ◌≡◌, refl, inl, inr, Bool, true, false, Option, none, some, ◌∷◌, arith, any, Bool-cases,
}
use ledger_loop.Enums.{IngestSource, ReconStatus, suppressed_statuses, is_active}
use ledger_loop.Store.{
  ReconciliationResult, Db, side_id, same_id, index_hit, violates, insert_result,
}

-- The two results speak of one row of a side, of one tenant, and both or neither is a duplicate
-- marker.
pub record Clash (r t : ReconciliationResult) (side : IngestSource) (i : ℕ) : Type 0 where
  pub left : side_id side r ≡ some i
  pub right : side_id side t ≡ some i
  pub kind : is_active r.status ≡ is_active t.status
  pub tenant : r.tenant_id ≡ t.tenant_id

same_id-some : (a b : Option ℕ) → same_id a b ≡ true → (i : ℕ) × (a ≡ some i) × (b ≡ some i)
same_id-some (some a) (some b) h = (a, refl, ground arith)
same_id-some (some a) none h = absurd (ground arith)
same_id-some none b h = absurd (ground arith)

index_hit-Clash :
    (covers : ReconStatus → Bool) (side : IngestSource) (r t : ReconciliationResult)
    → (covers r.status ≡ true → covers t.status ≡ true → is_active r.status ≡ is_active t.status)
    → index_hit covers side r t ≡ true
    → (i : ℕ) × Clash r t side i
unfolding index_hit
index_hit-Clash covers side r t kinds h =
    let (i, a, b) = same_id-some (side_id side r) (side_id side t) (ground arith) in
    (
      i,
      record {
        left = a;
        right = b;
        kind = kinds (ground arith) (ground arith);
        tenant = ground arith;
      },
    )

active_kind :
    (s t : ReconStatus) → is_active s ≡ true → is_active t ≡ true → is_active s ≡ is_active t
active_kind s t h k = ground arith

duplicate_kind :
    (s t : ReconStatus)
    → suppressed_statuses s ≡ true
    → suppressed_statuses t ≡ true
    → is_active s ≡ is_active t
duplicate_kind s t h k = ground arith

-- Two results that violate an index clash on one of the sides.
pub violates-Clash :
    (r t : ReconciliationResult)
    → violates r t ≡ true
    → (side : IngestSource) × (i : ℕ) × Clash r t side i
unfolding violates
violates-Clash r t h = elim (Bool-cases (index_hit is_active IngestSource.gateway r t)) [
  | inl e ↦ pack (index_hit-Clash is_active IngestSource.gateway r t (active_kind _ _) e)
  | inr e ↦ elim (Bool-cases (index_hit is_active IngestSource.ledger r t)) [
    | inl f ↦ pack (index_hit-Clash is_active IngestSource.ledger r t (active_kind _ _) f)
    | inr f ↦ elim (Bool-cases (index_hit suppressed_statuses IngestSource.gateway r t)) [
      | inl g ↦
          pack (index_hit-Clash suppressed_statuses IngestSource.gateway r t (duplicate_kind _ _) g)
      | inr g ↦ pack (
          index_hit-Clash suppressed_statuses IngestSource.ledger r t (duplicate_kind _ _)
            (ground arith))
    ]
  ]
]
  where
    pack :
        {s : IngestSource}
        → ((i : ℕ) × Clash r t s i)
        → (side : IngestSource) × (i : ℕ) × Clash r t side i
    pack {s} (i, c) = (s, i, c)

-- Two results that clash violate an index.
pub Clash-violates :
    (r t : ReconciliationResult) (side : IngestSource) (i : ℕ)
    → Clash r t side i
    → violates r t ≡ true
unfolding violates index_hit
Clash-violates r t IngestSource.gateway i c = ground (arith, c.left, c.right, c.kind, c.tenant)
Clash-violates r t IngestSource.ledger i c = ground (arith, c.left, c.right, c.kind, c.tenant)

pub insert_result_conflict :
    (r : ReconciliationResult) (db : Db)
    → any (violates r) db.results ≡ true
    → insert_result r db ≡ (none, db)
unfolding insert_result
insert_result_conflict r db h = rw h

pub insert_result_stored :
    (r : ReconciliationResult) (db : Db)
    → any (violates r) db.results ≡ false
    → insert_result r db
      ≡ (some r.id, record db { results = r ∷ db.results; next_result = db.next_result + 1 })
unfolding insert_result
insert_result_stored r db h = rw h
