-- ===== src/Ingest/Retry.antt =====
-- ingest_gateway of backend/ledgerloop/services/ingest.py on a key that was received before.
use ledger_loop.Prelude.{
  ℕ, ◌+◌, ◌≡◌, refl, sym, ap, ◌∙◌, subst, inl, inr, some, true, String, arith, List, [], ◌∷◌, map,
  In, map-In, any-true, length,
}
use ledger_loop.Enums.{IngestSource}
use ledger_loop.Store.{RawRow, Db}
use ledger_loop.Persist.Invariant.{Inv}
use ledger_loop.Ingest.{GatewayWebhookIn, IngestOutcome, has_key, bump_row, ingest_gateway}
use ledger_loop.Ingest.Rows.{RawInv, has_key-parts, parts-has_key}
use ledger_loop.Ingest.Bumps.{bump_row-Kept}
use ledger_loop.Ingest.Gateway.{new_row, Received, received_short, ingest_gateway-Received}

-- The row that holds a key, and what an outcome says of it.
pub record Holds (tenant : ℕ) (key : String) (o : IngestOutcome) (db : Db) : Type 0 where
  pub row : RawRow
  pub stored : In row db.gateway_transactions
  pub keyed : has_key tenant key row ≡ true
  pub named : o.row_id ≡ row.id
  pub counted : o.submissions ≡ row.duplicate_count + 1

length-map : (f : RawRow → RawRow) (xs : List RawRow) → length (map f xs) ≡ length xs
length-map f [] = refl
length-map f (x ∷ xs) = omega (arith, length-map f xs)

module _ (now tenant : ℕ) (payload : GatewayWebhookIn) (key : String) (db : Db) where
  bumped_count :
      (row : RawRow)
      → has_key tenant key row ≡ true
      → (bump_row tenant key 1 row).duplicate_count ≡ row.duplicate_count + 1
  unfolding bump_row
  bumped_count row keyed = rw keyed

  Received-Holds :
      (o : IngestOutcome) (db' : Db)
      → Received now tenant payload key db o db'
      → Holds tenant key o db'
  Received-Holds o db' r = elim r.receipt [
    | inl f ↦ record {
      row = new_row now tenant payload key db;
      stored = subst (In (new_row now tenant payload key db)) (sym f.rows) (inl refl);
      keyed = parts-has_key tenant key (new_row now tenant payload key db) refl refl;
      named = ap (λ (t : IngestOutcome). t.row_id) f.outcome;
      counted = ap (λ (t : IngestOutcome). t.submissions) f.outcome;
    }
    | inr t ↦
        let own = has_key-parts tenant key t.row t.keyed in
        let kept = bump_row-Kept tenant key 1 t.row in
        record {
          row = bump_row tenant key 1 t.row;
          stored =
              subst (In (bump_row tenant key 1 t.row)) (sym t.rows)
                (map-In (bump_row tenant key 1) t.row db.gateway_transactions t.stored);
          keyed =
              parts-has_key tenant key (bump_row tenant key 1 t.row) (kept.tenant_id ∙ own.0)
                (kept.idempotency_key ∙ own.1);
          named = ap (λ (x : IngestOutcome). x.row_id) t.outcome ∙ sym kept.id;
          counted = omega (
            arith,
            ap (λ (x : IngestOutcome). x.submissions) t.outcome,
            bumped_count t.row t.keyed,
          );
        }
  ]

  -- The answer to a key that a row of the store holds.
  answer-Holds :
      (o o' : IngestOutcome) (db' : Db)
      → RawInv db
      → Holds tenant key o db
      → Received now tenant payload key db o' db'
      → (o'.row_id ≡ o.row_id)
        × (o'.duplicate ≡ true)
        × (o'.submissions ≡ o.submissions + 1)
        × (length db'.gateway_transactions ≡ length db.gateway_transactions)
  answer-Holds o o' db' w h r = elim r.receipt [
    | inl f ↦ absurd (
        cc (
          f.not_held,
          any-true (has_key tenant key) h.row db.gateway_transactions h.stored h.keyed,
        ))
    | inr t ↦
        let a = has_key-parts tenant key t.row t.keyed in
        let b = has_key-parts tenant key h.row h.keyed in
        let same : t.row ≡ h.row =
          w.one_row IngestSource.gateway t.row h.row t.stored h.stored (a.0 ∙ sym b.0)
            (a.1 ∙ sym b.1) in
        (
          ap (λ (x : IngestOutcome). x.row_id) t.outcome
              ∙ ap (λ (x : RawRow). x.id) same
              ∙ sym h.named,
          ap (λ (x : IngestOutcome). x.duplicate) t.outcome,
          omega (
            arith,
            ap (λ (x : IngestOutcome). x.submissions) t.outcome,
            ap (λ (x : RawRow). x.duplicate_count) same,
            h.counted,
          ),
          ap length t.rows ∙ length-map (bump_row tenant key 1) db.gateway_transactions,
        )
  ]

-- On a well-formed store, sending a key again right after it was received, with whatever payload, is
-- answered with the row of the first answer, as a
-- duplicate and as one submission more, and stores no further row.
pub ingest_gateway_again :
    (now now' tenant : ℕ) (payload payload' : GatewayWebhookIn) (key : String) (db db' : Db)
    (o : IngestOutcome)
    → Inv db
    → RawInv db
    → ingest_gateway now tenant payload key db ≡ some (o, db')
    → (o' : IngestOutcome) × (db'' : Db) × (ingest_gateway now' tenant payload' key db'
        ≡ some (o', db''))
      × (o'.row_id ≡ o.row_id)
      × (o'.duplicate ≡ true)
      × (o'.submissions ≡ o.submissions + 1)
      × (length db''.gateway_transactions ≡ length db'.gateway_transactions)
ingest_gateway_again now now' tenant payload payload' key db db' o v w e =
    let short = received_short now tenant payload key db (o, db') e in
    let (p, stored, q, r) = ingest_gateway-Received now tenant payload key db v w short in
    let same : (p, stored) ≡ (o, db') = ground (arith, q, e) in
    let first : Received now tenant payload key db o db' =
      subst (λ (t : IngestOutcome × Db). Received now tenant payload key db t.0 t.1) same r in
    let (o', db'', again, r') =
      ingest_gateway-Received now' tenant payload' key db' first.kept first.keyed short in
    let (row, duplicate, count, stored_rows) =
      answer-Holds now' tenant payload' key db' o o' db'' first.keyed
        (Received-Holds now tenant payload key db o db' first) r' in
    (o', db'', again, row, duplicate, count, stored_rows)
