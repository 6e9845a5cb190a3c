-- ===== src/Ingest/Gateway.antt =====
-- ingest_gateway of backend/ledgerloop/services/ingest.py: a first receipt stores a row, a retry
-- counts on the row that is there, and both send one event.
use ledger_loop.Prelude.{
  one, one-filter, ℕ, ◌+◌, ◌≡◌, refl, sym, ◌∙◌, ◌⊎◌, inl, inr, none, some, true, false, String,
  Bool, [], ◌∷◌, map, In, map-In, any, any-witness, filter, Bool-cases,
}
use ledger_loop.Enums.{IngestSource}
use ledger_loop.Store.{RawRow, Db}
use ledger_loop.Persist.Invariant.{Inv}
use ledger_loop.Ingest.{
  GatewayWebhookIn, IngestOutcome, add_row, map_rows, has_key, insert_raw, bump_row, bump,
  gateway_values, event_of, enqueue, retried, receipt, enqueue_outcome, store_gateway, short_key,
  ingest_gateway,
}
use ledger_loop.Ingest.Extends.{Extends-Inv}
use ledger_loop.Ingest.Rows.{RawInv, has_key-parts, parts-has_key, add_row-Extends, add_row-RawInv}
use ledger_loop.Ingest.Bumps.{
  bump_row-Kept, bump-Extends, bump-RawInv, enqueue-Beside, Beside-Extends, Beside-RawInv,
}

module _ (now tenant : ℕ) (payload : GatewayWebhookIn) (key : String) (db : Db) where
  abbrev pub new_row : RawRow
  new_row = gateway_values now tenant payload key db.next_gateway

  abbrev pub held : Bool
  held = any (has_key tenant key) db.gateway_transactions

  -- The two ways a delivery is received, by what the gateway table becomes.
  pub record First (o : IngestOutcome) (db' : Db) : Type 0 where
    pub not_held : held ≡ false
    pub outcome : o ≡ record {
      row_id = db.next_gateway;
      txn_id = payload.txn_id;
      duplicate = false;
      submissions = 1;
    }
    pub rows : db'.gateway_transactions ≡ new_row ∷ db.gateway_transactions

  pub record Retry (o : IngestOutcome) (db' : Db) : Type 0 where
    pub row : RawRow
    pub stored : In row db.gateway_transactions
    pub keyed : has_key tenant key row ≡ true
    pub outcome : o ≡ record {
      row_id = row.id;
      txn_id = payload.txn_id;
      duplicate = true;
      submissions = row.duplicate_count + 1 + 1;
    }
    pub rows : db'.gateway_transactions ≡ map (bump_row tenant key 1) db.gateway_transactions

  pub record Received (o : IngestOutcome) (db' : Db) : Type 0 where
    pub receipt : First o db' ⊎ Retry o db'
    pub event :
        db'.outbox_events ≡ event_of IngestSource.gateway o db.next_outbox ∷ db.outbox_events
    pub ledger : db'.ledger_entries ≡ db.ledger_entries
    pub results : db'.results ≡ db.results
    pub exceptions : db'.exceptions ≡ db.exceptions
    pub kept : Inv db'
    pub keyed : RawInv db'

  Received-first :
      Inv db
      → RawInv db
      → held ≡ false
      → (o : IngestOutcome) × (db' : Db) × (store_gateway now tenant payload key db ≡ some (o, db'))
        × Received o db'
  unfolding store_gateway enqueue_outcome receipt insert_raw enqueue add_row
  Received-first v w free =
      let o : IngestOutcome = record {
        row_id = db.next_gateway;
        txn_id = payload.txn_id;
        duplicate = false;
        submissions = 1;
      } in
      let stored = add_row IngestSource.gateway new_row db in
      let v' : Inv stored =
        Extends-Inv db stored v (add_row-Extends IngestSource.gateway new_row db refl v w refl) in
      let w' : RawInv stored = add_row-RawInv IngestSource.gateway new_row db refl w free in
      let beside = enqueue-Beside IngestSource.gateway (o ∷ []) stored in
      (
        o,
        enqueue IngestSource.gateway (o ∷ []) stored,
        rw free,
        record {
          receipt = inl (record { not_held = free; outcome = refl; rows = refl });
          event = refl;
          ledger = refl;
          results = refl;
          exceptions = refl;
          kept = Extends-Inv stored _ v' (Beside-Extends stored _ beside v');
          keyed = Beside-RawInv stored _ beside w';
        },
      )

  abbrev bumped : Db
  bumped = bump IngestSource.gateway tenant key 1 db

  -- The UPDATE of a held key returns one row.
  returned :
      RawInv db
      → (row : RawRow) → In row db.gateway_transactions
      → has_key tenant key row ≡ true
      → one (filter (has_key tenant key) bumped.gateway_transactions)
        ≡ some (bump_row tenant key 1 row)
  unfolding bump map_rows
  returned w row there keyed =
      let w' : RawInv bumped = bump-RawInv IngestSource.gateway tenant key 1 db w in
      let kept = bump_row-Kept tenant key 1 row in
      let own = has_key-parts tenant key row keyed in
      one-filter (λ (r : RawRow). r.id) (has_key tenant key) _ (bump_row tenant key 1 row)
        bumped.gateway_transactions (w'.descending IngestSource.gateway)
        (λ a b ha hb ka kb.
          let pa = has_key-parts tenant key a ka in
          let pb = has_key-parts tenant key b kb in
          w'.one_row IngestSource.gateway a b ha hb (pa.0 ∙ sym pb.0) (pa.1 ∙ sym pb.1))
        (map-In (bump_row tenant key 1) row db.gateway_transactions there)
        (parts-has_key tenant key (bump_row tenant key 1 row) (kept.tenant_id ∙ own.0)
          (kept.idempotency_key ∙ own.1))

  bumped_row :
      (row : RawRow)
      → has_key tenant key row ≡ true
      → bump_row tenant key 1 row ≡ record row { duplicate_count = row.duplicate_count + 1 }
  unfolding bump_row
  bumped_row row keyed = rw keyed

  Received-retry :
      Inv db
      → RawInv db
      → held ≡ true
      → (o : IngestOutcome) × (db' : Db) × (store_gateway now tenant payload key db ≡ some (o, db'))
        × Received o db'
  unfolding store_gateway enqueue_outcome receipt insert_raw enqueue retried bump map_rows
  Received-retry v w is_held =
      let (row, there, keyed) = any-witness (has_key tenant key) db.gateway_transactions is_held in
      let o : IngestOutcome = record {
        row_id = row.id;
        txn_id = payload.txn_id;
        duplicate = true;
        submissions = row.duplicate_count + 1 + 1;
      } in
      let v' : Inv bumped =
        Extends-Inv db bumped v (bump-Extends IngestSource.gateway tenant key 1 db v) in
      let w' : RawInv bumped = bump-RawInv IngestSource.gateway tenant key 1 db w in
      let beside = enqueue-Beside IngestSource.gateway (o ∷ []) bumped in
      (
        o,
        enqueue IngestSource.gateway (o ∷ []) bumped,
        rw (is_held, returned w row there keyed, bumped_row row keyed) refl,
        record {
          receipt =
              inr
                (record { row = row; stored = there; keyed = keyed; outcome = refl; rows = refl });
          event = refl;
          ledger = refl;
          results = refl;
          exceptions = refl;
          kept = Extends-Inv bumped _ v' (Beside-Extends bumped _ beside v');
          keyed = Beside-RawInv bumped _ beside w';
        },
      )

  pub long_key-refused : short_key key ≡ false → ingest_gateway now tenant payload key db ≡ none
  unfolding ingest_gateway
  long_key-refused long = rw (ingest_gateway, long) refl

  -- Only a key that the column holds is received.
  pub received_short :
      (r : IngestOutcome × Db)
      → ingest_gateway now tenant payload key db ≡ some r
      → short_key key ≡ true
  received_short r run = elim (Bool-cases (short_key key)) [
    | inl e ↦ e
    | inr e ↦ absurd (cc (long_key-refused e, run))
  ]

  -- On a well-formed store a delivery under a key of at most 255 characters is always received. If the
  -- tenant holds no row under the key, one row is stored as it was sent and the answer is a first
  -- receipt; otherwise no row is stored, the duplicate count of the row under the key goes up by one and
  -- the answer names that row, as a duplicate, with the number of its submissions. Either way one event
  -- for the row is queued, nothing else changes, and the store stays well formed.
  pub ingest_gateway-Received :
      Inv db
      → RawInv db
      → short_key key ≡ true
      → (o : IngestOutcome) × (db' : Db) × (ingest_gateway now tenant payload key db
          ≡ some (o, db'))
        × Received o db'
  unfolding ingest_gateway
  ingest_gateway-Received v w short =
      rw (ingest_gateway, short)
        (elim (Bool-cases held) [ inl e ↦ Received-retry v w e | inr e ↦ Received-first v w e ])
