-- ===== src/Ingest/Batch/Answers.antt =====
-- ingest_ledger_batch of backend/ledgerloop/services/ingest.py as a whole: it answers every entry of
-- the batch, in order, with the count of all submissions of its key.
use ledger_loop.Prelude.{
  ℕ, ◌+◌, ◌≡◌, refl, sym, ap, ◌∙◌, ◌⊎◌, inl, inr, some, false, String, arith, List, [], ◌∷◌, In,
  any, any-witness, ltb, is_some, find,
}
use ledger_loop.Enums.{IngestSource}
use ledger_loop.Store.{RawRow, Db}
use ledger_loop.Persist.Invariant.{Inv}
use ledger_loop.Ingest.{LedgerEntryIn, IngestOutcome, has_key, enqueue}
use ledger_loop.Ingest.Extends.{Extends-Inv}
use ledger_loop.Ingest.Rows.{RawInv}
use ledger_loop.Ingest.Bumps.{enqueue-Beside, Beside-Extends, Beside-RawInv}
use ledger_loop.Ingest.Batch.{
  Dict, get, keyed, submissions_per_key, outcome_of, each, by_key, answer, respond, ingest_entries,
  ingest_ledger_batch, counted,
}
use ledger_loop.Ingest.Batch.View.{held_row, held_row-In}
use ledger_loop.Ingest.Batch.Firsts.{
  keyed-eq, first_by_key-In, first_by_key-from, first_by_key_absent, submissions_per_key-pos,
}
use ledger_loop.Ingest.Batch.Tally.{
  submitted, firsts, items, bumped, known, bumped-Inv, unmentioned, Tallied, tallied,
}
use ledger_loop.Ingest.Batch.Lookups.{
  Zipped, Zipped-In, Zipped-from, each-all, by_key-some, outcome_of_listed, answer_listed,
  respond_listed, Zipped-map,
}

module _ (now tenant : ℕ) (entries : List LedgerEntryIn) (db : Db) where
  -- What the answer to an entry says: the row that the tenant now holds under the entry's key, and
  -- how often the key has been submitted, before and in this batch.
  pub record Answered (db' : Db) (e : LedgerEntryIn) (a : IngestOutcome) : Type 0 where
    pub row : RawRow
    pub found : held_row tenant e.idempotency_key db' ≡ some row
    pub named : a.row_id ≡ row.id
    pub count : a.submissions ≡ row.duplicate_count + 1
    pub total :
        a.submissions
        ≡ submitted tenant e.idempotency_key db + submissions_per_key entries e.idempotency_key
    pub duplicate : a.duplicate ≡ ltb 1 a.submissions

  abbrev the_known : Dict × Dict
  the_known = known now tenant entries db

  abbrev the_items : Dict
  the_items = items now tenant entries db

  abbrev the_bumped : Db
  the_bumped = bumped now tenant entries db

  -- An outcome and the key that it is of.
  record Outcome (f : LedgerEntryIn) (o : IngestOutcome) : Type 0 where
    tally : Tallied now tenant entries db f.idempotency_key
    named : o.row_id ≡ tally.row.id
    count : o.submissions ≡ tally.row.duplicate_count + 1
    duplicate : o.duplicate ≡ ltb 1 (tally.row.duplicate_count + 1)

  module _ (v : Inv db) (w : RawInv db) where
    tally_of : (e : LedgerEntryIn) → In e entries → Tallied now tenant entries db e.idempotency_key
    tally_of e h =
        tallied now tenant entries db e.idempotency_key (first_by_key-In [] entries e h) v w
          (submissions_per_key-pos entries e h)

    first_tally :
        (f : LedgerEntryIn)
        → In f (firsts now tenant entries db)
        → Tallied now tenant entries db f.idempotency_key
    first_tally f h = tally_of f (in_batch (first_by_key-from [] entries f h))
      where
        in_batch : In f [] ⊎ In f entries → In f entries
        in_batch (inl n) = elim n [ ]
        in_batch (inr m) = m

    one_tally :
        (j k : String)
        → (s : Tallied now tenant entries db j) → (t : Tallied now tenant entries db k) → j ≡ k
        → s.row ≡ t.row
    one_tally j k s t q =
        let both : some s.row ≡ some t.row =
          sym s.found ∙ ap (λ i. held_row tenant i the_bumped) q ∙ t.found in
        ground (arith, both)

    outcome :
        (f : LedgerEntryIn)
        → In f (firsts now tenant entries db)
        → (o : IngestOutcome) × (outcome_of the_known.0 the_known.1 the_items f ≡ some o)
          × Outcome f o
    outcome f h =
        let t = first_tally f h in
        (
          record {
            row_id = t.row.id;
            txn_id = f.txn_id;
            duplicate = is_some (get f.idempotency_key the_items);
            submissions = counted f.idempotency_key the_known.1 + 1;
          },
          outcome_of_listed the_known.0 the_known.1 the_items f t.row.id t.listed,
          record {
            tally = t;
            named = refl;
            count = ap (λ n. n + 1) t.count;
            duplicate = t.repeated;
          },
        )

    outcomes :
        (os : List IngestOutcome) × (each
            (outcome_of the_known.0 the_known.1 the_items)
            (firsts now tenant entries db)
          ≡ some os)
        × Zipped Outcome (firsts now tenant entries db) os
    outcomes =
        each-all Outcome (outcome_of the_known.0 the_known.1 the_items)
          (firsts now tenant entries db) outcome

    -- Two keys whose rows have one id are one key.
    same_key :
        (j k : String) (a b : RawRow)
        → held_row tenant j the_bumped ≡ some a
        → held_row tenant k the_bumped ≡ some b
        → a.id ≡ b.id
        → a ≡ b
    same_key j k a b p q e =
        (bumped-Inv now tenant entries db v w).0.raw_keys IngestSource.ledger a b
          (held_row-In tenant j the_bumped a p).0 (held_row-In tenant k the_bumped b q).0 e

    module _ (os : List IngestOutcome) (z : Zipped Outcome (firsts now tenant entries db) os) where
      answered :
          (e : LedgerEntryIn)
          → In e entries
          → (a : IngestOutcome) × (answer the_known.0 os e ≡ some a) × Answered the_bumped e a
      answered e h =
          let t = tally_of e h in
          let (f, there, k) =
            any-witness (keyed e.idempotency_key) (firsts now tenant entries db)
              (first_by_key-In [] entries e h) in
          let (o, listed, of) = Zipped-In Outcome (firsts now tenant entries db) os f z there in
          let t' : o.row_id ≡ t.row.id =
            of.named
            ∙ ap (λ (r : RawRow). r.id)
                (one_tally f.idempotency_key e.idempotency_key of.tally t
                  (keyed-eq e.idempotency_key f k)) in
          let (a, got, in_os, id) = by_key-some os o listed in
          let (g, _, own) = Zipped-from Outcome (firsts now tenant entries db) os a z in_os in
          let same : own.tally.row ≡ t.row =
            same_key g.idempotency_key e.idempotency_key own.tally.row t.row own.tally.found t.found
              (sym own.named ∙ id ∙ t') in
          let count : a.submissions ≡ t.row.duplicate_count + 1 =
            own.count ∙ ap (λ (r : RawRow). r.duplicate_count + 1) same in
          (
            a,
            answer_listed the_known.0 os e t.row.id t.listed ∙ ap (by_key os) (sym t') ∙ got,
            record {
              row = t.row;
              found = t.found;
              named = id ∙ t';
              count = count;
              total = count ∙ t.total;
              duplicate =
                  own.duplicate
                  ∙ ap (λ (r : RawRow). ltb 1 (r.duplicate_count + 1)) same
                  ∙ ap (ltb 1) (sym count);
            },
          )

      answers :
          (bs : List IngestOutcome) × (each (answer the_known.0 os) entries ≡ some bs)
          × Zipped (Answered the_bumped) entries bs
      answers = each-all (Answered the_bumped) (answer the_known.0 os) entries answered

      -- What the batch leaves behind.
      abbrev left : Db
      left = enqueue IngestSource.ledger os the_bumped

      left_row : (k : String) → held_row tenant k left ≡ held_row tenant k the_bumped
      left_row k =
          ap (find (has_key tenant k))
            ((enqueue-Beside IngestSource.ledger os the_bumped).rows IngestSource.ledger)

      answered-left :
          (e : LedgerEntryIn) (a : IngestOutcome) → Answered the_bumped e a → Answered left e a
      answered-left e a r = record {
        row = r.row;
        found = left_row e.idempotency_key ∙ r.found;
        named = r.named;
        count = r.count;
        total = r.total;
        duplicate = r.duplicate;
      }

      left-Inv : Inv left × RawInv left
      left-Inv =
          let (v', w') = bumped-Inv now tenant entries db v w in
          let beside = enqueue-Beside IngestSource.ledger os the_bumped in
          (
            Extends-Inv the_bumped left v' (Beside-Extends the_bumped left beside v'),
            Beside-RawInv the_bumped left beside w',
          )

  -- What a batch does, as a whole.
  pub record Done (answers : List IngestOutcome) (db' : Db) : Type 0 where
    pub answered : Zipped (Answered db') entries answers
    pub others :
        (k : String) → any (keyed k) entries ≡ false → held_row tenant k db' ≡ held_row tenant k db
    pub kept : Inv db'
    pub keys : RawInv db'

ingest_entries-Done :
    (now tenant : ℕ) (entries : List LedgerEntryIn) (db : Db)
    → Inv db
    → RawInv db
    → (answers : List IngestOutcome) × (db' : Db) × (ingest_entries now tenant entries db
        ≡ some (answers, db'))
      × Done now tenant entries db answers db'
unfolding ingest_entries
ingest_entries-Done now tenant entries db v w =
    let (os, q, z) = outcomes now tenant entries db v w in
    let (bs, r, y) = answers now tenant entries db v w os z in
    let (v', w') = left-Inv now tenant entries db v w os z in
    (
      bs,
      left now tenant entries db v w os z,
      ap
            (λ o.
              respond entries (the_known now tenant entries db).0 o
                (the_bumped now tenant entries db))
            q
          ∙ respond_listed entries (the_known now tenant entries db).0 os bs
              (the_bumped now tenant entries db) r,
      record {
        answered = Zipped-map entries bs (answered-left now tenant entries db v w os z) y;
        others = λ k h.
            left_row now tenant entries db v w os z k
            ∙ unmentioned now tenant entries db k (first_by_key_absent k [] entries refl h);
        kept = v';
        keys = w';
      },
    )

-- On a well-formed store a batch is always received, and answered entry by entry, in its order: the
-- answer to an entry names the row that the tenant now holds under the entry's key, counts all
-- submissions of that key, those before the batch and those in it, and says duplicate exactly when
-- that is more than one. The rows under the keys that the batch does not name are as they were, and
-- the store stays well formed.
pub ingest_ledger_batch-Done :
    (now tenant : ℕ) (entries : List LedgerEntryIn) (db : Db)
    → Inv db
    → RawInv db
    → (answers : List IngestOutcome) × (db' : Db) × (ingest_ledger_batch now tenant entries db
        ≡ some (answers, db'))
      × Done now tenant entries db answers db'
unfolding ingest_ledger_batch
ingest_ledger_batch-Done now tenant [] db v w =
    ([], db, refl, record { answered = tt; others = λ k h. refl; kept = v; keys = w })
ingest_ledger_batch-Done now tenant (e ∷ es) db v w = ingest_entries-Done now tenant (e ∷ es) db v w
