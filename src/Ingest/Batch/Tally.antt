-- ===== src/Ingest/Batch/Tally.antt =====
-- ingest_ledger_batch of backend/ledgerloop/services/ingest.py up to its outcomes: what it knows of
-- each key of the batch.
use ledger_loop.Prelude.{
  ℕ, ◌+◌, ◌-◌, ◌<◌, ◌≡◌, refl, sym, ap, ◌∙◌, subst, ◌⊎◌, inl, inr, none, some, true, false, String,
  arith, List, [], In, any, filter, In-filter, filter-In, Bool-cases, Option-cases, ltb, is_some,
}
use mathlib.Core.Option
use ledger_loop.Store.{RawRow, Db}
use ledger_loop.Enums.{IngestSource}
use ledger_loop.Persist.Invariant.{Inv}
use ledger_loop.Ingest.{LedgerEntryIn}
use ledger_loop.Ingest.Rows.{RawInv}
use ledger_loop.Ingest.Batch.{
  Dict, get, keyed, first_by_key, submissions_per_key, insert_ledger, increment, increments,
  bump_all, incremented, reread, counted,
}
use ledger_loop.Ingest.Batch.View.{held_row, held_row-In, add_count}
use ledger_loop.Ingest.Batch.Dicts.{positive, counted-some, counted-none, increments_present}
use ledger_loop.Ingest.Batch.Firsts.{DistinctKeys, first_by_key-Distinct}
use ledger_loop.Ingest.Batch.Steps.{
  insert_ledger-Inv, insert_ledger_absent, insert_ledger_known, insert_ledger_new,
}
use ledger_loop.Ingest.Batch.Increments.{bump_all-Inv, bump_all_absent, bump_all_present}
use ledger_loop.Ingest.Batch.Reread.{reread_absent, reread-counts, reread-listed}

-- How often a tenant has submitted a key.
abbrev pub submitted : ℕ → String → Db → ℕ
submitted tenant k db = elim (held_row tenant k db) [
  | none ↦ 0
  | some row ↦ row.duplicate_count + 1
]

submitted_new :
    (tenant : ℕ) (k : String) (db : Db) → held_row tenant k db ≡ none → submitted tenant k db ≡ 0
submitted_new tenant k db e = rw (e, submitted) refl

submitted_before :
    (tenant : ℕ) (k : String) (db : Db) (row : RawRow)
    → held_row tenant k db ≡ some row
    → submitted tenant k db ≡ row.duplicate_count + 1
submitted_before tenant k db row e = rw (e, submitted) refl

module _ (now tenant : ℕ) (entries : List LedgerEntryIn) (db : Db) where
  abbrev pub firsts : List LedgerEntryIn
  firsts = first_by_key [] entries

  abbrev pub stored : Dict × Db
  stored = insert_ledger now tenant firsts db

  abbrev pub items : Dict
  items = increments entries stored.0 firsts

  abbrev pub bumped : Db
  bumped = bump_all tenant items stored.1

  abbrev pub again : List RawRow
  again = filter (incremented tenant items) bumped.ledger_entries

  abbrev pub known : Dict × Dict
  known = reread again stored.0 []

  pub firsts-Distinct : DistinctKeys firsts
  firsts-Distinct = first_by_key-Distinct [] entries tt

  pub bumped-Inv : Inv db → RawInv db → Inv bumped × RawInv bumped
  bumped-Inv v w =
      let (v', w') = insert_ledger-Inv now tenant firsts db v w in
      bump_all-Inv tenant items stored.1 v' w'

  pub unmentioned :
      (k : String) → any (keyed k) firsts ≡ false → held_row tenant k bumped ≡ held_row tenant k db
  unmentioned k h =
      bump_all_absent tenant entries stored.0 k firsts stored.1 h
      ∙ (insert_ledger_absent now tenant k firsts db h).0

  -- What is known of a key after the second read.
  pub record Tallied (k : String) : Type 0 where
    pub row : RawRow
    pub found : held_row tenant k bumped ≡ some row
    pub listed : get k known.0 ≡ some row.id
    pub count : counted k known.1 ≡ row.duplicate_count
    pub total : row.duplicate_count + 1 ≡ submitted tenant k db + submissions_per_key entries k
    pub repeated : is_some (get k items) ≡ ltb 1 (row.duplicate_count + 1)

  module _ (k : String) (named : any (keyed k) firsts ≡ true) (v : Inv db) (w : RawInv db) where
    item : get k items ≡ positive (increment entries stored.0 k)
    item = increments_present entries stored.0 k firsts firsts-Distinct named

    bumped_row :
        (s : RawRow)
        → held_row tenant k stored.1 ≡ some s
        → held_row tenant k bumped ≡ some (add_count (increment entries stored.0 k) s)
    bumped_row s e =
        bump_all_present tenant entries stored.0 k firsts stored.1 firsts-Distinct named
        ∙ ap (Option.map (add_count (increment entries stored.0 k))) e

    own_row :
        (row r : RawRow)
        → held_row tenant k bumped ≡ some row
        → In r again
        → r.idempotency_key ≡ k
        → r ≡ row
    unfolding incremented
    own_row row r e h q =
        let (there, passes) = In-filter (incremented tenant items) r bumped.ledger_entries h in
        let (there', t, k') = held_row-In tenant k bumped row e in
        let t' : r.tenant_id ≡ tenant = ground (arith, passes) in
        (bumped-Inv v w).1.one_row IngestSource.ledger r row there there' (t' ∙ sym t) (q ∙ sym k')

    in_again :
        (row : RawRow) (n : ℕ)
        → held_row tenant k bumped ≡ some row
        → get k items ≡ some n
        → In row again
    unfolding incremented
    in_again row n e i =
        let (there, t, k') = held_row-In tenant k bumped row e in
        let i' : get row.idempotency_key items ≡ some n =
          subst (λ j. get j items ≡ some n) (sym k') i in
        filter-In (incremented tenant items) row bumped.ledger_entries there (ground (arith, t, i'))

    not_read : (r : RawRow) → In r again → get r.idempotency_key items ≡ none → ⊥
    unfolding incremented
    not_read r h absent =
        let (there, passes) = In-filter (incremented tenant items) r bumped.ledger_entries h in
        ground (arith, passes, absent)

    -- A key whose count moved is read again.
    moved :
        (s : RawRow)
        → held_row tenant k stored.1 ≡ some s
        → 0 < increment entries stored.0 k
        → (get k stored.0 ≡ none) ⊎ (get k stored.0 ≡ some s.id)
        → s.duplicate_count + increment entries stored.0 k + 1
          ≡ submitted tenant k db + submissions_per_key entries k
        → Tallied k
    moved s e more listed total =
        let n = increment entries stored.0 k in
        let row = add_count n s in
        let found = bumped_row s e in
        let held = item ∙ positive-some n more in
        let (_, _, own) = held_row-In tenant k bumped row found in
        let read = in_again row n found held in
        let counts =
          reread-counts k row own again stored.0 [] (λ r h q. own_row row r found h q) read in
        record {
          row = row;
          found = found;
          listed =
              reread-listed k row own again stored.0 [] (λ r h q. own_row row r found h q) read
                listed;
          count = counted-some k known.1 row.duplicate_count counts;
          total = total;
          repeated = rw held (sym (past_one s.duplicate_count n more));
        }
      where
        positive-some : (n : ℕ) → 0 < n → positive n ≡ some n
        positive-some n h = ground arith

        past_one : (c n : ℕ) → 0 < n → ltb 1 (c + n + 1) ≡ true
        past_one c n h = ground arith

    -- A key that came once and is new is not.
    kept :
        (s : RawRow)
        → held_row tenant k stored.1 ≡ some s
        → increment entries stored.0 k ≡ 0
        → s.duplicate_count ≡ 0
        → get k stored.0 ≡ some s.id
        → 1 ≡ submitted tenant k db + submissions_per_key entries k
        → Tallied k
    unfolding get
    kept s e zero fresh listed total =
        let n = increment entries stored.0 k in
        let row = add_count n s in
        let found = bumped_row s e in
        let absent : get k items ≡ none = item ∙ ap positive zero in
        let untouched = reread_absent k again stored.0 [] (λ r h q. not_again r h q absent) in
        record {
          row = row;
          found = found;
          listed = untouched.0 ∙ listed;
          count = counted-none k known.1 untouched.1 ∙ omega (arith, zero, fresh);
          total = omega (arith, zero, fresh, total);
          repeated = rw absent (once s.duplicate_count n fresh zero);
        }
      where
        once : (c n : ℕ) → c ≡ 0 → n ≡ 0 → false ≡ ltb 1 (c + n + 1)
        once c n a b = ground arith

        not_again : (r : RawRow) → In r again → r.idempotency_key ≡ k → get k items ≡ none → ⊥
        not_again r h q absent = not_read r h (subst (λ j. get j items ≡ none) (sym q) absent)

    pub tallied : 0 < submissions_per_key entries k → Tallied k
    unfolding increment
    tallied some_of = elim (Option-cases (held_row tenant k db)) [
      | inr (old, e) ↦
          let (same, absent) = insert_ledger_known now tenant k firsts db old e in
          let n : increment entries stored.0 k ≡ submissions_per_key entries k =
            rw absent (omega arith) in
          moved old (same ∙ e) (omega (arith, n, some_of)) (inl absent)
            (omega (arith, n, submitted_before tenant k db old e))
      | inl e ↦
          let s = insert_ledger_new now tenant k firsts db firsts-Distinct named e in
          let n : increment entries stored.0 k ≡ submissions_per_key entries k - 1 =
            rw s.listed refl in
          elim (Bool-cases (ltb 0 (increment entries stored.0 k))) [
            | inl p ↦
                moved s.row s.found (ground (arith, p)) (inr s.listed)
                  (omega (arith, n, some_of, s.count, submitted_new tenant k db e))
            | inr p ↦
                let z : increment entries stored.0 k ≡ 0 = ground (arith, p) in
                kept s.row s.found z s.count s.listed
                  (omega (arith, n, some_of, z, submitted_new tenant k db e))
          ]
    ]
