-- ===== src/Worker/Decides.antt =====
-- The decisions of backend/ledgerloop/worker/loop.py and sweeper.py are about stored rows of one
-- tenant, the candidate's among them.
use ledger_loop.Prelude.{ℕ, ◌≡◌, refl, sym, ap, ◌∙◌, subst, inl, inr, ◌⊎◌, List, some, arith, In, ℤ}
use mathlib.Core.Option.{some-injective}
use ledger_loop.Enums.{IngestSource}
use ledger_loop.Matching.{
  TxnFacts, MatchConfig, Decision, gateway_and_ledger, decide, decide_duplicate, decide_unmatched,
}
use ledger_loop.Matching.Classify.{Counterparts, classify_pair-iff-Classifies}
use ledger_loop.Matching.Choice.{Picked, decide-Picked}
use ledger_loop.Store.{Db}
use ledger_loop.Persist.{other_side, facts, find_counterparties}
use ledger_loop.Persist.Settle.{row_of}
use ledger_loop.Persist.Invariant.{RowAt, Applies}
use ledger_loop.Persist.Reads.{ReadOff, Offered-ReadOff, find_counterparties-iff-Offered}

-- A decision about a row of a side.
abbrev pub Names : TxnFacts → Decision → Type 0
Names c d = row_of c.side d ≡ some c.row_id

pub ReadOff-RowAt :
    (db : Db) (side : IngestSource) (f : TxnFacts)
    → ReadOff db side f
    → RowAt db side f.row_id f.tenant_id
unfolding facts
ReadOff-RowAt db side f r = record {
  row = r.row;
  stored = r.stored;
  key = ap (λ (t : TxnFacts). t.row_id) r.read;
  owner = ap (λ (t : TxnFacts). t.tenant_id) r.read;
}

pub decide_duplicate-Names : (c : TxnFacts) (n : ℕ) → Names c (decide_duplicate c n)
unfolding decide_duplicate
decide_duplicate-Names c n = ground arith

pub decide_unmatched-Names : (c : TxnFacts) (w : ℤ) → Names c (decide_unmatched c w)
unfolding decide_unmatched
decide_unmatched-Names c w = ground arith

-- The only row that a decision names.
abbrev pub OnlyNames : TxnFacts → Decision → Type 0
OnlyNames c d =
    (side : IngestSource) (i : ℕ) → row_of side d ≡ some i → (c.side ≡ side) × (c.row_id ≡ i)

OnlyNames-Applies :
    (db : Db) (c : TxnFacts) (d : Decision)
    → ReadOff db c.side c
    → Names c d
    → OnlyNames c d
    → Applies db d c.tenant_id
OnlyNames-Applies db c d r named only = record {
  names = (c.side, c.row_id, named);
  rows = λ side i e.
      let (s, k) = only side i e in
      subst (λ t. RowAt db side t c.tenant_id) k
        (subst (λ t. RowAt db t c.row_id c.tenant_id) s (ReadOff-RowAt db c.side c r));
}

decide_duplicate-OnlyNames : (c : TxnFacts) (n : ℕ) → OnlyNames c (decide_duplicate c n)
unfolding decide_duplicate
decide_duplicate-OnlyNames c n IngestSource.gateway i e = ground arith
decide_duplicate-OnlyNames c n IngestSource.ledger i e = ground arith

pub decide_unmatched-OnlyNames : (c : TxnFacts) (w : ℤ) → OnlyNames c (decide_unmatched c w)
unfolding decide_unmatched
decide_unmatched-OnlyNames c w IngestSource.gateway i e = ground arith
decide_unmatched-OnlyNames c w IngestSource.ledger i e = ground arith

pub decide_duplicate-Applies :
    (db : Db) (c : TxnFacts) (n : ℕ)
    → ReadOff db c.side c
    → Applies db (decide_duplicate c n) c.tenant_id
decide_duplicate-Applies db c n r =
    OnlyNames-Applies db c (decide_duplicate c n) r (decide_duplicate-Names c n)
      (decide_duplicate-OnlyNames c n)

pub decide_unmatched-Applies :
    (db : Db) (c : TxnFacts) (w : ℤ)
    → ReadOff db c.side c
    → Applies db (decide_unmatched c w) c.tenant_id
decide_unmatched-Applies db c w r =
    OnlyNames-Applies db c (decide_unmatched c w) r (decide_unmatched-Names c w)
      (decide_unmatched-OnlyNames c w)

-- The two sides of a decision for a pair.
Picked-own :
    (c : TxnFacts) (d : Decision) (best : TxnFacts)
    → d.gateway_row_id ≡ some (gateway_and_ledger c best).0.row_id
    → d.ledger_row_id ≡ some (gateway_and_ledger c best).1.row_id
    → (row_of c.side d ≡ some c.row_id) × (row_of (other_side c.side) d ≡ some best.row_id)
Picked-own c d best g l = ground (arith, g, l)

pub side_cases : (s t : IngestSource) → (s ≡ t) ⊎ (other_side s ≡ t)
side_cases IngestSource.gateway IngestSource.gateway = inl refl
side_cases IngestSource.gateway IngestSource.ledger = inr refl
side_cases IngestSource.ledger IngestSource.gateway = inr refl
side_cases IngestSource.ledger IngestSource.ledger = inl refl

pub decide-Names :
    (c : TxnFacts) (os : List TxnFacts) (config : MatchConfig) {d : Decision}
    → decide c os config ≡ some d
    → Names c d
decide-Names c os config {d} h =
    let p = decide-Picked c os config h in (Picked-own c d p.best p.gateway_row p.ledger_row).0

pub decide-Applies :
    (db : Db) (c : TxnFacts) (config : MatchConfig) {d : Decision}
    → ReadOff db c.side c
    → decide c (find_counterparties c config db) config ≡ some d
    → Applies db d c.tenant_id
decide-Applies db c config {d} r h = record {
  names = (c.side, c.row_id, own.0);
  rows = λ side i e. elim (side_cases c.side side) [
    | inl s ↦
        subst (λ t. RowAt db t i c.tenant_id) s
          (subst (λ t. RowAt db c.side t c.tenant_id)
            (some-injective _ _ (sym own.0 ∙ ap (λ t. row_of t d) s ∙ e))
            (ReadOff-RowAt db c.side c r))
    | inr s ↦
        subst (λ t. RowAt db t i c.tenant_id) s
          (subst (λ t. RowAt db (other_side c.side) t c.tenant_id)
            (some-injective _ _ (sym own.1 ∙ ap (λ t. row_of t d) s ∙ e))
            (subst (RowAt db (other_side c.side) p.best.row_id) (sym pair.tenant) (
              ReadOff-RowAt db (other_side c.side) p.best (
                Offered-ReadOff db c config p.best
                  ((find_counterparties-iff-Offered db c config p.best).0 p.offered)))))
  ];
}
  where
    p : Picked c (find_counterparties c config db) config d
    p = decide-Picked c (find_counterparties c config db) config h

    own : (row_of c.side d ≡ some c.row_id) × (row_of (other_side c.side) d ≡ some p.best.row_id)
    own = Picked-own c d p.best p.gateway_row p.ledger_row

    pair : Counterparts c p.best
    pair = ((classify_pair-iff-Classifies c p.best config d.status d.layer).0 p.verdict).0

pub decide-partner :
    (c : TxnFacts) (os : List TxnFacts) (config : MatchConfig) {d : Decision}
    → decide c os config ≡ some d
    → (best : TxnFacts) × In best os × (row_of (other_side c.side) d ≡ some best.row_id)
decide-partner c os config {d} h =
    let p = decide-Picked c os config h in
    (p.best, p.offered, (Picked-own c d p.best p.gateway_row p.ledger_row).1)
