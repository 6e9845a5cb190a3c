-- ===== src/Persist/Stale.antt =====
-- `find_stale_pending` of backend/ledgerloop/worker/persist.py: the oldest pending rows past the
-- window.
use ledger_loop.Prelude.{
  ℕ, zero, suc, ◌≢◌, map-nil, ◌+◌, ◌<◌, ◌≡◌, sym, ap, subst, inl, inr, ◌&&◌, none, List, [], ◌∷◌,
  arith, In, ltb, Bool-cases, is_none, In-map, In-take, take, In-filter, filter-In,
}
use ledger_loop.Enums.{IngestSource}
use ledger_loop.Matching.{TxnFacts}
use ledger_loop.Store.{Db, RawRow, table}
use ledger_loop.Persist.{Clock, facts, insert_by_receipt, order_by_receipt, find_stale_pending}
use ledger_loop.Persist.Reads.{ReadOff}
use ledger_loop.Persist.Pending.{PendingAt}

insert_by_receipt-In :
    (a row : RawRow) (rows : List RawRow) → In a (insert_by_receipt row rows) → In a (row ∷ rows)
unfolding insert_by_receipt
insert_by_receipt-In a row [] h = h
insert_by_receipt-In a row (r ∷ rs) h = elim (Bool-cases (ltb r.received_at row.received_at)) [
  | inl e ↦ later (insert_by_receipt-In a row rs) (rw (e, insert_by_receipt) at h)
  | inr e ↦ rw (e, insert_by_receipt) at h
]
  where
    later :
        (In a (insert_by_receipt row rs) → In a (row ∷ rs))
        → In a (r ∷ insert_by_receipt row rs)
        → In a (row ∷ r ∷ rs)
    later rec (inl q) = inr (inl q)
    later rec (inr m) = elim (rec m) [ inl q ↦ inl q | inr n ↦ inr (inr n) ]

In-insert_by_receipt :
    (a row : RawRow) (rows : List RawRow) → In a (row ∷ rows) → In a (insert_by_receipt row rows)
unfolding insert_by_receipt
In-insert_by_receipt a row [] h = h
In-insert_by_receipt a row (r ∷ rs) h = elim (Bool-cases (ltb r.received_at row.received_at)) [
  | inl e ↦ rw (e, insert_by_receipt) (later (In-insert_by_receipt a row rs) h)
  | inr e ↦ rw (e, insert_by_receipt) h
]
  where
    later :
        (In a (row ∷ rs) → In a (insert_by_receipt row rs))
        → In a (row ∷ r ∷ rs)
        → In a (r ∷ insert_by_receipt row rs)
    later rec (inl q) = inr (rec (inl q))
    later rec (inr (inl q)) = inl q
    later rec (inr (inr m)) = inr (rec (inr m))

order_by_receipt-In : (a : RawRow) (rows : List RawRow) → In a (order_by_receipt rows) → In a rows
unfolding order_by_receipt
order_by_receipt-In a [] h = h
order_by_receipt-In a (row ∷ rows) h = elim (insert_by_receipt-In a row (order_by_receipt rows) h) [
  | inl q ↦ inl q
  | inr m ↦ inr (order_by_receipt-In a rows m)
]

In-order_by_receipt : (a : RawRow) (rows : List RawRow) → In a rows → In a (order_by_receipt rows)
unfolding order_by_receipt
In-order_by_receipt a [] h = h
In-order_by_receipt a (row ∷ rows) (inl q) =
    In-insert_by_receipt a row (order_by_receipt rows) (inl q)
In-order_by_receipt a (row ∷ rows) (inr m) =
    In-insert_by_receipt a row (order_by_receipt rows) (inr (In-order_by_receipt a rows m))

-- A stale row as it was read.
pub record StaleRow (db : Db) (side : IngestSource) (cutoff : ℕ → Type 0) (c : TxnFacts)
    : Type 0 where
  pub own : ReadOff db c.side c
  pub sided : c.side ≡ side
  pub pending : PendingAt db c.side c.row_id
  pub old : cutoff c.received_at

abbrev pub PastWindow : Clock → ℕ → ℕ → Type 0
PastWindow clock older_than received_at = received_at + older_than < clock.now

pub find_stale_pending-StaleRow :
    (clock : Clock) (side : IngestSource) (older_than limit : ℕ) (db : Db) (c : TxnFacts)
    → In c (find_stale_pending clock side older_than limit db)
    → StaleRow db side (PastWindow clock older_than) c
unfolding find_stale_pending facts
find_stale_pending-StaleRow clock side older_than limit db c h =
    let (row, taken, read) = In-map (facts side) c _ h in
    let (there, test) =
      In-filter _ row (table side db) (order_by_receipt-In row _ (In-take row limit _ taken)) in
    let sided : c.side ≡ side = sym (ap (λ (t : TxnFacts). t.side) read) in
    record {
      own =
          subst (λ t. ReadOff db t c) (sym sided)
            (record { row = row; stored = there; read = read });
      sided = sided;
      pending =
          subst (λ t. PendingAt db t c.row_id) (sym sided)
            (record {
              row = row;
              stored = there;
              key = ap (λ (t : TxnFacts). t.row_id) read;
              pending = ground arith;
            });
      old =
          subst (λ t. t + older_than < clock.now) (ap (λ (t : TxnFacts). t.received_at) read)
            (ground arith);
    }

nothing_taken :
    (limit : ℕ) (a : RawRow) (rows : List RawRow) → 0 < limit → In a rows → take limit rows ≢ []
nothing_taken zero a rows l h = absurd (omega arith)
nothing_taken (suc limit) a [] l h = elim h [ ]
nothing_taken (suc limit) a (row ∷ rows) l h = λ e. cc

-- When nothing is found, no pending row of the side is past the window.
pub find_stale_pending-nil :
    (clock : Clock) (side : IngestSource) (older_than limit : ℕ) (db : Db) (row : RawRow)
    → 0 < limit
    → find_stale_pending clock side older_than limit db ≡ []
    → In row (table side db)
    → row.reconciled_at ≡ none
    → ¬ PastWindow clock older_than row.received_at
unfolding find_stale_pending
find_stale_pending-nil clock side older_than limit db row some_limit e there pending old =
    nothing_taken limit row _ some_limit
      (In-order_by_receipt row _ (
        filter-In
          (λ (t : RawRow). is_none t.reconciled_at && ltb (t.received_at + older_than) clock.now)
          row (table side db) there (ground (arith, pending))))
      (map-nil _ _ e)
