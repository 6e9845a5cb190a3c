-- ===== src/Relay.antt =====
-- backend/ledgerloop/queue/relay.py: the outbox relay, over publish_many of queue/streams.py. Redis is
-- an argument: its state, and XADD with its bound, which says whether it was accepted. What the bound
-- trims from the stream is Redis's choice. `locked` says which rows another relay holds,
-- which SKIP LOCKED steps over.
pub mod Delivery
pub mod Progress
use ledger_loop.Prelude.{
  ℕ, zero, suc, ◌+◌, Bool, true, false, not, ◌&&◌, Option, none, some, List, [], ◌∷◌, map, ltb,
  ◌==◌, if◌then◌else◌, is_none, take, filter, any, length,
}
use ledger_loop.Messages.{IngestMessage}
use ledger_loop.Store.{OutboxEvent, Db}

-- `ORDER BY id`
unfoldable pub insert_by_id : OutboxEvent → List OutboxEvent → List OutboxEvent
insert_by_id e [] = e ∷ []
insert_by_id e (x ∷ xs) =
    let rest = insert_by_id e xs in if ltb x.id e.id then x ∷ rest else e ∷ x ∷ xs

unfoldable pub order_by_id : List OutboxEvent → List OutboxEvent
order_by_id [] = []
order_by_id (e ∷ es) = insert_by_id e (order_by_id es)

-- The claim of a batch.
unfoldable pub claim : (ℕ → Bool) → ℕ → Db → List OutboxEvent
claim locked batch_size db = take batch_size (
    order_by_id
      (filter (λ (e : OutboxEvent). is_none e.published_at && not (locked e.id)) db.outbox_events))

-- `UPDATE outbox_events SET published_at = now(), attempts = attempts + 1 WHERE id IN (...)`
unfoldable pub mark_event : ℕ → List OutboxEvent → OutboxEvent → OutboxEvent
mark_event now rows e =
    if any (λ (r : OutboxEvent). r.id == e.id) rows
    then record e { published_at = some now; attempts = e.attempts + 1 }
    else e

unfoldable pub mark_published : ℕ → List OutboxEvent → Db → Db
mark_published now rows db = record db {
  outbox_events = map (mark_event now rows) db.outbox_events;
}

module _ {S : Type 0} (xadd : ℕ → IngestMessage → S → Bool × S) (maxlen : ℕ) where
  -- `publish_many`: every command of the pipeline is sent, also past one that fails, and an error is
  -- raised after the last where one failed.
  unfoldable pub publish_many : List IngestMessage → S → Bool × S
  publish_many [] s = (true, s)
  publish_many (m ∷ ms) s =
      let (accepted, s') = xadd maxlen m s in
      let (rest, s'') = publish_many ms s' in (accepted && rest, s'')

  -- What follows the claim: how many rows were published, none where publishing raised and the
  -- transaction is rolled back.
  unfoldable pub publish_claimed : ℕ → List OutboxEvent → Db → S → Option ℕ × Db × S
  publish_claimed now [] db s = (some 0, db, s)
  publish_claimed now (e ∷ es) db s =
      let (sent, s') = publish_many (map (λ (r : OutboxEvent). r.payload) (e ∷ es)) s in
      if sent then (some (length (e ∷ es)), mark_published now (e ∷ es) db, s') else (none, db, s')

  unfoldable pub drain_once : ℕ → (ℕ → Bool) → ℕ → Db → S → Option ℕ × Db × S
  drain_once now locked batch_size db s = publish_claimed now (claim locked batch_size db) db s

  -- So many rounds of the loop of `run_forever`, with the clock's reading and the locks of each.
  unfoldable pub rounds : ℕ → (ℕ → ℕ) → (ℕ → ℕ → Bool) → ℕ → Db → S → Db × S
  rounds zero now locked batch_size db s = (db, s)
  rounds (suc n) now locked batch_size db s =
      let (published, db', s') = drain_once (now n) (locked n) batch_size db s in
      rounds n now locked batch_size db' s'
