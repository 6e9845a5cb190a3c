-- ===== src/Tests/Relay.antt =====
-- The relay over a stream that keeps one message, with one event to publish.
use ledger_loop.Prelude.{
  ◌≡◌, refl, sym, ap, is_some, ◌∙◌, inl, inr, none, true, false, Bool, arith, List, [], ◌∷◌, In, ℕ,
  take,
}
use ledger_loop.Enums.{IngestSource}
use ledger_loop.Messages.{IngestMessage}
use ledger_loop.Store.{OutboxEvent, Db}
use ledger_loop.Relay.{drain_once, rounds}
use ledger_loop.Relay.Delivery.{Relayed, drain_once-Relayed}
use ledger_loop.Relay.Progress.{rounds-delivered}
use ledger_loop.Tests.{db, message}

-- A Redis that trims the stream to its bound at once, with all that was ever added.
record Stream : Type 0 where
  entries : List IngestMessage
  log : List IngestMessage

abbrev empty : Stream
empty = record { entries = []; log = [] }

abbrev xadd : ℕ → IngestMessage → Stream → Bool × Stream
xadd maxlen m s = (true, record { entries = take maxlen (m ∷ s.entries); log = m ∷ s.log })

abbrev Added : IngestMessage → Stream → Type 0
Added m s = In m s.log

adds : (m : IngestMessage) (s : Stream) → true ≡ true → In m (m ∷ s.log)
adds m s e = inl refl

past : (x m : IngestMessage) (s : Stream) → In m s.log → In m (x ∷ s.log)
past x m s h = inr h

abbrev event : OutboxEvent
event = record {
  id = 3;
  source = IngestSource.gateway;
  row_id = 1;
  payload = message;
  published_at = none;
  attempts = 0;
}

abbrev outbox_db : Db
outbox_db = record db { outbox_events = event ∷ []; next_outbox = 4 }

outbox-Relayed : Relayed xadd 1 Added adds past outbox_db empty
outbox-Relayed = record { was_added = marked; one_event = one_event }
  where
    marked :
        (e : OutboxEvent)
        → In e (event ∷ [])
        → is_some e.published_at ≡ true
        → In e.payload empty.log
    marked e (inl p) k =
        let none_yet = ap (λ (t : OutboxEvent). is_some t.published_at) p in
        absurd (ground (arith, none_yet, k))
    marked e (inr n) k = elim n [ ]

    one_event : (a b : OutboxEvent) → In a (event ∷ []) → In b (event ∷ []) → a.id ≡ b.id → a ≡ b
    one_event a b (inl p) (inl q) e = sym p ∙ q
    one_event a b (inr n) h e = elim n [ ]
    one_event a b h (inr n) e = elim n [ ]

drain_once-Relayed_example :
    Relayed xadd 1 Added adds past
      (drain_once xadd 1 500 (λ i. false) 10 outbox_db empty).1
      (drain_once xadd 1 500 (λ i. false) 10 outbox_db empty).2
drain_once-Relayed_example =
    drain_once-Relayed xadd 1 Added adds past 500 (λ i. false) 10 outbox_db empty outbox-Relayed

rounds-delivered_example :
    In message (rounds xadd 1 1 (λ n. 500) (λ n i. false) 10 outbox_db empty).1.log
rounds-delivered_example =
    rounds-delivered xadd 1 Added adds past (λ m s. refl) (λ n. 500) 10 (omega arith) 1 outbox_db
      empty event outbox-Relayed (omega arith) (inl refl)
