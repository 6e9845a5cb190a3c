-- ===== src/Relay/Delivery.antt =====
-- At-least-once of backend/ledgerloop/queue/relay.py: an event is marked as published only when its
-- message was added to the stream.
use ledger_loop.Prelude.{
  ℕ, ◌≡◌, refl, sym, ap, ◌∙◌, subst, ◌⊎◌, inl, inr, none, some, true, false, arith, Bool, Option,
  List, [], ◌∷◌, map, In, In-map, map-In, In-take, In-filter, any, any-witness, Bool-cases, ltb,
  ◌==◌, is_none, is_some,
}
use ledger_loop.Messages.{IngestMessage}
use ledger_loop.Store.{OutboxEvent, Db}
use ledger_loop.Relay.{
  insert_by_id, order_by_id, claim, mark_event, mark_published, publish_many, publish_claimed,
  drain_once,
}

In-insert :
    (x e : OutboxEvent) (es : List OutboxEvent) → In x (insert_by_id e es) → (e ≡ x) ⊎ In x es
unfolding insert_by_id
In-insert x e [] (inl p) = inl p
In-insert x e [] (inr m) = inr m
In-insert x e (b ∷ bs) h = elim (Bool-cases (ltb b.id e.id)) [
  | inl q ↦ later (In-insert x e bs) (rw q at h)
  | inr q ↦ let k : In x (e ∷ b ∷ bs) = rw q at h in k
]
  where
    later :
        (In x (insert_by_id e bs) → (e ≡ x) ⊎ In x bs)
        → In x (b ∷ insert_by_id e bs)
        → (e ≡ x) ⊎ In x (b ∷ bs)
    later more (inl p) = inr (inl p)
    later more (inr m) = elim (more m) [ inl p ↦ inl p | inr n ↦ inr (inr n) ]

In-order : (x : OutboxEvent) (es : List OutboxEvent) → In x (order_by_id es) → In x es
unfolding order_by_id
In-order x [] h = h
In-order x (e ∷ es) h = elim (In-insert x e (order_by_id es) h) [
  | inl p ↦ inl p
  | inr m ↦ inr (In-order x es m)
]

pub claim-In :
    (locked : ℕ → Bool) (batch : ℕ) (db : Db) (e : OutboxEvent)
    → In e (claim locked batch db)
    → In e db.outbox_events × (e.published_at ≡ none)
unfolding claim
claim-In locked batch db e h =
    let (there, p) = In-filter _ e db.outbox_events (In-order e _ (In-take e batch _ h)) in
    (there, pending e.published_at (ground (arith, p)))
  where
    pending : (o : Option ℕ) → is_none o ≡ true → o ≡ none
    pending none k = refl
    pending (some t) k = absurd (ground (arith, k))

-- UNIQUE (id): the primary key of the outbox.
abbrev pub OneEvent : Db → Type 0
OneEvent db =
    (a b : OutboxEvent) → In a db.outbox_events → In b db.outbox_events → a.id ≡ b.id → a ≡ b

pub mark_event-payload :
    (now : ℕ) (rows : List OutboxEvent) (e : OutboxEvent)
    → ((mark_event now rows e).payload ≡ e.payload) × ((mark_event now rows e).id ≡ e.id)
unfolding mark_event
mark_event-payload now rows e = elim (Bool-cases (any (λ (r : OutboxEvent). r.id == e.id) rows)) [
  | inl h ↦ rw h (refl, refl)
  | inr h ↦ rw h (refl, refl)
]

pub mark_event_other :
    (now : ℕ) (rows : List OutboxEvent) (e : OutboxEvent)
    → any (λ (r : OutboxEvent). r.id == e.id) rows ≡ false
    → mark_event now rows e ≡ e
unfolding mark_event
mark_event_other now rows e h = rw h refl

module _ {S : Type 0} (xadd : ℕ → IngestMessage → S → Bool × S) (maxlen : ℕ)
    (Added : IngestMessage → S → Type 0)
    (adds : (m : IngestMessage) (s : S) → (xadd maxlen m s).0 ≡ true → Added m (xadd maxlen m s).1)
    (past : (x m : IngestMessage) (s : S) → Added m s → Added m (xadd maxlen x s).1) where
  publish_many-past :
      (ms : List IngestMessage) (s : S) (m : IngestMessage)
      → Added m s
      → Added m (publish_many xadd maxlen ms s).1
  unfolding publish_many
  publish_many-past [] s m h = h
  publish_many-past (x ∷ ms) s m h = publish_many-past ms (xadd maxlen x s).1 m (past x m s h)

  publish_many-adds :
      (ms : List IngestMessage) (s : S) (m : IngestMessage)
      → (publish_many xadd maxlen ms s).0 ≡ true
      → In m ms
      → Added m (publish_many xadd maxlen ms s).1
  unfolding publish_many
  publish_many-adds [] s m ok h = elim h [ ]
  publish_many-adds (x ∷ ms) s m ok (inl e) =
      subst (λ y. Added y (publish_many xadd maxlen ms (xadd maxlen x s).1).1) e
        (publish_many-past ms (xadd maxlen x s).1 x (adds x s (ground arith)))
  publish_many-adds (x ∷ ms) s m ok (inr h) =
      publish_many-adds ms (xadd maxlen x s).1 m (ground arith) h

  -- What is marked as published was added to the stream.
  pub record Relayed (db : Db) (s : S) : Type 0 where
    pub was_added :
        (e : OutboxEvent)
        → In e db.outbox_events
        → is_some e.published_at ≡ true
        → Added e.payload s
    pub one_event : OneEvent db

  marked-Relayed :
      (now : ℕ) (rows : List OutboxEvent) (db : Db) (s : S)
      → Relayed db s
      → ((e : OutboxEvent) → In e rows → In e db.outbox_events)
      → (publish_many xadd maxlen (map (λ (r : OutboxEvent). r.payload) rows) s).0 ≡ true
      → Relayed
          (mark_published now rows db)
          (publish_many xadd maxlen (map (λ (r : OutboxEvent). r.payload) rows) s).1
  unfolding mark_published
  marked-Relayed now rows db s v claimed sent = record {
    was_added = λ x h published.
        let (old, there, e) = In-map (mark_event now rows) x db.outbox_events h in
        let same = (mark_event-payload now rows old).0 in
        subst
          (λ m. Added m (publish_many xadd maxlen (map (λ (r : OutboxEvent). r.payload) rows) s).1)
          (sym same ∙ ap (λ (t : OutboxEvent). t.payload) e)
          (on_it old there (ap (λ (t : OutboxEvent). is_some t.published_at) e ∙ published));
    one_event = λ a b ha hb q.
        let (x, hx, ex) = In-map (mark_event now rows) a db.outbox_events ha in
        let (y, hy, ey) = In-map (mark_event now rows) b db.outbox_events hb in
        let ids : x.id ≡ y.id =
          sym (mark_event-payload now rows x).1
          ∙ ap (λ (t : OutboxEvent). t.id) ex
          ∙ q
          ∙ sym (ap (λ (t : OutboxEvent). t.id) ey)
          ∙ (mark_event-payload now rows y).1 in
        sym ex ∙ ap (mark_event now rows) (v.one_event x y hx hy ids) ∙ ey;
  }
    where
      untouched :
          (old : OutboxEvent)
          → any (λ (r : OutboxEvent). r.id == old.id) rows ≡ false
          → is_some (mark_event now rows old).published_at ≡ true
          → is_some old.published_at ≡ true
      untouched old h p =
          ap (λ (t : OutboxEvent). is_some t.published_at) (sym (mark_event_other now rows old h))
          ∙ p

      on_it :
          (old : OutboxEvent)
          → In old db.outbox_events
          → is_some (mark_event now rows old).published_at ≡ true
          → Added old.payload
              (publish_many xadd maxlen (map (λ (r : OutboxEvent). r.payload) rows) s).1
      on_it old there p = elim (Bool-cases (any (λ (r : OutboxEvent). r.id == old.id) rows)) [
        | inl h ↦
            let (r, in_rows, k) = any-witness (λ (r : OutboxEvent). r.id == old.id) rows h in
            let same = v.one_event r old (claimed r in_rows) there (ground (arith, k)) in
            publish_many-adds _ s old.payload sent (
              subst (λ (t : OutboxEvent). In t.payload (map (λ (r : OutboxEvent). r.payload) rows))
                same (map-In (λ (r : OutboxEvent). r.payload) r rows in_rows))
        | inr h ↦ publish_many-past _ s old.payload (v.was_added old there (untouched old h p))
      ]

  claimed-Relayed :
      (now : ℕ) (rows : List OutboxEvent) (db : Db) (s : S)
      → Relayed db s
      → ((e : OutboxEvent) → In e rows → In e db.outbox_events)
      → Relayed
          (publish_claimed xadd maxlen now rows db s).1
          (publish_claimed xadd maxlen now rows db s).2
  unfolding publish_claimed
  claimed-Relayed now [] db s v claimed = v
  claimed-Relayed now (e ∷ es) db s v claimed =
      elim (Bool-cases
        (publish_many xadd maxlen (map (λ (r : OutboxEvent). r.payload) (e ∷ es)) s).0) [
          | inl sent ↦ rw sent (marked-Relayed now (e ∷ es) db s v claimed sent)
          | inr failed ↦ rw failed (record {
            was_added = λ x h p. publish_many-past _ s x.payload (v.was_added x h p);
            one_event = v.one_event;
          })
        ]

  -- Whatever rows other relays hold, and whether the pipeline goes through or some of its commands fail,
  -- the message of every event that is marked as published after a round was added to the stream, if
  -- that was so before; given that an accepted XADD adds its message and that what was added once stays
  -- so (`Added` speaks of the past: the bound may have trimmed the message since).
  pub drain_once-Relayed :
      (now : ℕ) (locked : ℕ → Bool) (batch : ℕ) (db : Db) (s : S)
      → Relayed db s
      → Relayed
          (drain_once xadd maxlen now locked batch db s).1
          (drain_once xadd maxlen now locked batch db s).2
  unfolding drain_once
  drain_once-Relayed now locked batch db s v =
      claimed-Relayed now (claim locked batch db) db s v (λ e h. (claim-In locked batch db e h).0)
