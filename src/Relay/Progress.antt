-- ===== src/Relay/Progress.antt =====
-- The rounds of backend/ledgerloop/queue/relay.py empty the outbox: while publishing goes through,
-- every event was added to the stream after as many rounds as there are events to publish.
use ledger_loop.Prelude.{
  ℕ, zero, suc, ◌+◌, ◌≤◌, ◌<◌, ◌≡◌, refl, sym, ap, ◌∙◌, subst, ◌⊎◌, inl, inr, none, some, true,
  false, arith, Bool, not, Option, List, [], ◌∷◌, map, In, map-In, filter-In, filter-nil, any,
  any-true, take, filter, length, Bool-cases, ltb, ◌==◌, is_none, is_some, ◌&&◌,
}
use ledger_loop.Messages.{IngestMessage}
use ledger_loop.Store.{OutboxEvent, Db}
use ledger_loop.Relay.{
  insert_by_id, order_by_id, claim, mark_event, mark_published, publish_many, publish_claimed,
  drain_once, rounds,
}
use ledger_loop.Relay.Delivery.{claim-In, mark_event-payload, Relayed, drain_once-Relayed}

abbrev pub waiting : OutboxEvent → Bool
waiting e = is_none e.published_at

-- How many events are to be published.
abbrev pub backlog : Db → ℕ
backlog db = length (filter waiting db.outbox_events)

counts_le :
    (f : OutboxEvent → OutboxEvent) (xs : List OutboxEvent)
    → ((x : OutboxEvent) → waiting (f x) ≡ true → waiting x ≡ true)
    → length (filter waiting (map f xs)) ≤ length (filter waiting xs)
counts_le f [] keeps = omega arith
counts_le f (x ∷ xs) keeps = elim (Bool-cases (waiting (f x))) [
  | inl e ↦ rw (e, keeps x e) (omega (arith, counts_le f xs keeps))
  | inr e ↦ elim (Bool-cases (waiting x)) [
    | inl k ↦ rw (e, k) (omega (arith, counts_le f xs keeps))
    | inr k ↦ rw (e, k) (counts_le f xs keeps)
  ]
]

counts_lt :
    (f : OutboxEvent → OutboxEvent) (xs : List OutboxEvent) (a : OutboxEvent)
    → ((x : OutboxEvent) → waiting (f x) ≡ true → waiting x ≡ true)
    → In a xs
    → waiting a ≡ true
    → waiting (f a) ≡ false
    → length (filter waiting (map f xs)) < length (filter waiting xs)
counts_lt f [] a keeps h p q = elim h [ ]
counts_lt f (x ∷ xs) a keeps (inl e) p q =
    rw (ap (λ t. waiting (f t)) e ∙ q, ap waiting e ∙ p) (omega (arith, counts_le f xs keeps))
counts_lt f (x ∷ xs) a keeps (inr m) p q = elim (Bool-cases (waiting (f x))) [
  | inl e ↦ rw (e, keeps x e) (omega (arith, counts_lt f xs a keeps m p q))
  | inr e ↦ elim (Bool-cases (waiting x)) [
    | inl k ↦ rw (e, k) (omega (arith, counts_lt f xs a keeps m p q))
    | inr k ↦ rw (e, k) (counts_lt f xs a keeps m p q)
  ]
]

mark-keeps :
    (now : ℕ) (rows : List OutboxEvent) (x : OutboxEvent)
    → waiting (mark_event now rows x) ≡ true
    → waiting x ≡ true
unfolding mark_event
mark-keeps now rows x h = elim (Bool-cases (any (λ (r : OutboxEvent). r.id == x.id) rows)) [
  | inl e ↦ absurd (ground (arith, h, e))
  | inr e ↦ ground (arith, h, e)
]

mark-first :
    (now : ℕ) (e : OutboxEvent) (es : List OutboxEvent)
    → waiting (mark_event now (e ∷ es) e) ≡ false
unfolding mark_event
mark-first now e es =
    let h = any-true (λ (r : OutboxEvent). r.id == e.id) e (e ∷ es) (inl refl) (ground arith) in
    ground (arith, h)

insert-In :
    (x e : OutboxEvent) (es : List OutboxEvent) → (e ≡ x) ⊎ In x es → In x (insert_by_id e es)
unfolding insert_by_id
insert-In x e [] (inl p) = inl p
insert-In x e [] (inr m) = inr m
insert-In x e (b ∷ bs) h = elim (Bool-cases (ltb b.id e.id)) [
  | inl q ↦ rw q (later (insert-In x e bs) h)
  | inr q ↦ rw q (here h)
]
  where
    later :
        ((e ≡ x) ⊎ In x bs → In x (insert_by_id e bs))
        → (e ≡ x) ⊎ In x (b ∷ bs)
        → In x (b ∷ insert_by_id e bs)
    later more (inl p) = inr (more (inl p))
    later more (inr (inl p)) = inl p
    later more (inr (inr m)) = inr (more (inr m))

    here : (e ≡ x) ⊎ In x (b ∷ bs) → In x (e ∷ b ∷ bs)
    here (inl p) = inl p
    here (inr m) = inr m

order-In : (x : OutboxEvent) (es : List OutboxEvent) → In x es → In x (order_by_id es)
unfolding order_by_id
order-In x [] h = h
order-In x (e ∷ es) (inl p) = insert-In x e (order_by_id es) (inl p)
order-In x (e ∷ es) (inr m) = insert-In x e (order_by_id es) (inr (order-In x es m))

take-nil :
    (n : ℕ) (xs : List OutboxEvent) → 0 < n → take n xs ≡ [] → (x : OutboxEvent) → In x xs → ⊥
take-nil zero xs h e x m = omega (arith, h)
take-nil (suc n) [] h e x m = elim m [ ]
take-nil (suc n) (y ∷ ys) h e x m = absurd (ground (arith, e))

-- An empty claim, with no row locked, means that nothing waits.
claim-nil :
    (locked : ℕ → Bool) (batch : ℕ) (db : Db)
    → 0 < batch
    → ((i : ℕ) → locked i ≡ false)
    → claim locked batch db ≡ []
    → backlog db ≡ 0
unfolding claim
claim-nil locked batch db some_of free e =
    ap length (filter-nil waiting db.outbox_events λ z h. none_waits z h (Bool-cases (waiting z)))
  where
    none_waits :
        (z : OutboxEvent)
        → In z db.outbox_events
        → (waiting z ≡ true) ⊎ (waiting z ≡ false)
        → waiting z ≡ false
    none_waits z h (inr q) = q
    none_waits z h (inl q) =
        let f = free z.id in
        absurd (
          take-nil batch _ some_of e z (
            order-In z _ (
              filter-In (λ (t : OutboxEvent). is_none t.published_at && not (locked t.id)) z
                db.outbox_events h (ground (arith, q, f)))))

occupied :
    (xs : List OutboxEvent) (e : OutboxEvent)
    → In e (filter waiting xs)
    → length (filter waiting xs) ≡ 0
    → ⊥
occupied xs e m z = go (filter waiting xs) m z
  where
    go : (ys : List OutboxEvent) → In e ys → length ys ≡ 0 → ⊥
    go [] n q = elim n [ ]
    go (y ∷ ys) n q = omega (arith, q)

List-cases :
    (xs : List OutboxEvent)
    → (xs ≡ []) ⊎ ((x : OutboxEvent) × (ys : List OutboxEvent) × (xs ≡ x ∷ ys))
List-cases [] = inl refl
List-cases (x ∷ xs) = inr (x, xs, refl)

module _ {S : Type 0} (xadd : ℕ → IngestMessage → S → Bool × S) (maxlen : ℕ)
    (sends : (m : IngestMessage) (s : S) → (xadd maxlen m s).0 ≡ true) (now : ℕ) (locked : ℕ → Bool)
    (free : (i : ℕ) → locked i ≡ false) (batch : ℕ) (some_of : 0 < batch) (db : Db) (s : S) where
  sends_all : (ms : List IngestMessage) (s : S) → (publish_many xadd maxlen ms s).0 ≡ true
  unfolding publish_many
  sends_all [] s = refl
  sends_all (m ∷ ms) s =
      let first = sends m s in
      let rest = sends_all ms (xadd maxlen m s).1 in ground (arith, first, rest)

  publishes :
      (e : OutboxEvent) (es : List OutboxEvent)
      → claim locked batch db ≡ e ∷ es
      → (drain_once xadd maxlen now locked batch db s).1 ≡ mark_published now (e ∷ es) db
  unfolding drain_once publish_claimed
  publishes e es q = ap (λ rows. (publish_claimed xadd maxlen now rows db s).1) q ∙ claimed e es
    where
      claimed :
          (e : OutboxEvent) (es : List OutboxEvent)
          → (publish_claimed xadd maxlen now (e ∷ es) db s).1 ≡ mark_published now (e ∷ es) db
      claimed e es = rw (sends_all (map (λ (r : OutboxEvent). r.payload) (e ∷ es)) s) refl

  idles : claim locked batch db ≡ [] → (drain_once xadd maxlen now locked batch db s).1 ≡ db
  unfolding drain_once publish_claimed
  idles q = ap (λ rows. (publish_claimed xadd maxlen now rows db s).1) q

  -- A round shortens the backlog, unless it is empty.
  round-shortens :
      (n : ℕ) → backlog db ≤ n + 1 → backlog (drain_once xadd maxlen now locked batch db s).1 ≤ n
  unfolding mark_published
  round-shortens n le = elim (List-cases (claim locked batch db)) [
    | inl q ↦
        let empty = claim-nil locked batch db some_of free q in
        omega (arith, ap backlog (idles q), empty)
    | inr (e, es, q) ↦
        let (there, pending) = claim-In locked batch db e (subst (In e) (sym q) (inl refl)) in
        let less =
          counts_lt (mark_event now (e ∷ es)) db.outbox_events e (mark-keeps now (e ∷ es)) there
            (ap is_none pending) (mark-first now e es) in
        omega (arith, ap backlog (publishes e es q), less, le)
  ]

  -- The messages of the outbox are all still there.
  round-carries :
      (e : OutboxEvent)
      → In e db.outbox_events
      → (e' : OutboxEvent) × In e' (drain_once xadd maxlen now locked batch db s).1.outbox_events
        × (e'.payload ≡ e.payload)
  unfolding mark_published
  round-carries e h = elim (List-cases (claim locked batch db)) [
    | inl q ↦ (e, subst (λ (d : Db). In e d.outbox_events) (sym (idles q)) h, refl)
    | inr (x, xs, q) ↦ (
      mark_event now (x ∷ xs) e,
      subst (λ (d : Db). In (mark_event now (x ∷ xs) e) d.outbox_events) (sym (publishes x xs q))
          (map-In (mark_event now (x ∷ xs)) e db.outbox_events h),
      (mark_event-payload now (x ∷ xs) e).0,
    )
  ]

module _ {S : Type 0} (xadd : ℕ → IngestMessage → S → Bool × S) (maxlen : ℕ)
    (Added : IngestMessage → S → Type 0)
    (adds : (m : IngestMessage) (s : S) → (xadd maxlen m s).0 ≡ true → Added m (xadd maxlen m s).1)
    (past : (x m : IngestMessage) (s : S) → Added m s → Added m (xadd maxlen x s).1)
    (sends : (m : IngestMessage) (s : S) → (xadd maxlen m s).0 ≡ true) (now : ℕ → ℕ) (batch : ℕ)
    (some_of : 0 < batch) where
  abbrev unlocked : ℕ → ℕ → Bool
  unlocked n i = false

  -- A relay alone, whose XADDs are accepted and whose batches are not empty, has added the message of
  -- every event of the outbox to the stream after as many rounds as there are events to publish, if the
  -- messages of the events that are marked as published had been added at the start.
  pub rounds-delivered :
      (n : ℕ) (db : Db) (s : S) (e : OutboxEvent)
      → Relayed xadd maxlen Added adds past db s
      → backlog db ≤ n
      → In e db.outbox_events
      → Added e.payload (rounds xadd maxlen n now unlocked batch db s).1
  unfolding rounds
  rounds-delivered zero db s e v le h = elim (Bool-cases (waiting e)) [
    | inl p ↦ absurd (positive db.outbox_events h p (omega (arith, le)))
    | inr p ↦ v.was_added e h (marked e.published_at p)
  ]
    where
      positive :
          (xs : List OutboxEvent) → In e xs → waiting e ≡ true → length (filter waiting xs) ≡ 0 → ⊥
      positive xs m p z = occupied xs e (filter-In waiting e xs m p) z

      marked : (o : Option ℕ) → is_none o ≡ false → is_some o ≡ true
      marked none q = absurd (ground (arith, q))
      marked (some t) q = refl
  rounds-delivered (suc n) db s e v le h =
      let (e', there, same) =
        round-carries xadd maxlen sends (now n) (unlocked n) (λ i. refl) batch some_of db s e h in
      subst (λ m. Added m (rounds xadd maxlen (suc n) now unlocked batch db s).1) same
        (rounds-delivered n (drain_once xadd maxlen (now n) (unlocked n) batch db s).1
          (drain_once xadd maxlen (now n) (unlocked n) batch db s).2 e'
          (drain_once-Relayed xadd maxlen Added adds past (now n) (unlocked n) batch db s v)
          (round-shortens xadd maxlen sends (now n) (unlocked n) (λ i. refl) batch some_of db s n
            (omega (arith, le)))
          there)
