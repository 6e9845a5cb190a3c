-- ===== src/Sources/Listing.antt =====
-- list_sources of backend/ledgerloop/services/sources.py: exactly the account's sources, by id.
use ledger_loop.Prelude.{
  ℕ, ◌≤◌, ◌≡◌, ◌⊎◌, ◌↔◌, inl, inr, arith, List, [], ◌∷◌, In, In-filter, filter-In, filter,
  Bool-cases, ltb, ◌==◌,
}
use ledger_loop.Tenancy.{WebhookSource, Tables, Tenant}
use ledger_loop.Sources.{insert_source, order_sources, list_sources}

-- By rising ids from a bound.
abbrev pub Rising : ℕ → List WebhookSource → Type 0
Rising n [] = Unit
Rising n (s ∷ ss) = (n ≤ s.id) × Rising s.id ss

insert_iff :
    (x s : WebhookSource) (ss : List WebhookSource)
    → In x (insert_source s ss) ↔ ((s ≡ x) ⊎ In x ss)
unfolding insert_source
insert_iff x s [] = (λ h. h, λ h. h)
insert_iff x s (y ∷ ys) = elim (Bool-cases (ltb y.id s.id)) [
  | inl e ↦ rw e (past (insert_iff x s ys))
  | inr e ↦ rw e (λ h. h, λ h. h)
]
  where
    forth :
        In x (insert_source s ys) ↔ ((s ≡ x) ⊎ In x ys)
        → In x (y ∷ insert_source s ys)
        → (s ≡ x) ⊎ In x (y ∷ ys)
    forth rec (inl p) = inr (inl p)
    forth rec (inr m) = elim (rec.0 m) [ inl p ↦ inl p | inr n ↦ inr (inr n) ]

    back :
        In x (insert_source s ys) ↔ ((s ≡ x) ⊎ In x ys)
        → (s ≡ x) ⊎ In x (y ∷ ys)
        → In x (y ∷ insert_source s ys)
    back rec (inl p) = inr (rec.1 (inl p))
    back rec (inr (inl p)) = inl p
    back rec (inr (inr m)) = inr (rec.1 (inr m))

    past :
        In x (insert_source s ys) ↔ ((s ≡ x) ⊎ In x ys)
        → In x (y ∷ insert_source s ys) ↔ ((s ≡ x) ⊎ In x (y ∷ ys))
    past rec = (forth rec, back rec)

order_iff : (x : WebhookSource) (ss : List WebhookSource) → In x (order_sources ss) ↔ In x ss
unfolding order_sources
order_iff x [] = (λ h. h, λ h. h)
order_iff x (s ∷ ss) =
    let rec = order_iff x ss in
    let one = insert_iff x s (order_sources ss) in
    (λ h. forth rec (one.0 h), λ h. one.1 (back rec h))
  where
    forth : In x (order_sources ss) ↔ In x ss → (s ≡ x) ⊎ In x (order_sources ss) → In x (s ∷ ss)
    forth rec (inl p) = inl p
    forth rec (inr m) = inr (rec.0 m)

    back : In x (order_sources ss) ↔ In x ss → In x (s ∷ ss) → (s ≡ x) ⊎ In x (order_sources ss)
    back rec (inl p) = inl p
    back rec (inr m) = inr (rec.1 m)

insert-Rising :
    (n : ℕ) (s : WebhookSource) (ss : List WebhookSource)
    → n ≤ s.id
    → Rising n ss
    → Rising n (insert_source s ss)
unfolding insert_source
insert-Rising n s [] le r = (le, tt)
insert-Rising n s (y ∷ ys) le r = elim (Bool-cases (ltb y.id s.id)) [
  | inl e ↦ rw e (r.0, insert-Rising y.id s ys (ground (arith, e)) r.1)
  | inr e ↦ rw e (le, (ground (arith, e), r.1))
]

order-Rising : (ss : List WebhookSource) → Rising 0 (order_sources ss)
unfolding order_sources
order-Rising [] = tt
order-Rising (s ∷ ss) = insert-Rising 0 s (order_sources ss) (omega arith) (order-Rising ss)

-- The listing for an account holds exactly the account's own sources, revoked ones too, by rising id.
pub list_sources_iff :
    (tenant : Tenant) (t : Tables) (s : WebhookSource)
    → (In s (list_sources tenant t) ↔ (In s t.webhook_sources × (s.account_id ≡ tenant.account_id)))
      × Rising 0 (list_sources tenant t)
unfolding list_sources
list_sources_iff tenant t s =
    let sorted =
      order_iff s
        (filter (λ (x : WebhookSource). x.account_id == tenant.account_id) t.webhook_sources) in
    ((λ h. own (sorted.0 h), λ h. sorted.1 (listed h)), order-Rising _)
  where
    own :
        In s (filter (λ (x : WebhookSource). x.account_id == tenant.account_id) t.webhook_sources)
        → In s t.webhook_sources × (s.account_id ≡ tenant.account_id)
    own h =
        let (there, e) =
          In-filter (λ (x : WebhookSource). x.account_id == tenant.account_id) s t.webhook_sources
            h in
        (there, ground (arith, e))

    listed :
        In s t.webhook_sources × (s.account_id ≡ tenant.account_id)
        → In s (filter (λ (x : WebhookSource). x.account_id == tenant.account_id) t.webhook_sources)
    listed (there, e) =
        filter-In (λ (x : WebhookSource). x.account_id == tenant.account_id) s t.webhook_sources
          there (ground (arith, e))
