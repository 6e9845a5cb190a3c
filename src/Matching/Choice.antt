-- ===== src/Matching/Choice.antt =====
-- `decide` of backend/ledgerloop/matching/core.py: what is chosen, when nothing is, and that the
-- order of the counterparties does not matter.
use ledger_loop.Prelude.{
  ◌≡◌, refl, sym, ap, ◌∙◌, ◌⊎◌, ◌↔◌, inl, inr, true, false, subst, none, some, arith, List, [], ◌∷◌,
  In, if◌then◌else◌, magnitude, ◌-ℤ◌, Bool-cases, Option-cases,
}
use ledger_loop.Enums.{ReconStatus, MatchLayer, is_active}
use ledger_loop.Matching.{
  TxnFacts, MatchConfig, Decision, Viable, layer_rank, time_delta, gateway_and_ledger,
  classify_pair, sort_key, key_lt, viable_one, viable, min_from, match_notes, decision_for,
  decide_viable, decide,
}
use ledger_loop.Matching.Classify.{Layered, classify_pair-iff-Classifies}
use ledger_loop.Matching.Keys.{key_lt_irrefl, key_lt_asymm, key_le_trans, NotAfter, key_lt-NotAfter}

-- A viable entry of a counterparty carries its verdict and its key.
record Entry (c : TxnFacts) (config : MatchConfig) (o : TxnFacts) (w : Viable) : Type 0 where
  verdict : classify_pair c o config ≡ some (w.status, w.layer)
  counterparty : w.other ≡ o
  its_key : w.key ≡ sort_key c w.other w.layer config

viable_one-Entry :
    (c : TxnFacts) (config : MatchConfig) (o : TxnFacts) (w : Viable)
    → viable_one c config o ≡ some w
    → Entry c config o w
unfolding viable_one
viable_one-Entry c config o w h = elim (Option-cases (classify_pair c o config)) [
  | inl e ↦ absurd (ground arith)
  | inr (v, e) ↦ record {
    verdict = ground arith;
    counterparty = ground arith;
    its_key = ground arith;
  }
]

Entry_of_verdict :
    (c : TxnFacts) (config : MatchConfig) (o : TxnFacts) (s : ReconStatus) (l : MatchLayer)
    → classify_pair c o config ≡ some (s, l)
    → viable_one c config o
      ≡ some (record { key = sort_key c o l config; other = o; status = s; layer = l })
unfolding viable_one
Entry_of_verdict c config o s l e = rw (e, viable_one)

In-viable :
    (c : TxnFacts) (config : MatchConfig) (w : Viable) (os : List TxnFacts)
    → In w (viable c os config)
    → (o : TxnFacts) × In o os × (viable_one c config o ≡ some w)
unfolding viable
In-viable c config w [] h = elim h [ ]
In-viable c config w (o ∷ os) h = elim (Option-cases (viable_one c config o)) [
  | inl e ↦ let r = In-viable c config w os (rw (e, viable) at h) in (r.0, inr r.1, r.2)
  | inr (v, e) ↦ elim (let k : In w (v ∷ viable c os config) = rw (e, viable) at h in k) [
    | inl q ↦ (o, inl refl, e ∙ ap some q)
    | inr m ↦ let r = In-viable c config w os m in (r.0, inr r.1, r.2)
  ]
]

viable-In :
    (c : TxnFacts) (config : MatchConfig) (w : Viable) (o : TxnFacts) (os : List TxnFacts)
    → In o os
    → viable_one c config o ≡ some w
    → In w (viable c os config)
unfolding viable
viable-In c config w o [] h e = elim h [ ]
viable-In c config w o (x ∷ os) (inl q) e = rw (q, viable, e) (inl refl)
viable-In c config w o (x ∷ os) (inr m) e = elim (Option-cases (viable_one c config x)) [
  | inl k ↦ rw (k, viable) (viable-In c config w o os m e)
  | inr (v, k) ↦ rw (k, viable) (inr (viable-In c config w o os m e))
]

min_from-nil : (v : Viable) → min_from v [] ≡ v
unfolding min_from
min_from-nil v = refl

min_from_lt :
    (v x : Viable) (vs : List Viable)
    → key_lt x.key v.key ≡ true
    → min_from v (x ∷ vs) ≡ min_from x vs
unfolding min_from
min_from_lt v x vs e = ap (λ b. min_from (if b then x else v) vs) e

min_from_ge :
    (v x : Viable) (vs : List Viable)
    → key_lt x.key v.key ≡ false
    → min_from v (x ∷ vs) ≡ min_from v vs
unfolding min_from
min_from_ge v x vs e = ap (λ b. min_from (if b then x else v) vs) e

min_from-In : (v : Viable) (vs : List Viable) → In (min_from v vs) (v ∷ vs)
min_from-In v [] = inl (sym (min_from-nil v))
min_from-In v (x ∷ vs) = elim (Bool-cases (key_lt x.key v.key)) [
  | inl e ↦ inr (subst (λ m. In m (x ∷ vs)) (sym (min_from_lt v x vs e)) (min_from-In x vs))
  | inr e ↦ subst (λ m. In m (v ∷ x ∷ vs)) (sym (min_from_ge v x vs e)) (skip (min_from-In v vs))
]
  where
    skip : {m : Viable} → In m (v ∷ vs) → In m (v ∷ x ∷ vs)
    skip (inl q) = inl q
    skip (inr m) = inr (inr m)

abbrev NoLater : Viable → Viable → Type 0
NoLater m w = key_lt w.key m.key ≡ false

min_from-NoLater : (v : Viable) (vs : List Viable) → NoLater (min_from v vs) v
min_from-NoLater v [] = rw min_from-nil (key_lt_irrefl v.key)
min_from-NoLater v (x ∷ vs) = elim (Bool-cases (key_lt x.key v.key)) [
  | inl e ↦
      subst (λ m. NoLater m v) (sym (min_from_lt v x vs e))
        (key_le_trans (min_from x vs).key x.key v.key (min_from-NoLater x vs)
          (key_lt_asymm x.key v.key e))
  | inr e ↦ subst (λ m. NoLater m v) (sym (min_from_ge v x vs e)) (min_from-NoLater v vs)
]

-- Nothing in the list comes before its minimum.
min_from-least :
    (v : Viable) (vs : List Viable) (w : Viable) → In w (v ∷ vs) → NoLater (min_from v vs) w
min_from-least v vs w (inl q) = subst (NoLater (min_from v vs)) q (min_from-NoLater v vs)
min_from-least v [] w (inr m) = elim m [ ]
min_from-least v (x ∷ vs) w (inr (inl q)) = elim (Bool-cases (key_lt x.key v.key)) [
  | inl e ↦ subst (λ n. NoLater n w) (sym (min_from_lt v x vs e)) (min_from-least x vs w (inl q))
  | inr e ↦
      subst (λ n. NoLater n w) (sym (min_from_ge v x vs e))
        (subst (NoLater (min_from v vs)) q
          (key_le_trans (min_from v vs).key v.key x.key (min_from-NoLater v vs) e))
]
min_from-least v (x ∷ vs) w (inr (inr m)) = elim (Bool-cases (key_lt x.key v.key)) [
  | inl e ↦ subst (λ n. NoLater n w) (sym (min_from_lt v x vs e)) (min_from-least x vs w (inr m))
  | inr e ↦ subst (λ n. NoLater n w) (sym (min_from_ge v x vs e)) (min_from-least v vs w (inr m))
]

-- What `decide` picked: the counterparty, its verdict, and that no acceptable one has a lesser key.
pub record Picked (c : TxnFacts) (os : List TxnFacts) (config : MatchConfig) (d : Decision)
    : Type 0 where
  pub best : TxnFacts
  pub offered : In best os
  pub verdict : classify_pair c best config ≡ some (d.status, d.layer)
  pub gateway_row : d.gateway_row_id ≡ some (gateway_and_ledger c best).0.row_id
  pub ledger_row : d.ledger_row_id ≡ some (gateway_and_ledger c best).1.row_id
  pub noted : d.notes ≡ match_notes d.layer c best (gateway_and_ledger c best) config
  pub least :
      (o : TxnFacts) (s : ReconStatus) (l : MatchLayer)
      → In o os
      → classify_pair c o config ≡ some (s, l)
      → key_lt (sort_key c o l config) (sort_key c best d.layer config) ≡ false
  -- The same, spelled out: by layer, then closeness in time, then closeness in amount, then row id.
  pub preferred :
      (o : TxnFacts) (s : ReconStatus) (l : MatchLayer)
      → In o os
      → classify_pair c o config ≡ some (s, l)
      → NotAfter
          (record {
            rank = layer_rank d.layer;
            gap = time_delta c best;
            diff = magnitude (c.amount -ℤ best.amount);
            row_id = best.row_id;
          })
          (record {
            rank = layer_rank l;
            gap = time_delta c o;
            diff = magnitude (c.amount -ℤ o.amount);
            row_id = o.row_id;
          })

decide_viable-Picked :
    (c : TxnFacts) (os : List TxnFacts) (config : MatchConfig) (v : Viable) (vs : List Viable)
    → viable c os config ≡ v ∷ vs
    → Picked c os config (decision_for c config (min_from v vs))
unfolding decision_for sort_key
decide_viable-Picked c os config v vs e =
    let m = min_from v vs in
    let (o, offered, entry) = In-viable c config m os (subst (In m) (sym e) (min_from-In v vs)) in
    let here = viable_one-Entry c config o m entry in
    record {
      best = m.other;
      offered = subst (λ x. In x os) (sym here.counterparty) offered;
      verdict = rw here.counterparty here.verdict;
      gateway_row = refl;
      ledger_row = refl;
      noted = refl;
      least = minimal m here.its_key refl;
      preferred = λ x s l there accepted.
          key_lt-NotAfter _ _ (minimal m here.its_key refl x s l there accepted);
    }
  where
    minimal :
        (m : Viable)
        → m.key ≡ sort_key c m.other m.layer config
        → m ≡ min_from v vs
        → (x : TxnFacts) (s : ReconStatus) (l : MatchLayer) → In x os
        → classify_pair c x config ≡ some (s, l)
        → key_lt (sort_key c x l config) (sort_key c m.other m.layer config) ≡ false
    minimal m k q x s l there accepted =
        let w = viable-In c config _ x os there (Entry_of_verdict c config x s l accepted) in
        subst (λ n. key_lt (sort_key c x l config) n ≡ false) k
          (subst (λ (n : Viable). key_lt (sort_key c x l config) n.key ≡ false) (sym q)
            (min_from-least v vs _ (subst (In _) e w)))

List-cases : (ws : List Viable) → (ws ≡ []) ⊎ ((v : Viable) × (vs : List Viable) × (ws ≡ v ∷ vs))
List-cases [] = inl refl
List-cases (v ∷ vs) = inr (v, vs, refl)

-- A decision is for an offered counterparty that `classify_pair` accepts with the decision's status
-- and layer; it names the two rows by their sides, carries the layer's note, and no acceptable
-- counterparty that was offered is preferred to it, by layer, then closeness in time, then closeness
-- in amount, then the lower row id.
pub decide-Picked :
    (c : TxnFacts) (os : List TxnFacts) (config : MatchConfig) {d : Decision}
    → decide c os config ≡ some d
    → Picked c os config d
unfolding decide decide_viable
decide-Picked c os config h = elim (List-cases (viable c os config)) [
  | inl e ↦ absurd (ground (arith, e))
  | inr (v, vs, e) ↦
      subst (Picked c os config) (ground arith) (decide_viable-Picked c os config v vs e)
]

-- `decide` defers exactly when `classify_pair` accepts none of the counterparties.
pub decide-none_iff :
    (c : TxnFacts) (os : List TxnFacts) (config : MatchConfig)
    → (decide c os config ≡ none) ↔ ((o : TxnFacts) → In o os → classify_pair c o config ≡ none)
unfolding decide decide_viable
decide-none_iff c os config = (forth, back)
  where
    forth : decide c os config ≡ none → (o : TxnFacts) → In o os → classify_pair c o config ≡ none
    forth h o there = elim (Option-cases (classify_pair c o config)) [
      | inl e ↦ e
      | inr ((s, l), e) ↦ elim (List-cases (viable c os config)) [
        | inl q ↦
            elim (subst (In _) q
              (viable-In c config _ o os there (Entry_of_verdict c config o s l e))) [ ]
        | inr (v, vs, q) ↦ absurd (ground (arith, h, q))
      ]
    ]

    back : ((o : TxnFacts) → In o os → classify_pair c o config ≡ none) → decide c os config ≡ none
    back none_fits = elim (List-cases (viable c os config)) [
      | inl q ↦ rw (q, decide_viable)
      | inr (v, vs, q) ↦
          let (o, there, entry) = In-viable c config v os (subst (In v) (sym q) (inl refl)) in
          absurd (ground (arith, none_fits o there, (viable_one-Entry c config o v entry).verdict))
    ]

Layered-active :
    (a b : TxnFacts) (config : MatchConfig) (s : ReconStatus) (l : MatchLayer)
    → Layered a b config s l
    → is_active s ≡ true
Layered-active a b config ReconStatus.matched MatchLayer.exact h = refl
Layered-active a b config ReconStatus.matched MatchLayer.time_drift h = refl
Layered-active a b config ReconStatus.amount_drift MatchLayer.amount_drift h = refl
Layered-active a b config _ _ h = elim h [ ]

-- `decide` never returns a duplicate marker.
pub decide-active :
    (c : TxnFacts) (os : List TxnFacts) (config : MatchConfig) {d : Decision}
    → decide c os config ≡ some d
    → is_active d.status ≡ true
decide-active c os config {d} h =
    let p = decide-Picked c os config h in
    Layered-active c p.best config d.status d.layer
      ((classify_pair-iff-Classifies c p.best config d.status d.layer).0 p.verdict).1
