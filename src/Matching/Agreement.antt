-- ===== src/Matching/Agreement.antt =====
-- `decide` of backend/ledgerloop/matching/core.py does not depend on the order in which the query
-- returns the counterparties.
use ledger_loop.Prelude.{
  ◌≡◌, sym, ap, ◌∙◌, ◌↔◌, inl, inr, none, some, arith, List, In, Option-cases,
}
use ledger_loop.Enums.{ReconStatus, MatchLayer}
use ledger_loop.Matching.{TxnFacts, MatchConfig, classify_pair, Decision, SortKey, sort_key, decide}
use ledger_loop.Matching.Keys.{key_le_antisymm}
use ledger_loop.Matching.Choice.{Picked, decide-Picked, decide-none_iff}

-- Rows of one table: the id tells them apart.
abbrev pub DistinctRows : List TxnFacts → Type 0
DistinctRows os = (a b : TxnFacts) → In a os → In b os → a.row_id ≡ b.row_id → a ≡ b

-- The lists hold the same of the counterparties that `classify_pair` accepts.
abbrev pub SameAccepted : TxnFacts → MatchConfig → List TxnFacts → List TxnFacts → Type 0
SameAccepted c config xs ys =
    (o : TxnFacts) (s : ReconStatus) (l : MatchLayer)
    → classify_pair c o config ≡ some (s, l)
    → In o xs ↔ In o ys

sort_key-row_id :
    (c a b : TxnFacts) (k l : MatchLayer) (config : MatchConfig)
    → sort_key c a k config ≡ sort_key c b l config
    → a.row_id ≡ b.row_id
unfolding sort_key
sort_key-row_id c a b k l config e = ap (λ (t : SortKey). t.row_id) e

Picked-best :
    (c : TxnFacts) (xs ys : List TxnFacts) (config : MatchConfig) (d d' : Decision)
    → DistinctRows xs
    → SameAccepted c config xs ys
    → (p : Picked c xs config d) → (q : Picked c ys config d') → p.best ≡ q.best
Picked-best c xs ys config d d' distinct same p q =
    distinct p.best q.best p.offered ((same q.best _ _ q.verdict).1 q.offered) (
      sort_key-row_id c p.best q.best d.layer d'.layer config (
        key_le_antisymm _ _
          (p.least q.best d'.status d'.layer ((same q.best _ _ q.verdict).1 q.offered) q.verdict)
          (q.least p.best d.status d.layer ((same p.best _ _ p.verdict).0 p.offered) p.verdict)))

Picked-eq :
    (c : TxnFacts) (xs ys : List TxnFacts) (config : MatchConfig) (d d' : Decision)
    → (p : Picked c xs config d) → (q : Picked c ys config d') → p.best ≡ q.best
    → d ≡ d'
Picked-eq c xs ys config d d' p q e = ground (
  arith, e, p.verdict, q.verdict, p.gateway_row, q.gateway_row, p.ledger_row, q.ledger_row, p.noted,
  q.noted,
)

none_accepted :
    (c : TxnFacts) (xs ys : List TxnFacts) (config : MatchConfig)
    → SameAccepted c config xs ys
    → decide c xs config ≡ none
    → decide c ys config ≡ none
none_accepted c xs ys config same e = (decide-none_iff c ys config).1 λ o there.
    elim (Option-cases (classify_pair c o config)) [
      | inl k ↦ k
      | inr ((s, l), k) ↦ (decide-none_iff c xs config).0 e o ((same o s l k).1 there)
    ]

-- Whatever order the counterparties come in, however often each is listed, and whatever else is
-- listed that `classify_pair` refuses, `decide` returns the same, as long as the row id tells the
-- listed rows apart.
pub decide-SameAccepted :
    (c : TxnFacts) (xs ys : List TxnFacts) (config : MatchConfig)
    → DistinctRows xs
    → SameAccepted c config xs ys
    → decide c xs config ≡ decide c ys config
decide-SameAccepted c xs ys config distinct same = elim (Option-cases (decide c xs config)) [
  | inl e ↦ e ∙ sym (none_accepted c xs ys config same e)
  | inr (d, e) ↦ elim (Option-cases (decide c ys config)) [
    | inl k ↦ absurd (contradiction d e k)
    | inr (d', k) ↦
        let p = decide-Picked c xs config e in
        let q = decide-Picked c ys config k in
        e
        ∙ ap some
            (Picked-eq c xs ys config d d' p q (Picked-best c xs ys config d d' distinct same p q))
        ∙ sym k
  ]
]
  where
    contradiction : (d : Decision) → decide c xs config ≡ some d → decide c ys config ≡ none → ⊥
    contradiction d e k =
        let p = decide-Picked c xs config e in
        cc (
          p.verdict,
          (decide-none_iff c ys config).0 k p.best ((same p.best _ _ p.verdict).0 p.offered),
        )
