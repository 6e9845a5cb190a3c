-- ===== src/Tests/Matching.antt =====
-- The matching engine at concrete inputs.
use ledger_loop.Prelude.{◌≡◌, ◌↔◌, refl, ap, inl, inr, some, none, [], ◌∷◌, In, pos, arith}
use ledger_loop.Enums.{ReconStatus, MatchLayer}
use ledger_loop.Matching.{TxnFacts, Decision, classify_pair, decide}
use ledger_loop.Matching.Classify.{classify_pair_comm, Classifies, classify_pair-iff-Classifies}
use ledger_loop.Matching.Choice.{Picked, decide-Picked}
use ledger_loop.Matching.Agreement.{decide-SameAccepted}
use ledger_loop.Tests.{config, gateway_facts, ledger_facts, program}

matched_exactly :
    classify_pair gateway_facts ledger_facts config ≡ some (ReconStatus.matched, MatchLayer.exact)
unfolding program
matched_exactly = refl

-- The same payment, booked 9.99 lower and half a minute later: within the flat tolerance of 10.
abbrev short : TxnFacts
short = record ledger_facts { row_id = 5; amount = pos 104001; occurred_at = 130000000 }

drifted :
    classify_pair gateway_facts short config
    ≡ some (ReconStatus.amount_drift, MatchLayer.amount_drift)
unfolding program
drifted = refl

-- The exact counterparty is preferred, wherever it stands.
abbrev chosen : Decision
chosen = record {
  status = ReconStatus.matched;
  layer = MatchLayer.exact;
  gateway_row_id = some 1;
  ledger_row_id = some 4;
  notes = none;
}

prefers_exact : decide gateway_facts (short ∷ ledger_facts ∷ []) config ≡ some chosen
unfolding program
prefers_exact = refl

classify_pair-iff-Classifies_example :
    (classify_pair gateway_facts ledger_facts config ≡ some (ReconStatus.matched, MatchLayer.exact))
    ↔ Classifies gateway_facts ledger_facts config ReconStatus.matched MatchLayer.exact
classify_pair-iff-Classifies_example =
    classify_pair-iff-Classifies gateway_facts ledger_facts config ReconStatus.matched
      MatchLayer.exact

decide-Picked_example : Picked gateway_facts (short ∷ ledger_facts ∷ []) config chosen
decide-Picked_example = decide-Picked gateway_facts (short ∷ ledger_facts ∷ []) config prefers_exact

two_rows :
    (a b : TxnFacts)
    → In a (short ∷ ledger_facts ∷ [])
    → In b (short ∷ ledger_facts ∷ [])
    → a.row_id ≡ b.row_id
    → a ≡ b
two_rows a b (inl p) (inl q) e = cc
two_rows a b (inl p) (inr (inl q)) e =
    absurd (omega (arith, ap (λ (t : TxnFacts). t.row_id) p, ap (λ (t : TxnFacts). t.row_id) q))
two_rows a b (inr (inl p)) (inl q) e =
    absurd (omega (arith, ap (λ (t : TxnFacts). t.row_id) p, ap (λ (t : TxnFacts). t.row_id) q))
two_rows a b (inr (inl p)) (inr (inl q)) e = cc
two_rows a b (inr (inr n)) h e = elim n [ ]
two_rows a b h (inr (inr n)) e = elim n [ ]

swapped :
    (o : TxnFacts) (s : ReconStatus) (l : MatchLayer)
    → classify_pair gateway_facts o config ≡ some (s, l)
    → In o (short ∷ ledger_facts ∷ []) ↔ In o (ledger_facts ∷ short ∷ [])
swapped o s l accepted = (forth, back)
  where
    forth : In o (short ∷ ledger_facts ∷ []) → In o (ledger_facts ∷ short ∷ [])
    forth (inl p) = inr (inl p)
    forth (inr (inl p)) = inl p
    forth (inr (inr n)) = elim n [ ]

    back : In o (ledger_facts ∷ short ∷ []) → In o (short ∷ ledger_facts ∷ [])
    back (inl p) = inr (inl p)
    back (inr (inl p)) = inl p
    back (inr (inr n)) = elim n [ ]

decide-SameAccepted_example :
    decide gateway_facts (short ∷ ledger_facts ∷ []) config
    ≡ decide gateway_facts (ledger_facts ∷ short ∷ []) config
decide-SameAccepted_example =
    decide-SameAccepted gateway_facts (short ∷ ledger_facts ∷ []) (ledger_facts ∷ short ∷ []) config
      two_rows swapped

classify_pair_comm_example :
    classify_pair gateway_facts ledger_facts config
    ≡ classify_pair ledger_facts gateway_facts config
classify_pair_comm_example = classify_pair_comm gateway_facts ledger_facts config
