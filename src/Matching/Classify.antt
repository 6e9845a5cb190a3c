-- ===== src/Matching/Classify.antt =====
-- `classify_pair` of backend/ledgerloop/matching/core.py against a description of the layers.
use ledger_loop.Prelude.{
  ◌*◌, ◌≤◌, ◌<◌, ◌≡◌, refl, sym, ◌≢◌, ◌↔◌, inl, inr, Bool, true, false, not, ◌&&◌, none, some,
  arith, ◌==◌, if◌then◌else◌, str_eq, str_eq→eq, eq→str_eq, Bool-cases, Bool-ext, ◌-ℤ◌, magnitude,
  dist_comm, eq_ℤ, eq_ℤ→eq, eq→eq_ℤ,
}
use ledger_loop.Enums.{IngestSource, ReconStatus, MatchLayer, same_side}
use ledger_loop.Matching.{
  TxnFacts, MatchConfig, time_delta, amount_scale, amount_tolerance, gateway_and_ledger,
  within_tolerance, classify_layers, classify_pair,
}

-- The two rows may be paired at all.
pub record Counterparts (a b : TxnFacts) : Type 0 where
  pub tenant : a.tenant_id ≡ b.tenant_id
  pub sides : a.side ≢ b.side
  pub txn : a.txn_id ≡ b.txn_id
  pub currency : a.currency ≡ b.currency

abbrev pub InTolerance : TxnFacts → TxnFacts → MatchConfig → Type 0
InTolerance a b config =
    magnitude ((gateway_and_ledger a b).0.amount -ℤ (gateway_and_ledger a b).1.amount)
      * amount_scale
    ≤ amount_tolerance (gateway_and_ledger a b).0.amount config

-- What layers 1 to 3 say of a pair, each where the layers before it do not apply.
abbrev pub Layered : TxnFacts → TxnFacts → MatchConfig → ReconStatus → MatchLayer → Type 0
Layered a b config ReconStatus.matched MatchLayer.exact =
    (a.amount ≡ b.amount) × (time_delta a b ≤ config.exact_window)
Layered a b config ReconStatus.matched MatchLayer.time_drift =
    (a.amount ≡ b.amount)
    × (config.exact_window < time_delta a b)
    × (time_delta a b ≤ config.drift_window)
Layered a b config ReconStatus.amount_drift MatchLayer.amount_drift =
    (a.amount ≢ b.amount) × (time_delta a b ≤ config.drift_window) × InTolerance a b config
Layered a b config _ _ = ⊥

abbrev pub Classifies : TxnFacts → TxnFacts → MatchConfig → ReconStatus → MatchLayer → Type 0
Classifies a b config status layer = Counterparts a b × Layered a b config status layer

counterpart_test : TxnFacts → TxnFacts → Bool
counterpart_test a b =
    (a.tenant_id == b.tenant_id)
    && not (same_side a.side b.side)
    && str_eq a.txn_id b.txn_id
    && str_eq a.currency b.currency

classify_pair-guards :
    (a b : TxnFacts) (config : MatchConfig)
    → classify_pair a b config ≡ (if counterpart_test a b then classify_layers a b config else none)
unfolding classify_pair counterpart_test
classify_pair-guards a b config = ground arith

same_side-false : (s t : IngestSource) → same_side s t ≡ false → s ≢ t
same_side-false s t h e = ground (arith, e)

ne-same_side : (s t : IngestSource) → s ≢ t → same_side s t ≡ false
ne-same_side IngestSource.gateway IngestSource.gateway h = absurd (h refl)
ne-same_side IngestSource.gateway IngestSource.ledger h = refl
ne-same_side IngestSource.ledger IngestSource.gateway h = refl
ne-same_side IngestSource.ledger IngestSource.ledger h = absurd (h refl)

counterpart_test-Counterparts : (a b : TxnFacts) → counterpart_test a b ≡ true → Counterparts a b
unfolding counterpart_test
counterpart_test-Counterparts a b h = record {
  tenant = ground arith;
  sides = same_side-false a.side b.side (ground arith);
  txn = str_eq→eq a.txn_id b.txn_id (ground arith);
  currency = str_eq→eq a.currency b.currency (ground arith);
}

Counterparts-counterpart_test : (a b : TxnFacts) → Counterparts a b → counterpart_test a b ≡ true
unfolding counterpart_test
Counterparts-counterpart_test a b v = ground (
  arith,
  v.tenant,
  ne-same_side a.side b.side v.sides,
  eq→str_eq a.txn_id b.txn_id v.txn,
  eq→str_eq a.currency b.currency v.currency,
)

pub Counterparts-sym : (a b : TxnFacts) → Counterparts a b → Counterparts b a
Counterparts-sym a b v = record {
  tenant = sym v.tenant;
  sides = λ e. v.sides (sym e);
  txn = sym v.txn;
  currency = sym v.currency;
}

classify_layers-Layered :
    (a b : TxnFacts) (config : MatchConfig) (s : ReconStatus) (l : MatchLayer)
    → classify_layers a b config ≡ some (s, l)
    → Layered a b config s l
unfolding classify_layers within_tolerance
classify_layers-Layered a b config ReconStatus.matched MatchLayer.exact h =
    (ground (arith, eq_ℤ→eq a.amount b.amount), ground arith)
classify_layers-Layered a b config ReconStatus.matched MatchLayer.time_drift h = (
  ground (arith, eq_ℤ→eq a.amount b.amount),
  ground (arith, eq_ℤ→eq a.amount b.amount),
  ground arith,
)
classify_layers-Layered a b config ReconStatus.amount_drift MatchLayer.amount_drift h =
    ((λ e. ground (arith, eq→eq_ℤ a.amount b.amount e)), ground arith, ground arith)
classify_layers-Layered a b config _ _ h = absurd (ground arith)

Layered-classify_layers :
    (a b : TxnFacts) (config : MatchConfig) (s : ReconStatus) (l : MatchLayer)
    → Layered a b config s l
    → classify_layers a b config ≡ some (s, l)
unfolding classify_layers within_tolerance
Layered-classify_layers a b config ReconStatus.matched MatchLayer.exact h =
    ground (arith, eq→eq_ℤ a.amount b.amount)
Layered-classify_layers a b config ReconStatus.matched MatchLayer.time_drift h =
    ground (arith, eq→eq_ℤ a.amount b.amount)
Layered-classify_layers a b config ReconStatus.amount_drift MatchLayer.amount_drift h =
    ground (arith, eq_ℤ→eq a.amount b.amount)
Layered-classify_layers a b config _ _ h = elim h [ ]

-- `classify_pair` returns a status and a layer exactly when the rows are of one tenant, of opposite
-- sides, of one transaction id and one currency, and the layer is the first of the three that
-- accepts their distance in time and in amount.
pub classify_pair-iff-Classifies :
    (a b : TxnFacts) (config : MatchConfig) (s : ReconStatus) (l : MatchLayer)
    → (classify_pair a b config ≡ some (s, l)) ↔ Classifies a b config s l
classify_pair-iff-Classifies a b config s l = (forth, back)
  where
    forth : classify_pair a b config ≡ some (s, l) → Classifies a b config s l
    forth h = elim (Bool-cases (counterpart_test a b)) [
      | inl e ↦ (
        counterpart_test-Counterparts a b e,
        classify_layers-Layered a b config s l (ground (arith, classify_pair-guards a b config)),
      )
      | inr e ↦ absurd (ground (arith, classify_pair-guards a b config))
    ]

    back : Classifies a b config s l → classify_pair a b config ≡ some (s, l)
    back (v, h) =
        rw (classify_pair-guards, Counterparts-counterpart_test a b v)
          (Layered-classify_layers a b config s l h)

gateway_and_ledger_comm :
    (a b : TxnFacts) → a.side ≢ b.side → gateway_and_ledger a b ≡ gateway_and_ledger b a
gateway_and_ledger_comm a b h = ground (arith, h)

classify_layers_comm :
    (a b : TxnFacts) (config : MatchConfig)
    → a.side ≢ b.side
    → classify_layers a b config ≡ classify_layers b a config
unfolding classify_layers
classify_layers_comm a b config h =
    rw (dist_comm a.occurred_at b.occurred_at, gateway_and_ledger_comm a b h, same) refl
  where
    same : eq_ℤ a.amount b.amount ≡ eq_ℤ b.amount a.amount
    same =
        Bool-ext _ _ (λ e. eq→eq_ℤ _ _ (sym (eq_ℤ→eq a.amount b.amount e)))
          (λ e. eq→eq_ℤ _ _ (sym (eq_ℤ→eq b.amount a.amount e)))

-- Whichever of the two rows is the candidate, the verdict is the same: the tolerance is taken of the
-- gateway's amount in both directions.
pub classify_pair_comm :
    (a b : TxnFacts) (config : MatchConfig) → classify_pair a b config ≡ classify_pair b a config
classify_pair_comm a b config = elim (Bool-cases (counterpart_test a b)) [
  | inl e ↦
      rw (classify_pair-guards, classify_pair-guards, e, turned e)
        (classify_layers_comm a b config (counterpart_test-Counterparts a b e).sides)
  | inr e ↦ rw (classify_pair-guards, classify_pair-guards, e, ← turned_all) (rw e)
]
  where
    turned : counterpart_test a b ≡ true → counterpart_test b a ≡ true
    turned e =
        Counterparts-counterpart_test b a
          (Counterparts-sym a b (counterpart_test-Counterparts a b e))

    turned_all : counterpart_test a b ≡ counterpart_test b a
    turned_all = Bool-ext _ _ turned (λ e.
        Counterparts-counterpart_test a b
          (Counterparts-sym b a (counterpart_test-Counterparts b a e)))
