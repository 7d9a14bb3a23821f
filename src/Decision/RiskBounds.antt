-- ===== src/Decision/RiskBounds.antt =====
-- Bounds on the risk level of RULE 7 in app/services/decision_engine.py: which counts of factors give
-- which level, and what missing thresholds and AI signals do to it.
use student_success_intellig.Prelude.{
  length, length-append, ℕ, ◌+◌, ◌≤◌, ◌≡◌, ◌↔◌, none, List, [], arith,
}
use student_success_intellig.Prelude.Dict.{Dict, get}
use student_success_intellig.Decision.Types.{Level, low, medium, high, Factor, DecisionContext}
use student_success_intellig.Decision.Thresholds.{threshold}
use student_success_intellig.Decision.Risk.{high_factors, med_factors, classify, compute_risk}
use student_success_intellig.Governance.{AiTier, Threshold}

abbrev pub rank : Level → ℕ
rank low = 0
rank medium = 1
rank high = 2
rank Level.critical = 3

classify_mono :
    (hs hs' ms ms' : List Factor)
    → length hs ≤ length hs'
    → length ms ≤ length ms'
    → rank (classify hs ms) ≤ rank (classify hs' ms')
unfolding classify
classify_mono hs hs' ms ms' h m = ground arith

high_factors_unresolved :
    (ctx : DecisionContext) (thresholds : Dict Threshold) (tier : AiTier)
    → length (high_factors ctx [] tier) ≤ length (high_factors ctx thresholds tier)
unfolding high_factors threshold get
high_factors_unresolved ctx thresholds tier = ground arith

med_factors_unresolved :
    (ctx : DecisionContext) (thresholds : Dict Threshold) (tier : AiTier)
    → length (med_factors ctx [] tier) ≤ length (med_factors ctx thresholds tier)
unfolding med_factors threshold get
med_factors_unresolved ctx thresholds tier = ground arith

-- Thresholds that are not resolved never raise the risk: with none at all the level is at most what
-- it is with any.
pub compute_risk_unresolved :
    (ctx : DecisionContext) (thresholds : Dict Threshold) (tier : AiTier)
    → rank (compute_risk ctx [] tier).0 ≤ rank (compute_risk ctx thresholds tier).0
unfolding compute_risk
compute_risk_unresolved ctx thresholds tier =
    classify_mono (high_factors ctx [] tier) (high_factors ctx thresholds tier)
      (med_factors ctx [] tier) (med_factors ctx thresholds tier)
      (high_factors_unresolved ctx thresholds tier) (med_factors_unresolved ctx thresholds tier)

abbrev pub without_ai : DecisionContext → DecisionContext
without_ai ctx = record ctx { ai = record ctx.ai { ai_recommended_intervention = none } }

-- An AI recommendation adds one factor at most, and takes none away.
factors-without_ai :
    (ctx : DecisionContext) (thresholds : Dict Threshold) (tier : AiTier)
    → let highs = length (high_factors ctx thresholds tier) in
      let meds = length (med_factors ctx thresholds tier) in
      let highs' = length (high_factors (without_ai ctx) thresholds tier) in
      let meds' = length (med_factors (without_ai ctx) thresholds tier) in
      (highs' ≤ highs) × (meds' ≤ meds) × (highs + meds ≤ highs' + meds' + 1)
unfolding high_factors med_factors
factors-without_ai ctx thresholds tier = ground arith

classify_one_more :
    (hs hs' ms ms' : List Factor)
    → classify hs' ms' ≡ low
    → length hs + length ms ≤ length hs' + length ms' + 1
    → rank (classify hs ms) ≤ 1
unfolding classify
classify_one_more hs hs' ms ms' l h = ground arith

-- An AI recommendation never lowers the risk.
pub compute_risk_ai :
    (ctx : DecisionContext) (thresholds : Dict Threshold) (tier : AiTier)
    → rank (compute_risk (without_ai ctx) thresholds tier).0
      ≤ rank (compute_risk ctx thresholds tier).0
unfolding compute_risk
compute_risk_ai ctx thresholds tier =
    let (h, m, s) = factors-without_ai ctx thresholds tier in
    classify_mono (high_factors (without_ai ctx) thresholds tier) (high_factors ctx thresholds tier)
      (med_factors (without_ai ctx) thresholds tier) (med_factors ctx thresholds tier) h m

-- Where the other factors leave the risk LOW, an AI recommendation makes it MEDIUM at most: no AI
-- signal by itself makes a student a high or critical risk.
pub compute_risk_ai_alone :
    (ctx : DecisionContext) (thresholds : Dict Threshold) (tier : AiTier)
    → (compute_risk (without_ai ctx) thresholds tier).0 ≡ low
    → rank (compute_risk ctx thresholds tier).0 ≤ 1
unfolding compute_risk
compute_risk_ai_alone ctx thresholds tier l =
    let (h, m, s) = factors-without_ai ctx thresholds tier in
    classify_one_more (high_factors ctx thresholds tier)
      (high_factors (without_ai ctx) thresholds tier) (med_factors ctx thresholds tier)
      (med_factors (without_ai ctx) thresholds tier) l s

classify_levels :
    (hs ms : List Factor)
    → ((classify hs ms ≡ Level.critical) ↔ (2 ≤ length hs))
      × ((classify hs ms ≡ high) ↔ ((length hs ≡ 1) × (1 ≤ length ms)))
      × ((classify hs ms ≡ low) ↔ ((length hs ≡ 0) × (length ms ≡ 0)))
unfolding classify
classify_levels hs ms = (
  (λ e. ground arith, λ e. ground arith),
  (λ e. (ground arith, ground arith), λ e. ground arith),
  (λ e. (ground arith, ground arith), λ e. ground arith),
)

-- The level is CRITICAL exactly with two or more high factors, HIGH exactly with one and a medium
-- factor, LOW exactly with no factor; and the factors returned are the high and then the medium ones.
pub compute_risk_levels :
    (ctx : DecisionContext) (thresholds : Dict Threshold) (tier : AiTier)
    → let highs = length (high_factors ctx thresholds tier) in
      let meds = length (med_factors ctx thresholds tier) in
      let level = (compute_risk ctx thresholds tier).0 in
      ((level ≡ Level.critical) ↔ (2 ≤ highs))
      × ((level ≡ high) ↔ ((highs ≡ 1) × (1 ≤ meds)))
      × ((level ≡ low) ↔ ((highs ≡ 0) × (meds ≡ 0)))
      × (length (compute_risk ctx thresholds tier).1 ≡ highs + meds)
unfolding compute_risk
compute_risk_levels ctx thresholds tier =
    let (c, h, l) =
      classify_levels (high_factors ctx thresholds tier) (med_factors ctx thresholds tier) in
    (c, h, l, length-append (high_factors ctx thresholds tier) (med_factors ctx thresholds tier))
