-- ===== src/Priority/Scoring.antt =====
-- RULES 6 to 8 of app/services/priority.py: `_score_risk_factors`, `_aggregate_priority` and
-- `_apply_ai_adjustment`.
use student_success_intellig.Prelude.{
  leb, if◌then◌else◌, ℤ, leb_ℤ, whole, at_least, above, below, when, ℕ, suc, String, Bool, true,
  false, ◌&&◌, Option, none, some, List, [], ◌∷◌, ◌++◌, map,
}
use student_success_intellig.Prelude.Dict.{Dict}
use student_success_intellig.Priority.Types.{
  Priority, Risk, Code, hws_behind_high_risk, hws_behind_moderate_risk, eff_rating_medium_risk,
  inactivity_high_risk, inactivity_moderate_risk, payment_balance_medium_risk,
  escalation_recurrence_high_risk, historical_trend_critical, historical_trend_declining,
  access_transition_recent, ai_escalation_signal_confident, ai_escalation_signal_advisory,
  ai_escalation_signal_stale_low, ai_confident_escalate_to_critical, ai_confident_priority_upgraded,
  ai_advisory_priority_upgraded, stale_ai_prioritization_skipped, ai_unavailable_fallback_applied,
  ai_finalized_copy_not_applied, Value, amount, trend, intervention, ScoringFactor,
  PrioritizationContext,
}
use student_success_intellig.Config.{Setting, limit_of}
use student_success_intellig.Governance.{
  Intervention, meeting, outreach, resource_delivery, Trend, declining, AiTier, confident, advisory,
  stale, finalized_copy,
}

-- what one test of RULE 6 adds: a factor and a code
abbrev pub Finding : Type 0
Finding = ScoringFactor × Code

abbrev finding : String → Risk → String → Value → Code → Finding
finding name risk key v code =
    (record { factor = name; contribution = risk; threshold_key = key; value = v }, code)

unfoldable pub score_hws : Option ℤ → Option ℤ → Option ℤ → List Finding
score_hws none hw_high hw_mod = []
score_hws (some hws) hw_high hw_mod =
    if at_least (some hws) hw_high
    then finding "hws_behind" Risk.high "hws_behind_high_risk_threshold" (amount hws)
        hws_behind_high_risk
      ∷ []
    else when (at_least (some hws) hw_mod) (
        finding "hws_behind" Risk.medium "hws_behind_moderate_threshold" (amount hws)
          hws_behind_moderate_risk)

unfoldable pub score_effort : Option ℤ → Option ℤ → List Finding
score_effort none eff_thresh = []
score_effort (some eff) eff_thresh = when (below (some eff) eff_thresh) (
    finding "avg_eff_rating" Risk.medium "avg_eff_rating_low_risk_threshold" (amount eff)
      eff_rating_medium_risk)

unfoldable pub score_inactivity : Option ℤ → Option ℤ → Option ℤ → List Finding
score_inactivity none inact_high inact_mod = []
score_inactivity (some days) inact_high inact_mod =
    if above (some days) inact_high
    then finding "last_activity_days" Risk.high "last_activity_high_risk_days" (amount days)
        inactivity_high_risk
      ∷ []
    else when (above (some days) inact_mod) (
        finding "last_activity_days" Risk.medium "last_activity_moderate_days" (amount days)
          inactivity_moderate_risk)

unfoldable pub score_payment : Option ℤ → Option ℤ → List Finding
score_payment none pay_thresh = []
score_payment (some balance) pay_thresh = when (above (some balance) pay_thresh) (
    finding "payment_balance" Risk.medium "payment_balance_risk_threshold" (amount balance)
      payment_balance_medium_risk)

unfoldable pub score_recurrence : Option ℤ → Option ℤ → List Finding
score_recurrence none esc_thresh = []
score_recurrence (some count) esc_thresh = when (at_least (some count) esc_thresh) (
    finding "prior_escalation_count" Risk.high "prior_escalation_repeat_threshold" (amount count)
      escalation_recurrence_high_risk)

unfoldable pub score_trend : Option Trend → List Finding
score_trend (some Trend.critical) =
    finding "historical_risk_trend" Risk.high "historical_risk_trend" (trend Trend.critical)
      historical_trend_critical
    ∷ []
score_trend (some declining) =
    finding "historical_risk_trend" Risk.medium "historical_risk_trend" (trend declining)
      historical_trend_declining
    ∷ []
score_trend _ = []

unfoldable pub score_access : Option ℤ → List Finding
score_access none = []
score_access (some days) = when (leb_ℤ days (whole 7)) (
    finding "access_last_changed_days" Risk.low "access_last_changed_days" (amount days)
      access_transition_recent)

unfoldable pub score_ai : AiTier → Option Intervention → List Finding
score_ai confident (some Intervention.escalate) =
    finding "ai_escalation_signal" Risk.high "ai_recommended_intervention"
      (intervention Intervention.escalate) ai_escalation_signal_confident
    ∷ []
score_ai advisory (some Intervention.escalate) =
    finding "ai_escalation_signal" Risk.medium "ai_recommended_intervention"
      (intervention Intervention.escalate) ai_escalation_signal_advisory
    ∷ []
score_ai stale (some Intervention.escalate) =
    finding "ai_escalation_signal_stale" Risk.low "ai_recommended_intervention"
      (intervention Intervention.escalate) ai_escalation_signal_stale_low
    ∷ []
score_ai _ _ = []

-- the findings of RULE 6, in order
unfoldable pub findings_of : PrioritizationContext → Dict Setting → AiTier → List Finding
findings_of ctx th tier =
    score_hws ctx.hws_behind (limit_of th "hws_behind_high_risk_threshold")
      (limit_of th "hws_behind_moderate_threshold")
    ++ score_effort ctx.avg_eff_rating (limit_of th "avg_eff_rating_low_risk_threshold")
    ++ score_inactivity ctx.last_activity_days (limit_of th "last_activity_high_risk_days")
        (limit_of th "last_activity_moderate_days")
    ++ score_payment ctx.payment_balance (limit_of th "payment_balance_risk_threshold")
    ++ score_recurrence ctx.prior_escalation_count (limit_of th "prior_escalation_repeat_threshold")
    ++ score_trend ctx.historical_risk_trend
    ++ score_access ctx.access_last_changed_days
    ++ score_ai tier ctx.ai_recommended_intervention

-- `_score_risk_factors`: the factors, their contributions, and the codes
unfoldable pub score_risk_factors :
    PrioritizationContext → Dict Setting → AiTier → List ScoringFactor × List Risk × List Code
score_risk_factors ctx th tier =
    let found = findings_of ctx th tier in
    (map (λ f. f.0) found, map (λ f. f.0.contribution) found, map (λ f. f.1) found)

abbrev pub same_risk : Risk → Risk → Bool
same_risk Risk.high Risk.high = true
same_risk Risk.medium Risk.medium = true
same_risk Risk.low Risk.low = true
same_risk _ _ = false

-- `contributions.count(risk)`
unfoldable pub count : Risk → List Risk → ℕ
count risk [] = 0
count risk (c ∷ cs) = if same_risk c risk then suc (count risk cs) else count risk cs

unfoldable pub aggregate_priority : List Risk → Priority
aggregate_priority contributions =
    let highs = count Risk.high contributions in
    let meds = count Risk.medium contributions in
    if leb 2 highs
    then Priority.critical
    else if leb 1 highs && leb 1 meds
    then Priority.high
    else if leb 1 highs
    then Priority.medium
    else if leb 1 meds
    then Priority.medium
    else Priority.low

-- `levels[levels.index(priority) - 1]`, where the priority is a level and not the first
unfoldable pub raised : Priority → Option Priority
raised Priority.high = some Priority.critical
raised Priority.medium = some Priority.high
raised Priority.low = some Priority.medium
raised _ = none

-- one step up with a code, where there is one
unfoldable pub raise_with : Code → Priority → Option Priority → Priority × Bool × List Code
raise_with code priority none = (priority, false, [])
raise_with code priority (some up) = (up, true, code ∷ [])

-- `_apply_ai_adjustment`: the priority, whether it was adjusted, and the codes
unfoldable pub apply_ai_adjustment :
    Priority → AiTier → Option Intervention → Priority × Bool × List Code
apply_ai_adjustment priority confident (some Intervention.escalate) =
    (Priority.critical, true, ai_confident_escalate_to_critical ∷ [])
apply_ai_adjustment priority confident (some meeting) =
    raise_with ai_confident_priority_upgraded priority (raised priority)
apply_ai_adjustment priority confident (some outreach) =
    raise_with ai_confident_priority_upgraded priority (raised priority)
apply_ai_adjustment priority confident (some resource_delivery) =
    raise_with ai_confident_priority_upgraded priority (raised priority)
apply_ai_adjustment priority advisory (some Intervention.escalate) =
    raise_with ai_advisory_priority_upgraded priority (raised priority)
apply_ai_adjustment priority stale _ = (priority, false, stale_ai_prioritization_skipped ∷ [])
apply_ai_adjustment priority AiTier.unavailable _ =
    (priority, false, ai_unavailable_fallback_applied ∷ [])
apply_ai_adjustment priority finalized_copy _ =
    (priority, false, ai_finalized_copy_not_applied ∷ [])
apply_ai_adjustment priority _ _ = (priority, false, [])
