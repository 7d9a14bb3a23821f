-- ===== src/Decision/Risk.antt =====
-- RULE 5 and RULE 7 of app/services/decision_engine.py: the AI tier and the multi-factor risk.
use student_success_intellig.Prelude.{
  Bool, true, false, ◌&&◌, ◌||◌, Option, some, List, ◌++◌, ℤ, leb_ℤ, leb, at_least, above, below,
  if◌then◌else◌, when, nonempty, length,
}
use student_success_intellig.Prelude.Dict.{Dict}
use student_success_intellig.Governance.{
  InsightState, generating, pending, reviewed, Intervention, escalate, Trend, declining, AiTier,
  confident, advisory, stale, in_flight, unavailable, finalized_copy, Threshold, comparable,
  score_or_zero, seven_tenths,
}
use student_success_intellig.Decision.Types.{
  AiInputContext, AiOutputContext, DecisionContext, no_ai, Level, low, medium, high, Factor,
  hws_delinquency, effort_decline, inactivity, payment_risk, escalation_recurrence,
  historical_trend_critical, historical_trend_declining, ai_confident_escalate_signal,
  ai_advisory_escalate_signal,
}
use student_success_intellig.Decision.Thresholds.{
  k_hws_risk, k_eff_risk, k_inactivity_risk, k_payment_risk, k_escalation_repeat, threshold,
}

-- the branch of `_assess_ai_tier` for a reviewed insight
unfoldable pub reviewed_tier : AiInputContext → AiTier × AiOutputContext
reviewed_tier ai =
    if ai.ai_stale_flag
    then (stale, record no_ai { ai_governance_tier = stale; stale_flag = true })
    else (let score : ℤ = score_or_zero ai.ai_confidence_score in
        let tier : AiTier = if leb_ℤ seven_tenths score then confident else advisory in
        (tier, record no_ai { ai_governance_tier = tier; ai_confidence_score = score }))

unfoldable pub tier_of_state : Option InsightState → AiInputContext → AiTier × AiOutputContext
unfolding reviewed_tier
tier_of_state (some generating) ai = (in_flight, record no_ai { ai_governance_tier = in_flight })
tier_of_state (some pending) ai = (in_flight, record no_ai { ai_governance_tier = in_flight })
tier_of_state (some reviewed) ai = reviewed_tier ai
tier_of_state _ ai =
    (unavailable, record no_ai { ai_governance_tier = unavailable; fallback_applied = true })

-- `_assess_ai_tier`
unfoldable pub assess_ai_tier : AiInputContext → AiTier × AiOutputContext
unfolding tier_of_state
assess_ai_tier ai =
    if ai.ai_finalized_copy
    then (finalized_copy, record no_ai { ai_governance_tier = finalized_copy })
    else tier_of_state ai.ai_insight_state ai

abbrev pub is_critical_trend : Option Trend → Bool
is_critical_trend (some Trend.critical) = true
is_critical_trend _ = false

abbrev pub is_declining_trend : Option Trend → Bool
is_declining_trend (some declining) = true
is_declining_trend _ = false

abbrev pub is_escalate : Option Intervention → Bool
is_escalate (some escalate) = true
is_escalate _ = false

abbrev pub is_confident : AiTier → Bool
is_confident confident = true
is_confident _ = false

abbrev pub is_advisory : AiTier → Bool
is_advisory advisory = true
is_advisory _ = false

-- the list `high` of `_compute_risk`
unfoldable pub high_factors : DecisionContext → Dict Threshold → AiTier → List Factor
high_factors ctx thresholds ai_tier =
    when (at_least ctx.academic.hws_behind (comparable (threshold thresholds k_hws_risk)))
      hws_delinquency
    ++ (when
          (above ctx.academic.last_activity_days
            (comparable (threshold thresholds k_inactivity_risk)))
          inactivity
        ++ (when
              (at_least (some ctx.historical.prior_escalation_count)
                (comparable (threshold thresholds k_escalation_repeat)))
              escalation_recurrence
            ++ (when (is_critical_trend ctx.historical.historical_risk_trend)
                  historical_trend_critical
                ++ when (is_confident ai_tier && is_escalate ctx.ai.ai_recommended_intervention)
                    ai_confident_escalate_signal)))

-- the list `med` of `_compute_risk`
unfoldable pub med_factors : DecisionContext → Dict Threshold → AiTier → List Factor
med_factors ctx thresholds ai_tier =
    when (below ctx.academic.avg_eff_rating (comparable (threshold thresholds k_eff_risk)))
      effort_decline
    ++ (when (above ctx.academic.payment_balance (comparable (threshold thresholds k_payment_risk)))
          payment_risk
        ++ (when (is_declining_trend ctx.historical.historical_risk_trend)
              historical_trend_declining
            ++ when (is_advisory ai_tier && is_escalate ctx.ai.ai_recommended_intervention)
                ai_advisory_escalate_signal))

-- the tests at the end of `_compute_risk`
unfoldable pub classify : List Factor → List Factor → Level
classify highs meds =
    if leb 2 (length highs)
    then Level.critical
    else if nonempty highs && nonempty meds
    then high
    else if nonempty highs || nonempty meds
    then medium
    else low

-- `_compute_risk`
unfoldable pub compute_risk : DecisionContext → Dict Threshold → AiTier → Level × List Factor
unfolding high_factors med_factors classify
compute_risk ctx thresholds ai_tier =
    let highs : List Factor = high_factors ctx thresholds ai_tier in
    let meds : List Factor = med_factors ctx thresholds ai_tier in
    (classify highs meds, highs ++ meds)
