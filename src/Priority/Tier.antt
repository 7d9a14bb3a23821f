-- ===== src/Priority/Tier.antt =====
-- `_resolve_priority_thresholds` and `_classify_ai_tier` of app/services/priority.py.
use student_success_intellig.Prelude.{
  if◌then◌else◌, ℤ, leb_ℤ, String, Bool, true, false, Option, none, some, List, [], ◌∷◌,
}
use student_success_intellig.Prelude.Dict.{Dict, get}
use student_success_intellig.Priority.Types.{PrioritizationContext}
use student_success_intellig.Config.{Setting, or_unknown, is_unknown, resolve_keys}
use student_success_intellig.Governance.{
  InsightState, generating, pending, reviewed, AiTier, confident, advisory, stale, in_flight,
  finalized_copy, seven_tenths,
}

-- `_PRIORITY_THRESHOLD_KEYS`
abbrev pub threshold_keys : List String
threshold_keys =
    "hws_behind_high_risk_threshold" ∷ "hws_behind_moderate_threshold"
    ∷ "avg_eff_rating_low_risk_threshold" ∷ "last_activity_high_risk_days"
    ∷ "last_activity_moderate_days" ∷ "payment_balance_risk_threshold"
    ∷ "prior_escalation_repeat_threshold" ∷ "ai_insight_ttl_hours" ∷ []

unfoldable pub resolve_priority_thresholds : Dict Setting → Dict Setting × List String
resolve_priority_thresholds rule_set = resolve_keys rule_set threshold_keys

-- the tier of a reviewed insight that is not stale
unfoldable pub fresh_tier : Option ℤ → AiTier
fresh_tier none = advisory
fresh_tier (some confidence) = if leb_ℤ seven_tenths confidence then confident else advisory

-- the branch for a reviewed insight
unfoldable pub reviewed_tier : Option Bool → Option ℤ → Setting → AiTier
reviewed_tier (some true) confidence ttl = stale
reviewed_tier (some false) confidence ttl = fresh_tier confidence
reviewed_tier none confidence ttl =
    if is_unknown ttl then AiTier.unavailable else fresh_tier confidence

unfoldable pub tier_of_state : Option InsightState → Option Bool → Option ℤ → Setting → AiTier
tier_of_state (some generating) flag confidence ttl = in_flight
tier_of_state (some pending) flag confidence ttl = in_flight
tier_of_state (some reviewed) flag confidence ttl = reviewed_tier flag confidence ttl
tier_of_state _ flag confidence ttl = AiTier.unavailable

unfoldable pub classify_ai_tier : PrioritizationContext → Dict Setting → AiTier
classify_ai_tier ctx thresholds =
    if ctx.ai_finalized_copy
    then finalized_copy
    else tier_of_state ctx.ai_insight_state ctx.ai_stale_flag ctx.ai_confidence_score
        (or_unknown (get "ai_insight_ttl_hours" thresholds))
