-- ===== src/Channel/Tier.antt =====
-- RULE 5 of app/services/channel_selector.py: `assess_ai_tier` of app/services/_channel_advisory_helpers.py.
-- The hours since a timestamp are an argument, `none` where its text is no date.
use student_success_intellig.Prelude.{
  if◌then◌else◌, truthy, ℤ, ltb_ℤ, leb_ℤ, String, Bool, true, false, ◌||◌, Option, none, some, List,
  [], ◌∷◌,
}
use student_success_intellig.Channel.Types.{
  Code, ai_ttl_not_configured, AiCtx, AiOutputCtx, ThresholdBindings,
}
use student_success_intellig.Config.{numeric}
use student_success_intellig.Governance.{
  InsightState, generating, pending, reviewed, AiTier, score_or_zero, seven_tenths,
}

-- `AIOutputCtx()`
abbrev pub no_ai : AiOutputCtx
no_ai = record {
  ai_input_used = false;
  ai_governance_tier = AiTier.unavailable;
  ai_confidence_score = none;
  stale_flag = false;
  fallback_applied = false;
  channel_priority_adjustment_applied = false;
  ai_channel_preference_signal = none;
}

abbrev pub with_tier : AiTier → AiOutputCtx
with_tier tier = record no_ai { ai_governance_tier = tier }

module _ (elapsed : String → Option ℤ) where
  -- the insight is older than its time to live, or its date cannot be read
  unfoldable pub is_expired : ℤ → Option String → Bool
  is_expired ttl none = false
  is_expired ttl (some date) =
      if truthy (some date)
      then elim (elapsed date) [ some hours ↦ ltb_ℤ ttl hours | none ↦ true ]
      else false

  -- the tier of a reviewed insight
  unfoldable pub reviewed_tier : AiCtx → ℤ → AiOutputCtx
  reviewed_tier ai ttl =
      if ai.ai_stale_flag || is_expired ttl ai.ai_generated_at
      then record (with_tier AiTier.stale) { stale_flag = true }
      else record no_ai {
        ai_governance_tier =
            if leb_ℤ seven_tenths (score_or_zero ai.ai_confidence_score)
            then AiTier.confident
            else AiTier.advisory;
        ai_confidence_score = some (score_or_zero ai.ai_confidence_score);
        ai_input_used = true;
      }

  unfoldable pub tier_of_state : AiCtx → ℤ → Option InsightState → AiOutputCtx
  tier_of_state ai ttl (some generating) = with_tier AiTier.in_flight
  tier_of_state ai ttl (some pending) = with_tier AiTier.in_flight
  tier_of_state ai ttl (some reviewed) = reviewed_tier ai ttl
  tier_of_state ai ttl _ = with_tier AiTier.unavailable

  -- `assess_ai_tier`: what it writes, and the codes that it appends; its result is the tier written
  unfoldable pub assess_ai_tier : AiCtx → ThresholdBindings → AiOutputCtx × List Code
  assess_ai_tier ai tb =
      if ai.ai_finalized_copy
      then (with_tier AiTier.finalized_copy, [])
      else elim (numeric tb.ai_insight_ttl_hours) [
        | none ↦ (with_tier AiTier.unavailable, ai_ttl_not_configured ∷ [])
        | some ttl ↦ (tier_of_state ai ttl ai.ai_insight_state, [])
      ]
