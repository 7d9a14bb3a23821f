-- ===== src/Eligibility/Tier.antt =====
-- `_assess_ai_tier` and `_priority_upgrade` of app/services/eligibility.py.
use student_success_intellig.Prelude.{if◌then◌else◌, ℤ, leb_ℤ, true, Option, none, some}
use student_success_intellig.Prelude.Dict.{Dict}
use student_success_intellig.Eligibility.Types.{
  Priority, critical, high, medium, low, unknown, AiCtx, AiOutputCtx, default_ai,
}
use student_success_intellig.Eligibility.Thresholds.{limit_of}
use student_success_intellig.Governance.{
  InsightState, generating, pending, reviewed, AiTier, confident, advisory, stale, in_flight,
  unavailable, finalized_copy, Threshold, score_or_zero, seven_tenths,
}

abbrev out_of : AiCtx → AiOutputCtx
out_of ai = record default_ai {
  ai_confidence_score = ai.ai_confidence_score;
  stale_flag = ai.ai_stale_flag;
}

abbrev fallback_tier : AiCtx → AiTier × AiOutputCtx
fallback_tier ai =
    (unavailable, record (out_of ai) { ai_governance_tier = unavailable; fallback_applied = true })

-- the branch for a reviewed insight; `ttl` is the configured time to live
unfoldable pub reviewed_tier : AiCtx → Option ℤ → AiTier × AiOutputCtx
reviewed_tier ai none = fallback_tier ai
reviewed_tier ai (some ttl) =
    if ai.ai_stale_flag
    then (stale, record (out_of ai) { ai_governance_tier = stale })
    else (let tier : AiTier =
          if leb_ℤ seven_tenths (score_or_zero ai.ai_confidence_score)
          then confident
          else advisory in
        (tier, record (out_of ai) { ai_governance_tier = tier; ai_input_used = true }))

unfoldable pub tier_of_state : Option InsightState → AiCtx → Option ℤ → AiTier × AiOutputCtx
tier_of_state (some generating) ai ttl =
    (in_flight, record (out_of ai) { ai_governance_tier = in_flight })
tier_of_state (some pending) ai ttl =
    (in_flight, record (out_of ai) { ai_governance_tier = in_flight })
tier_of_state (some reviewed) ai ttl = reviewed_tier ai ttl
tier_of_state _ ai ttl = fallback_tier ai

unfoldable pub assess_ai_tier : AiCtx → Dict Threshold → AiTier × AiOutputCtx
assess_ai_tier ai th =
    if ai.ai_finalized_copy
    then (finalized_copy, record (out_of ai) { ai_governance_tier = finalized_copy })
    else tier_of_state ai.ai_insight_state ai (limit_of th "ai_ttl")

-- `_priority_upgrade`: one step up the ladder; `UNKNOWN` is not on it
unfoldable pub priority_upgrade : Priority → Priority
priority_upgrade low = medium
priority_upgrade medium = high
priority_upgrade high = critical
priority_upgrade critical = critical
priority_upgrade unknown = unknown
