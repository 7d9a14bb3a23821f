-- ===== src/Channel/Tests.antt =====
-- Runs of Channel at concrete inputs.
use student_success_intellig.Prelude.{
  ℤ, pos, whole, String, ◌≡◌, ◌⊎◌, true, false, Option, none, some, [], ◌∷◌,
}
use student_success_intellig.Prelude.Dict.{get, get_text}
use student_success_intellig.Channel.Types.{
  call, prefer, ChannelAdvisoryContext, ChannelAdvisoryAssessment,
}
use student_success_intellig.Channel.Thresholds.{k_preferred, bindings_of}
use student_success_intellig.Channel.Tier.{is_expired, reviewed_tier, tier_of_state, assess_ai_tier}
use student_success_intellig.Channel.Gate.{any_missing, precondition_codes, first_draft}
use student_success_intellig.Channel.Ranking.{
  has, dropped, kept, remove, promote, engaged, configured, promote_if, prioritized,
  prioritize_channels,
}
use student_success_intellig.Channel.Emit.{live_ok, emit}
use student_success_intellig.Channel.Late.{
  scope_of, conclude, adjusted, adjust, by_tier, rank_candidates, suspended_draft,
  exhausted_or_ranked, rule_10_on, rule_9_on,
}
use student_success_intellig.Channel.Rules.{
  exhaustion_rule, rule_8_on, finding_of, usable, health_draft, rule_7_on, opt_out_draft, rule_6_on,
  tier_draft, contact_draft, rule_3_on, rule_1_on, assess_channel_advisory,
}
use student_success_intellig.Config.{Setting, number}
use student_success_intellig.Governance.{live, original, OutreachState, InsightState}
use student_success_intellig.Channel.Partition.{IsPartition}
use student_success_intellig.Channel.Soundness.{is_authorized}
use student_success_intellig.Channel.Advice.{recommended_or_prohibited, live_delivery_exact}

-- a student with a phone, an email address, and an opt-out of SMS, in LIVE mode
abbrev sample : ChannelAdvisoryContext
sample = record {
  governance = record {
    config_version_id = some "cfg-9";
    config_version_status = "ACTIVE";
    config_rule_set =
        ("ai_insight_ttl_hours", number (whole 24)) ∷ (k_preferred, Setting.other "EMAIL") ∷ [];
    execution_mode = live;
    execution_type = original;
    correlation_id = some "corr-1";
    causation_id = none;
    attribution_context =
        ("origin_source", some "scheduler")
        ∷ ("origin_authority", some "system")
        ∷ ("actor_identity", some "batch_runner")
        ∷ ("attribution_timestamp", some "2026-01-05T08:00:00Z")
        ∷ [];
    fingerprint_context = none;
    idempotency_key = none;
    compliance_hold_flag = false;
    replay_context = none;
  };
  operational = record {
    email = some "s@example.org";
    phone_number = some "+1 555 0100";
    outreach_state = some OutreachState.queued;
    engagement_signal_score = none;
    provider_health_state = none;
    channel_opt_out_state = some (("SMS", true) ∷ []);
    channel_delivery_failure_counts = none;
    channel_suspension_state = none;
    channel_exhaustion_state = none;
  };
  ai = record {
    ai_insight_state = some InsightState.reviewed;
    ai_confidence_score = some (pos 8000);
    ai_stale_flag = false;
    ai_finalized_copy = false;
    ai_channel_preference_signal = some (prefer call);
    ai_generated_at = some "2026-01-05T06:00:00Z";
  };
}

abbrev two_hours : String → Option ℤ
two_hours date = some (whole 2)

abbrev advised : ChannelAdvisoryAssessment
advised = assess_channel_advisory two_hours sample

recommended_or_prohibited_example :
    (advised.recommended_channel_candidates ≡ [])
    ⊎ IsPartition advised.recommended_channel_candidates advised.prohibited_channels
recommended_or_prohibited_example = recommended_or_prohibited two_hours sample

live_delivery_exact_example :
    (advised.governance_constraints.live_delivery_permitted ≡ true)
    × (is_authorized advised.governance_constraints.governance_scope
        ≡ advised.governance_constraints.live_delivery_permitted)
unfolding assess_channel_advisory precondition_codes any_missing get_text first_draft rule_1_on
    rule_3_on contact_draft kept dropped rule_6_on opt_out_draft tier_draft assess_ai_tier
    bindings_of get tier_of_state reviewed_tier is_expired rule_7_on health_draft usable finding_of
    rule_8_on exhaustion_rule rule_9_on rule_10_on suspended_draft exhausted_or_ranked
    rank_candidates prioritize_channels prioritized promote_if promote engaged configured by_tier
    adjust adjusted conclude emit scope_of live_ok has remove
live_delivery_exact_example = live_delivery_exact two_hours sample
