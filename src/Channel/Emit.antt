-- ===== src/Channel/Emit.antt =====
-- `emit_assessment` of app/services/_channel_advisory_helpers.py. The log line that it writes is left out.
use student_success_intellig.Prelude.{
  if◌then◌else◌, is_some, nonempty, Bool, true, false, not, ◌&&◌, ◌||◌, Option, none, some, List,
}
use student_success_intellig.Channel.Types.{
  Channel, Scope, preferred, multi_channel_eligible, channel_exhausted, no_scope, Confidence, low,
  replay_only, shadow_only, authorized, replay_execution, shadow_mode_active,
  pre_phase12_certification, Basis, historical_replay, ai_assisted, fallback, rule_based, Code,
  GovernanceCtx, GovernanceConstraints, AiOutputCtx, Draft, ChannelAdvisoryAssessment,
}
use student_success_intellig.Channel.Gate.{required_attribution, any_missing}
use student_success_intellig.Governance.{AiTier, is_live, is_shadow, is_replay_type}

-- `scope in _DELIVERY_SCOPES`
abbrev pub is_delivery : Scope → Bool
is_delivery (preferred _) = true
is_delivery multi_channel_eligible = true
is_delivery _ = false

unfoldable pub live_ok : GovernanceCtx → Scope → Bool → Bool → Bool
live_ok gov scope produced blocked =
    produced
    && (is_delivery scope
        && (is_live gov.execution_mode && (not (is_replay_type gov.execution_type) && not blocked)))

-- what becomes of the constraints
unfoldable pub constrained : GovernanceCtx → Bool → GovernanceConstraints → GovernanceConstraints
constrained gov permitted gc =
    if is_replay_type gov.execution_type
    then record gc {
      live_delivery_permitted = permitted;
      governance_scope = replay_only;
      suppression_reason = some replay_execution;
    }
    else if is_shadow gov.execution_mode
    then record gc {
      live_delivery_permitted = permitted;
      governance_scope = shadow_only;
      suppression_reason = some shadow_mode_active;
    }
    else if permitted
    then record gc { live_delivery_permitted = permitted; governance_scope = authorized }
    else record gc {
      live_delivery_permitted = permitted;
      governance_scope = shadow_only;
      suppression_reason = some pre_phase12_certification;
    }

unfoldable pub basis_of : GovernanceCtx → AiOutputCtx → Basis
basis_of gov ai_out =
    if is_replay_type gov.execution_type
    then historical_replay
    else if ai_out.channel_priority_adjustment_applied
    then ai_assisted
    else if ai_out.fallback_applied
    then fallback
    else rule_based

-- `scope in (SCOPE_NONE, SCOPE_CHANNEL_EXHAUSTED)`
abbrev pub is_void : Scope → Bool
is_void no_scope = true
is_void channel_exhausted = true
is_void _ = false

-- `tier in (AI_STALE, AI_UNAVAILABLE)`
abbrev pub is_unhelpful : AiTier → Bool
is_unhelpful AiTier.stale = true
is_unhelpful AiTier.unavailable = true
is_unhelpful _ = false

abbrev pub is_preferred : Scope → Bool
is_preferred (preferred _) = true
is_preferred _ = false

unfoldable pub confidence_of : GovernanceCtx → Scope → Bool → List Code → AiOutputCtx → Confidence
confidence_of gov scope blocked warnings ai_out =
    if is_replay_type gov.execution_type
    then Confidence.unknown
    else if is_void scope || blocked
    then low
    else if nonempty warnings
    then low
    else if is_unhelpful ai_out.ai_governance_tier
    then Confidence.medium
    else if is_preferred scope && ai_out.ai_input_used
    then Confidence.high
    else Confidence.medium

-- `emit_assessment`
unfoldable pub emit :
    GovernanceCtx → Draft → Scope → Bool → List Channel → Option Code → ChannelAdvisoryAssessment
emit gov d scope produced candidates reason =
    let blocked = is_some reason in
    record {
      channel_advisory_produced = produced;
      advisory_scope = scope;
      recommended_channel_candidates = candidates;
      prohibited_channels = d.prohibited;
      governance_constraints = constrained gov (live_ok gov scope produced blocked) d.gc;
      escalation_constraints = d.esc;
      replay_restrictions = d.rr;
      ai_context = d.ai_out;
      threshold_bindings = d.tb;
      provider_health_metadata = d.ph;
      advisory_confidence = confidence_of gov scope blocked d.threshold_warnings d.ai_out;
      execution_mode = gov.execution_mode;
      execution_type = gov.execution_type;
      config_version_id = gov.config_version_id;
      historical_config_version_id = d.rr.historical_config_version_id;
      correlation_id = gov.correlation_id;
      causation_id = gov.causation_id;
      attribution_metadata = gov.attribution_context;
      is_attribution_complete = not (any_missing gov.attribution_context required_attribution);
      degraded_evaluation = nonempty d.threshold_warnings;
      rule_path_taken = d.path;
      assessment_basis = basis_of gov d.ai_out;
      reason_codes = d.codes;
      advisory_blocked = blocked;
      blocking_reason = reason;
      config_threshold_warnings = d.threshold_warnings;
      student_id_opaque = none;
    }
