-- ===== src/Channel/Gate.antt =====
-- RULE 0 of app/services/channel_selector.py, and what the rules start from.
use student_success_intellig.Prelude.{
  truthy, when, String, Bool, true, false, not, ◌&&◌, ◌||◌, none, some, List, [], ◌∷◌, ◌++◌, str_eq,
}
use student_success_intellig.Prelude.Dict.{present, get_text}
use student_success_intellig.Channel.Types.{
  no_scope, Confidence, ProviderState, shadow_only, no_urgency, rule_based, rule_0, Code,
  config_unresolved, config_version_not_active, execution_mode_invalid, correlation_id_missing,
  attribution_incomplete, execution_type_invalid, replay_context_missing,
  governance_precondition_failed, GovernanceCtx, GovernanceConstraints, EscalationConstraints,
  ReplayRestrictions, ProviderHealthMetadata, Draft, ChannelAdvisoryAssessment,
}
use student_success_intellig.Channel.Thresholds.{no_bindings}
use student_success_intellig.Channel.Tier.{no_ai}
use student_success_intellig.Governance.{
  ExecutionType, original, replay, regeneration, TextDict, is_valid_mode, is_replay_type,
  is_original,
}

-- `REQUIRED_ATTRIBUTION`
abbrev pub required_attribution : List String
required_attribution =
    "origin_source" ∷ "origin_authority" ∷ "actor_identity" ∷ "attribution_timestamp" ∷ []

-- `any(k not in a or not a[k] for k in keys)`
unfoldable pub any_missing : TextDict → List String → Bool
any_missing attribution [] = false
any_missing attribution (k ∷ keys) =
    not (truthy (get_text k attribution)) || any_missing attribution keys

abbrev pub is_valid_type : ExecutionType → Bool
is_valid_type original = true
is_valid_type replay = true
is_valid_type regeneration = true
is_valid_type _ = false

-- the list `r0`
unfoldable pub precondition_codes : GovernanceCtx → List Code
precondition_codes gov =
    when (not (truthy gov.config_version_id)) config_unresolved
    ++ when (not (str_eq gov.config_version_status "ACTIVE") && is_original gov.execution_type)
        config_version_not_active
    ++ when (not (is_valid_mode gov.execution_mode)) execution_mode_invalid
    ++ when (not (truthy gov.correlation_id)) correlation_id_missing
    ++ when (any_missing gov.attribution_context required_attribution) attribution_incomplete
    ++ when (not (is_valid_type gov.execution_type)) execution_type_invalid
    ++ when (is_replay_type gov.execution_type && not (present gov.replay_context))
        replay_context_missing

abbrev pub no_escalation : EscalationConstraints
no_escalation = record {
  escalation_recommended = false;
  escalation_urgency = no_urgency;
  escalation_reason_codes = [];
}

abbrev pub no_restrictions : ReplayRestrictions
no_restrictions = record {
  is_replay = false;
  replay_eligible = false;
  live_eligible = false;
  source_artifact_id = none;
  historical_config_version_id = none;
  is_fingerprint_unknown = false;
  replay_safe = true;
}

abbrev pub no_health : ProviderHealthMetadata
no_health = record {
  call_provider_state = ProviderState.unknown;
  sms_provider_state = ProviderState.unknown;
  email_provider_state = ProviderState.unknown;
  channel_suspension_applied = false;
  suspended_channels = [];
}

abbrev pub constraints_of : GovernanceCtx → Bool → List Code → GovernanceConstraints
constraints_of gov met flags = record {
  execution_mode_constraint = gov.execution_mode;
  live_delivery_permitted = false;
  governance_scope = shadow_only;
  suppression_reason = none;
  compliance_channel_restrictions = [];
  opt_out_channel_exclusions = [];
  suspended_channel_exclusions = [];
  config_version_id = gov.config_version_id;
  idempotency_key = gov.idempotency_key;
  governance_preconditions_met = met;
  blocking_governance_flags = flags;
}

-- the variables after RULE 0
unfoldable pub first_draft : GovernanceCtx → Draft
first_draft gov = record {
  path = rule_0 ∷ [];
  codes = [];
  eligible = [];
  prohibited = [];
  gc = constraints_of gov true [];
  esc = no_escalation;
  rr = no_restrictions;
  ai_out = no_ai;
  tb = no_bindings;
  ph = no_health;
  threshold_warnings = [];
}

-- the assessment of a context that RULE 0 blocks; the status of the attribution keeps its default
unfoldable pub blocked_assessment : GovernanceCtx → List Code → ChannelAdvisoryAssessment
blocked_assessment gov codes = record {
  channel_advisory_produced = false;
  advisory_scope = no_scope;
  recommended_channel_candidates = [];
  prohibited_channels = [];
  governance_constraints = constraints_of gov false codes;
  escalation_constraints = no_escalation;
  replay_restrictions = no_restrictions;
  ai_context = no_ai;
  threshold_bindings = no_bindings;
  provider_health_metadata = no_health;
  advisory_confidence = Confidence.unknown;
  execution_mode = gov.execution_mode;
  execution_type = gov.execution_type;
  config_version_id = gov.config_version_id;
  historical_config_version_id = none;
  correlation_id = gov.correlation_id;
  causation_id = gov.causation_id;
  attribution_metadata = gov.attribution_context;
  is_attribution_complete = true;
  degraded_evaluation = false;
  rule_path_taken = rule_0 ∷ [];
  assessment_basis = rule_based;
  reason_codes = codes;
  advisory_blocked = true;
  blocking_reason = some governance_precondition_failed;
  config_threshold_warnings = [];
  student_id_opaque = none;
}
