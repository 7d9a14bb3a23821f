-- ===== src/Provider/Records.antt =====
-- The makers of assessments of app/services/_ghl_helpers.py.
use student_success_intellig.Prelude.{String, Bool, true, false, Option, none, some, List}
use student_success_intellig.Prelude.Dict.{Dict}
use student_success_intellig.Provider.Types.{
  shadow_simulation, replay_simulation, deduplication_suppress, Cause, governance_block,
  replay_containment, shadow_containment, idempotency_dedup, Outcome, suppressed_replay,
  suppressed_shadow, Rule, Code, ProviderOrchestrationContext, ProviderOrchestrationAssessment,
}
use student_success_intellig.Provider.Gate.{threshold_keys}
use student_success_intellig.Outreach.Types.{Scope}
use student_success_intellig.Config.{Setting, unknown_for}
use student_success_intellig.Governance.{is_replay_type}

abbrev pub is_cause : Option Cause → Bool
is_cause none = false
is_cause (some _) = true

-- `_make_blocked_assessment`
unfoldable pub blocked_assessment :
    ProviderOrchestrationContext
    → String
    → List Code
    → List Rule
    → Dict Setting
    → Option Cause
    → Option Code
    → ProviderOrchestrationAssessment
blocked_assessment ctx event_id codes path bindings cause reason = record {
  provider_event_type = none;
  governance_scope = Scope.blocked;
  is_replay = is_replay_type ctx.execution_type;
  outbound_suppressed = true;
  historical_provider_context_only = false;
  historical_config_version_id = ctx.historical_config_version_id;
  replay_provider_source = none;
  origin_source = ctx.origin_source;
  origin_authority = ctx.origin_authority;
  correlation_id = ctx.correlation_id;
  causation_id = ctx.causation_id;
  upstream_intent_id = ctx.upstream_intent_id;
  config_version_id = ctx.config_version_id;
  threshold_bindings = bindings;
  provider = "ghl";
  ghl_message_id = ctx.ghl_message_id;
  provider_error_class = none;
  degraded = is_cause cause;
  degradation_cause = cause;
  outbound_blocked = true;
  orchestration_continues = false;
  event_id = event_id;
  rule_path_taken = path;
  assessment_basis = governance_block;
  execution_type = ctx.execution_type;
  execution_mode = ctx.execution_mode;
  outcome = Outcome.blocked;
  reason_codes = codes;
  provider_blocked = true;
  blocking_reason = reason;
}

-- `_make_replay_assessment`
unfoldable pub replay_assessment :
    ProviderOrchestrationContext → String → List Code → List Rule → ProviderOrchestrationAssessment
replay_assessment ctx event_id codes path = record {
  provider_event_type = some replay_simulation;
  governance_scope = Scope.replay_only;
  is_replay = true;
  outbound_suppressed = true;
  historical_provider_context_only = true;
  historical_config_version_id = ctx.historical_config_version_id;
  replay_provider_source = ctx.source_artifact_id;
  origin_source = ctx.origin_source;
  origin_authority = ctx.origin_authority;
  correlation_id = ctx.correlation_id;
  causation_id = ctx.causation_id;
  upstream_intent_id = ctx.upstream_intent_id;
  config_version_id = ctx.config_version_id;
  threshold_bindings = unknown_for threshold_keys;
  provider = "ghl";
  ghl_message_id = none;
  provider_error_class = none;
  degraded = false;
  degradation_cause = none;
  outbound_blocked = true;
  orchestration_continues = true;
  event_id = event_id;
  rule_path_taken = path;
  assessment_basis = replay_containment;
  execution_type = ctx.execution_type;
  execution_mode = ctx.execution_mode;
  outcome = suppressed_replay;
  reason_codes = codes;
  provider_blocked = false;
  blocking_reason = none;
}

-- `_make_shadow_assessment`
unfoldable pub shadow_assessment :
    ProviderOrchestrationContext
    → String
    → List Code
    → List Rule
    → Dict Setting
    → Bool
    → Option Cause
    → ProviderOrchestrationAssessment
shadow_assessment ctx event_id codes path bindings is_degraded cause = record {
  provider_event_type = some shadow_simulation;
  governance_scope = Scope.shadow_only;
  is_replay = false;
  outbound_suppressed = true;
  historical_provider_context_only = false;
  historical_config_version_id = none;
  replay_provider_source = none;
  origin_source = ctx.origin_source;
  origin_authority = ctx.origin_authority;
  correlation_id = ctx.correlation_id;
  causation_id = ctx.causation_id;
  upstream_intent_id = ctx.upstream_intent_id;
  config_version_id = ctx.config_version_id;
  threshold_bindings = bindings;
  provider = "ghl";
  ghl_message_id = none;
  provider_error_class = none;
  degraded = is_degraded;
  degradation_cause = cause;
  outbound_blocked = true;
  orchestration_continues = true;
  event_id = event_id;
  rule_path_taken = path;
  assessment_basis = shadow_containment;
  execution_type = ctx.execution_type;
  execution_mode = ctx.execution_mode;
  outcome = suppressed_shadow;
  reason_codes = codes;
  provider_blocked = false;
  blocking_reason = none;
}

-- `_make_duplicate_assessment`
unfoldable pub duplicate_assessment :
    ProviderOrchestrationContext
    → String
    → List Code
    → List Rule
    → Dict Setting
    → ProviderOrchestrationAssessment
duplicate_assessment ctx event_id codes path bindings = record {
  provider_event_type = some deduplication_suppress;
  governance_scope = Scope.duplicate_suppressed;
  is_replay = false;
  outbound_suppressed = true;
  historical_provider_context_only = false;
  historical_config_version_id = none;
  replay_provider_source = none;
  origin_source = ctx.origin_source;
  origin_authority = ctx.origin_authority;
  correlation_id = ctx.correlation_id;
  causation_id = ctx.causation_id;
  upstream_intent_id = ctx.upstream_intent_id;
  config_version_id = ctx.config_version_id;
  threshold_bindings = bindings;
  provider = "ghl";
  ghl_message_id = none;
  provider_error_class = none;
  degraded = false;
  degradation_cause = none;
  outbound_blocked = true;
  orchestration_continues = false;
  event_id = event_id;
  rule_path_taken = path;
  assessment_basis = idempotency_dedup;
  execution_type = ctx.execution_type;
  execution_mode = ctx.execution_mode;
  outcome = Outcome.duplicate_suppressed;
  reason_codes = codes;
  provider_blocked = false;
  blocking_reason = none;
}
