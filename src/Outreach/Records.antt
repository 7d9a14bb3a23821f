-- ===== src/Outreach/Records.antt =====
-- The record makers of app/services/_outreach_helpers.py for the branches that end before RULE 3.
use student_success_intellig.Prelude.{
  if◌then◌else◌, truthy, when, String, true, false, not, Option, none, some, List, [],
}
use student_success_intellig.Prelude.Dict.{Dict}
use student_success_intellig.Outreach.Types.{
  Scope, Outcome, success, failure, Rule, Code, maintenance_mode_suspended,
  replay_source_artifact_missing, replay_live_dispatch_prohibited, OutreachOrchestrationContext,
  OutreachCoordinationRecord,
}
use student_success_intellig.Outreach.Gate.{threshold_keys}
use student_success_intellig.Config.{Setting, unknown_for}
use student_success_intellig.Governance.{is_replay_type}

-- `_make_blocked_record`
unfoldable pub blocked_record :
    OutreachOrchestrationContext
    → String
    → List Code
    → List Rule
    → Dict Setting
    → Option Code
    → OutreachCoordinationRecord
blocked_record ctx event_id codes path bindings reason = record {
  governance_scope = Scope.unavailable;
  intent_type = none;
  is_replay = is_replay_type ctx.execution_type;
  live_effects_suppressed = true;
  origin_source = ctx.origin_source;
  origin_authority = ctx.origin_authority;
  actor_identity = ctx.actor_identity;
  attribution_timestamp = ctx.attribution_timestamp;
  upstream_correlation_id = ctx.upstream_correlation_id;
  config_version_id = ctx.config_version_id;
  historical_config_version_id = ctx.historical_config_version_id;
  threshold_bindings = bindings;
  event_id = event_id;
  correlation_id = ctx.correlation_id;
  causation_id = ctx.causation_id;
  orchestration_cycle_id = ctx.orchestration_cycle_id;
  execution_type = ctx.execution_type;
  execution_mode = ctx.execution_mode;
  rule_path_taken = path;
  outcome = failure;
  error_class = some "GovernancePreconditionError";
  student_id_opaque = ctx.student_id_opaque;
  checkpoint_type = ctx.checkpoint_type;
  contact_attempt_count = ctx.contact_attempt_count;
  dispatch_authorized = false;
  dispatch_blocked_reason = reason;
  degraded = false;
  degradation_flags = [];
  degradation_cause = none;
  escalation_candidate = false;
  escalation_candidacy_reason = none;
  compliance_hold_active = false;
  ai_governance_tier = ctx.ai_governance_tier;
  ai_escalation_authority = false;
  stale_sql_server_data = false;
  reason_codes = codes;
  orchestration_blocked = true;
  blocking_reason = reason;
  orchestration_continues = false;
}

-- `_make_maintenance_record`
unfoldable pub maintenance_record :
    OutreachOrchestrationContext → String → List Code → List Rule → OutreachCoordinationRecord
maintenance_record ctx event_id codes path = record {
  governance_scope = Scope.maintenance;
  intent_type = none;
  is_replay = false;
  live_effects_suppressed = true;
  origin_source = ctx.origin_source;
  origin_authority = ctx.origin_authority;
  actor_identity = ctx.actor_identity;
  attribution_timestamp = ctx.attribution_timestamp;
  upstream_correlation_id = ctx.upstream_correlation_id;
  config_version_id = ctx.config_version_id;
  historical_config_version_id = none;
  threshold_bindings = unknown_for threshold_keys;
  event_id = event_id;
  correlation_id = ctx.correlation_id;
  causation_id = ctx.causation_id;
  orchestration_cycle_id = ctx.orchestration_cycle_id;
  execution_type = ctx.execution_type;
  execution_mode = ctx.execution_mode;
  rule_path_taken = path;
  outcome = success;
  error_class = none;
  student_id_opaque = ctx.student_id_opaque;
  checkpoint_type = ctx.checkpoint_type;
  contact_attempt_count = ctx.contact_attempt_count;
  dispatch_authorized = false;
  dispatch_blocked_reason = some maintenance_mode_suspended;
  degraded = false;
  degradation_flags = [];
  degradation_cause = none;
  escalation_candidate = false;
  escalation_candidacy_reason = none;
  compliance_hold_active = false;
  ai_governance_tier = none;
  ai_escalation_authority = false;
  stale_sql_server_data = false;
  reason_codes = codes;
  orchestration_blocked = false;
  blocking_reason = none;
  orchestration_continues = false;
}

-- `_make_replay_record`
unfoldable pub replay_record :
    OutreachOrchestrationContext
    → String
    → List Code
    → List Rule
    → Dict Setting
    → OutreachCoordinationRecord
replay_record ctx event_id codes path bindings =
    let source_missing = not (truthy ctx.source_artifact_id) in
    record {
      governance_scope = Scope.replay_only;
      intent_type = none;
      is_replay = true;
      live_effects_suppressed = true;
      origin_source = ctx.origin_source;
      origin_authority = ctx.origin_authority;
      actor_identity = ctx.actor_identity;
      attribution_timestamp = ctx.attribution_timestamp;
      upstream_correlation_id = ctx.upstream_correlation_id;
      config_version_id = ctx.config_version_id;
      historical_config_version_id = ctx.historical_config_version_id;
      threshold_bindings = bindings;
      event_id = event_id;
      correlation_id = ctx.correlation_id;
      causation_id = ctx.causation_id;
      orchestration_cycle_id = ctx.orchestration_cycle_id;
      execution_type = ctx.execution_type;
      execution_mode = ctx.execution_mode;
      rule_path_taken = path;
      outcome = if source_missing then Outcome.degraded else success;
      error_class = none;
      student_id_opaque = ctx.student_id_opaque;
      checkpoint_type = ctx.checkpoint_type;
      contact_attempt_count = ctx.contact_attempt_count;
      dispatch_authorized = false;
      dispatch_blocked_reason = some replay_live_dispatch_prohibited;
      degraded = source_missing;
      degradation_flags = when source_missing replay_source_artifact_missing;
      degradation_cause = if source_missing then some replay_source_artifact_missing else none;
      escalation_candidate = false;
      escalation_candidacy_reason = none;
      compliance_hold_active = ctx.compliance_hold_flag;
      ai_governance_tier = ctx.ai_governance_tier;
      ai_escalation_authority = false;
      stale_sql_server_data = false;
      reason_codes = codes;
      orchestration_blocked = false;
      blocking_reason = none;
      orchestration_continues = true;
    }
