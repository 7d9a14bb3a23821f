-- ===== src/Priority/Records.antt =====
-- The record makers of app/services/_priority_helpers.py for the branches that end before the scoring.
use student_success_intellig.Prelude.{
  if◌then◌else◌, truthy, when, String, true, false, not, Option, none, some, List, [], ◌∷◌,
}
use student_success_intellig.Prelude.Dict.{Dict}
use student_success_intellig.Priority.Types.{
  Scope, replay_only, maintenance, Priority, Basis, historical_replay, success, failure, degraded,
  Rule, Code, replay_source_artifact_missing, PrioritizationContext, PrioritizationRecord,
}
use student_success_intellig.Priority.Tier.{threshold_keys}
use student_success_intellig.Config.{Setting, unknown_for}
use student_success_intellig.Governance.{AiTier, is_replay_type}

-- `{k: UNKNOWN_V0 for k in _PRIORITY_THRESHOLD_KEYS}`
abbrev pub unknown_bindings : Dict Setting
unknown_bindings = unknown_for threshold_keys

-- the blocking reason: the first gate code
abbrev pub first_code : List Code → Option Code
first_code [] = none
first_code (c ∷ _) = some c

-- `_make_blocked_priority_record`
unfoldable pub blocked_record :
    PrioritizationContext → String → List Code → List Rule → Option Code → PrioritizationRecord
blocked_record ctx event_id codes path reason = record {
  advisory_priority = Priority.unknown;
  governance_scope = Scope.unavailable;
  assessment_basis = Basis.rule_based;
  is_replay = is_replay_type ctx.execution_type;
  live_effects_suppressed = true;
  origin_source = ctx.origin_source;
  origin_authority = ctx.origin_authority;
  actor_identity = ctx.actor_identity;
  attribution_timestamp = ctx.attribution_timestamp;
  upstream_correlation_id = ctx.upstream_correlation_id;
  config_version_id = ctx.config_version_id;
  historical_config_version_id = ctx.historical_config_version_id;
  threshold_bindings = unknown_bindings;
  event_id = event_id;
  correlation_id = ctx.correlation_id;
  causation_id = ctx.causation_id;
  orchestration_cycle_id = ctx.orchestration_cycle_id;
  execution_type = ctx.execution_type;
  execution_mode = ctx.execution_mode;
  rule_path_taken = path;
  outcome = failure;
  error_class = some "GovernancePreconditionError";
  scoring_factors = [];
  risk_contributions = [];
  ai_governance_tier = AiTier.unavailable;
  ai_confidence_score = ctx.ai_confidence_score;
  ai_priority_adjustment_applied = false;
  ai_fallback_applied = false;
  execution_state_before = ctx.execution_state_before;
  execution_state_after = ctx.execution_state_after;
  causation_chain_preserved = truthy ctx.causation_id;
  append_only_enforced = true;
  replay_lineage_preserved = true;
  scoring_lineage_immutable = true;
  scoring_emit_authorized = false;
  degraded = false;
  degradation_flags = [];
  degradation_cause = none;
  reason_codes = codes;
  orchestration_blocked = true;
  blocking_reason = reason;
  orchestration_continues = false;
}

-- `_make_maintenance_priority_record`
unfoldable pub maintenance_record :
    PrioritizationContext → String → List Code → List Rule → PrioritizationRecord
maintenance_record ctx event_id codes path = record {
  advisory_priority = Priority.unknown;
  governance_scope = maintenance;
  assessment_basis = Basis.rule_based;
  is_replay = false;
  live_effects_suppressed = true;
  origin_source = ctx.origin_source;
  origin_authority = ctx.origin_authority;
  actor_identity = ctx.actor_identity;
  attribution_timestamp = ctx.attribution_timestamp;
  upstream_correlation_id = ctx.upstream_correlation_id;
  config_version_id = ctx.config_version_id;
  historical_config_version_id = none;
  threshold_bindings = unknown_bindings;
  event_id = event_id;
  correlation_id = ctx.correlation_id;
  causation_id = ctx.causation_id;
  orchestration_cycle_id = ctx.orchestration_cycle_id;
  execution_type = ctx.execution_type;
  execution_mode = ctx.execution_mode;
  rule_path_taken = path;
  outcome = success;
  error_class = none;
  scoring_factors = [];
  risk_contributions = [];
  ai_governance_tier = AiTier.unavailable;
  ai_confidence_score = ctx.ai_confidence_score;
  ai_priority_adjustment_applied = false;
  ai_fallback_applied = false;
  execution_state_before = ctx.execution_state_before;
  execution_state_after = ctx.execution_state_after;
  causation_chain_preserved = truthy ctx.causation_id;
  append_only_enforced = true;
  replay_lineage_preserved = true;
  scoring_lineage_immutable = true;
  scoring_emit_authorized = false;
  degraded = false;
  degradation_flags = [];
  degradation_cause = none;
  reason_codes = codes;
  orchestration_blocked = false;
  blocking_reason = none;
  orchestration_continues = false;
}

-- `_make_replay_priority_record`
unfoldable pub replay_record :
    PrioritizationContext → String → List Code → List Rule → Dict Setting → PrioritizationRecord
replay_record ctx event_id codes path bindings =
    let source_missing = not (truthy ctx.source_artifact_id) in
    record {
      advisory_priority = Priority.unknown;
      governance_scope = replay_only;
      assessment_basis = historical_replay;
      is_replay = true;
      live_effects_suppressed = true;
      origin_source = ctx.origin_source;
      origin_authority = ctx.origin_authority;
      actor_identity = ctx.actor_identity;
      attribution_timestamp = ctx.attribution_timestamp;
      upstream_correlation_id = ctx.upstream_correlation_id;
      config_version_id = ctx.config_version_id;
      historical_config_version_id = ctx.historical_config_version_id;
      threshold_bindings = bindings;
      event_id = event_id;
      correlation_id = ctx.correlation_id;
      causation_id = ctx.causation_id;
      orchestration_cycle_id = ctx.orchestration_cycle_id;
      execution_type = ctx.execution_type;
      execution_mode = ctx.execution_mode;
      rule_path_taken = path;
      outcome = if source_missing then degraded else success;
      error_class = none;
      scoring_factors = [];
      risk_contributions = [];
      ai_governance_tier = AiTier.unavailable;
      ai_confidence_score = ctx.ai_confidence_score;
      ai_priority_adjustment_applied = false;
      ai_fallback_applied = false;
      execution_state_before = ctx.execution_state_before;
      execution_state_after = ctx.execution_state_after;
      causation_chain_preserved = truthy ctx.causation_id;
      append_only_enforced = true;
      replay_lineage_preserved = true;
      scoring_lineage_immutable = true;
      scoring_emit_authorized = false;
      degraded = source_missing;
      degradation_flags = when source_missing replay_source_artifact_missing;
      degradation_cause = if source_missing then some replay_source_artifact_missing else none;
      reason_codes = codes;
      orchestration_blocked = false;
      blocking_reason = none;
      orchestration_continues = true;
    }
