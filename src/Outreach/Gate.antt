-- ===== src/Outreach/Gate.antt =====
-- RULE 0 and RULE 3 of app/services/outreach.py.
use student_success_intellig.Prelude.{
  truthy, when, String, Bool, true, false, not, ◌&&◌, List, [], ◌∷◌, ◌++◌, map,
}
use student_success_intellig.Prelude.Dict.{Dict}
use student_success_intellig.Outreach.Types.{
  Code, invalid_execution_mode, invalid_execution_type, config_version_id_missing,
  correlation_id_missing, origin_source_missing, origin_authority_missing, actor_identity_missing,
  idempotency_duplicate_detected, config_threshold_missing, OutreachOrchestrationContext,
}
use student_success_intellig.Config.{Setting, resolve_keys}
use student_success_intellig.Idempotency.{Keys, is_duplicate}
use student_success_intellig.Governance.{ExecutionType, is_valid_mode}

-- `_VALID_EXECUTION_TYPES`
abbrev pub is_valid_type : ExecutionType → Bool
is_valid_type (ExecutionType.other _) = false
is_valid_type _ = true

-- `_attribution_complete`
unfoldable pub attribution_complete : OutreachOrchestrationContext → Bool
attribution_complete ctx =
    truthy ctx.origin_source && truthy ctx.origin_authority && truthy ctx.actor_identity

-- `_governance_precondition_gate`: the codes that it appends; it returns True if there is none
unfoldable pub gate_codes : Keys → OutreachOrchestrationContext → List Code
gate_codes keys ctx =
    when (not (is_valid_mode ctx.execution_mode)) invalid_execution_mode
    ++ when (not (is_valid_type ctx.execution_type)) invalid_execution_type
    ++ when (not (truthy ctx.config_version_id)) config_version_id_missing
    ++ when (not (truthy ctx.correlation_id)) correlation_id_missing
    ++ when (not (truthy ctx.origin_source)) origin_source_missing
    ++ when (not (truthy ctx.origin_authority)) origin_authority_missing
    ++ when (not (truthy ctx.actor_identity)) actor_identity_missing
    ++ when (is_duplicate keys ctx.idempotency_key) idempotency_duplicate_detected

-- `_ORCHESTRATION_THRESHOLD_KEYS`
abbrev pub threshold_keys : List String
threshold_keys =
    "outreach_max_retry_attempts" ∷ "outreach_retry_window_days" ∷ "ai_insight_ttl_hours"
    ∷ "sql_server_max_sync_age_hours" ∷ "orchestration_concurrency_limit" ∷ []

unfoldable pub resolve_orchestration_thresholds : Dict Setting → Dict Setting × List String
resolve_orchestration_thresholds rule_set = resolve_keys rule_set threshold_keys

-- the flags of RULE 3
abbrev pub missing_flags : List String → List Code
missing_flags missing = map config_threshold_missing missing
