-- ===== src/Provider/Gate.antt =====
-- RULE 0 of app/services/ghl.py, its thresholds and its scope.
use student_success_intellig.Prelude.{
  if◌then◌else◌, truthy, when, String, Bool, true, false, not, ◌&&◌, List, [], ◌∷◌, ◌++◌,
}
use student_success_intellig.Prelude.Dict.{Dict}
use student_success_intellig.Provider.Types.{
  Code, invalid_execution_mode, invalid_execution_type, config_version_id_missing,
  correlation_id_missing, origin_source_missing, origin_authority_missing,
  ProviderOrchestrationContext,
}
use student_success_intellig.Outreach.Types.{Scope}
use student_success_intellig.Config.{Setting, resolve_keys}
use student_success_intellig.Governance.{
  ExecutionMode, ExecutionType, original, replay, regeneration, is_valid_mode, is_shadow,
}

-- `_VALID_TYPES`, which `recovery` is not one of
abbrev pub is_valid_type : ExecutionType → Bool
is_valid_type original = true
is_valid_type replay = true
is_valid_type regeneration = true
is_valid_type _ = false

-- `_attribution_complete`
unfoldable pub attribution_complete : ProviderOrchestrationContext → Bool
attribution_complete ctx =
    truthy ctx.origin_source
    && (truthy ctx.origin_authority && (truthy ctx.correlation_id && truthy ctx.actor_identity))

-- `_governance_scope_for_mode`
unfoldable pub governance_scope_for_mode : ExecutionMode → Scope
governance_scope_for_mode mode = if is_shadow mode then Scope.shadow_only else Scope.shadow_only

-- `_governance_precondition_gate`: the codes that it appends; it returns True if there is none
unfoldable pub gate_codes : ProviderOrchestrationContext → List Code
gate_codes ctx =
    when (not (is_valid_mode ctx.execution_mode)) invalid_execution_mode
    ++ when (not (is_valid_type ctx.execution_type)) invalid_execution_type
    ++ when (not (truthy ctx.config_version_id)) config_version_id_missing
    ++ when (not (truthy ctx.correlation_id)) correlation_id_missing
    ++ when (not (truthy ctx.origin_source)) origin_source_missing
    ++ when (not (truthy ctx.origin_authority)) origin_authority_missing

-- `_PROVIDER_THRESHOLD_KEYS`
abbrev pub threshold_keys : List String
threshold_keys =
    "provider_failure_max_retry_attempts" ∷ "provider_failure_circuit_breaker_threshold"
    ∷ "provider_failure_circuit_breaker_reset_hours" ∷ "provider_failure_retry_backoff_base_seconds"
    ∷ "provider_delivery_sla_hours" ∷ "sql_server_max_sync_age_hours" ∷ []

unfoldable pub resolve_provider_thresholds : Dict Setting → Dict Setting × List String
resolve_provider_thresholds rule_set = resolve_keys rule_set threshold_keys
