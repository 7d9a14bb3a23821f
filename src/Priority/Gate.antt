-- ===== src/Priority/Gate.antt =====
-- RULE 0 of app/services/priority.py.
use student_success_intellig.Prelude.{truthy, when, Bool, true, false, not, ◌&&◌, List, ◌++◌}
use student_success_intellig.Priority.Types.{
  Code, invalid_execution_mode, invalid_execution_type, config_version_id_missing,
  correlation_id_missing, origin_source_missing, origin_authority_missing, actor_identity_missing,
  idempotency_duplicate_detected, PrioritizationContext,
}
use student_success_intellig.Idempotency.{Keys, is_duplicate}
use student_success_intellig.Governance.{ExecutionType, is_valid_mode}

-- `_VALID_EXECUTION_TYPES`
abbrev pub is_valid_type : ExecutionType → Bool
is_valid_type (ExecutionType.other _) = false
is_valid_type _ = true

-- `_attribution_complete`
unfoldable pub attribution_complete : PrioritizationContext → Bool
attribution_complete ctx =
    truthy ctx.origin_source && truthy ctx.origin_authority && truthy ctx.actor_identity

-- `_governance_precondition_gate`: the codes that it appends; it returns True if there is none
unfoldable pub gate_codes : Keys → PrioritizationContext → List Code
gate_codes keys ctx =
    when (not (is_valid_mode ctx.execution_mode)) invalid_execution_mode
    ++ when (not (is_valid_type ctx.execution_type)) invalid_execution_type
    ++ when (not (truthy ctx.config_version_id)) config_version_id_missing
    ++ when (not (truthy ctx.correlation_id)) correlation_id_missing
    ++ when (not (truthy ctx.origin_source)) origin_source_missing
    ++ when (not (truthy ctx.origin_authority)) origin_authority_missing
    ++ when (not (truthy ctx.actor_identity)) actor_identity_missing
    ++ when (is_duplicate keys ctx.idempotency_key) idempotency_duplicate_detected
