-- ===== src/Worker/Gate.antt =====
-- RULE 0 of app/services/_worker_helpers.py.
use student_success_intellig.Prelude.{
  truthy, when, String, Bool, true, false, not, ◌||◌, Option, none, some, List, ◌++◌, str_eq,
}
use student_success_intellig.Worker.Types.{
  Code, config_version_unresolved, execution_mode_invalid, execution_type_invalid,
  correlation_id_missing, attribution_missing_origin_source, attribution_missing_origin_authority,
  attribution_missing_actor_identity, WorkerJobContext,
}
use student_success_intellig.Governance.{ExecutionType, is_valid_mode}

-- `_VALID_EXECUTION_TYPES`
abbrev pub is_valid_type : ExecutionType → Bool
is_valid_type (ExecutionType.other _) = false
is_valid_type _ = true

-- the version is null, empty or the sentinel
abbrev pub is_unresolved : Option String → Bool
is_unresolved none = true
is_unresolved (some v) = not (truthy (some v)) || str_eq v "UNKNOWN_V0"

-- `_attribution_complete`: the codes that it appends, but the one of the correlation id
unfoldable pub attribution_codes : WorkerJobContext → List Code
attribution_codes ctx =
    when (not (truthy ctx.origin_source)) attribution_missing_origin_source
    ++ when (not (truthy ctx.origin_authority)) attribution_missing_origin_authority
    ++ when (not (truthy ctx.actor_identity)) attribution_missing_actor_identity

-- `_governance_precondition_gate`: the codes that it appends; it returns True if there is none
unfoldable pub gate_codes : WorkerJobContext → List Code
gate_codes ctx =
    when (is_unresolved ctx.config_version_id) config_version_unresolved
    ++ when (not (is_valid_mode ctx.execution_mode)) execution_mode_invalid
    ++ when (not (is_valid_type ctx.execution_type)) execution_type_invalid
    ++ when (not (truthy ctx.correlation_id)) correlation_id_missing
    ++ attribution_codes ctx
