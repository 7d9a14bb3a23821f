-- ===== src/Eligibility/Gate.antt =====
-- RULE 0 of app/services/eligibility.py, and the entry point `assess_orchestration_eligibility`.
use student_success_intellig.Prelude.{
  if◌then◌else◌, truthy, is_some, ℤ, nonempty, when, String, Bool, true, false, not, ◌&&◌, ◌||◌,
  Option, none, some, List, [], ◌∷◌, ◌++◌,
}
use student_success_intellig.Prelude.Dict.{present, get_text}
use student_success_intellig.Eligibility.Types.{
  no_scope, unknown, rule_based, governance_precondition_failed, rule_0, rule_0_blocked, Code,
  config_unresolved, execution_mode_invalid, correlation_id_missing, attribution_incomplete,
  execution_type_invalid, replay_context_missing, GovernanceCtx, EligibilityContext,
  OrchestrationEligibilityAssessment, default_constraints, default_replay, default_ai,
  default_bindings,
}
use student_success_intellig.Eligibility.Rules.{rule_3_on}
use student_success_intellig.Governance.{
  ExecutionType, original, regeneration, TextDict, is_valid_mode, is_replay_type,
}

abbrev pub required_attribution : List String
required_attribution =
    "origin_source" ∷ "origin_authority" ∷ "actor_identity" ∷ "attribution_timestamp" ∷ []

unfoldable pub any_missing : TextDict → List String → Bool
any_missing d [] = false
any_missing d (k ∷ ks) = not (is_some (get_text k d)) || any_missing d ks

-- `execution_type in ("original", "replay", "regeneration")`
abbrev pub is_valid_type : ExecutionType → Bool
is_valid_type original = true
is_valid_type ExecutionType.replay = true
is_valid_type regeneration = true
is_valid_type _ = false

-- the list `r0`
unfoldable pub precondition_codes : GovernanceCtx → List Code
precondition_codes gov =
    when (not (truthy gov.config_version_id)) config_unresolved
    ++ (when (not (is_valid_mode gov.execution_mode)) execution_mode_invalid
        ++ (when (not (truthy gov.correlation_id)) correlation_id_missing
            ++ (when (any_missing gov.attribution_context required_attribution)
                  attribution_incomplete
                ++ (when (not (is_valid_type gov.execution_type)) execution_type_invalid
                    ++ when (is_replay_type gov.execution_type && not (present gov.replay_context))
                        replay_context_missing))))

-- the assessment of `_blocked`
unfoldable pub blocked_assessment :
    EligibilityContext → Option String → List Code → OrchestrationEligibilityAssessment
blocked_assessment ctx sid codes =
    let gov = ctx.governance in
    record {
      orchestration_eligible = false;
      eligibility_scope = no_scope;
      orchestration_priority = unknown;
      orchestration_constraints = default_constraints;
      governance_requirements = record {
        config_version_id = gov.config_version_id;
        config_version_status = "UNKNOWN";
        execution_mode = gov.execution_mode;
        idempotency_key = gov.idempotency_key;
        governance_preconditions_met = false;
        blocking_governance_flags = [];
      };
      replay_restrictions = default_replay;
      ai_context = default_ai;
      threshold_bindings = default_bindings;
      attribution_metadata = gov.attribution_context;
      correlation_id = gov.correlation_id;
      causation_id = gov.causation_id;
      config_version_id = gov.config_version_id;
      historical_config_version_id = none;
      execution_mode = gov.execution_mode;
      execution_type = gov.execution_type;
      attribution_status = "COMPLETE";
      degraded_evaluation = false;
      threshold_resolution_status = "COMPLETE";
      live_outreach_permitted = false;
      replay_safe = true;
      rule_path_taken = rule_0 ∷ rule_0_blocked ∷ [];
      assessment_basis = rule_based;
      reason_codes = codes;
      eligibility_blocked = true;
      blocking_reason = some governance_precondition_failed;
      config_threshold_warnings = [];
      student_id_opaque = sid;
    }

-- `_opaque_id`
unfoldable pub opaque_id : (ℤ → String) → Option ℤ → Option String
opaque_id digest none = none
opaque_id digest (some user_id) = some (digest user_id)

module _ (digest : ℤ → String) (elapsed : String → Option ℤ) where
  unfoldable pub assess_orchestration_eligibility :
      EligibilityContext → OrchestrationEligibilityAssessment
  assess_orchestration_eligibility ctx =
      let sid : Option String = opaque_id digest ctx.academic.user_id in
      if nonempty (precondition_codes ctx.governance)
      then blocked_assessment ctx sid (precondition_codes ctx.governance)
      else rule_3_on elapsed ctx sid
