-- ===== src/Eligibility/Emit.antt =====
-- `_emit` of app/services/eligibility.py: the factory of the assessment for RULE 1 to RULE 12, and
-- the state that the rules pass on to it.
use student_success_intellig.Prelude.{
  if◌then◌else◌, is_some, nonempty, String, Bool, true, false, not, ◌&&◌, Option, none, List, [],
  ◌∷◌, ◌++◌,
}
use student_success_intellig.Prelude.Dict.{Dict, or_empty, get_text}
use student_success_intellig.Eligibility.Types.{
  Scope, no_scope, Priority, Basis, ai_assisted, fallback, historical_replay, rule_based, Blocking,
  Rule, Code, GovernanceCtx, EligibilityContext, OrchestrationConstraints, GovernanceRequirements,
  ReplayRestrictions, AiOutputCtx, OrchestrationEligibilityAssessment,
}
use student_success_intellig.Eligibility.Thresholds.{bindings_of}
use student_success_intellig.Governance.{AiTier, Threshold, is_live, is_replay_type}

-- The variables of `assess_orchestration_eligibility` that `_emit` takes.
pub record Draft : Type 0 where
  pub path : List Rule
  pub codes : List Code
  pub constraints : OrchestrationConstraints
  pub replay_rest : ReplayRestrictions
  pub ai_tier : AiTier
  pub ai_out : AiOutputCtx
  pub th : Dict Threshold
  pub warnings : List Code

-- `scope in _ELIGIBLE_SCOPES`
unfoldable pub is_eligible_scope : Scope → Bool
is_eligible_scope no_scope = false
is_eligible_scope _ = true

-- `live_ok`
unfoldable pub live_ok : EligibilityContext → Scope → Bool
live_ok ctx scope =
    is_eligible_scope scope
    && (is_live ctx.governance.execution_mode && not (is_replay_type ctx.governance.execution_type))

unfoldable pub basis_of : EligibilityContext → AiOutputCtx → Basis
basis_of ctx ai_out =
    if ai_out.priority_adjustment_applied
    then ai_assisted
    else if ai_out.fallback_applied
    then fallback
    else if is_replay_type ctx.governance.execution_type
    then historical_replay
    else rule_based

-- the `GovernanceRequirements` that `_emit` builds when it is given none
unfoldable pub requirements_met : GovernanceCtx → GovernanceRequirements
requirements_met gov = record {
  config_version_id = gov.config_version_id;
  config_version_status = gov.config_version_status;
  execution_mode = gov.execution_mode;
  idempotency_key = gov.idempotency_key;
  governance_preconditions_met = true;
  blocking_governance_flags = [];
}

unfoldable pub emit_with :
    EligibilityContext
    → Option String
    → Scope
    → Priority
    → Draft
    → GovernanceRequirements
    → Option Blocking
    → OrchestrationEligibilityAssessment
emit_with ctx sid scope priority d gov_reqs blocking = record {
  orchestration_eligible = is_eligible_scope scope;
  eligibility_scope = scope;
  orchestration_priority = priority;
  orchestration_constraints = record d.constraints {
    live_outreach_permitted = live_ok ctx scope;
    execution_mode_constraint = ctx.governance.execution_mode;
  };
  governance_requirements = gov_reqs;
  replay_restrictions = d.replay_rest;
  ai_context = d.ai_out;
  threshold_bindings = bindings_of d.th;
  attribution_metadata = ctx.governance.attribution_context;
  correlation_id = ctx.governance.correlation_id;
  causation_id = ctx.governance.causation_id;
  config_version_id = ctx.governance.config_version_id;
  historical_config_version_id =
      if is_replay_type ctx.governance.execution_type
      then get_text "historical_config_version_id" (or_empty ctx.governance.replay_context)
      else none;
  execution_mode = ctx.governance.execution_mode;
  execution_type = ctx.governance.execution_type;
  attribution_status = "COMPLETE";
  degraded_evaluation = nonempty d.warnings;
  threshold_resolution_status = if nonempty d.warnings then "PARTIAL" else "COMPLETE";
  live_outreach_permitted = live_ok ctx scope;
  replay_safe = d.replay_rest.replay_safe;
  rule_path_taken = d.path;
  assessment_basis = basis_of ctx d.ai_out;
  reason_codes = d.codes;
  eligibility_blocked = is_some blocking;
  blocking_reason = blocking;
  config_threshold_warnings = d.warnings;
  student_id_opaque = sid;
}

-- `_emit` with its defaults
unfoldable pub emit :
    EligibilityContext
    → Option String
    → Scope
    → Priority
    → Draft
    → OrchestrationEligibilityAssessment
emit ctx sid scope priority d =
    emit_with ctx sid scope priority d (requirements_met ctx.governance) none

-- `path.append(rule)` and `codes.append(code)`
abbrev pub visit : Rule → Draft → Draft
visit rule d = record d { path = d.path ++ rule ∷ [] }

abbrev pub note : List Code → Draft → Draft
note codes d = record d { codes = d.codes ++ codes }
