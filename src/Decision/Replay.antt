-- ===== src/Decision/Replay.antt =====
-- RULE 13 of app/services/decision_engine.py: the intent of `evaluate_replay_intent`.
use student_success_intellig.Prelude.{
  if◌then◌else◌, nonempty, when, true, not, none, some, List, [], ◌∷◌, ◌++◌,
}
use student_success_intellig.Prelude.Dict.{present}
use student_success_intellig.Decision.Types.{
  no_eligible_intent, replay_only, historical_replay, replay_precondition_violated, rule_0_pass,
  rule_13, Code, replay_fingerprint_missing, replay_live_mode_blocked, replay_evaluation_complete,
  GovernanceContext, OrchestrationIntent, no_escalation, no_ai,
}
use student_success_intellig.Decision.Gate.{compare_fingerprints}
use student_success_intellig.Governance.{shadow, finalized_copy, is_live}

-- the list `violations` of `evaluate_replay_intent`
unfoldable pub replay_violations : GovernanceContext → List Code
replay_violations gov =
    when (is_live gov.execution_mode) replay_live_mode_blocked
    ++ when (not (present gov.fingerprint_context)) replay_fingerprint_missing

abbrev pub or_complete : List Code → List Code
or_complete [] = replay_evaluation_complete ∷ []
or_complete (c ∷ cs) = c ∷ cs

-- the intent of `evaluate_replay_intent`
unfoldable pub replay_intent : GovernanceContext → OrchestrationIntent
unfolding replay_violations
replay_intent gov =
    let violations : List Code = replay_violations gov in
    record {
      orchestration_intent = no_eligible_intent;
      intent_confidence = 100;
      recommended_execution_path = "";
      execution_mode = shadow;
      execution_type = gov.execution_type;
      governance_scope = replay_only;
      correlation_id = gov.correlation_id;
      causation_id = gov.causation_id;
      config_version_id = gov.config_version_id;
      attribution_metadata = gov.attribution_context;
      rule_path_taken = rule_0_pass ∷ rule_13 ∷ [];
      decision_basis = historical_replay;
      escalation_metadata = no_escalation;
      replay_safety_metadata = record {
        is_replay = true;
        source_artifact_id = none;
        historical_config_version_id = gov.config_version_id;
        fingerprint_comparison_outcome = some (compare_fingerprints gov.fingerprint_context);
        replay_safe = not (nonempty violations);
      };
      ai_context = record no_ai { ai_governance_tier = finalized_copy };
      reason_codes = or_complete violations;
      intent_blocked = nonempty violations;
      blocking_reason = if nonempty violations then some replay_precondition_violated else none;
    }
