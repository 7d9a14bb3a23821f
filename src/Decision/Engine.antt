-- ===== src/Decision/Engine.antt =====
-- The entry points of app/services/decision_engine.py. `digest` is `hashlib`'s part of `_opaque_id`.
use student_success_intellig.Prelude.{if◌then◌else◌, ℤ, String, not, Option, none, some, []}
use student_success_intellig.Decision.Types.{DecisionContext, OrchestrationIntent}
use student_success_intellig.Decision.Gate.{validate_governance_preconditions, opaque_id}
use student_success_intellig.Decision.Log.{Evaluation, finish}
use student_success_intellig.Decision.Pipeline.{by_state}
use student_success_intellig.Decision.Replay.{replay_intent}
use student_success_intellig.Governance.{shadow, finalized_copy, is_shadow, is_replay_type}

module _ (digest : ℤ → String) where
  unfoldable pub evaluate_replay_intent : DecisionContext → Evaluation
  evaluate_replay_intent ctx =
      finish (replay_intent ctx.governance) (opaque_id digest ctx.academic.user_id)
        (some finalized_copy) none []

  -- RULE 0, by the result of the gate, and the choice between RULE 13 and the other rules
  unfoldable pub after_gate : Option OrchestrationIntent → DecisionContext → Evaluation
  after_gate (some refusal) ctx =
      finish refusal (opaque_id digest ctx.academic.user_id) none none []
  after_gate none ctx =
      if is_replay_type ctx.governance.execution_type
      then evaluate_replay_intent ctx
      else by_state ctx (opaque_id digest ctx.academic.user_id)

  unfoldable pub evaluate_orchestration_intent : DecisionContext → Evaluation
  evaluate_orchestration_intent ctx =
      after_gate (validate_governance_preconditions ctx.governance) ctx

  unfoldable pub evaluate_shadow_intent : DecisionContext → Evaluation
  evaluate_shadow_intent ctx =
      if not (is_shadow ctx.governance.execution_mode)
      then evaluate_orchestration_intent
          (record ctx { governance = record ctx.governance { execution_mode = shadow } })
      else evaluate_orchestration_intent ctx
