-- ===== src/Decision/Log.antt =====
-- `_intent` and `_log` of app/services/decision_engine.py: the factory of an unblocked intent, and
-- the record that is logged with each result (without its duration).
use student_success_intellig.Prelude.{ℕ, String, false, Option, none, some, List, if◌then◌else◌}
use student_success_intellig.Governance.{ExecutionMode, ExecutionType, AiTier, is_shadow}
use student_success_intellig.Decision.Types.{
  IntentKind, Scope, Basis, Rule, Code, Blocking, Level, DecisionContext, EscalationMetadata,
  AiOutputContext, OrchestrationIntent, GovernanceDecisionResult, no_replay,
}
use student_success_intellig.Decision.Gate.{scope_of}

unfoldable pub make_intent :
    DecisionContext
    → IntentKind
    → ℕ
    → String
    → List Rule
    → List Code
    → Basis
    → EscalationMetadata
    → AiOutputContext
    → OrchestrationIntent
make_intent ctx kind confidence exec_path path codes basis esc ai = record {
  orchestration_intent = kind;
  intent_confidence = confidence;
  recommended_execution_path = exec_path;
  execution_mode = ctx.governance.execution_mode;
  execution_type = ctx.governance.execution_type;
  governance_scope = scope_of ctx.governance.execution_mode ctx.governance.execution_type;
  correlation_id = ctx.governance.correlation_id;
  causation_id = ctx.governance.causation_id;
  config_version_id = ctx.governance.config_version_id;
  attribution_metadata = ctx.governance.attribution_context;
  rule_path_taken = path;
  decision_basis = basis;
  escalation_metadata = esc;
  replay_safety_metadata = no_replay;
  ai_context = ai;
  reason_codes = codes;
  intent_blocked = false;
  blocking_reason = none;
}

pub data Outcome : Type 0 where
  blocked shadow_only success : Outcome

pub data Event : Type 0 where
  governance_precondition_failed orchestration_intent_produced : Event

pub data Severity : Type 0 where
  error info : Severity

pub record LogRecord : Type 0 where
  pub severity : Severity
  pub event : Event
  pub correlation_id : Option String
  pub causation_id : Option String
  pub student_id_opaque : Option String
  pub execution_type : ExecutionType
  pub execution_mode : ExecutionMode
  pub config_version_id : Option String
  pub orchestration_intent : IntentKind
  pub governance_scope : Scope
  pub ai_governance_tier : Option AiTier
  pub rule_path_taken : List Rule
  pub decision_basis : Basis
  pub outcome : Outcome
  pub error_class : Option String
  pub blocking_reason : Option Blocking

unfoldable pub log_record : OrchestrationIntent → Option String → Option AiTier → LogRecord
log_record intent sid ai_tier = record {
  severity = if intent.intent_blocked then error else info;
  event =
      if intent.intent_blocked
      then governance_precondition_failed
      else orchestration_intent_produced;
  correlation_id = intent.correlation_id;
  causation_id = intent.causation_id;
  student_id_opaque = sid;
  execution_type = intent.execution_type;
  execution_mode = intent.execution_mode;
  config_version_id = intent.config_version_id;
  orchestration_intent = intent.orchestration_intent;
  governance_scope = intent.governance_scope;
  ai_governance_tier = ai_tier;
  rule_path_taken = intent.rule_path_taken;
  decision_basis = intent.decision_basis;
  outcome =
      if intent.intent_blocked
      then blocked
      else if is_shadow intent.execution_mode
      then shadow_only
      else success;
  error_class = if intent.intent_blocked then some "GovernancePreconditionFailed" else none;
  blocking_reason = if intent.intent_blocked then intent.blocking_reason else none;
}

-- What an evaluation gives: its result and the record that it logs.
abbrev pub Evaluation : Type 0
Evaluation = GovernanceDecisionResult × LogRecord

-- The two statements that end every branch: `_log(...)` and `return GovernanceDecisionResult(...)`.
unfoldable pub finish :
    OrchestrationIntent → Option String → Option AiTier → Option Level → List Code → Evaluation
unfolding log_record
finish intent sid ai_tier risk warnings = (
  record {
    intent = intent;
    risk_level = risk;
    config_threshold_warnings = warnings;
    degradation_flags = List.[];
    student_id_opaque = sid;
  },
  log_record intent sid ai_tier,
)
