-- ===== src/Decision/Lineage.antt =====
-- Where each result of app/services/decision_engine.py comes from, and what follows for
-- attribution and logging.
use student_success_intellig.Prelude.{
  if◌then◌else◌, Bool-cases, ℤ, nonempty, ℕ, String, ◌≡◌, inl, inr, Bool, true, false, ◌&&◌, Option,
  none, some, List, arith,
}
use student_success_intellig.Prelude.Dict.{Dict}
use student_success_intellig.Decision.Table.{tier_of}
use student_success_intellig.Decision.Types.{
  IntentKind, Level, high, Basis, Rule, Code, GovernanceContext, DecisionContext,
  EscalationMetadata, AiOutputContext,
}
use student_success_intellig.Decision.Gate.{
  precondition_codes, blocked_intent, validate_governance_preconditions, opaque_id,
}
use student_success_intellig.Decision.Log.{make_intent, Evaluation, finish}
use student_success_intellig.Decision.Actions.{
  Working, attempts_exhausted, recommends, first_or_none, retry_or_recommend, recommend, by_level,
}
use student_success_intellig.Decision.Pipeline.{
  by_attempts, is_in_flight, by_ai_tier, by_access, by_hold, is_terminal, by_state,
}
use student_success_intellig.Decision.Replay.{replay_intent}
use student_success_intellig.Decision.Engine.{
  evaluate_replay_intent, after_gate, evaluate_orchestration_intent,
}
use student_success_intellig.Governance.{
  AccessState, revoked, suspended, AiTier, Threshold, is_replay_type, is_original,
}

-- An evaluation that `_intent` and `finish` made for a context, with some arguments.
pub data Emitted (ctx : DecisionContext) (sid : Option String) : Evaluation → Type 0 where
  emitted :
      (intent : IntentKind) (confidence : ℕ) (exec_path : String) (path : List Rule)
      (codes : List Code) (basis : Basis) (esc : EscalationMetadata) (ai : AiOutputContext)
      (tier : Option AiTier) (risk : Option Level) (warnings : List Code)
      → Emitted ctx sid (
          finish
            (make_intent ctx intent confidence exec_path path codes basis esc ai)
            sid
            tier
            risk
            warnings)

Emitted-if :
    {ctx : DecisionContext} {sid : Option String} {x y : Evaluation} (b : Bool)
    → Emitted ctx sid x
    → Emitted ctx sid y
    → Emitted ctx sid (if b then x else y)
Emitted-if true p q = p
Emitted-if false p q = q

ruleset emission = (emitted, Emitted-if)

Emitted-retry_or_recommend :
    (ctx : DecisionContext) (w : Working) (risk : Level) (path : List Rule) (r10 : Bool)
    → Emitted ctx w.sid (retry_or_recommend ctx w risk path r10)
unfolding retry_or_recommend first_or_none
Emitted-retry_or_recommend ctx w risk path r10 = search emission

Emitted-by_level :
    (risk : Level) (ctx : DecisionContext) (w : Working) (path : List Rule)
    → Emitted ctx w.sid (by_level risk ctx w path)
unfolding by_level recommend
Emitted-by_level Level.critical ctx w path = search emission
Emitted-by_level high ctx w path = search emission
Emitted-by_level _ ctx w path =
    Emitted-if (recommends ctx w.ai_tier) (Emitted-retry_or_recommend ctx _ _ _ _)
      (Emitted-retry_or_recommend ctx _ _ _ _)

Emitted-by_access :
    (access : Option AccessState) (ctx : DecisionContext) (sid : Option String)
    (thresholds : Dict Threshold) (warnings : List Code) (path : List Rule)
    → Emitted ctx sid (by_access access ctx sid thresholds warnings path)
unfolding by_access by_ai_tier by_attempts
Emitted-by_access (some revoked) ctx sid thresholds warnings path = search emission
Emitted-by_access (some suspended) ctx sid thresholds warnings path = search emission
Emitted-by_access _ ctx sid thresholds warnings path =
    Emitted-if (is_in_flight (tier_of ctx) && is_original ctx.governance.execution_type)
      (search emission)
      (Emitted-if (attempts_exhausted ctx thresholds) (search emission)
        (Emitted-by_level _ ctx _ _))

pub Emitted-by_state :
    (ctx : DecisionContext) (sid : Option String) → Emitted ctx sid (by_state ctx sid)
unfolding by_state by_hold
Emitted-by_state ctx sid =
    Emitted-if (is_terminal ctx.operational.outreach_state) (search emission) (
      Emitted-if ctx.governance.compliance_hold_flag (search emission)
        (Emitted-by_access _ ctx _ _ _ _))

-- What a result and its log record say of the context, and of one another.
pub record IsAttributed (gov : GovernanceContext) (sid : Option String) (e : Evaluation)
    : Type 0 where
  pub correlation : e.0.intent.correlation_id ≡ gov.correlation_id
  pub causation : e.0.intent.causation_id ≡ gov.causation_id
  pub config_version : e.0.intent.config_version_id ≡ gov.config_version_id
  pub execution_type : e.0.intent.execution_type ≡ gov.execution_type
  pub attribution : e.0.intent.attribution_metadata ≡ gov.attribution_context
  pub opaque : e.0.student_id_opaque ≡ sid
  pub logged_opaque : e.1.student_id_opaque ≡ sid
  pub logged_correlation : e.1.correlation_id ≡ gov.correlation_id
  pub logged_intent : e.1.orchestration_intent ≡ e.0.intent.orchestration_intent
  pub logged_scope : e.1.governance_scope ≡ e.0.intent.governance_scope
  pub logged_path : e.1.rule_path_taken ≡ e.0.intent.rule_path_taken
  pub logged_mode : e.1.execution_mode ≡ e.0.intent.execution_mode

Emitted-IsAttributed :
    {ctx : DecisionContext} {sid : Option String} {e : Evaluation}
    → Emitted ctx sid e
    → IsAttributed ctx.governance sid e
unfolding make_intent finish
Emitted-IsAttributed (emitted _ _ _ _ _ _ _ _ _ _ _) = ground arith

after_gate-IsAttributed :
    (digest : ℤ → String) (ctx : DecisionContext)
    → IsAttributed ctx.governance
        (opaque_id digest ctx.academic.user_id)
        (after_gate digest none ctx)
after_gate-IsAttributed digest ctx =
    elim (Bool-cases (is_replay_type ctx.governance.execution_type)) [
      | inl r ↦ unfold after_gate evaluate_replay_intent replay_intent finish in rw r (ground arith)
      | inr r ↦ unfold after_gate in rw r (Emitted-IsAttributed (Emitted-by_state ctx _))
    ]

-- On every branch, refused, replayed or decided, the intent carries the context's correlation,
-- causation and config version ids, execution type and attribution unchanged, the result and the log
-- record carry the digest of the student's id and no other id, and the log record repeats the
-- intent, scope, rule path and mode of the result.
pub evaluate-IsAttributed :
    (digest : ℤ → String) (ctx : DecisionContext)
    → IsAttributed ctx.governance
        (opaque_id digest ctx.academic.user_id)
        (evaluate_orchestration_intent digest ctx)
unfolding evaluate_orchestration_intent validate_governance_preconditions
evaluate-IsAttributed digest ctx =
    elim (Bool-cases (nonempty (precondition_codes ctx.governance))) [
      | inl e ↦ rw e (unfold after_gate finish blocked_intent in ground arith)
      | inr e ↦ rw e (after_gate-IsAttributed digest ctx)
    ]
