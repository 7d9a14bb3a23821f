-- ===== src/Decision/Table.antt =====
-- The rules of directives/core_decision_engine.md as an ordered table, and the intent that
-- app/services/decision_engine.py emits, stage by stage, against it.
use student_success_intellig.Prelude.{
  if◌then◌else◌, Bool-cases, ℤ, nonempty, String, ◌≡◌, refl, inl, inr, Bool, true, false, ◌&&◌,
  Option, none, some, List, [], ◌∷◌, arith,
}
use student_success_intellig.Prelude.Dict.{Dict}
use student_success_intellig.Decision.Types.{
  IntentKind, initiate_outreach, retry_outreach, escalate_to_operator, recommend_intervention,
  defer_pending_ai, close_orchestration, no_eligible_intent, Level, low, medium, high, Rule, Code,
  DecisionContext,
}
use student_success_intellig.Decision.Thresholds.{extract_thresholds}
use student_success_intellig.Decision.Gate.{
  precondition_codes, blocked_intent, validate_governance_preconditions,
}
use student_success_intellig.Decision.Risk.{assess_ai_tier, compute_risk}
use student_success_intellig.Decision.Log.{make_intent, Evaluation, finish}
use student_success_intellig.Decision.Actions.{
  Working, attempts_exhausted, retry_due, first_contact_due, recommends, first_or_none,
  retry_or_recommend, recommend, by_level,
}
use student_success_intellig.Decision.Pipeline.{
  by_attempts, is_in_flight, by_ai_tier, by_access, by_hold, is_terminal, by_state,
}
use student_success_intellig.Decision.Replay.{replay_intent}
use student_success_intellig.Decision.Engine.{
  evaluate_replay_intent, after_gate, evaluate_orchestration_intent,
}
use student_success_intellig.Governance.{
  AccessState, revoked, suspended, AiTier, Threshold, is_replay_type, is_original,
}

abbrev pub kind : Evaluation → IntentKind
kind e = e.0.intent.orchestration_intent

-- The intent of the first row whose condition holds.
abbrev pub first_match : List (Bool × IntentKind) → IntentKind
first_match [] = no_eligible_intent
first_match ((applies, intent) ∷ rows) = if applies then intent else first_match rows

abbrev pub is_revoked : Option AccessState → Bool
is_revoked (some revoked) = true
is_revoked _ = false

abbrev pub is_suspended : Option AccessState → Bool
is_suspended (some suspended) = true
is_suspended _ = false

abbrev pub is_high_or_critical : Level → Bool
is_high_or_critical Level.critical = true
is_high_or_critical high = true
is_high_or_critical _ = false

abbrev pub thresholds_of : DecisionContext → Dict Threshold
thresholds_of ctx = (extract_thresholds ctx.governance.config_rule_set).0

abbrev pub tier_of : DecisionContext → AiTier
tier_of ctx = (assess_ai_tier ctx.ai).0

abbrev pub level_of : DecisionContext → Level
level_of ctx = (compute_risk ctx (thresholds_of ctx) (tier_of ctx)).0

-- RULE 11 on
abbrev pub late_rows : DecisionContext → Dict Threshold → AiTier → List (Bool × IntentKind)
late_rows ctx thresholds ai_tier =
    (retry_due ctx thresholds, retry_outreach)
    ∷ (recommends ctx ai_tier, recommend_intervention)
    ∷ (first_contact_due ctx, initiate_outreach)
    ∷ []

-- RULE 5A on
abbrev pub middle_rows : DecisionContext → List (Bool × IntentKind)
middle_rows ctx =
    (is_in_flight (tier_of ctx) && is_original ctx.governance.execution_type, defer_pending_ai)
    ∷ (attempts_exhausted ctx (thresholds_of ctx), close_orchestration)
    ∷ (is_high_or_critical (level_of ctx), escalate_to_operator)
    ∷ late_rows ctx (thresholds_of ctx) (tier_of ctx)

abbrev pub table : DecisionContext → List (Bool × IntentKind)
table ctx =
    (nonempty (precondition_codes ctx.governance), no_eligible_intent)
    ∷ (is_replay_type ctx.governance.execution_type, no_eligible_intent)
    ∷ (is_terminal ctx.operational.outreach_state, no_eligible_intent)
    ∷ (ctx.governance.compliance_hold_flag, escalate_to_operator)
    ∷ (is_revoked ctx.academic.access_state, escalate_to_operator)
    ∷ (is_suspended ctx.academic.access_state, no_eligible_intent)
    ∷ middle_rows ctx

kind-recommend :
    (ctx : DecisionContext) (w : Working) (risk : Level) (path : List Rule)
    → kind (recommend ctx w risk path) ≡ first_match (late_rows ctx w.thresholds w.ai_tier)
unfolding recommend retry_or_recommend first_or_none make_intent finish
kind-recommend ctx w risk path = ground arith

kind-by_level :
    (risk : Level) (ctx : DecisionContext) (w : Working) (path : List Rule)
    → kind (by_level risk ctx w path)
      ≡ first_match
          ((is_high_or_critical risk, escalate_to_operator) ∷ late_rows ctx w.thresholds w.ai_tier)
unfolding by_level make_intent finish
kind-by_level Level.critical ctx w path = refl
kind-by_level high ctx w path = refl
kind-by_level medium ctx w path = kind-recommend ctx w medium path
kind-by_level low ctx w path = kind-recommend ctx w low path

kind-by_attempts :
    (ctx : DecisionContext) (w : Working) (path : List Rule)
    → kind (by_attempts ctx w path)
      ≡ first_match (
          (attempts_exhausted ctx w.thresholds, close_orchestration)
          ∷ (is_high_or_critical (compute_risk ctx w.thresholds w.ai_tier).0, escalate_to_operator)
          ∷ late_rows ctx w.thresholds w.ai_tier)
kind-by_attempts ctx w path = elim (Bool-cases (attempts_exhausted ctx w.thresholds)) [
  | inl e ↦ unfold by_attempts make_intent finish in rw e refl
  | inr e ↦ unfold by_attempts in rw e (kind-by_level _ ctx w _)
]

kind-by_ai_tier :
    (ctx : DecisionContext) (sid : Option String) (warnings : List Code) (path : List Rule)
    → kind (by_ai_tier ctx sid (thresholds_of ctx) warnings path) ≡ first_match (middle_rows ctx)
kind-by_ai_tier ctx sid warnings path =
    elim (Bool-cases (is_in_flight (tier_of ctx) && is_original ctx.governance.execution_type)) [
      | inl e ↦ unfold by_ai_tier make_intent finish in rw e refl
      | inr e ↦ unfold by_ai_tier in rw e (kind-by_attempts ctx _ _)
    ]

kind-by_access :
    (access : Option AccessState) (ctx : DecisionContext) (sid : Option String)
    (warnings : List Code) (path : List Rule)
    → kind (by_access access ctx sid (thresholds_of ctx) warnings path)
      ≡ first_match (
          (is_revoked access, escalate_to_operator)
          ∷ (is_suspended access, no_eligible_intent)
          ∷ middle_rows ctx)
unfolding by_access make_intent finish
kind-by_access (some revoked) ctx sid warnings path = refl
kind-by_access (some suspended) ctx sid warnings path = refl
kind-by_access _ ctx sid warnings path = kind-by_ai_tier ctx sid warnings _

kind-by_hold :
    (ctx : DecisionContext) (sid : Option String) (warnings : List Code) (path : List Rule)
    → kind (by_hold ctx sid (thresholds_of ctx) warnings path)
      ≡ first_match (
          (ctx.governance.compliance_hold_flag, escalate_to_operator)
          ∷ (is_revoked ctx.academic.access_state, escalate_to_operator)
          ∷ (is_suspended ctx.academic.access_state, no_eligible_intent)
          ∷ middle_rows ctx)
kind-by_hold ctx sid warnings path = elim (Bool-cases ctx.governance.compliance_hold_flag) [
  | inl e ↦ unfold by_hold make_intent finish in simp e
  | inr e ↦ unfold by_hold in simp e (kind-by_access ctx.academic.access_state ctx sid warnings _)
]

kind-by_state :
    (ctx : DecisionContext) (sid : Option String)
    → kind (by_state ctx sid)
      ≡ first_match (
          (is_terminal ctx.operational.outreach_state, no_eligible_intent)
          ∷ (ctx.governance.compliance_hold_flag, escalate_to_operator)
          ∷ (is_revoked ctx.academic.access_state, escalate_to_operator)
          ∷ (is_suspended ctx.academic.access_state, no_eligible_intent)
          ∷ middle_rows ctx)
kind-by_state ctx sid = elim (Bool-cases (is_terminal ctx.operational.outreach_state)) [
  | inl e ↦ unfold by_state make_intent finish in rw e refl
  | inr e ↦ unfold by_state in rw e (kind-by_hold ctx sid _ _)
]

module _ (digest : ℤ → String) where
  kind-after_gate :
      (ctx : DecisionContext)
      → kind (after_gate digest none ctx)
        ≡ first_match (
            (is_replay_type ctx.governance.execution_type, no_eligible_intent)
            ∷ (is_terminal ctx.operational.outreach_state, no_eligible_intent)
            ∷ (ctx.governance.compliance_hold_flag, escalate_to_operator)
            ∷ (is_revoked ctx.academic.access_state, escalate_to_operator)
            ∷ (is_suspended ctx.academic.access_state, no_eligible_intent)
            ∷ middle_rows ctx)
  kind-after_gate ctx = elim (Bool-cases (is_replay_type ctx.governance.execution_type)) [
    | inl e ↦ unfold after_gate evaluate_replay_intent replay_intent finish in rw e refl
    | inr e ↦ unfold after_gate in rw e (kind-by_state ctx _)
  ]

  -- The intent of an evaluation is that of the first row of the table that applies: governance
  -- gate, replay, closed state, compliance hold, access revoked, access suspended, AI in flight,
  -- attempt ceiling, high or critical risk, retry, AI recommendation, first contact; and
  -- NO_ELIGIBLE_INTENT if no row applies.
  pub kind-evaluate :
      (ctx : DecisionContext)
      → kind (evaluate_orchestration_intent digest ctx) ≡ first_match (table ctx)
  unfolding evaluate_orchestration_intent validate_governance_preconditions
  kind-evaluate ctx = elim (Bool-cases (nonempty (precondition_codes ctx.governance))) [
    | inl e ↦ rw e (unfold after_gate finish blocked_intent in refl)
    | inr e ↦ rw e (kind-after_gate ctx)
  ]
