-- ===== src/Decision/Actions.antt =====
-- RULE 8 to RULE 12 and RULE 14 of `evaluate_orchestration_intent` in app/services/decision_engine.py,
-- last rule first: each stage ends in a `return` or hands over to the stage above it. `path` is
-- `rule_path_taken` so far.
use student_success_intellig.Prelude.{
  if◌then◌else◌, pos, ltb_ℤ, leb_ℤ, at_least, below, when, String, Bool, true, false, ◌&&◌, ◌||◌,
  Option, none, some, List, [], ◌∷◌, ◌++◌,
}
use student_success_intellig.Prelude.Dict.{Dict}
use student_success_intellig.Decision.Types.{
  initiate_outreach, retry_outreach, escalate_to_operator, recommend_intervention,
  no_eligible_intent, Level, high, rule_based, ai_assisted, Rule, rule_8, rule_9, rule_10, rule_11,
  rule_12, rule_14, Code, critical_risk_escalation, critical_risk_multi_factor,
  high_risk_shadow_no_dispatch, high_risk_escalation_live, ai_assisted_intervention_recommended,
  retry_eligible_window_passed, first_outreach_eligible, no_eligible_action_this_cycle,
  DecisionContext, EscalationMetadata, AiOutputContext, no_escalation,
}
use student_success_intellig.Decision.Thresholds.{k_max_attempts, threshold}
use student_success_intellig.Decision.Risk.{is_confident, is_advisory}
use student_success_intellig.Decision.Log.{make_intent, Evaluation, finish}
use student_success_intellig.Governance.{
  ExecutionMode, OutreachState, eligible, queued, Intervention, meeting, resource_delivery,
  ipbc_followup, AiTier, Threshold, is_shadow, comparable,
}

abbrev pub escalation : Level → List Code → EscalationMetadata
escalation urgency codes = record no_escalation {
  escalation_required = true;
  escalation_urgency = urgency;
  escalation_reason_codes = codes;
}

-- `outreach_state in ("ELIGIBLE", "QUEUED", None)`
abbrev pub awaits_first_contact : Option OutreachState → Bool
awaits_first_contact none = true
awaits_first_contact (some eligible) = true
awaits_first_contact (some queued) = true
awaits_first_contact _ = false

-- `ai_recommended_intervention in ("MEETING", "RESOURCE_DELIVERY", "IPBC_FOLLOWUP")`
abbrev pub is_recommendable : Option Intervention → Bool
is_recommendable (some meeting) = true
is_recommendable (some resource_delivery) = true
is_recommendable (some ipbc_followup) = true
is_recommendable _ = false

-- What the stages pass on: `sid`, the thresholds, the warnings, and the AI assessment.
pub record Working : Type 0 where
  pub sid : Option String
  pub thresholds : Dict Threshold
  pub warnings : List Code
  pub ai_tier : AiTier
  pub ai_out : AiOutputContext

-- the test on the ceiling that RULE 6 makes
unfoldable pub attempts_exhausted : DecisionContext → Dict Threshold → Bool
attempts_exhausted ctx thresholds =
    at_least (some ctx.operational.contact_attempt_count)
      (comparable (threshold thresholds k_max_attempts))

-- the test of RULE 11
unfoldable pub retry_due : DecisionContext → Dict Threshold → Bool
retry_due ctx thresholds =
    ltb_ℤ (pos 0) ctx.operational.contact_attempt_count
    && (below (some ctx.operational.contact_attempt_count)
          (comparable (threshold thresholds k_max_attempts))
        && ctx.operational.retry_eligible)

-- the test of RULE 12; `count == 0` is both orders
unfoldable pub first_contact_due : DecisionContext → Bool
first_contact_due ctx =
    leb_ℤ ctx.operational.contact_attempt_count (pos 0)
    && (leb_ℤ (pos 0) ctx.operational.contact_attempt_count
        && awaits_first_contact ctx.operational.outreach_state)

-- the test of RULE 10
unfoldable pub recommends : DecisionContext → AiTier → Bool
recommends ctx ai_tier =
    (is_confident ai_tier || is_advisory ai_tier)
    && is_recommendable ctx.ai.ai_recommended_intervention

-- RULE 12 and RULE 14
unfoldable pub first_or_none : DecisionContext → Working → Level → List Rule → Evaluation
first_or_none ctx w risk path =
    if first_contact_due ctx
    then finish
        (make_intent ctx initiate_outreach 90 "outreach_service.initiate_first_contact"
          (path ++ rule_12 ∷ []) (first_outreach_eligible ∷ []) rule_based no_escalation w.ai_out)
        w.sid (some w.ai_tier) (some risk) w.warnings
    else finish
        (make_intent ctx no_eligible_intent 100 "" (path ++ rule_14 ∷ [])
          (no_eligible_action_this_cycle ∷ []) rule_based no_escalation w.ai_out)
        w.sid (some w.ai_tier) (some risk) w.warnings

-- RULE 11 and the end of RULE 10; `r10` says that RULE 10 fired
unfoldable pub retry_or_recommend :
    DecisionContext → Working → Level → List Rule → Bool → Evaluation
retry_or_recommend ctx w risk path r10 =
    if retry_due ctx w.thresholds
    then finish
        (make_intent ctx retry_outreach 90 "outreach_service.schedule_retry" (path ++ rule_11 ∷ [])
          (when r10 ai_assisted_intervention_recommended ++ retry_eligible_window_passed ∷ [])
          (if r10 then ai_assisted else rule_based) no_escalation w.ai_out)
        w.sid (some w.ai_tier) (some risk) w.warnings
    else if r10
    then finish
        (make_intent ctx recommend_intervention 75
          "operator_notification_service.deliver_ai_recommendation" path
          (ai_assisted_intervention_recommended ∷ []) ai_assisted no_escalation w.ai_out)
        w.sid (some w.ai_tier) (some risk) w.warnings
    else first_or_none ctx w risk path

-- RULE 10: it marks the AI input as used, and goes on
unfoldable pub recommend : DecisionContext → Working → Level → List Rule → Evaluation
recommend ctx w risk path =
    if recommends ctx w.ai_tier
    then retry_or_recommend ctx (record w { ai_out = record w.ai_out { ai_input_used = true } })
        risk (path ++ rule_10 ∷ []) true
    else retry_or_recommend ctx w risk path false

unfoldable pub high_risk_code : ExecutionMode → Code
high_risk_code mode =
    if is_shadow mode then high_risk_shadow_no_dispatch else high_risk_escalation_live

-- RULE 8 and RULE 9, by the level of RULE 7
unfoldable pub by_level : Level → DecisionContext → Working → List Rule → Evaluation
by_level Level.critical ctx w path =
    finish
      (make_intent ctx escalate_to_operator 95 "escalation_routing_service.handle_critical"
        (path ++ rule_8 ∷ []) (critical_risk_escalation ∷ [])
        (if w.ai_out.ai_input_used then ai_assisted else rule_based)
        (escalation Level.critical (critical_risk_multi_factor ∷ [])) w.ai_out)
      w.sid (some w.ai_tier) (some Level.critical) w.warnings
by_level high ctx w path =
    let code : Code = high_risk_code ctx.governance.execution_mode in
    finish
      (make_intent ctx escalate_to_operator 85 "escalation_routing_service.handle_high_risk"
        (path ++ rule_9 ∷ []) (code ∷ []) rule_based (escalation high (code ∷ [])) w.ai_out)
      w.sid (some w.ai_tier) (some high) w.warnings
by_level risk ctx w path = recommend ctx w risk path
