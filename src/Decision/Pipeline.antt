-- ===== src/Decision/Pipeline.antt =====
-- RULE 1 to RULE 7 of `evaluate_orchestration_intent` in app/services/decision_engine.py, last rule
-- first, over the stages of Actions.
use student_success_intellig.Prelude.{
  if◌then◌else◌, String, Bool, true, false, ◌&&◌, Option, none, some, List, [], ◌∷◌, ◌++◌,
}
use student_success_intellig.Prelude.Dict.{Dict}
use student_success_intellig.Decision.Types.{
  escalate_to_operator, defer_pending_ai, close_orchestration, no_eligible_intent, medium, high,
  rule_based, Rule, rule_0_pass, rule_1, rule_1_pass, rule_2, rule_2_pass, rule_3, rule_4,
  rule_4_pass, rule_5, rule_5a, rule_6, rule_6_pass, rule_7, Code, outreach_closed_terminal,
  compliance_hold_active, access_revoked, access_revoked_sql_server_authoritative,
  access_suspended_await_restoration, ai_insight_in_flight, max_attempts_exhausted,
  max_attempts_exhausted_review_required, DecisionContext, no_escalation, no_ai,
}
use student_success_intellig.Decision.Thresholds.{extract_thresholds}
use student_success_intellig.Decision.Risk.{assess_ai_tier, compute_risk}
use student_success_intellig.Decision.Log.{make_intent, Evaluation, finish}
use student_success_intellig.Decision.Actions.{escalation, Working, attempts_exhausted, by_level}
use student_success_intellig.Governance.{
  AccessState, revoked, suspended, OutreachState, closed, AiTier, in_flight, Threshold, is_original,
}

-- RULE 6 and RULE 7
unfoldable pub by_attempts : DecisionContext → Working → List Rule → Evaluation
by_attempts ctx w path =
    if attempts_exhausted ctx w.thresholds
    then finish
        (make_intent ctx close_orchestration 100 "outreach_service.exhaust_and_close"
          (path ++ rule_6 ∷ []) (max_attempts_exhausted ∷ []) rule_based
          (escalation medium (max_attempts_exhausted_review_required ∷ [])) no_ai)
        w.sid (some w.ai_tier) none w.warnings
    else by_level (compute_risk ctx w.thresholds w.ai_tier).0 ctx w
        (path ++ (rule_6_pass ∷ rule_7 ∷ []))

abbrev pub is_in_flight : AiTier → Bool
is_in_flight in_flight = true
is_in_flight _ = false

-- RULE 5 and RULE 5A
unfoldable pub by_ai_tier :
    DecisionContext → Option String → Dict Threshold → List Code → List Rule → Evaluation
by_ai_tier ctx sid thresholds warnings path =
    let (ai_tier, ai_out) = assess_ai_tier ctx.ai in
    if is_in_flight ai_tier && is_original ctx.governance.execution_type
    then finish
        (make_intent ctx defer_pending_ai 90 "scheduler.defer_pending_ai"
          (path ++ (rule_5 ∷ rule_5a ∷ [])) (ai_insight_in_flight ∷ []) rule_based no_escalation
          ai_out)
        sid (some ai_tier) none warnings
    else by_attempts ctx
        (record {
          sid = sid;
          thresholds = thresholds;
          warnings = warnings;
          ai_tier = ai_tier;
          ai_out = ai_out;
        })
        (path ++ rule_5 ∷ [])

-- RULE 4
unfoldable pub by_access :
    Option AccessState
    → DecisionContext
    → Option String
    → Dict Threshold
    → List Code
    → List Rule
    → Evaluation
by_access (some revoked) ctx sid thresholds warnings path =
    finish
      (make_intent ctx escalate_to_operator 100 "escalation_routing_service.handle_access_revoked"
        (path ++ rule_4 ∷ []) (access_revoked_sql_server_authoritative ∷ []) rule_based
        (escalation high (access_revoked ∷ [])) no_ai)
      sid none none warnings
by_access (some suspended) ctx sid thresholds warnings path =
    finish
      (make_intent ctx no_eligible_intent 100 "" (path ++ rule_4 ∷ [])
        (access_suspended_await_restoration ∷ []) rule_based no_escalation no_ai)
      sid none none warnings
by_access _ ctx sid thresholds warnings path =
    by_ai_tier ctx sid thresholds warnings (path ++ rule_4_pass ∷ [])

-- RULE 2
unfoldable pub by_hold :
    DecisionContext → Option String → Dict Threshold → List Code → List Rule → Evaluation
by_hold ctx sid thresholds warnings path =
    if ctx.governance.compliance_hold_flag
    then finish
        (make_intent ctx escalate_to_operator 100
          "escalation_routing_service.handle_compliance_hold" (path ++ rule_2 ∷ [])
          (compliance_hold_active ∷ []) rule_based
          (record (escalation high (compliance_hold_active ∷ [])) {
            escalation_context =
                ("note", "Automated orchestration suspended pending hold resolution.") ∷ [];
          })
          no_ai)
        sid none none warnings
    else by_access ctx.academic.access_state ctx sid thresholds warnings (path ++ rule_2_pass ∷ [])

abbrev pub is_terminal : Option OutreachState → Bool
is_terminal (some closed) = true
is_terminal _ = false

-- RULE 3 and RULE 1
unfoldable pub by_state : DecisionContext → Option String → Evaluation
by_state ctx sid =
    let (thresholds, warnings) = extract_thresholds ctx.governance.config_rule_set in
    if is_terminal ctx.operational.outreach_state
    then finish
        (make_intent ctx no_eligible_intent 100 "" (rule_0_pass ∷ rule_3 ∷ rule_1 ∷ [])
          (outreach_closed_terminal ∷ []) rule_based no_escalation no_ai)
        sid none none warnings
    else by_hold ctx sid thresholds warnings (rule_0_pass ∷ rule_3 ∷ rule_1_pass ∷ [])
