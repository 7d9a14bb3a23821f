-- ===== src/Eligibility/Late.antt =====
-- RULE 11 of app/services/eligibility.py: how an AI signal changes the priority.
use student_success_intellig.Prelude.{
  if◌then◌else◌, when, String, Bool, true, false, ◌||◌, Option, some, List, [], ◌∷◌, ◌++◌,
}
use student_success_intellig.Eligibility.Types.{
  Scope, Priority, rule_11, rule_12, Code, ai_unavailable_fallback_applied,
  ai_escalation_signal_confident, ai_intervention_signal_confident, ai_escalation_signal_advisory,
  stale_ai_prioritization_skipped, stale_ai_live_mode_restricted, ai_finalized_copy_not_applied,
  EligibilityContext, OrchestrationEligibilityAssessment,
}
use student_success_intellig.Eligibility.Tier.{priority_upgrade}
use student_success_intellig.Eligibility.Emit.{Draft, emit}
use student_success_intellig.Governance.{
  ExecutionMode, Intervention, AiTier, confident, advisory, stale, in_flight, unavailable,
  finalized_copy, is_live,
}

pub record Adjustment : Type 0 where
  pub priority : Priority
  pub applied : Bool
  pub falls_back : Bool
  pub noted : List Code

abbrev is_escalate : Option Intervention → Bool
is_escalate (some Intervention.escalate) = true
is_escalate _ = false

-- `intv in ("MEETING", "OUTREACH", "RESOURCE_DELIVERY")`
abbrev is_upward : Option Intervention → Bool
is_upward (some Intervention.meeting) = true
is_upward (some Intervention.outreach) = true
is_upward (some Intervention.resource_delivery) = true
is_upward _ = false

abbrev unchanged : Priority → List Code → Adjustment
unchanged priority codes = record {
  priority = priority;
  applied = false;
  falls_back = false;
  noted = codes;
}

abbrev changed : Priority → Code → Adjustment
changed priority code = record {
  priority = priority;
  applied = true;
  falls_back = false;
  noted = code ∷ [];
}

unfoldable pub adjust : AiTier → Option Intervention → ExecutionMode → Priority → Adjustment
adjust confident intv mode priority =
    if is_escalate intv
    then changed Priority.critical ai_escalation_signal_confident
    else if is_upward intv
    then changed (priority_upgrade priority) ai_intervention_signal_confident
    else unchanged priority []
adjust advisory intv mode priority =
    if is_escalate intv
    then changed (priority_upgrade priority) ai_escalation_signal_advisory
    else unchanged priority []
adjust stale intv mode priority =
    unchanged priority
      (stale_ai_prioritization_skipped ∷ when (is_live mode) stale_ai_live_mode_restricted)
adjust unavailable intv mode priority = record {
  priority = priority;
  applied = false;
  falls_back = true;
  noted = ai_unavailable_fallback_applied ∷ [];
}
adjust finalized_copy intv mode priority = unchanged priority (ai_finalized_copy_not_applied ∷ [])
adjust in_flight intv mode priority = unchanged priority []

-- RULE 11 and RULE 12
unfoldable pub conclude :
    EligibilityContext
    → Option String
    → Scope
    → Priority
    → Draft
    → OrchestrationEligibilityAssessment
conclude ctx sid scope priority d =
    let a : Adjustment =
      adjust d.ai_tier ctx.ai.ai_recommended_intervention ctx.governance.execution_mode priority in
    emit ctx sid scope a.priority (record d {
      path = d.path ++ (rule_11 ∷ rule_12 ∷ []);
      codes = d.codes ++ a.noted;
      constraints = record d.constraints {
        ai_prioritization_applied = d.constraints.ai_prioritization_applied || a.applied;
      };
      ai_out = record d.ai_out {
        priority_adjustment_applied = d.ai_out.priority_adjustment_applied || a.applied;
        fallback_applied = d.ai_out.fallback_applied || a.falls_back;
      };
    })
