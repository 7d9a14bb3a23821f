-- ===== src/Eligibility/Tests.antt =====
-- Runs of app/services/eligibility.py on concrete contexts, and the theorems at them.
use student_success_intellig.Prelude.{
  ℤ, pos, whole, String, ◌≡◌, refl, true, false, Option, none, some, [], ◌∷◌,
}
use student_success_intellig.Prelude.Dict.{Dict, get, get_text}
use student_success_intellig.Eligibility.Table.{scope_of, first_scope, table, scope-assess}
use student_success_intellig.Eligibility.Candidates.{
  IsContactable, candidate-IsContactable, hold_permits_live,
}
use student_success_intellig.Eligibility.Types.{
  Scope, GovernanceCtx, EligibilityContext, OrchestrationEligibilityAssessment,
}
use student_success_intellig.Eligibility.Thresholds.{
  resolve_keys, resolve_thresholds, bound, limit_of,
}
use student_success_intellig.Eligibility.Tier.{tier_of_state, assess_ai_tier}
use student_success_intellig.Eligibility.Emit.{emit_with, emit}
use student_success_intellig.Eligibility.Tally.{check, tally_of, priority_of}
use student_success_intellig.Eligibility.Late.{conclude}
use student_success_intellig.Eligibility.Candidacy.{
  rule_9_on, attempts_exhausted, is_retry_candidate, is_first_candidate, choose_scope, rule_8_on,
  rule_10_on,
}
use student_success_intellig.Eligibility.Rules.{
  has_no_contact, first_draft, window_active, by_window, rule_6_on, rule_5_on, by_access, rule_2_on,
  rule_3_on,
}
use student_success_intellig.Eligibility.Gate.{
  any_missing, precondition_codes, assess_orchestration_eligibility,
}
use student_success_intellig.Governance.{
  live, original, AccessState, eligible, no_response, Threshold, number,
}

abbrev digest : ℤ → String
digest user_id = "2c26b46b68ffc68f"

-- Every timestamp that can be read lies 80 hours back.
abbrev elapsed : String → Option ℤ
elapsed last = some (whole 80)

abbrev sample_gov : GovernanceCtx
sample_gov = record {
  config_version_id = some "v2-7";
  config_version_status = "ACTIVE";
  config_rule_set =
      ("outreach_exclusion_window_hours", number (whole 72))
      ∷ ("outreach_max_attempts", number (whole 5))
      ∷ ("hws_behind_minimum_threshold", number (whole 1))
      ∷ [];
  execution_mode = live;
  execution_type = original;
  correlation_id = some "corr-1";
  causation_id = none;
  attribution_context =
      ("origin_source", some "mirrored_sql_server")
      ∷ ("origin_authority", some "sql_server_authoritative")
      ∷ ("actor_identity", some "sync")
      ∷ ("attribution_timestamp", some "2026-01-05T00:00:00Z")
      ∷ [];
  fingerprint_context = none;
  idempotency_key = none;
  compliance_hold_flag = false;
  replay_context = none;
}

-- A student who has not been contacted and is two homeworks behind.
abbrev newcomer : EligibilityContext
newcomer = record {
  governance = sample_gov;
  academic = record {
    user_id = some (pos 42);
    access_state = some (AccessState.other "ACTIVE");
    hws_behind = some (whole 2);
    avg_eff_rating = none;
    last_activity_days = some (whole 2);
    payment_balance = none;
    email = some "student@example.org";
    phone_number = none;
    sql_server_sync_timestamp = none;
    historical_risk_trend = none;
    prior_escalation_count = pos 0;
    access_last_changed = none;
  };
  operational = record {
    outreach_state = some eligible;
    contact_attempt_count = pos 0;
    retry_eligible = false;
    last_contact_timestamp = some "2026-01-01T00:00:00Z";
  };
  ai = record {
    ai_insight_state = none;
    ai_confidence_score = none;
    ai_stale_flag = false;
    ai_finalized_copy = false;
    ai_recommended_intervention = none;
    ai_generated_at = none;
  };
}

abbrev contacted : EligibilityContext
contacted = record newcomer {
  operational = record newcomer.operational {
    outreach_state = some no_response;
    contact_attempt_count = whole 1;
    retry_eligible = true;
  };
}

abbrev held : EligibilityContext
held = record newcomer { governance = record sample_gov { compliance_hold_flag = true } }

abbrev assess : EligibilityContext → OrchestrationEligibilityAssessment
assess = assess_orchestration_eligibility digest elapsed

-- Unfolding this opens the whole service.
opened : Unit {0}
unfolding assess_orchestration_eligibility precondition_codes any_missing get_text rule_3_on
    rule_2_on by_access rule_5_on rule_6_on by_window window_active rule_10_on rule_8_on
    choose_scope rule_9_on conclude emit emit_with first_draft resolve_thresholds resolve_keys
    limit_of bound get assess_ai_tier tier_of_state attempts_exhausted is_retry_candidate
    is_first_candidate has_no_contact tally_of check priority_of
opened = tt

newcomer_outreach : scope_of (assess newcomer) ≡ Scope.outreach
newcomer_outreach = unfold opened in refl

contacted_retry : scope_of (assess contacted) ≡ Scope.retry
contacted_retry = unfold opened in refl

scope-assess_example : scope_of (assess newcomer) ≡ first_scope (table elapsed newcomer)
scope-assess_example = scope-assess elapsed digest newcomer

candidate-IsContactable_example : IsContactable elapsed newcomer
candidate-IsContactable_example =
    candidate-IsContactable digest elapsed newcomer (unfold opened in refl)

hold_permits_live_example :
    ((assess held).eligibility_scope ≡ Scope.escalation)
    × ((assess held).live_outreach_permitted ≡ true)
    × ((assess held).orchestration_constraints.live_outreach_permitted ≡ true)
hold_permits_live_example =
    hold_permits_live digest elapsed held refl refl (unfold opened in refl) refl refl

abbrev th : Dict Threshold
th = (resolve_thresholds sample_gov.config_rule_set).0
