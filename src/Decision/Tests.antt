-- ===== src/Decision/Tests.antt =====
-- Runs of app/services/decision_engine.py on concrete contexts, and the theorems at them.
use student_success_intellig.Prelude.{
  ℤ, pos, whole, String, ◌≡◌, refl, ◌≢◌, ◌↔◌, true, false, none, some, [], ◌∷◌,
}
use student_success_intellig.Prelude.Dict.{get, get_text}
use student_success_intellig.Decision.Table.{kind, first_match, table, kind-evaluate}
use student_success_intellig.Decision.Entry.{MeetsPreconditions, gate_iff}
use student_success_intellig.Decision.Lineage.{IsAttributed, evaluate-IsAttributed}
use student_success_intellig.Decision.Containment.{
  IsAuthorized, authorized-IsAuthorized, replay_contained,
}
use student_success_intellig.Decision.Privacy.{
  with_user, user_id-opaque, evaluate_shadow_intent_lem,
}
use student_success_intellig.Decision.Types.{
  initiate_outreach, retry_outreach, no_eligible_intent, authorized, replay_only, GovernanceContext,
  DecisionContext,
}
use student_success_intellig.Decision.Thresholds.{
  or_sentinel, is_sentinel, extract_keys, extract_thresholds, threshold,
}
use student_success_intellig.Decision.Gate.{
  any_missing, precondition_codes, validate_governance_preconditions, scope_of, opaque_id,
}
use student_success_intellig.Decision.Risk.{
  reviewed_tier, tier_of_state, assess_ai_tier, high_factors, med_factors, classify, compute_risk,
}
use student_success_intellig.Decision.Log.{make_intent, log_record, Evaluation, finish}
use student_success_intellig.Decision.Actions.{
  attempts_exhausted, retry_due, first_contact_due, recommends, first_or_none, retry_or_recommend,
  recommend, by_level,
}
use student_success_intellig.Decision.Pipeline.{
  by_attempts, by_ai_tier, by_access, by_hold, by_state,
}
use student_success_intellig.Decision.Engine.{
  after_gate, evaluate_orchestration_intent, evaluate_shadow_intent,
}
use student_success_intellig.Governance.{
  shadow, live, original, regeneration, AccessState, eligible, no_response, escalate, number,
}

abbrev digest : ℤ → String
digest user_id = "9f86d081884c7d65"

abbrev sample_gov : GovernanceContext
sample_gov = record {
  config_version_id = some "v2-7";
  config_version_status = "ACTIVE";
  config_rule_set =
      ("outreach_max_attempts", number (whole 5))
      ∷ ("hws_behind_high_risk_threshold", number (whole 3))
      ∷ ("last_activity_high_risk_days", number (whole 14))
      ∷ [];
  execution_mode = live;
  execution_type = original;
  correlation_id = some "corr-1";
  causation_id = none;
  attribution_context =
      ("origin_source", some "mirrored_sql_server")
      ∷ ("origin_authority", some "sql_server_authoritative")
      ∷ ("attribution_timestamp", some "2026-01-05T00:00:00Z")
      ∷ [];
  fingerprint_context = none;
  idempotency_key = none;
  compliance_hold_flag = false;
}

-- A student who has not been contacted, with no risk factor.
abbrev newcomer : DecisionContext
newcomer = record {
  governance = sample_gov;
  academic = record {
    user_id = some (pos 42);
    access_state = some (AccessState.other "ACTIVE");
    hws_behind = some (whole 1);
    avg_eff_rating = none;
    last_activity_days = some (whole 2);
    payment_balance = none;
    sql_server_sync_timestamp = none;
  };
  operational = record {
    outreach_state = some eligible;
    contact_attempt_count = pos 0;
    retry_eligible = false;
  };
  ai = record {
    ai_insight_state = none;
    ai_confidence_score = none;
    ai_stale_flag = false;
    ai_finalized_copy = false;
    ai_recommended_intervention = none;
  };
  historical = record {
    historical_risk_trend = none;
    prior_escalation_count = pos 0;
    prior_snapshot_months = [];
  };
}

-- The student after two attempts.
abbrev contacted_twice : DecisionContext
contacted_twice = record newcomer {
  operational = record {
    outreach_state = some no_response;
    contact_attempt_count = whole 2;
    retry_eligible = true;
  };
}

abbrev replayed : DecisionContext
replayed = record newcomer {
  governance = record sample_gov {
    execution_type = regeneration;
    fingerprint_context = some (("fingerprint_schema_version", some "3") ∷ []);
  };
}

abbrev run : DecisionContext → Evaluation
run = evaluate_orchestration_intent digest

-- Unfolding this opens the whole engine.
opened : Unit {0}
unfolding evaluate_orchestration_intent validate_governance_preconditions precondition_codes
    any_missing get_text after_gate by_state by_hold by_access by_ai_tier by_attempts by_level
    recommend retry_or_recommend first_or_none make_intent finish scope_of extract_thresholds
    extract_keys or_sentinel is_sentinel threshold get assess_ai_tier tier_of_state reviewed_tier
    compute_risk high_factors med_factors classify retry_due recommends first_contact_due
    attempts_exhausted log_record
opened = tt

newcomer_initiates : kind (run newcomer) ≡ initiate_outreach
newcomer_initiates = rw kind-evaluate (unfold opened in refl)

twice_retries : kind (run contacted_twice) ≡ retry_outreach
twice_retries = rw kind-evaluate (unfold opened in refl)

kind-evaluate_example : kind (run newcomer) ≡ first_match (table newcomer)
kind-evaluate_example = kind-evaluate digest newcomer

evaluate-IsAttributed_example :
    IsAttributed sample_gov (opaque_id digest (some (pos 42))) (run newcomer)
evaluate-IsAttributed_example = evaluate-IsAttributed digest newcomer

newcomer_authorized : (run newcomer).0.intent.governance_scope ≡ authorized
newcomer_authorized = unfold opened in refl

authorized-IsAuthorized_example : IsAuthorized sample_gov
authorized-IsAuthorized_example = authorized-IsAuthorized digest newcomer newcomer_authorized

replay_contained_example :
    let intent = (run replayed).0.intent in
    (intent.orchestration_intent ≡ no_eligible_intent)
    × (intent.governance_scope ≡ replay_only)
    × (intent.execution_mode ≡ shadow)
    × (intent.intent_blocked ≡ true)
    × (intent.replay_safety_metadata.replay_safe ≡ false)
replay_contained_example = replay_contained digest replayed refl (unfold opened in refl)

user_id-opaque_example :
    run (with_user (some (pos 1)) newcomer) ≡ run (with_user (some (pos 2)) newcomer)
user_id-opaque_example =
    user_id-opaque newcomer (some (pos 1)) (some (pos 2)) digest (unfold opaque_id in refl)

evaluate_shadow_intent_lem_example :
    (kind (evaluate_shadow_intent digest newcomer) ≡ kind (run newcomer))
    × ((evaluate_shadow_intent digest newcomer).0.intent.governance_scope ≢ authorized)
evaluate_shadow_intent_lem_example = evaluate_shadow_intent_lem digest newcomer refl

gate_iff_example :
    (validate_governance_preconditions sample_gov ≡ none) ↔ MeetsPreconditions sample_gov
gate_iff_example = gate_iff sample_gov

-- A confident AI insight that asks to escalate.
abbrev alarmed : DecisionContext
alarmed = record newcomer {
  ai = record newcomer.ai { ai_recommended_intervention = some escalate };
}
