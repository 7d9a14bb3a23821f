-- ===== src/Outreach/Tests.antt =====
-- Runs of Outreach at concrete inputs.
use student_success_intellig.Prelude.{
  if◌then◌else◌, ℤ, pos, whole, String, ◌≡◌, refl, true, false, Option, none, some, [], ◌∷◌, str_eq,
}
use student_success_intellig.Prelude.Dict.{get, contains}
use student_success_intellig.Lifecycle.Machine.{
  no_response, responded, closed, member, can_transition, is_terminal,
}
use student_success_intellig.Outreach.Types.{
  escalate, closed_circuit, OutreachOrchestrationContext, OutreachCoordinationRecord,
}
use student_success_intellig.Outreach.Gate.{gate_codes, resolve_orchestration_thresholds}
use student_success_intellig.Outreach.Intent.{int_of, attempts_exhausted, classify_intent}
use student_success_intellig.Outreach.Engine.{coordinate_orchestration_cycle}
use student_success_intellig.Outreach.Manual.{
  Tracking, Store, target_of, latest, action_on, targeted_action, execute_manual_action,
}
use student_success_intellig.Config.{number, resolve_keys}
use student_success_intellig.Idempotency.{is_duplicate, run}
use student_success_intellig.Governance.{shadow, original, replay}
use student_success_intellig.Outreach.Containment.{IsContained, coordinate-IsContained}
use student_success_intellig.Outreach.Intents.{
  reports_duplicate, intent_exact, registry, repeated_refused,
}
use student_success_intellig.Outreach.Actions.{is_ok, failed_unchanged, Action, perform_all}
use student_success_intellig.Outreach.Lifelines.{
  is_fresh, is_distinct, Follows, perform_all-Follows,
}
use student_success_intellig.Outreach.Closing.{written, logged, closing_entry, close_case_succeeds}

abbrev parse : String → Option ℤ
parse text = if str_eq text "3" then some (whole 3) else none

-- a student in NO_RESPONSE after two attempts of three
abbrev sample : OutreachOrchestrationContext
sample = record {
  config_version_id = some "cfg-9";
  execution_mode = shadow;
  execution_type = original;
  correlation_id = some "corr-1";
  config_rule_set = some (("outreach_max_retry_attempts", number (whole 3)) ∷ []);
  causation_id = some "cause-1";
  orchestration_cycle_id = some "cycle-1";
  idempotency_key = some "17:python:3";
  compliance_hold_flag = false;
  maintenance_mode_active = false;
  origin_source = some "scheduler";
  origin_authority = some "system";
  actor_identity = some "batch_runner";
  attribution_timestamp = none;
  upstream_correlation_id = none;
  student_id_opaque = some "17";
  checkpoint_type = some "python";
  outreach_state = some no_response;
  contact_attempt_count = whole 2;
  last_contact_at = none;
  circuit_breaker_state = closed_circuit;
  provider_degradation_state = "OPERATIONAL";
  sync_lag_hours = pos 0;
  ai_governance_tier = none;
  ai_confidence_score = none;
  historical_config_version_id = none;
  source_artifact_id = none;
}

abbrev replayed : OutreachOrchestrationContext
replayed = record sample { execution_type = replay }

-- the last attempt
abbrev exhausted : OutreachOrchestrationContext
exhausted = record sample { contact_attempt_count = whole 3; idempotency_key = none }

abbrev coordinated : OutreachOrchestrationContext → OutreachCoordinationRecord
coordinated ctx = (coordinate_orchestration_cycle parse parse [] "event-1" ctx).0

coordinate-IsContained_example : IsContained (coordinated sample)
coordinate-IsContained_example = coordinate-IsContained parse parse [] "event-1" sample

intent_exact_example : (coordinated exhausted).intent_type ≡ some escalate
unfolding gate_codes is_duplicate classify_intent attempts_exhausted int_of get
    resolve_orchestration_thresholds resolve_keys
intent_exact_example = intent_exact parse parse [] "event-1" exhausted

repeated_refused_example :
    let before =
      run
        (registry parse parse)
        (coordinate_orchestration_cycle parse parse [] "event-1" sample).2
        (("event-2", exhausted) ∷ []) in
    let (r, _, after) = coordinate_orchestration_cycle parse parse before "event-3" replayed in
    (r.orchestration_blocked ≡ true) × (reports_duplicate r.reason_codes ≡ true) × (after ≡ before)
unfolding gate_codes is_duplicate contains
repeated_refused_example =
    repeated_refused parse parse "17:python:3" [] "event-1" sample (("event-2", exhausted) ∷ [])
      "event-3" replayed refl refl refl refl

-- two rows of one user, the later one first, and one of another
abbrev store : Store
store = record {
  rows =
      (record { id = pos 2; user_id = pos 17; state = responded; correlation_id = none })
      ∷ (record { id = pos 1; user_id = pos 17; state = closed; correlation_id = none })
      ∷ (record { id = pos 3; user_id = pos 18; state = no_response; correlation_id = none })
      ∷ [];
  transitions = [];
}

abbrev booking : Action
booking = record {
  mode = "ExecutionMode.SHADOW";
  correlation = "corr-2";
  user_id = pos 17;
  action_type = "BOOK_MEETING";
  notes = some "on Monday";
}

abbrev retrying : Action
retrying = record {
  mode = "ExecutionMode.SHADOW";
  correlation = "corr-3";
  user_id = pos 18;
  action_type = "FORCE_RETRY";
  notes = none;
}

failed_unchanged_example :
    (execute_manual_action "ExecutionMode.SHADOW" "corr-2" store (pos 17) "FORCE_RETRY" none).0
    ≡ store
unfolding execute_manual_action targeted_action target_of action_on latest can_transition member
failed_unchanged_example =
    failed_unchanged "ExecutionMode.SHADOW" "corr-2" store (pos 17) "FORCE_RETRY" none refl

perform_all-Follows_example :
    Follows store.rows (perform_all store (booking ∷ retrying ∷ booking ∷ [])).rows
unfolding is_distinct is_fresh
perform_all-Follows_example = perform_all-Follows store (booking ∷ retrying ∷ booking ∷ []) refl

abbrev answered : Tracking
answered = record { id = pos 2; user_id = pos 17; state = responded; correlation_id = none }

close_case_succeeds_example :
    let (after, result) =
      execute_manual_action "SHADOW" "corr-2" store (pos 17) "CLOSE_CASE" none in
    (is_ok result ≡ true)
    × (latest (pos 17) after.rows ≡ some (written closed "corr-2" answered))
    × (after.transitions
        ≡ logged "SHADOW" "corr-2" [] (closing_entry "SHADOW" "corr-2" (pos 17) none answered))
unfolding latest is_terminal member
close_case_succeeds_example =
    close_case_succeeds "SHADOW" "corr-2" store (pos 17) none answered refl refl
