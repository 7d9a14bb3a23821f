-- ===== src/Priority/Tests.antt =====
-- Runs of app/services/priority.py on concrete contexts, and the theorems at them.
use student_success_intellig.Prelude.{
  pos, whole, ◌≤◌, ◌≡◌, refl, ◌↔◌, ◌⊎◌, true, false, none, some, [], ◌∷◌,
}
use student_success_intellig.Prelude.Dict.{get, contains}
use student_success_intellig.Priority.Idempotency.{registry, reports_duplicate, second_refused}
use student_success_intellig.Priority.Containment.{
  IsAdvisory, assess_priority-IsAdvisory, replay_unscored,
}
use student_success_intellig.Priority.Levels.{rank, stops_early, unknown_iff}
use student_success_intellig.Priority.Advice.{without_ai, recommendation_never_lowers}
use student_success_intellig.Priority.Types.{
  Scope, replay_only, maintenance, Priority, Risk, PrioritizationContext,
}
use student_success_intellig.Priority.Gate.{gate_codes}
use student_success_intellig.Priority.Tier.{
  resolve_priority_thresholds, fresh_tier, reviewed_tier, tier_of_state, classify_ai_tier,
}
use student_success_intellig.Priority.Scoring.{
  score_hws, score_effort, score_inactivity, score_payment, score_recurrence, score_trend,
  score_access, score_ai, findings_of, score_risk_factors, count, aggregate_priority, raised,
  raise_with, apply_ai_adjustment,
}
use student_success_intellig.Priority.Records.{blocked_record, maintenance_record, replay_record}
use student_success_intellig.Priority.Emission.{priority_record, event_log}
use student_success_intellig.Priority.Engine.{
  Assessment, scored, after_containment, after_gate, assess_orchestration_priority,
}
use student_success_intellig.Priority.Display.{Student, StudentPriorityScore, score_student}
use student_success_intellig.Config.{number, other, resolve_keys, limit_of}
use student_success_intellig.Idempotency.{Keys, is_duplicate, register, run}
use student_success_intellig.Governance.{live, original, replay, reviewed, meeting}

abbrev sample : PrioritizationContext
sample = record {
  config_version_id = some "v2-7";
  execution_mode = live;
  execution_type = original;
  correlation_id = some "corr-1";
  config_rule_set = some (
      ("hws_behind_high_risk_threshold", number (whole 3))
      ∷ ("avg_eff_rating_low_risk_threshold", number (whole 3))
      ∷ ("last_activity_high_risk_days", other "soon")
      ∷ []);
  causation_id = none;
  orchestration_cycle_id = some "cycle-1";
  idempotency_key = some "key-1";
  maintenance_mode_active = false;
  origin_source = some "mirrored_sql_server";
  origin_authority = some "sql_server_authoritative";
  actor_identity = some "sync";
  attribution_timestamp = none;
  upstream_correlation_id = none;
  hws_behind = some (whole 4);
  avg_eff_rating = some (whole 2);
  last_activity_days = some (whole 20);
  payment_balance = none;
  access_last_changed_days = none;
  historical_risk_trend = none;
  prior_escalation_count = none;
  ai_insight_state = some reviewed;
  ai_confidence_score = some (pos 8000);
  ai_recommended_intervention = some meeting;
  ai_stale_flag = some false;
  ai_finalized_copy = false;
  source_artifact_id = none;
  historical_config_version_id = none;
  execution_state_before = none;
  execution_state_after = none;
  student_id_opaque = none;
}

abbrev replayed : PrioritizationContext
replayed = record sample { execution_type = replay }

abbrev assess : Keys → PrioritizationContext → Assessment
assess keys ctx = assess_orchestration_priority keys "event-1" ctx

-- Unfolding this opens the whole service.
opened : Unit {0}
unfolding assess_orchestration_priority gate_codes is_duplicate contains register after_gate
    after_containment scored resolve_priority_thresholds resolve_keys get classify_ai_tier
    tier_of_state reviewed_tier fresh_tier score_risk_factors findings_of score_hws score_effort
    score_inactivity score_payment score_recurrence score_trend score_access score_ai limit_of
    aggregate_priority count apply_ai_adjustment raise_with raised priority_record blocked_record
    replay_record maintenance_record run event_log
opened = tt

-- A high and a medium contribution, and one step up for the confident advice to meet.
sample_critical : (assess [] sample).0.advisory_priority ≡ Priority.critical
sample_critical = unfold opened in refl

sample_contributions : (assess [] sample).0.risk_contributions ≡ Risk.high ∷ Risk.medium ∷ []
sample_contributions = unfold opened in refl

sample_keys : (assess [] sample).2 ≡ "key-1" ∷ []
sample_keys = unfold opened in refl

assess_priority-IsAdvisory_example : IsAdvisory (assess [] sample).0
assess_priority-IsAdvisory_example = assess_priority-IsAdvisory [] "event-1" sample

replay_unscored_example :
    ((assess [] replayed).0.advisory_priority ≡ Priority.unknown)
    × ((assess [] replayed).0.scoring_factors ≡ [])
    × ((assess [] replayed).0.ai_priority_adjustment_applied ≡ false)
    × (((assess [] replayed).0.governance_scope ≡ Scope.unavailable)
        ⊎ ((assess [] replayed).0.governance_scope ≡ maintenance)
        ⊎ ((assess [] replayed).0.governance_scope ≡ replay_only))
    × ((assess [] replayed).2 ≡ [])
replay_unscored_example = replay_unscored [] "event-1" replayed refl

abbrev before : Keys
before = run registry (assess [] sample).2 (("event-2", replayed) ∷ [])

second_refused_example :
    ((assess before replayed).0.orchestration_blocked ≡ true)
    × (reports_duplicate (assess before replayed).0.reason_codes ≡ true)
    × ((assess before replayed).2 ≡ before)
second_refused_example =
    second_refused "key-1" [] "event-1" sample (("event-2", replayed) ∷ []) "event-1" replayed
      (unfold opened in refl) refl refl refl

unknown_iff_example :
    ((assess [] sample).0.advisory_priority ≡ Priority.unknown) ↔ (stops_early [] sample ≡ true)
unknown_iff_example = unknown_iff [] "event-1" sample

recommendation_never_lowers_example :
    rank (assess [] (without_ai sample)).0.advisory_priority
    ≤ rank (assess [] sample).0.advisory_priority
recommendation_never_lowers_example = recommendation_never_lowers [] "event-1" sample

abbrev absent : Student
absent = record {
  hws_behind = some (whole 3);
  last_activity_days = some (whole 15);
  avg_eff_rating = none;
  payment_balance = none;
}

abbrev absent_score : StudentPriorityScore
absent_score = score_student absent none
