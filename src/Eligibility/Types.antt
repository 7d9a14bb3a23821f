-- ===== src/Eligibility/Types.antt =====
-- The contexts and the assessment of app/services/eligibility_types.py. Each constant that the service
-- emits is a constructor.
use student_success_intellig.Prelude.{ℤ, String, Bool, true, false, Option, none, List}
use student_success_intellig.Prelude.Dict.{Dict}
use student_success_intellig.Governance.{
  ExecutionMode, shadow, ExecutionType, AccessState, OutreachState, InsightState, Intervention,
  Trend, AiTier, unavailable, Threshold, unknown_v0, TextDict,
}

pub data Scope : Type 0 where
  outreach retry escalation replay prioritization_only no_scope : Scope

pub data Priority : Type 0 where
  critical high medium low unknown : Priority

pub data Basis : Type 0 where
  ai_assisted fallback historical_replay rule_based : Basis

pub data Blocking : Type 0 where
  governance_precondition_failed replay_precondition_violated : Blocking

pub data Rule : Type 0 where
  rule_0 rule_0_blocked rule_1 rule_2 rule_3 rule_4 rule_5 rule_5a rule_6 rule_7 rule_8 rule_8b
        rule_8c rule_8d rule_9 rule_10 rule_11 rule_12 :
      Rule

-- the reason codes and warnings
pub data Code : Type 0 where
  config_unresolved execution_mode_invalid correlation_id_missing attribution_incomplete : Code
  execution_type_invalid replay_context_missing : Code
  config_threshold_missing : String → Code
  outreach_closed_terminal compliance_hold_active access_revoked_sql_server_authoritative : Code
  access_suspended_await_restoration ai_unavailable_fallback_applied : Code
  ai_insight_in_flight_defer_pending no_contact_info exclusion_window_active : Code
  exclusion_window_timestamp_parse_error replay_live_mode_blocked : Code
  replay_source_artifact_missing replay_fingerprint_missing replay_candidate : Code
  max_attempts_exhausted retry_candidate first_outreach_candidate outreach_state_ambiguous : Code
  hws_delinquency_high_risk hws_delinquency_moderate effort_decline inactivity_high_risk : Code
  inactivity_moderate payment_risk escalation_recurrence historical_trend_critical : Code
  historical_trend_declining partial_risk_assessment ai_escalation_signal_confident : Code
  ai_intervention_signal_confident ai_escalation_signal_advisory : Code
  stale_ai_prioritization_skipped stale_ai_live_mode_restricted ai_finalized_copy_not_applied : Code

pub record GovernanceCtx : Type 0 where
  pub config_version_id : Option String
  pub config_version_status : String
  pub config_rule_set : Dict Threshold
  pub execution_mode : ExecutionMode
  pub execution_type : ExecutionType
  pub correlation_id : Option String
  pub causation_id : Option String
  pub attribution_context : TextDict
  pub fingerprint_context : Option TextDict
  pub idempotency_key : Option String
  pub compliance_hold_flag : Bool
  pub replay_context : Option TextDict

pub record AcademicCtx : Type 0 where
  pub user_id : Option ℤ
  pub access_state : Option AccessState
  pub hws_behind : Option ℤ
  pub avg_eff_rating : Option ℤ
  pub last_activity_days : Option ℤ
  pub payment_balance : Option ℤ
  pub email : Option String
  pub phone_number : Option String
  pub sql_server_sync_timestamp : Option String
  pub historical_risk_trend : Option Trend
  pub prior_escalation_count : ℤ
  pub access_last_changed : Option String

pub record OperationalCtx : Type 0 where
  pub outreach_state : Option OutreachState
  pub contact_attempt_count : ℤ
  pub retry_eligible : Bool
  pub last_contact_timestamp : Option String

pub record AiCtx : Type 0 where
  pub ai_insight_state : Option InsightState
  pub ai_confidence_score : Option ℤ
  pub ai_stale_flag : Bool
  pub ai_finalized_copy : Bool
  pub ai_recommended_intervention : Option Intervention
  pub ai_generated_at : Option String

pub record EligibilityContext : Type 0 where
  pub governance : GovernanceCtx
  pub academic : AcademicCtx
  pub operational : OperationalCtx
  pub ai : AiCtx

pub record OrchestrationConstraints : Type 0 where
  pub max_attempts_constraint : Threshold
  pub exclusion_window_constraint_hours : Threshold
  pub retry_window_constraint_hours : Threshold
  pub execution_mode_constraint : ExecutionMode
  pub ai_prioritization_applied : Bool
  pub live_outreach_permitted : Bool

pub record GovernanceRequirements : Type 0 where
  pub config_version_id : Option String
  pub config_version_status : String
  pub execution_mode : ExecutionMode
  pub idempotency_key : Option String
  pub governance_preconditions_met : Bool
  pub blocking_governance_flags : List Code

pub record ReplayRestrictions : Type 0 where
  pub is_replay : Bool
  pub replay_eligible : Bool
  pub live_eligible : Bool
  pub source_artifact_id : Option String
  pub historical_config_version_id : Option String
  pub fingerprint_comparison_outcome : Option String
  pub replay_safe : Bool

pub record AiOutputCtx : Type 0 where
  pub ai_input_used : Bool
  pub ai_governance_tier : AiTier
  pub ai_confidence_score : Option ℤ
  pub stale_flag : Bool
  pub fallback_applied : Bool
  pub priority_adjustment_applied : Bool
  pub ai_version_number : Option String

pub record ThresholdBindings : Type 0 where
  pub exclusion_window_hours : Threshold
  pub min_hws_behind : Threshold
  pub min_effort_rating : Threshold
  pub max_inactivity_days : Threshold
  pub max_outreach_attempts : Threshold
  pub retry_window_hours : Threshold
  pub payment_risk_balance_threshold : Threshold
  pub ai_insight_ttl_hours : Threshold
  pub escalation_repeat_threshold : Threshold
  pub hws_behind_high_risk : Threshold
  pub inactivity_high_risk_days : Threshold

pub record OrchestrationEligibilityAssessment : Type 0 where
  pub orchestration_eligible : Bool
  pub eligibility_scope : Scope
  pub orchestration_priority : Priority
  pub orchestration_constraints : OrchestrationConstraints
  pub governance_requirements : GovernanceRequirements
  pub replay_restrictions : ReplayRestrictions
  pub ai_context : AiOutputCtx
  pub threshold_bindings : ThresholdBindings
  pub attribution_metadata : TextDict
  pub correlation_id : Option String
  pub causation_id : Option String
  pub config_version_id : Option String
  pub historical_config_version_id : Option String
  pub execution_mode : ExecutionMode
  pub execution_type : ExecutionType
  pub attribution_status : String
  pub degraded_evaluation : Bool
  pub threshold_resolution_status : String
  pub live_outreach_permitted : Bool
  pub replay_safe : Bool
  pub rule_path_taken : List Rule
  pub assessment_basis : Basis
  pub reason_codes : List Code
  pub eligibility_blocked : Bool
  pub blocking_reason : Option Blocking
  pub config_threshold_warnings : List Code
  pub student_id_opaque : Option String

-- The defaults of the output dataclasses.
abbrev pub default_constraints : OrchestrationConstraints
default_constraints = record {
  max_attempts_constraint = unknown_v0;
  exclusion_window_constraint_hours = unknown_v0;
  retry_window_constraint_hours = unknown_v0;
  execution_mode_constraint = shadow;
  ai_prioritization_applied = false;
  live_outreach_permitted = false;
}

abbrev pub default_replay : ReplayRestrictions
default_replay = record {
  is_replay = false;
  replay_eligible = false;
  live_eligible = false;
  source_artifact_id = none;
  historical_config_version_id = none;
  fingerprint_comparison_outcome = none;
  replay_safe = true;
}

abbrev pub default_ai : AiOutputCtx
default_ai = record {
  ai_input_used = false;
  ai_governance_tier = unavailable;
  ai_confidence_score = none;
  stale_flag = false;
  fallback_applied = false;
  priority_adjustment_applied = false;
  ai_version_number = none;
}

abbrev pub default_bindings : ThresholdBindings
default_bindings = record {
  exclusion_window_hours = unknown_v0;
  min_hws_behind = unknown_v0;
  min_effort_rating = unknown_v0;
  max_inactivity_days = unknown_v0;
  max_outreach_attempts = unknown_v0;
  retry_window_hours = unknown_v0;
  payment_risk_balance_threshold = unknown_v0;
  ai_insight_ttl_hours = unknown_v0;
  escalation_repeat_threshold = unknown_v0;
  hws_behind_high_risk = unknown_v0;
  inactivity_high_risk_days = unknown_v0;
}
