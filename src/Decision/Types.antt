-- ===== src/Decision/Types.antt =====
-- The contexts, the intent and the result of app/services/decision_engine.py. Each constant that
-- the engine emits is a constructor; what it copies from its inputs keeps the input's type.
use student_success_intellig.Prelude.{ℕ, String, Bool, true, false, Option, none, List, [], ℤ, pos}
use student_success_intellig.Prelude.Dict.{Dict}
use student_success_intellig.Governance.{
  ExecutionMode, ExecutionType, AccessState, OutreachState, InsightState, Intervention, Trend,
  AiTier, unavailable, Threshold, TextDict,
}

pub data IntentKind : Type 0 where
  initiate_outreach retry_outreach escalate_to_operator recommend_intervention defer_pending_ai
        close_orchestration no_eligible_intent :
      IntentKind

-- `LOW | MEDIUM | HIGH | CRITICAL`, for the risk level and for the urgency of an escalation
pub data Level : Type 0 where
  low medium high critical : Level

pub data Scope : Type 0 where
  authorized shadow_only replay_only no_scope : Scope

pub data Basis : Type 0 where
  rule_based ai_assisted historical_replay : Basis

pub data Blocking : Type 0 where
  governance_precondition_failed replay_precondition_violated : Blocking

-- the entries of `rule_path_taken`
pub data Rule : Type 0 where
  rule_0 rule_0_pass rule_1 rule_1_pass rule_2 rule_2_pass rule_3 rule_4 rule_4_pass rule_5 rule_5a
        rule_6 rule_6_pass rule_7 rule_8 rule_9 rule_10 rule_11 rule_12 rule_13 rule_14 :
      Rule

-- the reason codes and warnings
pub data Code : Type 0 where
  config_unresolved execution_mode_invalid correlation_id_missing attribution_incomplete : Code
  replay_fingerprint_missing replay_live_mode_blocked replay_evaluation_complete : Code
  config_threshold_missing : String → Code
  outreach_closed_terminal compliance_hold_active access_revoked : Code
  access_revoked_sql_server_authoritative access_suspended_await_restoration : Code
  ai_insight_in_flight max_attempts_exhausted max_attempts_exhausted_review_required : Code
  critical_risk_escalation critical_risk_multi_factor high_risk_shadow_no_dispatch : Code
  high_risk_escalation_live ai_assisted_intervention_recommended : Code
  retry_eligible_window_passed first_outreach_eligible no_eligible_action_this_cycle : Code

-- the factors that `_compute_risk` collects
pub data Factor : Type 0 where
  hws_delinquency effort_decline inactivity payment_risk escalation_recurrence : Factor
  historical_trend_critical historical_trend_declining : Factor
  ai_confident_escalate_signal ai_advisory_escalate_signal : Factor

pub record GovernanceContext : Type 0 where
  pub config_version_id : Option String
  pub config_version_status : String
  pub config_rule_set : Dict Threshold
  pub execution_mode : ExecutionMode
  pub execution_type : ExecutionType
  pub correlation_id : Option String
  pub causation_id : Option String
  pub attribution_context : TextDict
  pub fingerprint_context : Option TextDict
  pub idempotency_key : Option String
  pub compliance_hold_flag : Bool

pub record AcademicContext : Type 0 where
  pub user_id : Option ℤ
  pub access_state : Option AccessState
  pub hws_behind : Option ℤ
  pub avg_eff_rating : Option ℤ
  pub last_activity_days : Option ℤ
  pub payment_balance : Option ℤ
  pub sql_server_sync_timestamp : Option String

pub record OperationalContext : Type 0 where
  pub outreach_state : Option OutreachState
  pub contact_attempt_count : ℤ
  pub retry_eligible : Bool

pub record AiInputContext : Type 0 where
  pub ai_insight_state : Option InsightState
  pub ai_confidence_score : Option ℤ
  pub ai_stale_flag : Bool
  pub ai_finalized_copy : Bool
  pub ai_recommended_intervention : Option Intervention

pub record HistoricalContext : Type 0 where
  pub historical_risk_trend : Option Trend
  pub prior_escalation_count : ℤ
  pub prior_snapshot_months : List String

pub record DecisionContext : Type 0 where
  pub governance : GovernanceContext
  pub academic : AcademicContext
  pub operational : OperationalContext
  pub ai : AiInputContext
  pub historical : HistoricalContext

pub record EscalationMetadata : Type 0 where
  pub escalation_required : Bool
  pub escalation_urgency : Level
  pub escalation_reason_codes : List Code
  pub escalation_context : Dict String

pub record AiOutputContext : Type 0 where
  pub ai_input_used : Bool
  pub ai_governance_tier : AiTier
  pub ai_confidence_score : ℤ
  pub stale_flag : Bool
  pub fallback_applied : Bool

pub record ReplaySafetyMetadata : Type 0 where
  pub is_replay : Bool
  pub source_artifact_id : Option String
  pub historical_config_version_id : Option String
  pub fingerprint_comparison_outcome : Option String
  pub replay_safe : Bool

-- `intent_confidence` is in hundredths.
pub record OrchestrationIntent : Type 0 where
  pub orchestration_intent : IntentKind
  pub intent_confidence : ℕ
  pub recommended_execution_path : String
  pub execution_mode : ExecutionMode
  pub execution_type : ExecutionType
  pub governance_scope : Scope
  pub correlation_id : Option String
  pub causation_id : Option String
  pub config_version_id : Option String
  pub attribution_metadata : TextDict
  pub rule_path_taken : List Rule
  pub decision_basis : Basis
  pub escalation_metadata : EscalationMetadata
  pub replay_safety_metadata : ReplaySafetyMetadata
  pub ai_context : AiOutputContext
  pub reason_codes : List Code
  pub intent_blocked : Bool
  pub blocking_reason : Option Blocking

-- `evaluation_duration_ms`, a reading of the clock, is left out.
pub record GovernanceDecisionResult : Type 0 where
  pub intent : OrchestrationIntent
  pub risk_level : Option Level
  pub config_threshold_warnings : List Code
  pub degradation_flags : List Code
  pub student_id_opaque : Option String

-- The defaults of the output dataclasses.
abbrev pub no_escalation : EscalationMetadata
no_escalation = record {
  escalation_required = false;
  escalation_urgency = low;
  escalation_reason_codes = [];
  escalation_context = [];
}

abbrev pub no_ai : AiOutputContext
no_ai = record {
  ai_input_used = false;
  ai_governance_tier = unavailable;
  ai_confidence_score = pos 0;
  stale_flag = false;
  fallback_applied = false;
}

abbrev pub no_replay : ReplaySafetyMetadata
no_replay = record {
  is_replay = false;
  source_artifact_id = none;
  historical_config_version_id = none;
  fingerprint_comparison_outcome = none;
  replay_safe = true;
}
