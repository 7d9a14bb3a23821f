-- ===== src/Priority/Types.antt =====
-- The context and the record of app/services/_priority_types.py. Each constant that the service emits
-- is a constructor. The durations are left out.
use student_success_intellig.Prelude.{ℤ, String, Bool, Option, List}
use student_success_intellig.Prelude.Dict.{Dict}
use student_success_intellig.Config.{Setting}
use student_success_intellig.Governance.{
  ExecutionMode, ExecutionType, InsightState, Intervention, Trend, AiTier,
}

pub data Scope : Type 0 where
  authorized shadow_only replay_only unavailable maintenance : Scope

pub data Priority : Type 0 where
  critical high medium low unknown : Priority

pub data Risk : Type 0 where
  high medium low : Risk

pub data Basis : Type 0 where
  rule_based ai_assisted fallback historical_replay : Basis

pub data Outcome : Type 0 where
  success failure degraded shadow_only deferred : Outcome

pub data Rule : Type 0 where
  rule_0 rule_1 rule_2 rule_3 rule_4 rule_5 rule_5a rule_6 rule_7 rule_8 rule_9 rule_10 : Rule

-- the reason codes and degradation flags
pub data Code : Type 0 where
  invalid_execution_mode invalid_execution_type config_version_id_missing : Code
  correlation_id_missing origin_source_missing origin_authority_missing actor_identity_missing :
      Code
  idempotency_duplicate_detected maintenance_mode_active replay_mode_active : Code
  replay_source_artifact_missing : Code
  config_threshold_missing : String → Code
  ai_tier : AiTier → Code
  ai_insight_in_flight_defer hws_behind_high_risk hws_behind_moderate_risk : Code
  eff_rating_medium_risk inactivity_high_risk inactivity_moderate_risk : Code
  payment_balance_medium_risk escalation_recurrence_high_risk historical_trend_critical : Code
  historical_trend_declining access_transition_recent ai_escalation_signal_confident : Code
  ai_escalation_signal_advisory ai_escalation_signal_stale_low : Code
  base_priority : Priority → Code
  ai_confident_escalate_to_critical ai_confident_priority_upgraded : Code
  ai_advisory_priority_upgraded stale_ai_prioritization_skipped : Code
  ai_unavailable_fallback_applied ai_finalized_copy_not_applied live_scope_shadow_only_phase11 :
      Code

-- the `value` of a scoring factor
pub data Value : Type 0 where
  amount : ℤ → Value
  trend : Trend → Value
  intervention : Intervention → Value

pub record ScoringFactor : Type 0 where
  pub factor : String
  pub contribution : Risk
  pub threshold_key : String
  pub value : Value

pub record PrioritizationContext : Type 0 where
  pub config_version_id : Option String
  pub execution_mode : ExecutionMode
  pub execution_type : ExecutionType
  pub correlation_id : Option String
  pub config_rule_set : Option (Dict Setting)
  pub causation_id : Option String
  pub orchestration_cycle_id : Option String
  pub idempotency_key : Option String
  pub maintenance_mode_active : Bool
  pub origin_source : Option String
  pub origin_authority : Option String
  pub actor_identity : Option String
  pub attribution_timestamp : Option String
  pub upstream_correlation_id : Option String
  pub hws_behind : Option ℤ
  pub avg_eff_rating : Option ℤ
  pub last_activity_days : Option ℤ
  pub payment_balance : Option ℤ
  pub access_last_changed_days : Option ℤ
  pub historical_risk_trend : Option Trend
  pub prior_escalation_count : Option ℤ
  pub ai_insight_state : Option InsightState
  pub ai_confidence_score : Option ℤ
  pub ai_recommended_intervention : Option Intervention
  pub ai_stale_flag : Option Bool
  pub ai_finalized_copy : Bool
  pub source_artifact_id : Option String
  pub historical_config_version_id : Option String
  pub execution_state_before : Option String
  pub execution_state_after : Option String
  pub student_id_opaque : Option String

pub record PrioritizationRecord : Type 0 where
  pub advisory_priority : Priority
  pub governance_scope : Scope
  pub assessment_basis : Basis
  pub is_replay : Bool
  pub live_effects_suppressed : Bool
  pub origin_source : Option String
  pub origin_authority : Option String
  pub actor_identity : Option String
  pub attribution_timestamp : Option String
  pub upstream_correlation_id : Option String
  pub config_version_id : Option String
  pub historical_config_version_id : Option String
  pub threshold_bindings : Dict Setting
  pub event_id : String
  pub correlation_id : Option String
  pub causation_id : Option String
  pub orchestration_cycle_id : Option String
  pub execution_type : ExecutionType
  pub execution_mode : ExecutionMode
  pub rule_path_taken : List Rule
  pub outcome : Outcome
  pub error_class : Option String
  pub scoring_factors : List ScoringFactor
  pub risk_contributions : List Risk
  pub ai_governance_tier : AiTier
  pub ai_confidence_score : Option ℤ
  pub ai_priority_adjustment_applied : Bool
  pub ai_fallback_applied : Bool
  pub execution_state_before : Option String
  pub execution_state_after : Option String
  pub causation_chain_preserved : Bool
  pub append_only_enforced : Bool
  pub replay_lineage_preserved : Bool
  pub scoring_lineage_immutable : Bool
  pub scoring_emit_authorized : Bool
  pub degraded : Bool
  pub degradation_flags : List Code
  pub degradation_cause : Option Code
  pub reason_codes : List Code
  pub orchestration_blocked : Bool
  pub blocking_reason : Option Code
  pub orchestration_continues : Bool
