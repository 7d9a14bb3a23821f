-- ===== src/Provider/Types.antt =====
-- The context and the assessment of app/services/_ghl_types.py. Each constant that the service emits is a
-- constructor. The durations are left out.
use student_success_intellig.Prelude.{ℤ, String, Bool, Option, List}
use student_success_intellig.Prelude.Dict.{Dict}
use student_success_intellig.Outreach.Types.{Scope, CircuitState}
use student_success_intellig.Config.{Setting}
use student_success_intellig.Governance.{ExecutionMode, ExecutionType}

pub data EventType : Type 0 where
  outbound_trigger shadow_simulation replay_simulation deduplication_suppress : EventType

-- the causes of a degradation
pub data Cause : Type 0 where
  compliance_hold circuit_breaker_open provider_outage sync_lag_exceeded : Cause
  config_thresholds_missing : Cause

pub data Basis : Type 0 where
  governance_block replay_containment shadow_containment idempotency_dedup : Basis

pub data Outcome : Type 0 where
  blocked suppressed_replay suppressed_shadow duplicate_suppressed : Outcome

pub data Rule : Type 0 where
  rule_0 rule_1 rule_2 rule_3 rule_4 rule_5 rule_6 rule_7 rule_9 rule_10 rule_11 : Rule

-- the reason codes and blocking reasons
pub data Code : Type 0 where
  invalid_execution_mode invalid_execution_type config_version_id_missing : Code
  correlation_id_missing origin_source_missing origin_authority_missing : Code
  replay_outbound_suppressed compliance_hold_active circuit_breaker_open : Code
  provider_outage_active sync_max_age_unknown sync_lag_exceeded sync_max_age_invalid : Code
  shadow_outbound_suppressed retry_budget_exhausted max_retry_value_invalid : Code
  idempotency_duplicate_suppressed : Code
  config_threshold_missing : String → Code
  live_scope_shadow_only_phase11 live_scope_requires_phase12_cert : Code

-- its name in the worker, which has codes of its own
abbrev pub ProviderCode : Type 0
ProviderCode = Code

pub record ProviderOrchestrationContext : Type 0 where
  pub config_version_id : Option String
  pub execution_mode : ExecutionMode
  pub execution_type : ExecutionType
  pub config_rule_set : Option (Dict Setting)
  pub compliance_hold_active : Bool
  pub idempotency_key : Option String
  pub origin_source : Option String
  pub origin_authority : Option String
  pub correlation_id : Option String
  pub causation_id : Option String
  pub upstream_intent_id : Option String
  pub actor_identity : Option String
  pub provider_health_state : String
  pub circuit_breaker_state : CircuitState
  pub ghl_message_id : Option String
  pub retry_attempt_count : ℤ
  pub outbound_retry_budget_remaining : ℤ
  pub historical_config_version_id : Option String
  pub source_artifact_id : Option String
  pub provider_outage_active : Bool
  pub sync_lag_hours : ℤ
  pub delivery_telemetry_stale : Bool
  pub student_id_opaque : Option String
  pub interaction_path : String

pub record ProviderOrchestrationAssessment : Type 0 where
  pub provider_event_type : Option EventType
  pub governance_scope : Scope
  pub is_replay : Bool
  pub outbound_suppressed : Bool
  pub historical_provider_context_only : Bool
  pub historical_config_version_id : Option String
  pub replay_provider_source : Option String
  pub origin_source : Option String
  pub origin_authority : Option String
  pub correlation_id : Option String
  pub causation_id : Option String
  pub upstream_intent_id : Option String
  pub config_version_id : Option String
  pub threshold_bindings : Dict Setting
  pub provider : String
  pub ghl_message_id : Option String
  pub provider_error_class : Option String
  pub degraded : Bool
  pub degradation_cause : Option Cause
  pub outbound_blocked : Bool
  pub orchestration_continues : Bool
  pub event_id : String
  pub rule_path_taken : List Rule
  pub assessment_basis : Basis
  pub execution_type : ExecutionType
  pub execution_mode : ExecutionMode
  pub outcome : Outcome
  pub reason_codes : List Code
  pub provider_blocked : Bool
  pub blocking_reason : Option Code
