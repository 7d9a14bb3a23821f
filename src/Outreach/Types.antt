-- ===== src/Outreach/Types.antt =====
-- The context and the record of app/services/_outreach_types.py. Each constant that the service emits is
-- a constructor. The durations are left out. The lifecycle states are those of app/state_machine.py.
use student_success_intellig.Prelude.{ℤ, String, Bool, Option, List}
use student_success_intellig.Prelude.Dict.{Dict}
use student_success_intellig.Config.{Setting}
use student_success_intellig.Lifecycle.Machine.{State}
use student_success_intellig.Governance.{ExecutionMode, ExecutionType, AiTier}

-- The governance scopes of the coordination, worker and provider layers.
pub data Scope : Type 0 where
  authorized shadow_only replay_only unavailable maintenance blocked duplicate_suppressed : Scope

pub data Intent : Type 0 where
  initiate_outreach retry_outreach escalate close defer_pending_ai hold : Intent

pub data CircuitState : Type 0 where
  open_circuit closed_circuit half_open unknown_circuit : CircuitState
  other : String → CircuitState

pub data Outcome : Type 0 where
  success failure degraded shadow_only : Outcome

pub data Candidacy : Type 0 where
  provider_failure_escalation_candidacy retry_exhausted_escalation_candidacy : Candidacy

pub data Rule : Type 0 where
  rule_0 rule_1 rule_2 rule_3 rule_4 rule_5 rule_6 rule_7 rule_8 rule_9 rule_10 rule_11 rule_12 :
      Rule

-- the reason codes, degradation flags and blocking reasons
pub data Code : Type 0 where
  invalid_execution_mode invalid_execution_type config_version_id_missing : Code
  correlation_id_missing origin_source_missing origin_authority_missing actor_identity_missing :
      Code
  idempotency_duplicate_detected maintenance_mode_active maintenance_mode_suspended : Code
  replay_mode_active replay_source_artifact_missing replay_live_dispatch_prohibited : Code
  config_threshold_missing : String → Code
  stale_sql_server_data circuit_breaker_open compliance_hold_active : Code
  compliance_hold_dispatch_blocked : Code
  ai_tier_escalation_restricted : AiTier → Code
  intent : Intent → Code
  live_scope_shadow_only_phase11 : Code

-- its name in the worker, which has codes of its own
abbrev pub CoordinationCode : Type 0
CoordinationCode = Code

pub record OutreachOrchestrationContext : Type 0 where
  pub config_version_id : Option String
  pub execution_mode : ExecutionMode
  pub execution_type : ExecutionType
  pub correlation_id : Option String
  pub config_rule_set : Option (Dict Setting)
  pub causation_id : Option String
  pub orchestration_cycle_id : Option String
  pub idempotency_key : Option String
  pub compliance_hold_flag : Bool
  pub maintenance_mode_active : Bool
  pub origin_source : Option String
  pub origin_authority : Option String
  pub actor_identity : Option String
  pub attribution_timestamp : Option String
  pub upstream_correlation_id : Option String
  pub student_id_opaque : Option String
  pub checkpoint_type : Option String
  pub outreach_state : Option State
  pub contact_attempt_count : ℤ
  pub last_contact_at : Option String
  pub circuit_breaker_state : CircuitState
  pub provider_degradation_state : String
  pub sync_lag_hours : ℤ
  pub ai_governance_tier : Option AiTier
  pub ai_confidence_score : Option ℤ
  pub historical_config_version_id : Option String
  pub source_artifact_id : Option String

pub record OutreachCoordinationRecord : Type 0 where
  pub governance_scope : Scope
  pub intent_type : Option Intent
  pub is_replay : Bool
  pub live_effects_suppressed : Bool
  pub origin_source : Option String
  pub origin_authority : Option String
  pub actor_identity : Option String
  pub attribution_timestamp : Option String
  pub upstream_correlation_id : Option String
  pub config_version_id : Option String
  pub historical_config_version_id : Option String
  pub threshold_bindings : Dict Setting
  pub event_id : String
  pub correlation_id : Option String
  pub causation_id : Option String
  pub orchestration_cycle_id : Option String
  pub execution_type : ExecutionType
  pub execution_mode : ExecutionMode
  pub rule_path_taken : List Rule
  pub outcome : Outcome
  pub error_class : Option String
  pub student_id_opaque : Option String
  pub checkpoint_type : Option String
  pub contact_attempt_count : ℤ
  pub dispatch_authorized : Bool
  pub dispatch_blocked_reason : Option Code
  pub degraded : Bool
  pub degradation_flags : List Code
  pub degradation_cause : Option Code
  pub escalation_candidate : Bool
  pub escalation_candidacy_reason : Option Candidacy
  pub compliance_hold_active : Bool
  pub ai_governance_tier : Option AiTier
  pub ai_escalation_authority : Bool
  pub stale_sql_server_data : Bool
  pub reason_codes : List Code
  pub orchestration_blocked : Bool
  pub blocking_reason : Option Code
  pub orchestration_continues : Bool
