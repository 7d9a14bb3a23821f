-- ===== src/Worker/Types.antt =====
-- The context and the record of app/services/_worker_types.py. Each constant that the worker emits is a
-- constructor. The durations are left out.
use student_success_intellig.Prelude.{ℤ, String, Bool, Option, List}
use student_success_intellig.Prelude.Dict.{Dict}
use student_success_intellig.Outreach.Types.{Scope, Intent, CircuitState, CoordinationCode}
use student_success_intellig.Provider.Transport.{DispatchOutcome, Channel}
use student_success_intellig.Provider.Types.{ProviderCode}
use student_success_intellig.Config.{Setting}
use student_success_intellig.Governance.{ExecutionMode, ExecutionType}

pub data Outcome : Type 0 where
  dispatch_delegated suppressed blocked : Outcome

pub data Rule : Type 0 where
  rule_0 rule_1 rule_2 rule_3 rule_4 rule_5 rule_6 : Rule

-- the reason codes
pub data Code : Type 0 where
  config_version_unresolved execution_mode_invalid execution_type_invalid : Code
  correlation_id_missing : Code
  attribution_missing_origin_source attribution_missing_origin_authority : Code
  attribution_missing_actor_identity : Code
  dispatch_not_authorized orchestration_blocked governance_scope_suppressed : Code
  scope : Scope → Code
  replay_execution_suppressed live_effects_suppressed compliance_hold_active : Code
  transport : ProviderCode → Code

-- the blocking and suppression reasons
pub data Reason : Type 0 where
  precondition : Code → Reason
  upstream : CoordinationCode → Reason
  dispatch_not_authorized replay_containment live_effects_suppressed compliance_hold : Reason
  scope governance_scope transport_scope : Scope → Reason

pub record WorkerJobContext : Type 0 where
  pub governance_scope : Scope
  pub intent_type : Option Intent
  pub is_replay : Bool
  pub live_effects_suppressed : Bool
  pub dispatch_authorized : Bool
  pub dispatch_blocked_reason : Option CoordinationCode
  pub correlation_id : Option String
  pub causation_id : Option String
  pub orchestration_cycle_id : Option String
  pub origin_source : Option String
  pub origin_authority : Option String
  pub actor_identity : Option String
  pub attribution_timestamp : Option String
  pub config_version_id : Option String
  pub execution_mode : ExecutionMode
  pub execution_type : ExecutionType
  pub threshold_bindings : Dict Setting
  pub idempotency_key : Option String
  pub student_id_opaque : Option String
  pub checkpoint_type : Option String
  pub contact_attempt : ℤ
  pub provider_health_state : String
  pub circuit_breaker_state : CircuitState
  pub degraded : Bool
  pub degradation_cause : Option CoordinationCode
  pub degradation_flags : List CoordinationCode
  pub compliance_hold_active : Bool
  pub job_id : String

pub record WorkerExecutionRecord : Type 0 where
  pub job_id : String
  pub governance_scope : Scope
  pub outcome : Outcome
  pub correlation_id : Option String
  pub causation_id : Option String
  pub orchestration_cycle_id : Option String
  pub origin_source : Option String
  pub origin_authority : Option String
  pub actor_identity : Option String
  pub config_version_id : Option String
  pub execution_mode : ExecutionMode
  pub execution_type : ExecutionType
  pub intent_type : Option Intent
  pub dispatch_delegated : Bool
  pub dispatch_outcome : Option DispatchOutcome
  pub channel : Option Channel
  pub outbound_suppressed : Bool
  pub suppression_reason : Option Reason
  pub degraded : Bool
  pub degradation_cause : Option CoordinationCode
  pub student_id_opaque : Option String
  pub checkpoint_type : Option String
  pub contact_attempt : ℤ
  pub event_id : String
  pub rule_path_taken : List Rule
  pub reason_codes : List Code
  pub error_class : Option String
  pub execution_blocked : Bool
  pub blocking_reason : Option Reason
