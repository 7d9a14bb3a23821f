-- ===== src/Provider/Emission.antt =====
-- `emit_provider_event_log` of app/services/_ghl_helpers.py.
use student_success_intellig.Prelude.{if◌then◌else◌, String, Bool, not, ◌||◌, Option, none, List}
use student_success_intellig.Provider.Types.{
  EventType, Cause, Basis, Outcome, Rule, Code, ProviderOrchestrationAssessment,
}
use student_success_intellig.Outreach.Types.{Scope}
use student_success_intellig.Governance.{ExecutionMode, ExecutionType}

pub data Severity : Type 0 where
  info warning : Severity

-- The logged entry: its level and the fields of the assessment that it copies.
pub record EventLog : Type 0 where
  pub level : Severity
  pub event_id : String
  pub provider : String
  pub provider_event_type : Option EventType
  pub governance_scope : Scope
  pub execution_mode : ExecutionMode
  pub execution_type : ExecutionType
  pub is_replay : Bool
  pub outbound_suppressed : Bool
  pub outbound_blocked : Bool
  pub historical_provider_context_only : Bool
  pub config_version_id : Option String
  pub correlation_id : Option String
  pub origin_source : Option String
  pub origin_authority : Option String
  pub degraded : Bool
  pub degradation_cause : Option Cause
  pub orchestration_continues : Bool
  pub provider_blocked : Bool
  pub blocking_reason : Option Code
  pub reason_codes : List Code
  pub rule_path_taken : List Rule
  pub assessment_basis : Basis
  pub outcome : Outcome
  pub student_id_opaque : Option String
  pub ghl_message_id : Option String

-- `emit_provider_event_log`; the message id is kept back where the outbound message is
unfoldable pub event_log : ProviderOrchestrationAssessment → Option String → EventLog
event_log a sid = record {
  level = if a.degraded || a.provider_blocked then warning else info;
  event_id = a.event_id;
  provider = a.provider;
  provider_event_type = a.provider_event_type;
  governance_scope = a.governance_scope;
  execution_mode = a.execution_mode;
  execution_type = a.execution_type;
  is_replay = a.is_replay;
  outbound_suppressed = a.outbound_suppressed;
  outbound_blocked = a.outbound_blocked;
  historical_provider_context_only = a.historical_provider_context_only;
  config_version_id = a.config_version_id;
  correlation_id = a.correlation_id;
  origin_source = a.origin_source;
  origin_authority = a.origin_authority;
  degraded = a.degraded;
  degradation_cause = a.degradation_cause;
  orchestration_continues = a.orchestration_continues;
  provider_blocked = a.provider_blocked;
  blocking_reason = a.blocking_reason;
  reason_codes = a.reason_codes;
  rule_path_taken = a.rule_path_taken;
  assessment_basis = a.assessment_basis;
  outcome = a.outcome;
  student_id_opaque = sid;
  ghl_message_id = if not a.outbound_suppressed then a.ghl_message_id else none;
}
