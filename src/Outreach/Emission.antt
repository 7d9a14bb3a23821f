-- ===== src/Outreach/Emission.antt =====
-- `_make_coordination_record` and `emit_orchestration_event_log` of app/services/_outreach_helpers.py.
use student_success_intellig.Prelude.{
  if◌then◌else◌, String, Bool, true, false, not, ◌||◌, Option, none, List,
}
use student_success_intellig.Prelude.Dict.{Dict}
use student_success_intellig.Outreach.Types.{
  Scope, Intent, Outcome, Candidacy, Rule, Code, OutreachOrchestrationContext,
  OutreachCoordinationRecord,
}
use student_success_intellig.Config.{Setting}
use student_success_intellig.Governance.{ExecutionMode, ExecutionType, AiTier}

-- the arguments of `_make_coordination_record` that the rules compute
pub record Findings : Type 0 where
  pub threshold_bindings : Dict Setting
  pub governance_scope : Scope
  pub intent_type : Option Intent
  pub dispatch_authorized : Bool
  pub dispatch_blocked_reason : Option Code
  pub degraded : Bool
  pub degradation_flags : List Code
  pub degradation_cause : Option Code
  pub escalation_candidate : Bool
  pub escalation_candidacy_reason : Option Candidacy
  pub compliance_hold_active : Bool
  pub ai_governance_tier : Option AiTier
  pub ai_escalation_authority : Bool
  pub stale_sql_server_data : Bool
  pub outcome : Outcome

abbrev pub is_authorized : Scope → Bool
is_authorized Scope.authorized = true
is_authorized _ = false

abbrev pub is_unavailable : Scope → Bool
is_unavailable Scope.unavailable = true
is_unavailable _ = false

-- `_make_coordination_record`
unfoldable pub coordination_record :
    OutreachOrchestrationContext
    → String
    → List Code
    → List Rule
    → Findings
    → OutreachCoordinationRecord
coordination_record ctx event_id codes path f = record {
  governance_scope = f.governance_scope;
  intent_type = f.intent_type;
  is_replay = false;
  live_effects_suppressed = not (is_authorized f.governance_scope);
  origin_source = ctx.origin_source;
  origin_authority = ctx.origin_authority;
  actor_identity = ctx.actor_identity;
  attribution_timestamp = ctx.attribution_timestamp;
  upstream_correlation_id = ctx.upstream_correlation_id;
  config_version_id = ctx.config_version_id;
  historical_config_version_id = ctx.historical_config_version_id;
  threshold_bindings = f.threshold_bindings;
  event_id = event_id;
  correlation_id = ctx.correlation_id;
  causation_id = ctx.causation_id;
  orchestration_cycle_id = ctx.orchestration_cycle_id;
  execution_type = ctx.execution_type;
  execution_mode = ctx.execution_mode;
  rule_path_taken = path;
  outcome = f.outcome;
  error_class = none;
  student_id_opaque = ctx.student_id_opaque;
  checkpoint_type = ctx.checkpoint_type;
  contact_attempt_count = ctx.contact_attempt_count;
  dispatch_authorized = f.dispatch_authorized;
  dispatch_blocked_reason = f.dispatch_blocked_reason;
  degraded = f.degraded;
  degradation_flags = f.degradation_flags;
  degradation_cause = f.degradation_cause;
  escalation_candidate = f.escalation_candidate;
  escalation_candidacy_reason = f.escalation_candidacy_reason;
  compliance_hold_active = f.compliance_hold_active;
  ai_governance_tier = f.ai_governance_tier;
  ai_escalation_authority = f.ai_escalation_authority;
  stale_sql_server_data = f.stale_sql_server_data;
  reason_codes = codes;
  orchestration_blocked = false;
  blocking_reason = none;
  orchestration_continues = not (is_unavailable f.governance_scope);
}

pub data Severity : Type 0 where
  info warning : Severity

pub data Event : Type 0 where
  orchestration_blocked orchestration_coordinated : Event

-- The logged entry: its level, its event, and the fields of the record that it copies.
pub record EventLog : Type 0 where
  pub level : Severity
  pub event : Event
  pub event_id : String
  pub governance_scope : Scope
  pub intent_type : Option Intent
  pub is_replay : Bool
  pub live_effects_suppressed : Bool
  pub execution_mode : ExecutionMode
  pub execution_type : ExecutionType
  pub correlation_id : Option String
  pub causation_id : Option String
  pub orchestration_cycle_id : Option String
  pub config_version_id : Option String
  pub rule_path_taken : List Rule
  pub outcome : Outcome
  pub error_class : Option String
  pub dispatch_authorized : Bool
  pub dispatch_blocked_reason : Option Code
  pub degraded : Bool
  pub degradation_cause : Option Code
  pub degradation_flags : List Code
  pub escalation_candidate : Bool
  pub escalation_candidacy_reason : Option Candidacy
  pub compliance_hold_active : Bool
  pub ai_governance_tier : Option AiTier
  pub ai_escalation_authority : Bool
  pub stale_sql_server_data : Bool
  pub orchestration_blocked : Bool
  pub blocking_reason : Option Code
  pub orchestration_continues : Bool
  pub reason_codes : List Code
  pub student_id_opaque : Option String

-- `emit_orchestration_event_log`
unfoldable pub event_log : OutreachCoordinationRecord → Option String → EventLog
event_log r sid = record {
  level = if r.degraded || r.orchestration_blocked then warning else info;
  event =
      if r.orchestration_blocked
      then Event.orchestration_blocked
      else Event.orchestration_coordinated;
  event_id = r.event_id;
  governance_scope = r.governance_scope;
  intent_type = r.intent_type;
  is_replay = r.is_replay;
  live_effects_suppressed = r.live_effects_suppressed;
  execution_mode = r.execution_mode;
  execution_type = r.execution_type;
  correlation_id = r.correlation_id;
  causation_id = r.causation_id;
  orchestration_cycle_id = r.orchestration_cycle_id;
  config_version_id = r.config_version_id;
  rule_path_taken = r.rule_path_taken;
  outcome = r.outcome;
  error_class = r.error_class;
  dispatch_authorized = r.dispatch_authorized;
  dispatch_blocked_reason = r.dispatch_blocked_reason;
  degraded = r.degraded;
  degradation_cause = r.degradation_cause;
  degradation_flags = r.degradation_flags;
  escalation_candidate = r.escalation_candidate;
  escalation_candidacy_reason = r.escalation_candidacy_reason;
  compliance_hold_active = r.compliance_hold_active;
  ai_governance_tier = r.ai_governance_tier;
  ai_escalation_authority = r.ai_escalation_authority;
  stale_sql_server_data = r.stale_sql_server_data;
  orchestration_blocked = r.orchestration_blocked;
  blocking_reason = r.blocking_reason;
  orchestration_continues = r.orchestration_continues;
  reason_codes = r.reason_codes;
  student_id_opaque = sid;
}
