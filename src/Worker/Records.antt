-- ===== src/Worker/Records.antt =====
-- The record maker and the execution log of app/services/_worker_helpers.py.
use student_success_intellig.Prelude.{
  if◌then◌else◌, ℤ, String, Bool, true, false, ◌||◌, Option, none, List,
}
use student_success_intellig.Worker.Types.{
  Outcome, Rule, Code, Reason, WorkerJobContext, WorkerExecutionRecord,
}
use student_success_intellig.Outreach.Types.{Scope, Intent, CoordinationCode}
use student_success_intellig.Provider.Transport.{DispatchOutcome, Channel}
use student_success_intellig.Governance.{ExecutionMode, ExecutionType}

-- what a rule decides: the keyword arguments of the record maker
pub record Decision : Type 0 where
  pub execution_blocked : Bool
  pub blocking_reason : Option Reason
  pub dispatch_delegated : Bool
  pub channel : Option Channel
  pub dispatch_outcome : Option DispatchOutcome
  pub outbound_suppressed : Bool
  pub suppression_reason : Option Reason

-- `_build_execution_record`
unfoldable pub execution_record :
    WorkerJobContext → String → Outcome → List Rule → List Code → Decision → WorkerExecutionRecord
execution_record ctx event result path codes d = record {
  job_id = ctx.job_id;
  governance_scope = ctx.governance_scope;
  outcome = result;
  correlation_id = ctx.correlation_id;
  causation_id = ctx.causation_id;
  orchestration_cycle_id = ctx.orchestration_cycle_id;
  origin_source = ctx.origin_source;
  origin_authority = ctx.origin_authority;
  actor_identity = ctx.actor_identity;
  config_version_id = ctx.config_version_id;
  execution_mode = ctx.execution_mode;
  execution_type = ctx.execution_type;
  intent_type = ctx.intent_type;
  dispatch_delegated = d.dispatch_delegated;
  dispatch_outcome = d.dispatch_outcome;
  channel = d.channel;
  outbound_suppressed = d.outbound_suppressed;
  suppression_reason = d.suppression_reason;
  degraded = ctx.degraded;
  degradation_cause = ctx.degradation_cause;
  student_id_opaque = ctx.student_id_opaque;
  checkpoint_type = ctx.checkpoint_type;
  contact_attempt = ctx.contact_attempt;
  event_id = event;
  rule_path_taken = path;
  reason_codes = codes;
  error_class = none;
  execution_blocked = d.execution_blocked;
  blocking_reason = d.blocking_reason;
}

pub data Severity : Type 0 where
  info warning : Severity

-- `record.outcome in ("blocked", "execution_error")`
abbrev pub is_failure : Outcome → Bool
is_failure Outcome.blocked = true
is_failure _ = false

-- The logged entry: its level and the fields of the record that it copies.
pub record ExecutionLog : Type 0 where
  pub level : Severity
  pub job_id : String
  pub event_id : String
  pub governance_scope : Scope
  pub outcome : Outcome
  pub execution_mode : ExecutionMode
  pub execution_type : ExecutionType
  pub correlation_id : Option String
  pub causation_id : Option String
  pub orchestration_cycle_id : Option String
  pub origin_source : Option String
  pub origin_authority : Option String
  pub config_version_id : Option String
  pub intent_type : Option Intent
  pub dispatch_delegated : Bool
  pub dispatch_outcome : Option DispatchOutcome
  pub channel : Option Channel
  pub outbound_suppressed : Bool
  pub suppression_reason : Option Reason
  pub execution_blocked : Bool
  pub blocking_reason : Option Reason
  pub degraded : Bool
  pub degradation_cause : Option CoordinationCode
  pub checkpoint_type : Option String
  pub contact_attempt : ℤ
  pub rule_path_taken : List Rule
  pub reason_codes : List Code
  pub error_class : Option String
  pub student_id_opaque : Option String

-- `emit_worker_execution_log`
unfoldable pub execution_log : WorkerExecutionRecord → Option String → ExecutionLog
execution_log r sid = record {
  level = if r.execution_blocked || r.degraded || is_failure r.outcome then warning else info;
  job_id = r.job_id;
  event_id = r.event_id;
  governance_scope = r.governance_scope;
  outcome = r.outcome;
  execution_mode = r.execution_mode;
  execution_type = r.execution_type;
  correlation_id = r.correlation_id;
  causation_id = r.causation_id;
  orchestration_cycle_id = r.orchestration_cycle_id;
  origin_source = r.origin_source;
  origin_authority = r.origin_authority;
  config_version_id = r.config_version_id;
  intent_type = r.intent_type;
  dispatch_delegated = r.dispatch_delegated;
  dispatch_outcome = r.dispatch_outcome;
  channel = r.channel;
  outbound_suppressed = r.outbound_suppressed;
  suppression_reason = r.suppression_reason;
  execution_blocked = r.execution_blocked;
  blocking_reason = r.blocking_reason;
  degraded = r.degraded;
  degradation_cause = r.degradation_cause;
  checkpoint_type = r.checkpoint_type;
  contact_attempt = r.contact_attempt;
  rule_path_taken = r.rule_path_taken;
  reason_codes = r.reason_codes;
  error_class = r.error_class;
  student_id_opaque = sid;
}
