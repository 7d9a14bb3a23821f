-- ===== src/Worker/Context.antt =====
-- The contexts that app/services/worker.py builds. The text of a number, Python's `str`, is an argument;
-- the job id, which the source draws at random, too.
use student_success_intellig.Prelude.{
  if◌then◌else◌, ℤ, pos, zero, String, append_text, Bool, true, false, Option, none, some,
}
use student_success_intellig.Worker.Types.{WorkerJobContext}
use student_success_intellig.Outreach.Types.{
  Intent, initiate_outreach, retry_outreach, close, defer_pending_ai, hold, unknown_circuit,
  OutreachCoordinationRecord,
}
use student_success_intellig.Provider.Transport.{Student, Channel, ghl, call, sms, email}
use student_success_intellig.Provider.Types.{ProviderOrchestrationContext}

-- `student.get("UserID")` is truthy
abbrev pub is_nonzero : ℤ → Bool
is_nonzero (pos zero) = false
is_nonzero _ = true

-- `str(student.get("UserID")) if student.get("UserID") else None`
unfoldable pub opaque_id : (ℤ → String) → Option ℤ → Option String
opaque_id show none = none
opaque_id show (some n) = if is_nonzero n then some (show n) else none

-- what an f-string makes of an optional value
abbrev pub text_or_none : Option String → String
text_or_none none = "None"
text_or_none (some text) = text

abbrev pub shown : (ℤ → String) → Option ℤ → String
shown show none = "None"
shown show (some n) = show n

-- `f"{student.get('UserID')}:{student.get('PathName')}:{attempt}"`
unfoldable pub idempotency_text : (ℤ → String) → Student → ℤ → String
idempotency_text show student attempt = append_text (shown show student.user_id) (
    append_text ":" (append_text (text_or_none student.path_name) (append_text ":" (show attempt))))

-- `_make_job_context`
unfoldable pub make_job_context :
    (ℤ → String) → OutreachCoordinationRecord → Student → ℤ → String → WorkerJobContext
make_job_context show r student attempt job = record {
  governance_scope = r.governance_scope;
  intent_type = r.intent_type;
  is_replay = r.is_replay;
  live_effects_suppressed = r.live_effects_suppressed;
  dispatch_authorized = r.dispatch_authorized;
  dispatch_blocked_reason = r.dispatch_blocked_reason;
  correlation_id = r.correlation_id;
  causation_id = r.causation_id;
  orchestration_cycle_id = r.orchestration_cycle_id;
  origin_source = r.origin_source;
  origin_authority = r.origin_authority;
  actor_identity = r.actor_identity;
  attribution_timestamp = r.attribution_timestamp;
  config_version_id = r.config_version_id;
  execution_mode = r.execution_mode;
  execution_type = r.execution_type;
  threshold_bindings = r.threshold_bindings;
  idempotency_key = some (idempotency_text show student attempt);
  student_id_opaque = opaque_id show student.user_id;
  checkpoint_type = r.checkpoint_type;
  contact_attempt = attempt;
  provider_health_state = "UNKNOWN";
  circuit_breaker_state = unknown_circuit;
  degraded = r.degraded;
  degradation_cause = r.degradation_cause;
  degradation_flags = r.degradation_flags;
  compliance_hold_active = r.compliance_hold_active;
  job_id = job;
}

-- `_make_provider_context`
unfoldable pub make_provider_context : WorkerJobContext → ProviderOrchestrationContext
make_provider_context ctx = record {
  config_version_id = ctx.config_version_id;
  execution_mode = ctx.execution_mode;
  execution_type = ctx.execution_type;
  config_rule_set = some ctx.threshold_bindings;
  compliance_hold_active = ctx.compliance_hold_active;
  idempotency_key = ctx.idempotency_key;
  origin_source = ctx.origin_source;
  origin_authority = ctx.origin_authority;
  correlation_id = ctx.correlation_id;
  causation_id = ctx.causation_id;
  upstream_intent_id = ctx.orchestration_cycle_id;
  actor_identity = ctx.actor_identity;
  provider_health_state = ctx.provider_health_state;
  circuit_breaker_state = ctx.circuit_breaker_state;
  ghl_message_id = none;
  retry_attempt_count = ctx.contact_attempt;
  outbound_retry_budget_remaining = pos 0;
  historical_config_version_id = none;
  source_artifact_id = none;
  provider_outage_active = false;
  sync_lag_hours = pos 0;
  delivery_telemetry_stale = false;
  student_id_opaque = ctx.student_id_opaque;
  interaction_path = "outbound";
}

-- `_channel_for_intent`
unfoldable pub channel_for_intent : Option Intent → Channel
channel_for_intent (some initiate_outreach) = call
channel_for_intent (some retry_outreach) = sms
channel_for_intent (some Intent.escalate) = email
channel_for_intent (some close) = ghl
channel_for_intent (some defer_pending_ai) = ghl
channel_for_intent (some hold) = ghl
channel_for_intent none = call
