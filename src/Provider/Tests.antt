-- ===== src/Provider/Tests.antt =====
-- Runs of Provider at concrete inputs.
use student_success_intellig.Prelude.{
  if◌then◌else◌, ℤ, pos, whole, String, ◌≡◌, refl, true, false, Option, none, some, [], ◌∷◌, str_eq,
}
use student_success_intellig.Prelude.Dict.{get, contains}
use student_success_intellig.Provider.Types.{ProviderOrchestrationContext}
use student_success_intellig.Provider.Gate.{gate_codes, resolve_provider_thresholds}
use student_success_intellig.Provider.Engine.{assess_provider_orchestration}
use student_success_intellig.Outreach.Types.{Scope, unknown_circuit}
use student_success_intellig.Outreach.Intent.{int_of}
use student_success_intellig.Config.{Setting, resolve_keys}
use student_success_intellig.Idempotency.{run}
use student_success_intellig.Governance.{live, original}
use student_success_intellig.Provider.Containment.{IsContained, assess_provider-IsContained}
use student_success_intellig.Provider.Delivery.{contains-assess_provider, registry, delivered_once}

abbrev parse : String → Option ℤ
parse text = if str_eq text "3" then some (whole 3) else none

-- a first LIVE attempt with three retries allowed
abbrev sample : ProviderOrchestrationContext
sample = record {
  config_version_id = some "cfg-9";
  execution_mode = live;
  execution_type = original;
  config_rule_set = some (("provider_failure_max_retry_attempts", Setting.other "3") ∷ []);
  compliance_hold_active = false;
  idempotency_key = some "17:python:1";
  origin_source = some "scheduler";
  origin_authority = some "system";
  correlation_id = some "corr-1";
  causation_id = some "cause-1";
  upstream_intent_id = some "cycle-1";
  actor_identity = some "batch_runner";
  provider_health_state = "UNKNOWN";
  circuit_breaker_state = unknown_circuit;
  ghl_message_id = none;
  retry_attempt_count = whole 1;
  outbound_retry_budget_remaining = pos 0;
  historical_config_version_id = none;
  source_artifact_id = none;
  provider_outage_active = false;
  sync_lag_hours = pos 0;
  delivery_telemetry_stale = false;
  student_id_opaque = some "17";
  interaction_path = "outbound";
}

abbrev held : ProviderOrchestrationContext
held = record sample { compliance_hold_active = true }

assess_provider-IsContained_example :
    IsContained (assess_provider_orchestration parse parse [] "event-1" sample).0
assess_provider-IsContained_example = assess_provider-IsContained parse parse [] "event-1" sample

contains-assess_provider_example :
    contains "17:python:1" (assess_provider_orchestration parse parse [] "event-1" sample).2 ≡ true
unfolding contains gate_codes get resolve_provider_thresholds resolve_keys int_of
contains-assess_provider_example =
    contains-assess_provider parse parse "17:python:1" [] "event-1" sample

delivered_once_example :
    let before =
      run
        (registry parse parse)
        (assess_provider_orchestration parse parse [] "event-1" sample).2
        (("event-2", held) ∷ []) in
    let (a, _, after) = assess_provider_orchestration parse parse before "event-3" sample in
    (a.governance_scope ≡ Scope.duplicate_suppressed) × (after ≡ before)
unfolding gate_codes get resolve_provider_thresholds resolve_keys int_of
delivered_once_example =
    delivered_once parse parse "17:python:1" [] "event-1" sample (("event-2", held) ∷ []) "event-3"
      sample refl refl refl refl refl
