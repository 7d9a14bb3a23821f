-- ===== src/Provider/Engine.antt =====
-- `assess_provider_orchestration` of app/services/ghl.py. The event id is an argument; the registered
-- idempotency keys are passed and returned. What Python's `int` and `float` make of a text is an
-- argument, `none` where they raise `ValueError`.
use student_success_intellig.Prelude.{
  if◌then◌else◌, truthy, ℤ, ltb_ℤ, leb_ℤ, nonempty, when, String, Bool, true, false, not, ◌||◌,
  Option, none, some, List, [], ◌∷◌, ◌++◌, map,
}
use student_success_intellig.Prelude.Dict.{Dict, get, or_empty, contains}
use student_success_intellig.Provider.Types.{
  Cause, compliance_hold, provider_outage, sync_lag_exceeded, config_thresholds_missing, Rule,
  rule_0, rule_1, rule_2, rule_3, rule_4, rule_5, rule_6, rule_7, rule_9, rule_10, rule_11, Code,
  replay_outbound_suppressed, sync_max_age_unknown, sync_max_age_invalid,
  shadow_outbound_suppressed, retry_budget_exhausted, max_retry_value_invalid,
  idempotency_duplicate_suppressed, config_threshold_missing, live_scope_shadow_only_phase11,
  ProviderOrchestrationContext, ProviderOrchestrationAssessment,
}
use student_success_intellig.Provider.Gate.{gate_codes, resolve_provider_thresholds}
use student_success_intellig.Provider.Records.{
  is_cause, blocked_assessment, replay_assessment, shadow_assessment, duplicate_assessment,
}
use student_success_intellig.Provider.Emission.{EventLog, event_log}
use student_success_intellig.Outreach.Types.{CircuitState, open_circuit}
use student_success_intellig.Outreach.Intent.{int_of, float_of}
use student_success_intellig.Config.{Setting, unknown_v0, or_unknown}
use student_success_intellig.Idempotency.{Keys, add_key}
use student_success_intellig.Governance.{is_shadow, is_replay_type}

-- What an assessment gives: the assessment, the logged entry, and the keys afterwards.
abbrev pub Assessment : Type 0
Assessment = ProviderOrchestrationAssessment × EventLog × Keys

-- the two statements that end every branch
abbrev pub finish :
    ProviderOrchestrationContext → ProviderOrchestrationAssessment → Keys → Assessment
finish ctx a keys = (a, event_log a ctx.student_id_opaque, keys)

abbrev pub first_code : List Code → Option Code
first_code [] = none
first_code (c ∷ _) = some c

abbrev pub is_open : CircuitState → Bool
is_open open_circuit = true
is_open _ = false

-- a threshold: absent, of no use to `int` or `float`, or a number
pub data Reading : Type 0 where
  absent invalid : Reading
  limit : ℤ → Reading

abbrev pub or_invalid : Option ℤ → Reading
or_invalid none = invalid
or_invalid (some n) = limit n

abbrev pub reading : (Setting → Option ℤ) → Setting → Reading
reading convert unknown_v0 = absent
reading convert v = or_invalid (convert v)

-- the code of RULE 5, and whether the lag is exceeded
unfoldable pub sync_codes : Reading → ℤ → List Code
sync_codes absent lag = sync_max_age_unknown ∷ []
sync_codes invalid lag = sync_max_age_invalid ∷ []
sync_codes (limit n) lag = when (ltb_ℤ n lag) sync_lag_exceeded

abbrev pub lag_exceeded : Reading → ℤ → Bool
lag_exceeded (limit n) lag = ltb_ℤ n lag
lag_exceeded _ lag = false

-- the first cause of a degradation
abbrev pub cause_of : Bool → Bool → Option Cause
cause_of outage exceeded =
    if outage then some provider_outage else if exceeded then some Cause.sync_lag_exceeded else none

abbrev pub budget_exhausted : Reading → ℤ → Bool
budget_exhausted (limit n) attempts = leb_ℤ n attempts
budget_exhausted _ attempts = false

abbrev pub budget_codes : Reading → List Code
budget_codes invalid = max_retry_value_invalid ∷ []
budget_codes _ = []

-- RULES 10 and 11
unfoldable pub authorize :
    ProviderOrchestrationContext
    → String
    → List Code
    → List Rule
    → Dict Setting
    → List String
    → Option Cause
    → ProviderOrchestrationAssessment
authorize ctx event_id codes path bindings missing cause =
    shadow_assessment ctx event_id
      (codes ++ map config_threshold_missing missing ++ live_scope_shadow_only_phase11 ∷ [])
      (path ++ rule_10 ∷ rule_11 ∷ []) bindings (is_cause cause || nonempty missing)
      (if is_cause cause
        then cause
        else if nonempty missing
        then some config_thresholds_missing
        else none)

-- RULE 9
unfoldable pub deduplicate :
    Keys
    → ProviderOrchestrationContext
    → String
    → List Code
    → List Rule
    → Dict Setting
    → List String
    → Option Cause
    → Option String
    → Assessment
deduplicate keys ctx event_id codes path bindings missing cause none =
    finish ctx (authorize ctx event_id codes (path ++ rule_9 ∷ []) bindings missing cause) keys
deduplicate keys ctx event_id codes path bindings missing cause (some key) =
    if not (truthy (some key))
    then finish ctx (authorize ctx event_id codes (path ++ rule_9 ∷ []) bindings missing cause) keys
    else if contains key keys
    then finish ctx
        (duplicate_assessment ctx event_id (codes ++ idempotency_duplicate_suppressed ∷ [])
          (path ++ rule_9 ∷ []) bindings)
        keys
    else finish ctx (authorize ctx event_id codes (path ++ rule_9 ∷ []) bindings missing cause)
        (add_key key keys)

module _ (parse_int parse_float : String → Option ℤ) where
  -- RULES 4 to 9
  unfoldable pub after_circuit :
      Keys → ProviderOrchestrationContext → String → Dict Setting → List String → Assessment
  after_circuit keys ctx event_id bindings missing =
      let age =
        reading (float_of parse_float)
          (or_unknown (get "sql_server_max_sync_age_hours" bindings)) in
      let retries =
        reading (int_of parse_int)
          (or_unknown (get "provider_failure_max_retry_attempts" bindings)) in
      let cause = cause_of ctx.provider_outage_active (lag_exceeded age ctx.sync_lag_hours) in
      let codes =
        when ctx.provider_outage_active Code.provider_outage_active
        ++ sync_codes age ctx.sync_lag_hours in
      let path = rule_0 ∷ rule_1 ∷ rule_2 ∷ rule_3 ∷ rule_4 ∷ rule_5 ∷ rule_6 ∷ [] in
      if is_shadow ctx.execution_mode
      then finish ctx
          (shadow_assessment ctx event_id (codes ++ shadow_outbound_suppressed ∷ []) path bindings
            (is_cause cause) cause)
          keys
      else if budget_exhausted retries ctx.retry_attempt_count
      then finish ctx
          (blocked_assessment ctx event_id (codes ++ retry_budget_exhausted ∷ [])
            (path ++ rule_7 ∷ []) bindings none (some retry_budget_exhausted))
          keys
      else deduplicate keys ctx event_id (codes ++ budget_codes retries) (path ++ rule_7 ∷ [])
          bindings missing cause ctx.idempotency_key

  -- RULES 2 and 3
  unfoldable pub after_containment : Keys → ProviderOrchestrationContext → String → Assessment
  after_containment keys ctx event_id =
      let (bindings, missing) = resolve_provider_thresholds (or_empty ctx.config_rule_set) in
      if ctx.compliance_hold_active
      then finish ctx
          (blocked_assessment ctx event_id (Code.compliance_hold_active ∷ [])
            (rule_0 ∷ rule_1 ∷ rule_2 ∷ []) bindings (some compliance_hold)
            (some Code.compliance_hold_active))
          keys
      else if is_open ctx.circuit_breaker_state
      then finish ctx
          (blocked_assessment ctx event_id (Code.circuit_breaker_open ∷ [])
            (rule_0 ∷ rule_1 ∷ rule_2 ∷ rule_3 ∷ []) bindings (some Cause.circuit_breaker_open)
            (some Code.circuit_breaker_open))
          keys
      else after_circuit keys ctx event_id bindings missing

  -- RULES 0 and 1
  unfoldable pub assess_provider_orchestration :
      Keys → String → ProviderOrchestrationContext → Assessment
  assess_provider_orchestration keys event_id ctx =
      let codes = gate_codes ctx in
      if nonempty codes
      then finish ctx
          (blocked_assessment ctx event_id codes (rule_0 ∷ []) [] none (first_code codes)) keys
      else if is_replay_type ctx.execution_type
      then finish ctx
          (replay_assessment ctx event_id (replay_outbound_suppressed ∷ []) (rule_0 ∷ rule_1 ∷ []))
          keys
      else after_containment keys ctx event_id
