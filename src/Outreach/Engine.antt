-- ===== src/Outreach/Engine.antt =====
-- `coordinate_orchestration_cycle` of app/services/outreach.py. The event id, which the source draws at
-- random, is an argument; the registered idempotency keys are passed and returned.
use student_success_intellig.Prelude.{
  if◌then◌else◌, truthy, ℤ, nonempty, when, String, Bool, true, false, not, ◌&&◌, ◌||◌, Option,
  none, some, List, [], ◌∷◌, ◌++◌,
}
use student_success_intellig.Prelude.Dict.{or_empty}
use student_success_intellig.Outreach.Types.{
  Scope, Intent, escalate, CircuitState, open_circuit, Outcome,
  provider_failure_escalation_candidacy, retry_exhausted_escalation_candidacy, rule_0, rule_1,
  rule_2, rule_3, rule_4, rule_5, rule_6, rule_7, rule_8, rule_9, rule_10, rule_11, rule_12, Code,
  replay_mode_active, replay_source_artifact_missing, stale_sql_server_data, circuit_breaker_open,
  compliance_hold_active, compliance_hold_dispatch_blocked, ai_tier_escalation_restricted, intent,
  live_scope_shadow_only_phase11, OutreachOrchestrationContext, OutreachCoordinationRecord,
}
use student_success_intellig.Outreach.Gate.{
  gate_codes, resolve_orchestration_thresholds, missing_flags,
}
use student_success_intellig.Outreach.Intent.{classify_intent, is_stale}
use student_success_intellig.Outreach.Records.{blocked_record, maintenance_record, replay_record}
use student_success_intellig.Outreach.Emission.{coordination_record, EventLog, event_log}
use student_success_intellig.Idempotency.{Keys, register}
use student_success_intellig.Governance.{AiTier, stale, is_shadow, is_replay_type}

-- What a coordination gives: the record, the logged entry, and the keys afterwards.
abbrev pub Coordination : Type 0
Coordination = OutreachCoordinationRecord × EventLog × Keys

-- the two statements that end every branch
abbrev pub finish : OutreachOrchestrationContext → OutreachCoordinationRecord → Keys → Coordination
finish ctx r keys = (r, event_log r ctx.student_id_opaque, keys)

abbrev pub first_code : List Code → Option Code
first_code [] = none
first_code (c ∷ _) = some c

abbrev pub is_open : CircuitState → Bool
is_open open_circuit = true
is_open _ = false

-- `tier in _STALE_AI_TIERS`
abbrev pub is_stale_tier : Option AiTier → Bool
is_stale_tier (some stale) = true
is_stale_tier (some AiTier.unavailable) = true
is_stale_tier _ = false

-- the code of RULE 8
abbrev pub restriction_of : Option AiTier → List Code
restriction_of (some stale) = ai_tier_escalation_restricted stale ∷ []
restriction_of (some AiTier.unavailable) = ai_tier_escalation_restricted AiTier.unavailable ∷ []
restriction_of _ = []

abbrev pub is_escalation : Intent → Bool
is_escalation escalate = true
is_escalation _ = false

module _ (parse_int parse_float : String → Option ℤ) where
  -- RULES 3 to 12
  unfoldable pub after_containment :
      OutreachOrchestrationContext → String → OutreachCoordinationRecord
  after_containment ctx event_id =
      let (thresholds, missing) = resolve_orchestration_thresholds (or_empty ctx.config_rule_set) in
      let stale_sql = is_stale parse_float ctx thresholds in
      let circuit_open = is_open ctx.circuit_breaker_state in
      let hold_active = ctx.compliance_hold_flag in
      let dispatch_blocked = circuit_open || hold_active in
      let intent_type = classify_intent parse_int ctx thresholds ctx.ai_governance_tier in
      let flags =
        missing_flags missing
        ++ when stale_sql stale_sql_server_data
        ++ when circuit_open circuit_breaker_open
        ++ when hold_active compliance_hold_dispatch_blocked in
      coordination_record ctx event_id
        (flags
          ++ restriction_of ctx.ai_governance_tier
          ++ intent intent_type ∷ []
          ++ when (not dispatch_blocked && not (is_shadow ctx.execution_mode))
              live_scope_shadow_only_phase11)
        (rule_0 ∷ rule_1 ∷ rule_2 ∷ rule_3 ∷ rule_4 ∷ rule_5 ∷ rule_6 ∷ rule_7 ∷ rule_8 ∷ rule_9
          ∷ rule_10 ∷ rule_11 ∷ rule_12 ∷ [])
        (record {
          threshold_bindings = thresholds;
          governance_scope = if dispatch_blocked then Scope.unavailable else Scope.shadow_only;
          intent_type = some intent_type;
          dispatch_authorized = false;
          dispatch_blocked_reason =
              if circuit_open
              then some circuit_breaker_open
              else if hold_active
              then some compliance_hold_active
              else none;
          degraded = nonempty flags;
          degradation_flags = flags;
          degradation_cause = first_code flags;
          escalation_candidate = circuit_open || is_escalation intent_type;
          escalation_candidacy_reason =
              if circuit_open
              then some provider_failure_escalation_candidacy
              else if is_escalation intent_type
              then some retry_exhausted_escalation_candidacy
              else none;
          compliance_hold_active = hold_active;
          ai_governance_tier = ctx.ai_governance_tier;
          ai_escalation_authority = not (is_stale_tier ctx.ai_governance_tier);
          stale_sql_server_data = stale_sql;
          outcome = if dispatch_blocked then Outcome.degraded else Outcome.shadow_only;
        })

  -- RULES 1 and 2
  unfoldable pub after_gate : OutreachOrchestrationContext → String → OutreachCoordinationRecord
  after_gate ctx event_id =
      if ctx.maintenance_mode_active
      then maintenance_record ctx event_id (Code.maintenance_mode_active ∷ [])
          (rule_0 ∷ rule_1 ∷ [])
      else if is_replay_type ctx.execution_type
      then replay_record ctx event_id
          (replay_mode_active
            ∷ when (not (truthy ctx.source_artifact_id)) replay_source_artifact_missing)
          (rule_0 ∷ rule_1 ∷ rule_2 ∷ []) []
      else after_containment ctx event_id

  -- RULE 0 and the registration of the key
  unfoldable pub coordinate_orchestration_cycle :
      Keys → String → OutreachOrchestrationContext → Coordination
  coordinate_orchestration_cycle keys event_id ctx =
      let codes = gate_codes keys ctx in
      if nonempty codes
      then finish ctx (blocked_record ctx event_id codes (rule_0 ∷ []) [] (first_code codes)) keys
      else finish ctx (after_gate ctx event_id)
          (register keys ctx.execution_type ctx.idempotency_key)
