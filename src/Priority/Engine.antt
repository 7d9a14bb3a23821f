-- ===== src/Priority/Engine.antt =====
-- `assess_orchestration_priority` of app/services/priority.py. The event id, which the source draws at
-- random, is an argument; the registered idempotency keys are passed and returned.
use student_success_intellig.Prelude.{
  if◌then◌else◌, truthy, nonempty, when, String, Bool, true, false, not, ◌&&◌, none, List, [], ◌∷◌,
  ◌++◌, map,
}
use student_success_intellig.Prelude.Dict.{Dict, or_empty}
use student_success_intellig.Priority.Types.{
  Scope, Priority, Basis, ai_assisted, fallback, Outcome, deferred, Rule, rule_0, rule_1, rule_2,
  rule_3, rule_4, rule_5, rule_5a, rule_6, rule_7, rule_8, rule_9, rule_10, Code,
  maintenance_mode_active, replay_mode_active, replay_source_artifact_missing,
  config_threshold_missing, ai_tier, ai_insight_in_flight_defer, base_priority,
  live_scope_shadow_only_phase11, PrioritizationContext, PrioritizationRecord,
}
use student_success_intellig.Priority.Gate.{gate_codes}
use student_success_intellig.Priority.Tier.{resolve_priority_thresholds, classify_ai_tier}
use student_success_intellig.Priority.Scoring.{
  score_risk_factors, aggregate_priority, apply_ai_adjustment,
}
use student_success_intellig.Priority.Records.{
  first_code, blocked_record, maintenance_record, replay_record,
}
use student_success_intellig.Priority.Emission.{Findings, priority_record, EventLog, event_log}
use student_success_intellig.Config.{Setting}
use student_success_intellig.Idempotency.{Keys, register}
use student_success_intellig.Governance.{AiTier, in_flight, is_shadow, is_replay_type, is_original}

-- What an assessment gives: the record, the logged entry, and the keys afterwards.
abbrev pub Assessment : Type 0
Assessment = PrioritizationRecord × EventLog × Keys

-- the two statements that end every branch
abbrev pub finish : PrioritizationRecord → Keys → Assessment
finish r keys = (r, event_log r, keys)

abbrev pub is_in_flight : AiTier → Bool
is_in_flight in_flight = true
is_in_flight _ = false

abbrev pub is_ai_unavailable : AiTier → Bool
is_ai_unavailable AiTier.unavailable = true
is_ai_unavailable _ = false

-- the assessment basis of RULE 8
abbrev pub basis_of : Bool → Bool → Basis
basis_of adjusted fell_back =
    if adjusted then ai_assisted else if fell_back then fallback else Basis.rule_based

-- the flags of RULE 3
abbrev pub missing_flags : List String → List Code
missing_flags missing = map config_threshold_missing missing

-- the findings of RULE 5A
abbrev pub deferred_findings : Dict Setting → AiTier → Findings
deferred_findings thresholds tier = record {
  threshold_bindings = thresholds;
  advisory_priority = Priority.unknown;
  governance_scope = Scope.shadow_only;
  assessment_basis = Basis.rule_based;
  scoring_factors = [];
  risk_contributions = [];
  ai_governance_tier = tier;
  ai_priority_adjustment_applied = false;
  ai_fallback_applied = false;
  degraded = false;
  degradation_flags = [];
  degradation_cause = none;
  outcome = deferred;
  scoring_emit_authorized = false;
}

-- RULES 6 to 10
unfoldable pub scored :
    PrioritizationContext
    → String
    → Dict Setting
    → List Code
    → AiTier
    → List Code
    → List Rule
    → PrioritizationRecord
scored ctx event_id thresholds flags tier codes path =
    let (factors, contributions, risk_codes) = score_risk_factors ctx thresholds tier in
    let base = aggregate_priority contributions in
    let (priority, adjusted, ai_codes) =
      apply_ai_adjustment base tier ctx.ai_recommended_intervention in
    priority_record ctx event_id
      (codes
        ++ risk_codes
        ++ (base_priority base ∷ [])
        ++ ai_codes
        ++ when (not (is_shadow ctx.execution_mode)) live_scope_shadow_only_phase11)
      (path ++ rule_6 ∷ rule_7 ∷ rule_8 ∷ rule_9 ∷ rule_10 ∷ [])
      (record {
        threshold_bindings = thresholds;
        advisory_priority = priority;
        governance_scope = Scope.shadow_only;
        assessment_basis = basis_of adjusted (is_ai_unavailable tier);
        scoring_factors = factors;
        risk_contributions = contributions;
        ai_governance_tier = tier;
        ai_priority_adjustment_applied = adjusted;
        ai_fallback_applied = is_ai_unavailable tier;
        degraded = nonempty flags;
        degradation_flags = flags;
        degradation_cause = first_code flags;
        outcome = Outcome.shadow_only;
        scoring_emit_authorized = false;
      })

-- RULES 3 to 10
unfoldable pub after_containment : PrioritizationContext → String → PrioritizationRecord
after_containment ctx event_id =
    let (thresholds, missing) = resolve_priority_thresholds (or_empty ctx.config_rule_set) in
    let flags = missing_flags missing in
    let tier = classify_ai_tier ctx thresholds in
    let codes = flags ++ ai_tier tier ∷ [] in
    let path = rule_0 ∷ rule_1 ∷ rule_2 ∷ rule_3 ∷ rule_4 ∷ rule_5 ∷ [] in
    if is_in_flight tier && is_original ctx.execution_type
    then priority_record ctx event_id (codes ++ ai_insight_in_flight_defer ∷ [])
        (path ++ rule_5a ∷ []) (deferred_findings thresholds tier)
    else scored ctx event_id thresholds flags tier codes path

-- RULES 1 and 2
unfoldable pub after_gate : PrioritizationContext → String → PrioritizationRecord
after_gate ctx event_id =
    if ctx.maintenance_mode_active
    then maintenance_record ctx event_id (maintenance_mode_active ∷ []) (rule_0 ∷ rule_1 ∷ [])
    else if is_replay_type ctx.execution_type
    then replay_record ctx event_id
        (replay_mode_active
          ∷ when (not (truthy ctx.source_artifact_id)) replay_source_artifact_missing)
        (rule_0 ∷ rule_1 ∷ rule_2 ∷ []) []
    else after_containment ctx event_id

-- RULE 0 and the registration of the key
unfoldable pub assess_orchestration_priority : Keys → String → PrioritizationContext → Assessment
assess_orchestration_priority keys event_id ctx =
    let codes = gate_codes keys ctx in
    if nonempty codes
    then finish (blocked_record ctx event_id codes (rule_0 ∷ []) (first_code codes)) keys
    else finish (after_gate ctx event_id) (register keys ctx.execution_type ctx.idempotency_key)
