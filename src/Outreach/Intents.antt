-- ===== src/Outreach/Intents.antt =====
-- Which intents and scopes app/services/outreach.py coordinates, and its idempotency keys.
use student_success_intellig.Prelude.{
  if◌then◌else◌, truthy, ℤ, nonempty, String, ◌≡◌, ◌↔◌, Bool, true, false, not, ◌&&◌, ◌||◌, Option,
  none, some, List, [], ◌∷◌, arith,
}
use student_success_intellig.Prelude.Dict.{Dict, or_empty, contains}
use student_success_intellig.Outreach.Types.{
  Scope, escalate, Code, idempotency_duplicate_detected, OutreachOrchestrationContext,
}
use student_success_intellig.Outreach.Gate.{gate_codes, resolve_orchestration_thresholds}
use student_success_intellig.Outreach.Intent.{
  is_terminal, intent_of_state, is_in_flight, attempts_exhausted, classify_intent,
}
use student_success_intellig.Outreach.Records.{blocked_record, maintenance_record, replay_record}
use student_success_intellig.Outreach.Emission.{coordination_record}
use student_success_intellig.Outreach.Engine.{
  is_open, after_containment, after_gate, coordinate_orchestration_cycle,
}
use student_success_intellig.Config.{Setting}
use student_success_intellig.Idempotency.{
  Keys, is_duplicate, names, contains-register, Registry, run, added-run,
}
use student_success_intellig.Governance.{AiTier, is_replay_type, is_original}

-- A context that the containment rules let through: the gate passes, there is no maintenance and no replay.
abbrev pub is_coordinated : Keys → OutreachOrchestrationContext → Bool
is_coordinated keys ctx =
    not (nonempty (gate_codes keys ctx))
    && (not ctx.maintenance_mode_active && not (is_replay_type ctx.execution_type))

-- the key of an original execution
abbrev pub registers : String → OutreachOrchestrationContext → Bool
registers k ctx = is_original ctx.execution_type && names k ctx.idempotency_key

abbrev pub passes : Keys → OutreachOrchestrationContext → Bool
passes keys ctx = not (nonempty (gate_codes keys ctx))

abbrev pub reports_duplicate : List Code → Bool
reports_duplicate [] = false
reports_duplicate (idempotency_duplicate_detected ∷ codes) = true
reports_duplicate (_ ∷ codes) = reports_duplicate codes

module _ (parse_int parse_float : String → Option ℤ) where
  -- A coordination has an intent exactly if the context passes the gate, outside of maintenance, and is no
  -- replay; the intent is then the one that `_classify_intent` finds under the thresholds of the rule set.
  pub intent_exact :
      (keys : Keys) (event_id : String) (ctx : OutreachOrchestrationContext)
      → (coordinate_orchestration_cycle parse_int parse_float keys event_id ctx).0.intent_type ≡ (
          if is_coordinated keys ctx
          then some (
              classify_intent parse_int ctx
                (resolve_orchestration_thresholds (or_empty ctx.config_rule_set)).0
                ctx.ai_governance_tier)
          else none)
  unfolding coordinate_orchestration_cycle after_gate after_containment blocked_record
      maintenance_record replay_record coordination_record
  intent_exact keys event_id ctx = ground arith

  -- The scope SHADOW_ONLY is given exactly to a coordinated context with no open circuit breaker and no
  -- compliance hold.
  pub shadow_exact :
      (keys : Keys) (event_id : String) (ctx : OutreachOrchestrationContext)
      → let r = (coordinate_orchestration_cycle parse_int parse_float keys event_id ctx).0 in
        (r.governance_scope ≡ Scope.shadow_only) ↔ (
          (is_coordinated keys ctx
            && (not (is_open ctx.circuit_breaker_state) && not ctx.compliance_hold_flag))
          ≡ true)
  unfolding coordinate_orchestration_cycle after_gate after_containment blocked_record
      maintenance_record replay_record coordination_record
  shadow_exact keys event_id ctx = ground arith

  -- ESCALATE is the intent exactly of a state that is not terminal, with no AI insight in flight, where the
  -- configured number of attempts, as `int` reads it, is reached.
  pub escalate_iff :
      (ctx : OutreachOrchestrationContext) (thresholds : Dict Setting) (tier : Option AiTier)
      → (classify_intent parse_int ctx thresholds tier ≡ escalate) ↔ (
          (not (is_terminal ctx.outreach_state)
            && (not (is_in_flight tier) && attempts_exhausted parse_int ctx thresholds))
          ≡ true)
  unfolding classify_intent intent_of_state
  escalate_iff ctx thresholds tier = ground arith

  pub contains-coordinate :
      (k : String) (keys : Keys) (event_id : String) (ctx : OutreachOrchestrationContext)
      → contains k (coordinate_orchestration_cycle parse_int parse_float keys event_id ctx).2
        ≡ (contains k keys || (passes keys ctx && registers k ctx))
  unfolding coordinate_orchestration_cycle
  contains-coordinate k keys event_id ctx =
      ground (arith, contains-register k keys ctx.execution_type ctx.idempotency_key)

  -- the coordinations as calls: an event id and a context
  unfoldable pub registry : Registry (String × OutreachOrchestrationContext)
  registry = record {
    step = λ keys (event_id, ctx).
        (coordinate_orchestration_cycle parse_int parse_float keys event_id ctx).2;
    adds = λ k keys (event_id, ctx). passes keys ctx && registers k ctx;
    contains-step = λ k keys (event_id, ctx). contains-coordinate k keys event_id ctx;
  }

  duplicate_refused :
      (keys : Keys) (event_id : String) (ctx : OutreachOrchestrationContext)
      → is_duplicate keys ctx.idempotency_key ≡ true
      → let (r, _, after) =
          coordinate_orchestration_cycle parse_int parse_float keys event_id ctx in
        (r.orchestration_blocked ≡ true)
        × (reports_duplicate r.reason_codes ≡ true)
        × (after ≡ keys)
  unfolding coordinate_orchestration_cycle gate_codes blocked_record
  duplicate_refused keys event_id ctx h = ground arith

  -- Once an original execution with a key has passed the gate, every context with this key is blocked as a
  -- duplicate, whatever its type, after any sequence of further coordinations; and the blocked
  -- coordination leaves the keys as they are.
  pub repeated_refused :
      (k : String) (keys : Keys) (event_id : String) (ctx : OutreachOrchestrationContext)
      (later : List (String × OutreachOrchestrationContext)) (event_id' : String)
      (ctx' : OutreachOrchestrationContext)
      → passes keys ctx ≡ true
      → registers k ctx ≡ true
      → ctx'.idempotency_key ≡ some k
      → truthy (some k) ≡ true
      → let before =
          run registry
            (coordinate_orchestration_cycle parse_int parse_float keys event_id ctx).2
            later in
        let (r, _, after) =
          coordinate_orchestration_cycle parse_int parse_float before event_id' ctx' in
        (r.orchestration_blocked ≡ true)
        × (reports_duplicate r.reason_codes ≡ true)
        × (after ≡ before)
  unfolding is_duplicate registry
  repeated_refused k keys event_id ctx later event_id' ctx' p g e t =
      let there = added-run registry k keys (event_id, ctx) later ground (arith, p, g) in
      duplicate_refused _ event_id' ctx' (rw (e, there) ground (arith, t))
