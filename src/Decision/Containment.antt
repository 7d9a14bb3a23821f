-- ===== src/Decision/Containment.antt =====
-- Execution modes in app/services/decision_engine.py: when a scope is AUTHORIZED, what a replay may
-- emit.
use student_success_intellig.Prelude.{
  Bool-cases, ℤ, nonempty, String, ◌≡◌, refl, sym, ◌∙◌, inl, inr, Bool, true, false, not, Option,
  none, [], arith,
}
use student_success_intellig.Prelude.Dict.{present}
use student_success_intellig.Decision.Entry.{nonempty-eq, evaluate_refused, evaluate_passed}
use student_success_intellig.Decision.Lineage.{Emitted, emitted, Emitted-by_state}
use student_success_intellig.Decision.Types.{
  no_eligible_intent, authorized, replay_only, GovernanceContext, DecisionContext,
}
use student_success_intellig.Decision.Gate.{precondition_codes, blocked_intent, scope_of}
use student_success_intellig.Decision.Log.{make_intent, Evaluation, finish}
use student_success_intellig.Decision.Replay.{replay_intent}
use student_success_intellig.Decision.Engine.{
  evaluate_replay_intent, after_gate, evaluate_orchestration_intent,
}
use student_success_intellig.Governance.{
  ExecutionMode, shadow, live, ExecutionType, is_valid_mode, is_live, is_replay_type,
}

pub record IsAuthorized (gov : GovernanceContext) : Type 0 where
  pub mode : gov.execution_mode ≡ live
  pub not_replay : is_replay_type gov.execution_type ≡ false
  pub preconditions_met : precondition_codes gov ≡ []

scope-Emitted :
    {ctx : DecisionContext} {sid : Option String} {e : Evaluation}
    → Emitted ctx sid e
    → e.0.intent.governance_scope
      ≡ scope_of ctx.governance.execution_mode ctx.governance.execution_type
unfolding make_intent finish
scope-Emitted (emitted _ _ _ _ _ _ _ _ _ _ _) = refl

mode-Emitted :
    {ctx : DecisionContext} {sid : Option String} {e : Evaluation}
    → Emitted ctx sid e
    → e.0.intent.execution_mode ≡ ctx.governance.execution_mode
unfolding make_intent finish
mode-Emitted (emitted _ _ _ _ _ _ _ _ _ _ _) = refl

abbrev mode_invalid : GovernanceContext → Bool
mode_invalid gov = not (is_valid_mode gov.execution_mode)

-- An empty list of codes leaves every precondition met.
codes-empty : (gov : GovernanceContext) → precondition_codes gov ≡ [] → mode_invalid gov ≡ false
unfolding precondition_codes
codes-empty gov h = ground arith

fingerprint-empty :
    (gov : GovernanceContext)
    → precondition_codes gov ≡ []
    → is_replay_type gov.execution_type ≡ true
    → present gov.fingerprint_context ≡ true
unfolding precondition_codes
fingerprint-empty gov h r = ground arith

scope_of_authorized :
    (mode : ExecutionMode) (type : ExecutionType)
    → is_valid_mode mode ≡ true
    → scope_of mode type ≡ authorized
    → (mode ≡ live) × (is_replay_type type ≡ false)
unfolding scope_of
scope_of_authorized mode type v h = ground arith

module _ (digest : ℤ → String) (ctx : DecisionContext) where
  scope-after_gate :
      (after_gate digest none ctx).0.intent.governance_scope ≡ authorized
      → scope_of ctx.governance.execution_mode ctx.governance.execution_type ≡ authorized
  scope-after_gate = elim (Bool-cases (is_replay_type ctx.governance.execution_type)) [
    | inl r ↦ unfold after_gate evaluate_replay_intent replay_intent finish in rw r (λ h. cc)
    | inr r ↦ unfold after_gate in rw r (λ h. sym (scope-Emitted (Emitted-by_state ctx _)) ∙ h)
  ]

  -- An intent is AUTHORIZED only if the mode is LIVE, the execution is neither a replay nor a
  -- regeneration, and every governance precondition is met.
  pub authorized-IsAuthorized :
      (evaluate_orchestration_intent digest ctx).0.intent.governance_scope ≡ authorized
      → IsAuthorized ctx.governance
  authorized-IsAuthorized = elim (Bool-cases (nonempty (precondition_codes ctx.governance))) [
    | inl e ↦ rw (evaluate_refused digest ctx e) (unfold finish blocked_intent in λ h. cc)
    | inr e ↦
        let met : precondition_codes ctx.governance ≡ [] = nonempty-eq _ e in
        rw (evaluate_passed digest ctx met) (λ h.
          let (m, r) =
            scope_of_authorized ctx.governance.execution_mode ctx.governance.execution_type
              (ground (arith, codes-empty ctx.governance)) (scope-after_gate h) in
          record { mode = m; not_replay = r; preconditions_met = met })
  ]

  -- A replay or regeneration that passes the gate emits no eligible intent, in SHADOW mode and with
  -- scope REPLAY_ONLY whatever mode it asked for; it is blocked, and marked unsafe, exactly if the
  -- mode it asked for is LIVE.
  pub replay_contained :
      is_replay_type ctx.governance.execution_type ≡ true
      → precondition_codes ctx.governance ≡ []
      → let intent = (evaluate_orchestration_intent digest ctx).0.intent in
        (intent.orchestration_intent ≡ no_eligible_intent)
        × (intent.governance_scope ≡ replay_only)
        × (intent.execution_mode ≡ shadow)
        × (intent.intent_blocked ≡ is_live ctx.governance.execution_mode)
        × (intent.replay_safety_metadata.replay_safe ≡ not (is_live ctx.governance.execution_mode))
  replay_contained r met = rw (evaluate_passed digest ctx met) (
      unfold after_gate evaluate_replay_intent replay_intent finish in
      rw r (ground (arith, fingerprint-empty ctx.governance)))
