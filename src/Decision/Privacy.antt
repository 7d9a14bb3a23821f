-- ===== src/Decision/Privacy.antt =====
-- What the raw user id and the execution mode reach in app/services/decision_engine.py: two contexts
-- that differ in one of them only are followed through the stages.
use student_success_intellig.Prelude.{
  if◌then◌else◌, Bool-cases, ℤ, String, ◌≡◌, refl, sym, ap, ◌∙◌, ◌≢◌, inl, inr, Bool, true, false,
  ◌&&◌, Option, none, some, List, [], arith,
}
use student_success_intellig.Prelude.Dict.{Dict}
use student_success_intellig.Decision.Table.{kind, first_match, tier_of, table, kind-evaluate}
use student_success_intellig.Decision.Containment.{authorized-IsAuthorized}
use student_success_intellig.Decision.Types.{
  Level, high, authorized, Rule, Code, DecisionContext, OrchestrationIntent,
}
use student_success_intellig.Decision.Gate.{precondition_codes, opaque_id}
use student_success_intellig.Decision.Risk.{compute_risk}
use student_success_intellig.Decision.Log.{make_intent, finish}
use student_success_intellig.Decision.Actions.{
  Working, attempts_exhausted, retry_due, first_contact_due, recommends, first_or_none,
  retry_or_recommend, recommend, by_level,
}
use student_success_intellig.Decision.Pipeline.{
  by_attempts, is_in_flight, by_ai_tier, by_access, by_hold, is_terminal, by_state,
}
use student_success_intellig.Decision.Replay.{replay_intent}
use student_success_intellig.Decision.Engine.{
  evaluate_replay_intent, after_gate, evaluate_orchestration_intent, evaluate_shadow_intent,
}
use student_success_intellig.Governance.{
  shadow, AccessState, revoked, suspended, finalized_copy, Threshold, is_valid_mode, is_shadow,
  is_replay_type, is_original,
}

-- A context with another user id, and with SHADOW mode.
abbrev pub with_user : Option ℤ → DecisionContext → DecisionContext
with_user u ctx = record ctx { academic = record ctx.academic { user_id = u } }

abbrev pub in_shadow : DecisionContext → DecisionContext
in_shadow ctx = record ctx { governance = record ctx.governance { execution_mode = shadow } }

if_cong {ℓ} :
    {A : Type ℓ} {x x' y y' : A} (b : Bool)
    → x ≡ x'
    → y ≡ y'
    → (if b then x else y) ≡ (if b then x' else y')
if_cong true p q = p
if_cong false p q = q

module _ (ctx : DecisionContext) (u v : Option ℤ) where
  by_level_user :
      (risk : Level) (w : Working) (path : List Rule)
      → by_level risk (with_user u ctx) w path ≡ by_level risk (with_user v ctx) w path
  unfolding by_level recommend retry_or_recommend first_or_none make_intent retry_due recommends
      first_contact_due
  by_level_user Level.critical w path = refl
  by_level_user high w path = refl
  by_level_user _ w path = refl

  by_access_user :
      (access : Option AccessState) (sid : Option String) (thresholds : Dict Threshold)
      (warnings : List Code) (path : List Rule)
      → by_access access (with_user u ctx) sid thresholds warnings path
        ≡ by_access access (with_user v ctx) sid thresholds warnings path
  unfolding by_access by_ai_tier by_attempts make_intent attempts_exhausted compute_risk
  by_access_user (some revoked) sid thresholds warnings path = refl
  by_access_user (some suspended) sid thresholds warnings path = refl
  by_access_user _ sid thresholds warnings path =
      if_cong (is_in_flight (tier_of ctx) && is_original ctx.governance.execution_type) refl
        (if_cong (attempts_exhausted ctx thresholds) refl (by_level_user _ _ _))

  by_state_user :
      (sid : Option String) → by_state (with_user u ctx) sid ≡ by_state (with_user v ctx) sid
  unfolding by_state by_hold make_intent
  by_state_user sid =
      if_cong (is_terminal ctx.operational.outreach_state) refl
        (if_cong ctx.governance.compliance_hold_flag refl (by_access_user _ _ _ _ _))

  after_gate_user :
      (digest : ℤ → String) (gate : Option OrchestrationIntent)
      → opaque_id digest u ≡ opaque_id digest v
      → after_gate digest gate (with_user u ctx) ≡ after_gate digest gate (with_user v ctx)
  unfolding after_gate evaluate_replay_intent
  after_gate_user digest (some refusal) h = ap (λ sid. finish refusal sid none none []) h
  after_gate_user digest none h =
      if_cong (is_replay_type ctx.governance.execution_type)
        (ap (λ sid. finish (replay_intent ctx.governance) sid (some finalized_copy) none []) h)
        (ap (λ sid. by_state (with_user u ctx) sid) h ∙ by_state_user _)

  -- The raw user id reaches the result and the log record through its digest only: where two ids
  -- have the same digest, or are both missing, the evaluations of two contexts that differ in the id
  -- alone are equal.
  pub user_id-opaque :
      (digest : ℤ → String)
      → opaque_id digest u ≡ opaque_id digest v
      → evaluate_orchestration_intent digest (with_user u ctx)
        ≡ evaluate_orchestration_intent digest (with_user v ctx)
  user_id-opaque digest h = unfold evaluate_orchestration_intent in after_gate_user digest _ h

precondition_codes_shadow :
    (ctx : DecisionContext)
    → is_valid_mode ctx.governance.execution_mode ≡ true
    → precondition_codes (in_shadow ctx).governance ≡ precondition_codes ctx.governance
unfolding precondition_codes
precondition_codes_shadow ctx h = ground arith

table_shadow :
    (ctx : DecisionContext)
    → is_valid_mode ctx.governance.execution_mode ≡ true
    → table (in_shadow ctx) ≡ table ctx
unfolding retry_due recommends first_contact_due attempts_exhausted compute_risk
table_shadow ctx h = rw (precondition_codes_shadow ctx h) refl

not_authorized :
    (digest : ℤ → String) (ctx : DecisionContext)
    → is_shadow ctx.governance.execution_mode ≡ true
    → (evaluate_orchestration_intent digest ctx).0.intent.governance_scope ≢ authorized
not_authorized digest ctx h e = ground (arith, (authorized-IsAuthorized digest ctx e).mode)

-- For a context whose mode is SHADOW or LIVE, SHADOW evaluation gives the kind of intent that the evaluation
-- in this mode gives, and its scope is not AUTHORIZED.
pub evaluate_shadow_intent_lem :
    (digest : ℤ → String) (ctx : DecisionContext)
    → is_valid_mode ctx.governance.execution_mode ≡ true
    → (kind (evaluate_shadow_intent digest ctx) ≡ kind (evaluate_orchestration_intent digest ctx))
      × ((evaluate_shadow_intent digest ctx).0.intent.governance_scope ≢ authorized)
evaluate_shadow_intent_lem digest ctx h =
    elim (Bool-cases (is_shadow ctx.governance.execution_mode)) [
      | inl e ↦ unfold evaluate_shadow_intent in rw e (refl, not_authorized digest ctx e)
      | inr e ↦
          unfold evaluate_shadow_intent in
          rw e (
            kind-evaluate digest (in_shadow ctx)
                ∙ ap first_match (table_shadow ctx h)
                ∙ sym (kind-evaluate digest ctx),
            not_authorized digest (in_shadow ctx) refl,
          )
    ]
