-- ===== src/Decision/Entry.antt =====
-- The gate of app/services/decision_engine.py: how an evaluation begins, and when RULE 0 refuses.
use student_success_intellig.Prelude.{
  truthy, is_some, ℤ, nonempty, String, ◌≡◌, refl, ◌↔◌, ◌⊎◌, true, false, none, List, [], ◌∷◌,
  arith,
}
use student_success_intellig.Prelude.Dict.{present, get_text}
use student_success_intellig.Decision.Types.{GovernanceContext, DecisionContext}
use student_success_intellig.Decision.Gate.{
  any_missing, precondition_codes, blocked_intent, validate_governance_preconditions, opaque_id,
}
use student_success_intellig.Decision.Log.{finish}
use student_success_intellig.Decision.Engine.{after_gate, evaluate_orchestration_intent}
use student_success_intellig.Governance.{shadow, live, is_replay_type}

pub nonempty-eq {ℓ} : {A : Type ℓ} (xs : List A) → nonempty xs ≡ false → xs ≡ []
nonempty-eq [] h = refl
nonempty-eq (x ∷ xs) h = cc

module _ (digest : ℤ → String) (ctx : DecisionContext) where
  pub evaluate_refused :
      nonempty (precondition_codes ctx.governance) ≡ true
      → evaluate_orchestration_intent digest ctx
        ≡ finish
            (blocked_intent ctx.governance (precondition_codes ctx.governance))
            (opaque_id digest ctx.academic.user_id)
            none
            none
            []
  evaluate_refused h =
      unfold evaluate_orchestration_intent validate_governance_preconditions in
      rw h (unfold after_gate in refl)

  pub evaluate_passed :
      precondition_codes ctx.governance ≡ []
      → evaluate_orchestration_intent digest ctx ≡ after_gate digest none ctx
  evaluate_passed h =
      unfold evaluate_orchestration_intent validate_governance_preconditions in rw h refl

-- What RULE 0 asks of the governance context.
pub record MeetsPreconditions (gov : GovernanceContext) : Type 0 where
  pub config_resolved : truthy gov.config_version_id ≡ true
  pub mode_valid : (gov.execution_mode ≡ shadow) ⊎ (gov.execution_mode ≡ live)
  pub correlated : truthy gov.correlation_id ≡ true
  pub source_known : is_some (get_text "origin_source" gov.attribution_context) ≡ true
  pub authority_known : is_some (get_text "origin_authority" gov.attribution_context) ≡ true
  pub timestamp_known : is_some (get_text "attribution_timestamp" gov.attribution_context) ≡ true
  pub fingerprinted :
      (is_replay_type gov.execution_type ≡ false) ⊎ (present gov.fingerprint_context ≡ true)

-- RULE 0 lets a context pass exactly if a config version and a correlation id are given, the mode is
-- SHADOW or LIVE, the three attribution entries are there, and a replay or regeneration has a
-- fingerprint, whatever its idempotency key is.
pub gate_iff :
    (gov : GovernanceContext)
    → (validate_governance_preconditions gov ≡ none) ↔ MeetsPreconditions gov
unfolding validate_governance_preconditions precondition_codes any_missing
gate_iff gov = (λ h. ground arith, λ m. ground arith)
