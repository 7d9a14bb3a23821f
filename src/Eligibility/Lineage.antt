-- ===== src/Eligibility/Lineage.antt =====
-- Where each assessment of app/services/eligibility.py comes from, and what follows for
-- attribution and for LIVE outreach.
use student_success_intellig.Prelude.{
  if◌then◌else◌, Bool-cases, ℤ, nonempty, String, ◌≡◌, refl, ◌∙◌, inl, inr, Bool, true, false, not,
  ◌&&◌, Option, none, some, arith,
}
use student_success_intellig.Eligibility.Types.{
  Scope, Priority, Blocking, GovernanceCtx, EligibilityContext, GovernanceRequirements,
  OrchestrationEligibilityAssessment,
}
use student_success_intellig.Eligibility.Tier.{assess_ai_tier}
use student_success_intellig.Eligibility.Emit.{Draft, is_eligible_scope, live_ok, emit_with, emit}
use student_success_intellig.Eligibility.Late.{conclude}
use student_success_intellig.Eligibility.Candidacy.{rule_9_on, choose_scope, rule_8_on, rule_10_on}
use student_success_intellig.Eligibility.Rules.{
  has_no_contact, is_in_flight, is_terminal, by_window, rule_6_on, rule_5_on, by_access, rule_2_on,
  rule_3_on,
}
use student_success_intellig.Eligibility.Gate.{
  precondition_codes, blocked_assessment, opaque_id, assess_orchestration_eligibility,
}
use student_success_intellig.Governance.{
  ExecutionMode, live, ExecutionType, AccessState, revoked, suspended, is_original,
}

pub data Emitted (ctx : EligibilityContext) (sid : Option String)
    : OrchestrationEligibilityAssessment → Type 0 where
  emitted :
      (scope : Scope) (priority : Priority) (d : Draft) (gov_reqs : GovernanceRequirements)
      (blocking : Option Blocking)
      → Emitted ctx sid (emit_with ctx sid scope priority d gov_reqs blocking)

Emitted-if :
    {ctx : EligibilityContext} {sid : Option String} {x y : OrchestrationEligibilityAssessment}
    (b : Bool)
    → Emitted ctx sid x
    → Emitted ctx sid y
    → Emitted ctx sid (if b then x else y)
Emitted-if true p q = p
Emitted-if false p q = q

ruleset emission = (emitted, Emitted-if)

Emitted-rule_10_on :
    (ctx : EligibilityContext) (sid : Option String) (d : Draft)
    → Emitted ctx sid (rule_10_on ctx sid d)
unfolding rule_10_on rule_8_on choose_scope rule_9_on conclude emit
Emitted-rule_10_on ctx sid d = search emission depth 9

module _ (elapsed : String → Option ℤ) where
  Emitted-by_window :
      (found : Option (Option Bool)) (ctx : EligibilityContext) (sid : Option String) (d : Draft)
      → Emitted ctx sid (by_window elapsed found ctx sid d)
  unfolding by_window emit
  Emitted-by_window (some (some true)) ctx sid d = search emission
  Emitted-by_window (some (some false)) ctx sid d = Emitted-rule_10_on ctx sid d
  Emitted-by_window (some none) ctx sid d = Emitted-rule_10_on ctx sid _
  Emitted-by_window none ctx sid d = Emitted-rule_10_on ctx sid d

  Emitted-rule_6_on :
      (ctx : EligibilityContext) (sid : Option String) (d : Draft)
      → Emitted ctx sid (rule_6_on elapsed ctx sid d)
  unfolding rule_6_on emit
  Emitted-rule_6_on ctx sid d =
      Emitted-if (has_no_contact ctx) (search emission) (Emitted-by_window _ ctx sid _)

  Emitted-by_access :
      (access : Option AccessState) (ctx : EligibilityContext) (sid : Option String) (d : Draft)
      → Emitted ctx sid (by_access elapsed access ctx sid d)
  unfolding by_access rule_5_on emit
  Emitted-by_access (some revoked) ctx sid d = search emission
  Emitted-by_access (some suspended) ctx sid d = search emission
  Emitted-by_access _ ctx sid d =
      Emitted-if (is_in_flight (assess_ai_tier ctx.ai d.th).0)
        (Emitted-if (is_original ctx.governance.execution_type) (search emission)
          (Emitted-rule_6_on ctx sid _))
        (Emitted-rule_6_on ctx sid _)

  pub Emitted-rule_3_on :
      (ctx : EligibilityContext) (sid : Option String) → Emitted ctx sid (rule_3_on elapsed ctx sid)
  unfolding rule_3_on rule_2_on emit
  Emitted-rule_3_on ctx sid =
      Emitted-if (is_terminal ctx.operational.outreach_state) (search emission) (
        Emitted-if ctx.governance.compliance_hold_flag (search emission)
          (Emitted-by_access _ ctx sid _))

-- What an assessment says of its context.
pub record IsAttributed (gov : GovernanceCtx) (sid : Option String)
    (a : OrchestrationEligibilityAssessment) : Type 0 where
  pub correlation : a.correlation_id ≡ gov.correlation_id
  pub causation : a.causation_id ≡ gov.causation_id
  pub config_version : a.config_version_id ≡ gov.config_version_id
  pub mode : a.execution_mode ≡ gov.execution_mode
  pub type : a.execution_type ≡ gov.execution_type
  pub attribution : a.attribution_metadata ≡ gov.attribution_context
  pub opaque : a.student_id_opaque ≡ sid

Emitted-IsAttributed :
    {ctx : EligibilityContext} {sid : Option String} {a : OrchestrationEligibilityAssessment}
    → Emitted ctx sid a
    → IsAttributed ctx.governance sid a
unfolding emit_with
Emitted-IsAttributed (emitted _ _ _ _ _) = ground arith

-- On every branch, refused or assessed, the assessment carries the context's correlation, causation
-- and config version ids, mode, type and attribution unchanged, and the digest of the student's id.
pub assess-IsAttributed :
    (digest : ℤ → String) (elapsed : String → Option ℤ) (ctx : EligibilityContext)
    → IsAttributed ctx.governance
        (opaque_id digest ctx.academic.user_id)
        (assess_orchestration_eligibility digest elapsed ctx)
unfolding assess_orchestration_eligibility
assess-IsAttributed digest elapsed ctx =
    elim (Bool-cases (nonempty (precondition_codes ctx.governance))) [
      | inl e ↦ rw e (unfold blocked_assessment in ground arith)
      | inr e ↦ rw e (Emitted-IsAttributed (Emitted-rule_3_on elapsed ctx _))
    ]

abbrev pub is_assigned : Scope → Bool
is_assigned Scope.no_scope = false
is_assigned _ = true

-- the scope is not NONE, the mode is LIVE, and the execution is neither a replay nor a regeneration
abbrev pub is_live_case : Scope → ExecutionMode → ExecutionType → Bool
is_live_case scope live ExecutionType.replay = false
is_live_case scope live ExecutionType.regeneration = false
is_live_case scope live _ = is_assigned scope
is_live_case scope _ _ = false

live_ok-case :
    (ctx : EligibilityContext) (scope : Scope)
    → live_ok ctx scope
      ≡ is_live_case scope ctx.governance.execution_mode ctx.governance.execution_type
unfolding live_ok is_eligible_scope
live_ok-case ctx scope = ground arith

Emitted-live :
    {ctx : EligibilityContext} {sid : Option String} {a : OrchestrationEligibilityAssessment}
    → Emitted ctx sid a
    → (a.live_outreach_permitted ≡ live_ok ctx a.eligibility_scope)
      × (a.orchestration_constraints.live_outreach_permitted ≡ live_ok ctx a.eligibility_scope)
unfolding emit_with
Emitted-live (emitted _ _ _ _ _) = (refl, refl)

abbrev pub gate_passes : EligibilityContext → Bool
gate_passes ctx = not (nonempty (precondition_codes ctx.governance))

pub live_outreach_exact :
    (digest : ℤ → String) (elapsed : String → Option ℤ) (ctx : EligibilityContext)
    → let a = assess_orchestration_eligibility digest elapsed ctx in
      let gov = ctx.governance in
      (a.live_outreach_permitted ≡ (
        gate_passes ctx && is_live_case a.eligibility_scope gov.execution_mode gov.execution_type))
      × (a.orchestration_constraints.live_outreach_permitted ≡ (
          gate_passes ctx
          && is_live_case a.eligibility_scope gov.execution_mode gov.execution_type))
unfolding assess_orchestration_eligibility
live_outreach_exact digest elapsed ctx =
    elim (Bool-cases (nonempty (precondition_codes ctx.governance))) [
      | inl e ↦ rw e (unfold blocked_assessment in (refl, refl))
      | inr e ↦
          let (p, q) = Emitted-live (Emitted-rule_3_on elapsed ctx _) in
          rw e (p ∙ live_ok-case ctx _, q ∙ live_ok-case ctx _)
    ]
