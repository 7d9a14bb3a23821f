-- ===== src/Eligibility/Table.antt =====
-- The rules of directives/outreach_eligibility_rules.md as an ordered table of scopes, and the scope
-- that app/services/eligibility.py assigns, stage by stage, against it.
use student_success_intellig.Prelude.{
  if◌then◌else◌, Bool-cases, ℤ, nonempty, String, ◌≡◌, refl, inl, inr, Bool, true, false, ◌&&◌,
  Option, none, some, List, [], ◌∷◌, arith,
}
use student_success_intellig.Prelude.Dict.{Dict}
use student_success_intellig.Eligibility.Types.{
  Scope, prioritization_only, no_scope, EligibilityContext, OrchestrationEligibilityAssessment,
}
use student_success_intellig.Eligibility.Thresholds.{resolve_thresholds, limit_of}
use student_success_intellig.Eligibility.Tier.{assess_ai_tier}
use student_success_intellig.Eligibility.Emit.{Draft, emit_with, emit}
use student_success_intellig.Eligibility.Late.{conclude}
use student_success_intellig.Eligibility.Candidacy.{
  rule_9_on, attempts_exhausted, is_retry_candidate, is_first_candidate, choose_scope, rule_8_on,
  replay_blocks, rule_10_on,
}
use student_success_intellig.Eligibility.Rules.{
  has_no_contact, is_in_flight, is_terminal, first_draft, window_active, by_window, rule_6_on,
  rule_5_on, by_access, rule_2_on, rule_3_on,
}
use student_success_intellig.Eligibility.Gate.{
  precondition_codes, blocked_assessment, assess_orchestration_eligibility,
}
use student_success_intellig.Governance.{
  AccessState, revoked, suspended, Threshold, is_replay_type, is_original,
}

abbrev pub scope_of : OrchestrationEligibilityAssessment → Scope
scope_of a = a.eligibility_scope

-- The scope of the first row whose condition holds.
abbrev pub first_scope : List (Bool × Scope) → Scope
first_scope [] = no_scope
first_scope ((applies, scope) ∷ rows) = if applies then scope else first_scope rows

abbrev pub is_revoked : Option AccessState → Bool
is_revoked (some revoked) = true
is_revoked _ = false

abbrev pub is_suspended : Option AccessState → Bool
is_suspended (some suspended) = true
is_suspended _ = false

abbrev pub is_active_window : Option (Option Bool) → Bool
is_active_window (some (some true)) = true
is_active_window _ = false

abbrev pub thresholds_of : EligibilityContext → Dict Threshold
thresholds_of ctx = (resolve_thresholds ctx.governance.config_rule_set).0

abbrev pub defers : EligibilityContext → Bool
defers ctx =
    is_in_flight (assess_ai_tier ctx.ai (thresholds_of ctx)).0
    && is_original ctx.governance.execution_type

-- RULE 8 on, with the thresholds of a draft
abbrev pub candidate_rows : EligibilityContext → Dict Threshold → List (Bool × Scope)
candidate_rows ctx th =
    (attempts_exhausted ctx th, no_scope)
    ∷ (is_replay_type ctx.governance.execution_type, Scope.replay)
    ∷ (is_retry_candidate ctx, Scope.retry)
    ∷ (is_first_candidate ctx, Scope.outreach)
    ∷ []

abbrev pub replay_refused : EligibilityContext → Bool
replay_refused ctx =
    is_replay_type ctx.governance.execution_type && nonempty (replay_blocks ctx.governance)

scope-rule_10_on :
    (ctx : EligibilityContext) (sid : Option String) (d : Draft)
    → scope_of (rule_10_on ctx sid d)
      ≡ first_scope ((replay_refused ctx, no_scope) ∷ candidate_rows ctx d.th)
unfolding rule_10_on rule_8_on choose_scope rule_9_on conclude emit emit_with
scope-rule_10_on ctx sid d = ground arith

module _ (elapsed : String → Option ℤ) where
  abbrev pub in_window : EligibilityContext → Dict Threshold → Bool
  in_window ctx th =
      is_active_window
        (window_active elapsed (limit_of th "excl_window") ctx.operational.last_contact_timestamp)

  -- RULE 6 on
  abbrev pub contact_rows : EligibilityContext → Dict Threshold → List (Bool × Scope)
  contact_rows ctx th =
      (has_no_contact ctx, no_scope)
      ∷ (in_window ctx th, no_scope)
      ∷ (replay_refused ctx, no_scope)
      ∷ candidate_rows ctx th

  abbrev pub table : EligibilityContext → List (Bool × Scope)
  table ctx =
      (nonempty (precondition_codes ctx.governance), no_scope)
      ∷ (is_terminal ctx.operational.outreach_state, no_scope)
      ∷ (ctx.governance.compliance_hold_flag, Scope.escalation)
      ∷ (is_revoked ctx.academic.access_state, Scope.escalation)
      ∷ (is_suspended ctx.academic.access_state, no_scope)
      ∷ (defers ctx, prioritization_only)
      ∷ contact_rows ctx (thresholds_of ctx)

  scope-by_window :
      (found : Option (Option Bool)) (ctx : EligibilityContext) (sid : Option String) (d : Draft)
      → scope_of (by_window elapsed found ctx sid d)
        ≡ first_scope (
            (is_active_window found, no_scope)
            ∷ (replay_refused ctx, no_scope)
            ∷ candidate_rows ctx d.th)
  unfolding by_window emit emit_with
  scope-by_window (some (some true)) ctx sid d = refl
  scope-by_window (some (some false)) ctx sid d = scope-rule_10_on ctx sid d
  scope-by_window (some none) ctx sid d = scope-rule_10_on ctx sid _
  scope-by_window none ctx sid d = scope-rule_10_on ctx sid d

  scope-rule_6_on :
      (ctx : EligibilityContext) (sid : Option String) (d : Draft)
      → scope_of (rule_6_on elapsed ctx sid d) ≡ first_scope (contact_rows ctx d.th)
  scope-rule_6_on ctx sid d = elim (Bool-cases (has_no_contact ctx)) [
    | inl e ↦ unfold rule_6_on emit emit_with in rw e refl
    | inr e ↦ unfold rule_6_on in rw e (scope-by_window _ ctx sid _)
  ]

  scope-rule_5_on :
      (ctx : EligibilityContext) (sid : Option String) (d : Draft)
      → scope_of (rule_5_on elapsed ctx sid d)
        ≡ first_scope (
            (
              is_in_flight (assess_ai_tier ctx.ai d.th).0
                  && is_original ctx.governance.execution_type,
              prioritization_only,
            )
            ∷ contact_rows ctx d.th)
  scope-rule_5_on ctx sid d = elim (Bool-cases (is_in_flight (assess_ai_tier ctx.ai d.th).0)) [
    | inl e ↦ elim (Bool-cases (is_original ctx.governance.execution_type)) [
      | inl o ↦ unfold rule_5_on emit emit_with in rw (e, o) refl
      | inr o ↦ unfold rule_5_on in rw (e, o) (scope-rule_6_on ctx sid _)
    ]
    | inr e ↦ unfold rule_5_on in rw e (scope-rule_6_on ctx sid _)
  ]

  scope-by_access :
      (access : Option AccessState) (ctx : EligibilityContext) (sid : Option String) (d : Draft)
      → scope_of (by_access elapsed access ctx sid d)
        ≡ first_scope (
            (is_revoked access, Scope.escalation)
            ∷ (is_suspended access, no_scope)
            ∷ (
              is_in_flight (assess_ai_tier ctx.ai d.th).0
                  && is_original ctx.governance.execution_type,
              prioritization_only,
            )
            ∷ contact_rows ctx d.th)
  unfolding by_access emit emit_with
  scope-by_access (some revoked) ctx sid d = refl
  scope-by_access (some suspended) ctx sid d = refl
  scope-by_access _ ctx sid d = scope-rule_5_on ctx sid d

  scope-rule_3_on :
      (ctx : EligibilityContext) (sid : Option String)
      → scope_of (rule_3_on elapsed ctx sid)
        ≡ first_scope (
            (is_terminal ctx.operational.outreach_state, no_scope)
            ∷ (ctx.governance.compliance_hold_flag, Scope.escalation)
            ∷ (is_revoked ctx.academic.access_state, Scope.escalation)
            ∷ (is_suspended ctx.academic.access_state, no_scope)
            ∷ (defers ctx, prioritization_only)
            ∷ contact_rows ctx (thresholds_of ctx))
  scope-rule_3_on ctx sid = elim (Bool-cases (is_terminal ctx.operational.outreach_state)) [
    | inl e ↦ unfold rule_3_on emit emit_with in rw e refl
    | inr e ↦ elim (Bool-cases ctx.governance.compliance_hold_flag) [
      | inl h ↦ unfold rule_3_on rule_2_on emit_with in simp (e, h)
      | inr h ↦ unfold rule_3_on rule_2_on first_draft in simp (e, h) (scope-by_access _ ctx sid _)
    ]
  ]

  -- The scope of an assessment is that of the first row of the table that applies: governance gate,
  -- closed state, compliance hold, access revoked, access suspended, AI in flight, no contact
  -- data, exclusion window, replay refused, attempt ceiling, replay, retry, first outreach; and no
  -- scope if no row applies.
  pub scope-assess :
      (digest : ℤ → String) (ctx : EligibilityContext)
      → scope_of (assess_orchestration_eligibility digest elapsed ctx) ≡ first_scope (table ctx)
  unfolding assess_orchestration_eligibility
  scope-assess digest ctx = elim (Bool-cases (nonempty (precondition_codes ctx.governance))) [
    | inl e ↦ unfold blocked_assessment in rw e refl
    | inr e ↦ rw e (scope-rule_3_on ctx _)
  ]
