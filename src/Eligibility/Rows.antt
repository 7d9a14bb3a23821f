-- ===== src/Eligibility/Rows.antt =====
-- The table of app/services/eligibility.py's rules over plain Booleans: when a row gives OUTREACH or
-- RETRY.
use student_success_intellig.Prelude.{
  ℤ, nonempty, String, ◌≡◌, Bool, true, false, Option, [], ◌∷◌, arith,
}
use student_success_intellig.Eligibility.Table.{
  first_scope, is_revoked, is_suspended, thresholds_of, defers, replay_refused, in_window,
}
use student_success_intellig.Eligibility.Types.{
  Scope, prioritization_only, no_scope, EligibilityContext,
}
use student_success_intellig.Eligibility.Candidacy.{
  attempts_exhausted, is_retry_candidate, is_first_candidate,
}
use student_success_intellig.Eligibility.Rules.{has_no_contact, is_terminal}
use student_success_intellig.Eligibility.Gate.{precondition_codes}
use student_success_intellig.Governance.{is_replay_type}

-- The conditions of the table's rows.
pub record Facts : Type 0 where
  pub gate : Bool
  pub closed : Bool
  pub hold : Bool
  pub revoked : Bool
  pub suspended : Bool
  pub defers : Bool
  pub no_contact : Bool
  pub window : Bool
  pub refused : Bool
  pub exhausted : Bool
  pub replay : Bool
  pub retry : Bool
  pub first : Bool

abbrev pub facts : (String → Option ℤ) → EligibilityContext → Facts
facts elapsed ctx = record {
  gate = nonempty (precondition_codes ctx.governance);
  closed = is_terminal ctx.operational.outreach_state;
  hold = ctx.governance.compliance_hold_flag;
  revoked = is_revoked ctx.academic.access_state;
  suspended = is_suspended ctx.academic.access_state;
  defers = defers ctx;
  no_contact = has_no_contact ctx;
  window = in_window elapsed ctx (thresholds_of ctx);
  refused = replay_refused ctx;
  exhausted = attempts_exhausted ctx (thresholds_of ctx);
  replay = is_replay_type ctx.governance.execution_type;
  retry = is_retry_candidate ctx;
  first = is_first_candidate ctx;
}

abbrev pub is_contact : Scope → Bool
is_contact Scope.outreach = true
is_contact Scope.retry = true
is_contact _ = false

module _ (f : Facts) where
  abbrev pub scope_from : Scope
  scope_from = first_scope (
      (f.gate, no_scope)
      ∷ (f.closed, no_scope)
      ∷ (f.hold, Scope.escalation)
      ∷ (f.revoked, Scope.escalation)
      ∷ (f.suspended, no_scope)
      ∷ (f.defers, prioritization_only)
      ∷ (f.no_contact, no_scope)
      ∷ (f.window, no_scope)
      ∷ (f.refused, no_scope)
      ∷ (f.exhausted, no_scope)
      ∷ (f.replay, Scope.replay)
      ∷ (f.retry, Scope.retry)
      ∷ (f.first, Scope.outreach)
      ∷ [])

  abbrev pub Passes : Type 0
  Passes =
      (f.gate ≡ false)
      × (f.closed ≡ false)
      × (f.hold ≡ false)
      × (f.revoked ≡ false)
      × (f.suspended ≡ false)
      × (f.no_contact ≡ false)
      × (f.window ≡ false)
      × (f.exhausted ≡ false)
      × (f.replay ≡ false)

  pub contact_needs : is_contact scope_from ≡ true → Passes
  contact_needs e = ground arith

  pub outreach_needs : scope_from ≡ Scope.outreach → (f.first ≡ true) × (f.retry ≡ false)
  outreach_needs e = ground arith

  pub retry_needs : scope_from ≡ Scope.retry → f.retry ≡ true
  retry_needs e = ground arith
