-- ===== src/Eligibility/Candidates.antt =====
-- When app/services/eligibility.py makes a student a candidate for outreach or a retry, and what a
-- compliance hold permits, read off the table of its rules.
use student_success_intellig.Prelude.{
  truthy, ℤ, at_least, pos, ltb_ℤ, leb_ℤ, nonempty, String, ◌≡◌, ◌∙◌, ◌≢◌, ◌⊎◌, Bool, true, false,
  ◌&&◌, ◌||◌, Option, none, some, [], arith, str_eq,
}
use student_success_intellig.Prelude.Dict.{get}
use student_success_intellig.Eligibility.Thresholds.{
  or_unknown, bound, limit_of, resolve_keys, resolve_thresholds,
}
use student_success_intellig.Eligibility.Table.{
  scope_of, first_scope, is_revoked, is_suspended, is_active_window, thresholds_of, in_window,
  table, scope-assess,
}
use student_success_intellig.Eligibility.Lineage.{gate_passes, is_live_case, live_outreach_exact}
use student_success_intellig.Eligibility.Rows.{
  facts, is_contact, contact_needs, outreach_needs, retry_needs,
}
use student_success_intellig.Eligibility.Types.{Scope, EligibilityContext}
use student_success_intellig.Eligibility.Candidacy.{
  awaits_first_contact, attempts_exhausted, is_retry_candidate, is_first_candidate,
}
use student_success_intellig.Eligibility.Rules.{has_no_contact, is_terminal, window_active}
use student_success_intellig.Eligibility.Gate.{precondition_codes, assess_orchestration_eligibility}
use student_success_intellig.Governance.{
  live, AccessState, revoked, suspended, OutreachState, closed, Threshold, number, comparable,
  is_below, is_replay_type,
}

-- As many hours as the window has are over since the last contact, where the rule set holds a number of hours
-- and the timestamp is there and can be read.
abbrev pub is_over : (String → Option ℤ) → Option Threshold → Option String → Bool
is_over elapsed (some (number n)) (some last) =
    str_eq last "" || elim (elapsed last) [ some hours ↦ leb_ℤ n hours | none ↦ true ]
is_over elapsed _ _ = true

-- What holds of a context whose scope is OUTREACH or RETRY.
pub record IsContactable (elapsed : String → Option ℤ) (ctx : EligibilityContext) : Type 0 where
  pub preconditions_met : nonempty (precondition_codes ctx.governance) ≡ false
  pub not_replay : is_replay_type ctx.governance.execution_type ≡ false
  pub not_closed : ctx.operational.outreach_state ≢ some closed
  pub no_hold : ctx.governance.compliance_hold_flag ≡ false
  pub not_revoked : ctx.academic.access_state ≢ some revoked
  pub not_suspended : ctx.academic.access_state ≢ some suspended
  pub has_contact : (truthy ctx.academic.email ≡ true) ⊎ (truthy ctx.academic.phone_number ≡ true)
  pub outside_window :
      is_over elapsed
        (get "outreach_exclusion_window_hours" ctx.governance.config_rule_set)
        ctx.operational.last_contact_timestamp
      ≡ true
  pub below_ceiling :
      is_below
        (get "outreach_max_attempts" ctx.governance.config_rule_set)
        ctx.operational.contact_attempt_count
      ≡ true

not-closed : (s : Option OutreachState) → is_terminal s ≡ false → s ≢ some closed
not-closed s h = ground arith

not-revoked : (s : Option AccessState) → is_revoked s ≡ false → s ≢ some revoked
not-revoked s h = ground arith

not-suspended : (s : Option AccessState) → is_suspended s ≡ false → s ≢ some suspended
not-suspended s h = ground arith

contact_lem :
    (ctx : EligibilityContext)
    → has_no_contact ctx ≡ false
    → (truthy ctx.academic.email ≡ true) ⊎ (truthy ctx.academic.phone_number ≡ true)
unfolding has_no_contact
contact_lem ctx h = ground arith

window_of :
    (elapsed : String → Option ℤ) (configured : Option Threshold) (last : Option String)
    → is_active_window (window_active elapsed (comparable (or_unknown configured)) last) ≡ false
    → is_over elapsed configured last ≡ true
unfolding window_active
window_of elapsed none last h = ground arith
window_of elapsed (some t) none h = ground arith
window_of elapsed (some t) (some last) h = ground (arith, h)

window_lem :
    (elapsed : String → Option ℤ) (ctx : EligibilityContext)
    → in_window elapsed ctx (thresholds_of ctx) ≡ false
    → is_over elapsed
        (get "outreach_exclusion_window_hours" ctx.governance.config_rule_set)
        ctx.operational.last_contact_timestamp
      ≡ true
unfolding limit_of bound resolve_thresholds resolve_keys get
window_lem elapsed ctx h =
    window_of elapsed (get "outreach_exclusion_window_hours" ctx.governance.config_rule_set)
      ctx.operational.last_contact_timestamp h

ceiling_of :
    (configured : Option Threshold) (count : ℤ)
    → at_least (some count) (comparable (or_unknown configured)) ≡ false
    → is_below configured count ≡ true
ceiling_of configured count h = ground (arith, h)

ceiling_lem :
    (ctx : EligibilityContext)
    → attempts_exhausted ctx (thresholds_of ctx) ≡ false
    → is_below
        (get "outreach_max_attempts" ctx.governance.config_rule_set)
        ctx.operational.contact_attempt_count
      ≡ true
unfolding attempts_exhausted limit_of bound resolve_thresholds resolve_keys get
ceiling_lem ctx h =
    ceiling_of (get "outreach_max_attempts" ctx.governance.config_rule_set)
      ctx.operational.contact_attempt_count h

table-contact :
    (elapsed : String → Option ℤ) (ctx : EligibilityContext)
    → is_contact (first_scope (table elapsed ctx)) ≡ true
    → IsContactable elapsed ctx
table-contact elapsed ctx h =
    let (g, c, o, v, s, n, w, x, r) = contact_needs (facts elapsed ctx) h in
    record {
      preconditions_met = g;
      not_replay = r;
      not_closed = not-closed _ c;
      no_hold = o;
      not_revoked = not-revoked _ v;
      not_suspended = not-suspended _ s;
      has_contact = contact_lem ctx n;
      outside_window = window_lem elapsed ctx w;
      below_ceiling = ceiling_lem ctx x;
    }

-- OUTREACH and RETRY are assigned only to a context that passes the gate, is no replay, is neither
-- closed nor on compliance hold, has an access state other than REVOKED and SUSPENDED, has an email address or
-- a phone number, has its last contact at least the exclusion window ago, as far as the rule set holds the
-- window as a number and the timestamp can be read, and is below the attempt ceiling, where the rule set
-- holds one as a number.
pub candidate-IsContactable :
    (digest : ℤ → String) (elapsed : String → Option ℤ) (ctx : EligibilityContext)
    → is_contact (scope_of (assess_orchestration_eligibility digest elapsed ctx)) ≡ true
    → IsContactable elapsed ctx
candidate-IsContactable digest elapsed ctx h = table-contact elapsed ctx (rw scope-assess at h)

table-hold :
    (elapsed : String → Option ℤ) (ctx : EligibilityContext)
    → ctx.governance.compliance_hold_flag ≡ true
    → precondition_codes ctx.governance ≡ []
    → is_terminal ctx.operational.outreach_state ≡ false
    → first_scope (table elapsed ctx) ≡ Scope.escalation
table-hold elapsed ctx hold met not_closed = ground arith

live_case_hold :
    (ctx : EligibilityContext)
    → ctx.governance.execution_mode ≡ live
    → precondition_codes ctx.governance ≡ []
    → is_replay_type ctx.governance.execution_type ≡ false
    → (gate_passes ctx
        && is_live_case Scope.escalation ctx.governance.execution_mode
            ctx.governance.execution_type)
      ≡ true
live_case_hold ctx mode met type = ground arith

-- A compliance hold in LIVE mode, on a student who is not closed and whose context passes the gate
-- and is no replay: the scope is ESCALATION_CANDIDATE, and `_emit` permits LIVE outreach, which RULE 2
-- has just switched off.
pub hold_permits_live :
    (digest : ℤ → String) (elapsed : String → Option ℤ) (ctx : EligibilityContext)
    → ctx.governance.compliance_hold_flag ≡ true
    → ctx.governance.execution_mode ≡ live
    → precondition_codes ctx.governance ≡ []
    → is_replay_type ctx.governance.execution_type ≡ false
    → is_terminal ctx.operational.outreach_state ≡ false
    → let a = assess_orchestration_eligibility digest elapsed ctx in
      (a.eligibility_scope ≡ Scope.escalation)
      × (a.live_outreach_permitted ≡ true)
      × (a.orchestration_constraints.live_outreach_permitted ≡ true)
hold_permits_live digest elapsed ctx hold mode met type not_closed =
    let scoped : scope_of (assess_orchestration_eligibility digest elapsed ctx) ≡ Scope.escalation =
      scope-assess elapsed digest ctx ∙ table-hold elapsed ctx hold met not_closed in
    let permitted = live_outreach_exact digest elapsed ctx in
    let ok = live_case_hold ctx mode met type in
    (scoped, permitted.0 ∙ rw scoped ok, permitted.1 ∙ rw scoped ok)

-- OUTREACH goes only to students with no contact attempt, in state ELIGIBLE, QUEUED or none.
pub outreach_first :
    (digest : ℤ → String) (elapsed : String → Option ℤ) (ctx : EligibilityContext)
    → scope_of (assess_orchestration_eligibility digest elapsed ctx) ≡ Scope.outreach
    → (ctx.operational.contact_attempt_count ≡ pos 0)
      × (awaits_first_contact ctx.operational.outreach_state ≡ true)
unfolding is_first_candidate
outreach_first digest elapsed ctx h =
    let first = outreach_needs (facts elapsed ctx) (rw scope-assess at h) in
    (ground (arith, first.0), ground (arith, first.0))

-- RETRY goes only to students with a contact attempt behind them who are marked eligible for a retry.
pub retry_eligible_only :
    (digest : ℤ → String) (elapsed : String → Option ℤ) (ctx : EligibilityContext)
    → scope_of (assess_orchestration_eligibility digest elapsed ctx) ≡ Scope.retry
    → (ltb_ℤ (pos 0) ctx.operational.contact_attempt_count ≡ true)
      × (ctx.operational.retry_eligible ≡ true)
unfolding is_retry_candidate
retry_eligible_only digest elapsed ctx h =
    let due = retry_needs (facts elapsed ctx) (rw scope-assess at h) in
    (ground (arith, due), ground (arith, due))
