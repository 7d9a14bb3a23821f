-- ===== src/Eligibility/Rules.antt =====
-- RULE 1 to RULE 7 of `assess_orchestration_eligibility` in app/services/eligibility.py, last rule
-- first. `elapsed` is `datetime`'s part of RULE 7: the hours since a timestamp, `none` where it cannot
-- be read or compared.
use student_success_intellig.Prelude.{
  if◌then◌else◌, truthy, ℤ, ltb_ℤ, when, String, Bool, true, false, not, ◌&&◌, Option, none, some,
  [], ◌∷◌, str_eq,
}
use student_success_intellig.Eligibility.Types.{
  Scope, prioritization_only, no_scope, Priority, high, unknown, rule_0, rule_1, rule_2, rule_3,
  rule_4, rule_5, rule_5a, rule_6, rule_7, outreach_closed_terminal, compliance_hold_active,
  access_revoked_sql_server_authoritative, access_suspended_await_restoration,
  ai_unavailable_fallback_applied, ai_insight_in_flight_defer_pending, no_contact_info,
  exclusion_window_active, exclusion_window_timestamp_parse_error, EligibilityContext,
  OrchestrationEligibilityAssessment, default_replay, default_ai,
}
use student_success_intellig.Eligibility.Thresholds.{
  resolve_thresholds, bound, limit_of, constraints_of,
}
use student_success_intellig.Eligibility.Tier.{assess_ai_tier}
use student_success_intellig.Eligibility.Emit.{
  Draft, requirements_met, emit_with, emit, visit, note,
}
use student_success_intellig.Eligibility.Candidacy.{rule_10_on}
use student_success_intellig.Governance.{
  AccessState, revoked, suspended, OutreachState, closed, AiTier, stale, in_flight, unavailable,
  is_original,
}

-- RULE 6
unfoldable pub has_no_contact : EligibilityContext → Bool
has_no_contact ctx = not (truthy ctx.academic.email) && not (truthy ctx.academic.phone_number)

abbrev pub is_in_flight : AiTier → Bool
is_in_flight in_flight = true
is_in_flight _ = false

abbrev pub is_terminal : Option OutreachState → Bool
is_terminal (some closed) = true
is_terminal _ = false

-- what RULE 3 leaves: the thresholds, their warnings and the first constraints
unfoldable pub first_draft : EligibilityContext → Draft
first_draft ctx =
    let (th, warnings) = resolve_thresholds ctx.governance.config_rule_set in
    record {
      path = rule_0 ∷ rule_3 ∷ [];
      codes = warnings;
      constraints = constraints_of th;
      replay_rest = default_replay;
      ai_tier = unavailable;
      ai_out = default_ai;
      th = th;
      warnings = warnings;
    }

module _ (elapsed : String → Option ℤ) where
  -- what RULE 7 finds: no window to check, an unreadable timestamp, or whether the window is active
  unfoldable pub window_active : Option ℤ → Option String → Option (Option Bool)
  window_active none last = none
  window_active (some excl) none = none
  window_active (some excl) (some last) =
      if str_eq last ""
      then none
      else elim (elapsed last) [ none ↦ some none | some hours ↦ some (some (ltb_ℤ hours excl)) ]

  -- RULE 7, by what it finds
  unfoldable pub by_window :
      Option (Option Bool)
      → EligibilityContext
      → Option String
      → Draft
      → OrchestrationEligibilityAssessment
  by_window (some (some true)) ctx sid d = emit ctx sid no_scope unknown (
      note (exclusion_window_active ∷ []) (record d {
        constraints = record d.constraints {
          exclusion_window_constraint_hours = bound d.th "excl_window";
        };
      }))
  by_window (some none) ctx sid d =
      rule_10_on ctx sid (note (exclusion_window_timestamp_parse_error ∷ []) d)
  by_window _ ctx sid d = rule_10_on ctx sid d

  -- RULE 6 and RULE 7
  unfoldable pub rule_6_on :
      EligibilityContext → Option String → Draft → OrchestrationEligibilityAssessment
  rule_6_on ctx sid d =
      if has_no_contact ctx
      then emit ctx sid no_scope unknown (note (no_contact_info ∷ []) (visit rule_6 d))
      else by_window
          (window_active (limit_of d.th "excl_window") ctx.operational.last_contact_timestamp) ctx
          sid (visit rule_7 (visit rule_6 d))

  -- RULE 5 and RULE 5A
  unfoldable pub rule_5_on :
      EligibilityContext → Option String → Draft → OrchestrationEligibilityAssessment
  rule_5_on ctx sid d =
      let (tier, out) = assess_ai_tier ctx.ai d.th in
      let seen : Draft =
        note (when out.fallback_applied ai_unavailable_fallback_applied)
          (visit rule_5 (record d { ai_tier = tier; ai_out = out })) in
      if is_in_flight tier
      then (if is_original ctx.governance.execution_type
          then emit ctx sid prioritization_only unknown
              (note (ai_insight_in_flight_defer_pending ∷ []) (visit rule_5a seen))
          else rule_6_on ctx sid
              (record seen { ai_tier = stale; ai_out = record out { ai_governance_tier = stale } }))
      else rule_6_on ctx sid seen

  -- RULE 4
  unfoldable pub by_access :
      Option AccessState
      → EligibilityContext
      → Option String
      → Draft
      → OrchestrationEligibilityAssessment
  by_access (some revoked) ctx sid d =
      emit ctx sid Scope.escalation high (note (access_revoked_sql_server_authoritative ∷ []) d)
  by_access (some suspended) ctx sid d =
      emit ctx sid no_scope unknown (note (access_suspended_await_restoration ∷ []) d)
  by_access _ ctx sid d = rule_5_on ctx sid d

  -- RULE 2; `_emit` sets `live_outreach_permitted` again
  unfoldable pub rule_2_on :
      EligibilityContext → Option String → Draft → OrchestrationEligibilityAssessment
  rule_2_on ctx sid d =
      if ctx.governance.compliance_hold_flag
      then emit_with ctx sid Scope.escalation Priority.critical
          (note (compliance_hold_active ∷ []) (
            visit rule_2 (record d {
              constraints = record d.constraints { live_outreach_permitted = false };
            })))
          (record (requirements_met ctx.governance) {
            blocking_governance_flags = compliance_hold_active ∷ [];
          })
          none
      else by_access ctx.academic.access_state ctx sid (visit rule_4 (visit rule_2 d))

  -- RULE 3 and RULE 1
  unfoldable pub rule_3_on : EligibilityContext → Option String → OrchestrationEligibilityAssessment
  rule_3_on ctx sid =
      if is_terminal ctx.operational.outreach_state
      then emit ctx sid no_scope unknown
          (note (outreach_closed_terminal ∷ []) (visit rule_1 (first_draft ctx)))
      else rule_2_on ctx sid (visit rule_1 (first_draft ctx))
