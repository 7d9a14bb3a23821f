-- ===== src/Eligibility/Candidacy.antt =====
-- RULE 8, RULE 9 and RULE 10 of `assess_orchestration_eligibility` in app/services/eligibility.py, last
-- rule first: the attempt ceiling, the candidacy, and the replay gate.
use student_success_intellig.Prelude.{
  if◌then◌else◌, truthy, pos, ltb_ℤ, leb_ℤ, at_least, nonempty, when, String, Bool, true, false,
  not, ◌&&◌, Option, none, some, List, [], ◌∷◌, ◌++◌, str_eq,
}
use student_success_intellig.Prelude.Dict.{Dict, present, or_empty, get_text}
use student_success_intellig.Eligibility.Types.{
  Scope, no_scope, medium, unknown, replay_precondition_violated, rule_8, rule_8b, rule_8c, rule_8d,
  rule_9, rule_10, Code, replay_live_mode_blocked, replay_source_artifact_missing,
  replay_fingerprint_missing, replay_candidate, max_attempts_exhausted, retry_candidate,
  first_outreach_candidate, outreach_state_ambiguous, GovernanceCtx, EligibilityContext,
  ReplayRestrictions, OrchestrationEligibilityAssessment,
}
use student_success_intellig.Eligibility.Thresholds.{bound, limit_of}
use student_success_intellig.Eligibility.Emit.{
  Draft, requirements_met, emit_with, emit, visit, note,
}
use student_success_intellig.Eligibility.Tally.{Tally, tally_of, priority_of, tally_codes}
use student_success_intellig.Eligibility.Late.{conclude}
use student_success_intellig.Governance.{
  OutreachState, eligible, queued, finalized_copy, Threshold, TextDict, is_live, is_replay_type,
}

-- `outreach_state in ("ELIGIBLE", "QUEUED", None)`
abbrev pub awaits_first_contact : Option OutreachState → Bool
awaits_first_contact none = true
awaits_first_contact (some eligible) = true
awaits_first_contact (some queued) = true
awaits_first_contact _ = false

-- RULE 9, which goes on to RULE 11 and RULE 12
unfoldable pub rule_9_on :
    EligibilityContext → Option String → Scope → Draft → OrchestrationEligibilityAssessment
rule_9_on ctx sid scope d =
    let t : Tally = tally_of ctx d.th in
    conclude ctx sid scope (priority_of t) (note (tally_codes t) (visit rule_9 d))

unfoldable pub attempts_exhausted : EligibilityContext → Dict Threshold → Bool
attempts_exhausted ctx th =
    at_least (some ctx.operational.contact_attempt_count) (limit_of th "max_attempts")

unfoldable pub is_retry_candidate : EligibilityContext → Bool
is_retry_candidate ctx =
    ltb_ℤ (pos 0) ctx.operational.contact_attempt_count && ctx.operational.retry_eligible

unfoldable pub is_first_candidate : EligibilityContext → Bool
is_first_candidate ctx =
    leb_ℤ ctx.operational.contact_attempt_count (pos 0)
    && (leb_ℤ (pos 0) ctx.operational.contact_attempt_count
        && awaits_first_contact ctx.operational.outreach_state)

-- RULE 8B, 8C and 8D, for an original execution
unfoldable pub choose_scope :
    EligibilityContext → Option String → Draft → OrchestrationEligibilityAssessment
choose_scope ctx sid d =
    if is_retry_candidate ctx
    then rule_9_on ctx sid Scope.retry (note (retry_candidate ∷ []) (visit rule_8b d))
    else if is_first_candidate ctx
    then rule_9_on ctx sid Scope.outreach (note (first_outreach_candidate ∷ []) (visit rule_8c d))
    else emit ctx sid no_scope unknown (note (outreach_state_ambiguous ∷ []) (visit rule_8d d))

-- RULE 8; `in_replay` says that RULE 10 has set the scope
unfoldable pub rule_8_on :
    EligibilityContext → Option String → Bool → Draft → OrchestrationEligibilityAssessment
rule_8_on ctx sid in_replay d =
    if attempts_exhausted ctx d.th
    then emit ctx sid no_scope medium (
        note (max_attempts_exhausted ∷ []) (
          visit rule_8 (record d {
            constraints = record d.constraints {
              max_attempts_constraint = bound d.th "max_attempts";
            };
          })))
    else if in_replay
    then rule_9_on ctx sid Scope.replay (visit rule_8 d)
    else choose_scope ctx sid (visit rule_8 d)

-- the list `block` of RULE 10
unfoldable pub replay_blocks : GovernanceCtx → List Code
replay_blocks gov =
    when (is_live gov.execution_mode) replay_live_mode_blocked
    ++ (when (not (truthy (get_text "source_artifact_id" (or_empty gov.replay_context))))
          replay_source_artifact_missing
        ++ when (not (present gov.fingerprint_context)) replay_fingerprint_missing)

-- `fp.get(k) not in (None, UNKNOWN_V0)`
unfoldable pub is_known : Option String → Bool
is_known none = false
is_known (some s) = not (str_eq s "UNKNOWN_V0")

unfoldable pub fingerprints_match : TextDict → Bool
fingerprints_match fp =
    is_known (get_text "schema_version" fp)
    && (is_known (get_text "config_registry_version" fp)
        && (is_known (get_text "ai_prompt_version" fp)
            && is_known (get_text "ai_model_version" fp)))

-- the `ReplayRestrictions` of an unblocked replay
unfoldable pub replay_restrictions_of : GovernanceCtx → ReplayRestrictions
replay_restrictions_of gov = record {
  is_replay = true;
  replay_eligible = true;
  live_eligible = false;
  source_artifact_id = get_text "source_artifact_id" (or_empty gov.replay_context);
  historical_config_version_id =
      get_text "historical_config_version_id" (or_empty gov.replay_context);
  fingerprint_comparison_outcome =
      some (if fingerprints_match (or_empty gov.fingerprint_context) then "MATCH" else "UNKNOWN");
  replay_safe = true;
}

-- RULE 10
unfoldable pub rule_10_on :
    EligibilityContext → Option String → Draft → OrchestrationEligibilityAssessment
rule_10_on ctx sid d =
    if is_replay_type ctx.governance.execution_type
    then (if nonempty (replay_blocks ctx.governance)
        then emit_with ctx sid no_scope unknown
            (note (replay_blocks ctx.governance) (
              visit rule_10 (record d {
                replay_rest = record d.replay_rest {
                  replay_eligible = false;
                  live_eligible = false;
                  replay_safe = false;
                };
              })))
            (requirements_met ctx.governance) (some replay_precondition_violated)
        else rule_8_on ctx sid true (
            note (replay_candidate ∷ []) (
              visit rule_10 (record d {
                replay_rest = replay_restrictions_of ctx.governance;
                ai_tier = finalized_copy;
                ai_out = record d.ai_out { ai_governance_tier = finalized_copy };
              }))))
    else rule_8_on ctx sid false d
