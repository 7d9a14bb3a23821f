-- ===== src/Channel/Late.antt =====
-- RULES 9 to 13 of app/services/channel_selector.py.
use student_success_intellig.Prelude.{
  if◌then◌else◌, truthy, ℤ, pos, at_least, nonempty, when, String, Bool, true, false, not, ◌&&◌,
  ◌||◌, Option, none, some, List, [], ◌∷◌, ◌++◌, map,
}
use student_success_intellig.Prelude.Dict.{Dict, get, present, or_empty, get_text}
use student_success_intellig.Channel.Types.{
  Channel, text_of, Scope, preferred, multi_channel_eligible, channel_exhausted,
  replay_channel_candidate, no_scope, Preference, prefer, Urgency, rule_9, rule_10, rule_11,
  rule_12, rule_13, Code, delivery_failure_suspended, replay_live_mode_blocked,
  replay_source_artifact_missing, replay_fingerprint_missing, replay_precondition_violated,
  replay_candidate, delivery_failure_counts_unknown, channel_exhausted_delivery_failure,
  all_channels_delivery_failure_suspended, ai_channel_preference_signal_confident,
  ai_channel_preference_signal_advisory, stale_ai_channel_advisory_skipped,
  stale_ai_live_mode_restricted, ai_unavailable_fallback_applied, ai_finalized_copy_not_applied,
  GovernanceCtx, AiCtx, ChannelAdvisoryContext, EscalationConstraints, AiOutputCtx, Draft,
  ChannelAdvisoryAssessment,
}
use student_success_intellig.Channel.Ranking.{
  has, dropped, kept, Ranking, ranked, promote, ranking_codes, prioritize_channels,
}
use student_success_intellig.Channel.Emit.{emit}
use student_success_intellig.Config.{Setting, numeric}
use student_success_intellig.Governance.{AiTier, TextDict, is_live, is_replay_type}

abbrev pub escalation : Urgency → Code → EscalationConstraints
escalation urgency code = record {
  escalation_recommended = true;
  escalation_urgency = urgency;
  escalation_reason_codes = code ∷ [];
}

-- `scope_locked or SCOPE_CHANNEL_EXHAUSTED`
abbrev pub or_exhausted : Option Scope → Scope
or_exhausted none = channel_exhausted
or_exhausted (some scope) = scope

-- RULE 13
unfoldable pub scope_of : Option Scope → Ranking → Bool → AiOutputCtx → Scope
scope_of (some scope) r has_pref ai_out = scope
scope_of none (c, []) has_pref ai_out = preferred c
scope_of none (c, _ ∷ _) has_pref ai_out =
    if has_pref || ai_out.channel_priority_adjustment_applied
    then preferred c
    else multi_channel_eligible

unfoldable pub conclude :
    GovernanceCtx → Draft → Option Scope → Ranking → Bool → ChannelAdvisoryAssessment
conclude gov d locked r has_pref =
    emit gov (record d { path = d.path ++ rule_11 ∷ rule_12 ∷ rule_13 ∷ [] })
      (scope_of locked r has_pref d.ai_out) true (ranked r) none

-- `_CH_PREF_MAP.get(signal or "")`
abbrev pub signalled : Option Preference → Option Channel
signalled (some (prefer ch)) = some ch
signalled _ = none

-- the preferred channel is promoted, and the draft says so
unfoldable pub adjusted :
    GovernanceCtx → Draft → Channel → Ranking → Option Preference → Code → ChannelAdvisoryAssessment
adjusted gov d ch r signal code =
    conclude gov
      (record d {
        ai_out = record d.ai_out {
          channel_priority_adjustment_applied = true;
          ai_channel_preference_signal = signal;
        };
        codes = d.codes ++ code ∷ [];
      })
      none (promote ch r) true

-- RULE 12 for a CONFIDENT or an ADVISORY tier
unfoldable pub adjust :
    GovernanceCtx
    → AiCtx
    → Draft
    → Ranking
    → Bool
    → Bool
    → Option Channel
    → ChannelAdvisoryAssessment
adjust gov ai d r has_pref is_confident none = conclude gov d none r has_pref
adjust gov ai d r has_pref is_confident (some ch) =
    if not (has ch d.prohibited) && has ch (ranked r)
    then (if is_confident
        then adjusted gov d ch r ai.ai_channel_preference_signal
            ai_channel_preference_signal_confident
        else if not has_pref
        then adjusted gov d ch r ai.ai_channel_preference_signal
            ai_channel_preference_signal_advisory
        else conclude gov d none r has_pref)
    else conclude gov d none r has_pref

-- RULE 12 for the other tiers and for replays, on the tier that RULES 5 and 9 have left
unfoldable pub unadjusted : GovernanceCtx → Draft → AiTier → Draft
unadjusted gov d AiTier.stale = record d {
  codes =
      d.codes
      ++ stale_ai_channel_advisory_skipped
        ∷ when (is_live gov.execution_mode) stale_ai_live_mode_restricted;
}
unadjusted gov d AiTier.unavailable = record d {
  ai_out = record d.ai_out { fallback_applied = true };
  codes = d.codes ++ ai_unavailable_fallback_applied ∷ [];
}
unadjusted gov d AiTier.finalized_copy = record d {
  codes = d.codes ++ ai_finalized_copy_not_applied ∷ [];
}
unadjusted gov d _ = d

unfoldable pub by_tier :
    GovernanceCtx
    → AiCtx
    → Draft
    → Option Scope
    → Ranking
    → Bool
    → AiTier
    → ChannelAdvisoryAssessment
by_tier gov ai d none r has_pref AiTier.confident =
    adjust gov ai d r has_pref true (signalled ai.ai_channel_preference_signal)
by_tier gov ai d none r has_pref AiTier.advisory =
    adjust gov ai d r has_pref false (signalled ai.ai_channel_preference_signal)
by_tier gov ai d locked r has_pref tier = conclude gov (unadjusted gov d tier) locked r has_pref

-- RULE 11
unfoldable pub rank_candidates :
    ChannelAdvisoryContext → Draft → Option Scope → Ranking → ChannelAdvisoryAssessment
rank_candidates ctx d locked r =
    let score = ctx.operational.engagement_signal_score in
    let (candidates, has_pref) = prioritize_channels r score d.tb in
    by_tier ctx.governance ctx.ai (record d { codes = d.codes ++ ranking_codes score d.tb }) locked
      candidates has_pref d.ai_out.ai_governance_tier

-- `fail_counts.get(ch, 0)`
abbrev pub count_of : Dict ℤ → Channel → ℤ
count_of counts ch = elim (get (text_of ch) counts) [ some n ↦ n | none ↦ pos 0 ]

-- the failures of a channel have reached the threshold
abbrev pub has_failed : Setting → Dict ℤ → Channel → Bool
has_failed th counts ch = at_least (some (count_of counts ch)) (numeric th)

-- what RULE 10 makes of the draft
unfoldable pub suspended_draft : Draft → Dict ℤ → Draft
suspended_draft d counts =
    let failed = has_failed d.tb.delivery_failure_suspension_threshold counts in
    let out = dropped failed d.eligible in
    record d {
      path = d.path ++ rule_10 ∷ [];
      eligible = kept failed d.eligible;
      prohibited = d.prohibited ++ out;
      gc = record d.gc { suspended_channel_exclusions = d.gc.suspended_channel_exclusions ++ out };
      ph = record d.ph {
        suspended_channels = d.ph.suspended_channels ++ out;
        channel_suspension_applied = d.ph.channel_suspension_applied || nonempty out;
      };
      codes =
          d.codes
          ++ when (not (nonempty counts)) delivery_failure_counts_unknown
          ++ map delivery_failure_suspended out;
    }

unfoldable pub exhausted_or_ranked :
    ChannelAdvisoryContext → Draft → Option Scope → List Channel → ChannelAdvisoryAssessment
exhausted_or_ranked ctx d locked [] =
    emit ctx.governance
      (record d {
        codes = d.codes ++ channel_exhausted_delivery_failure ∷ [];
        esc = escalation Urgency.high all_channels_delivery_failure_suspended;
      })
      (or_exhausted locked) true [] none
exhausted_or_ranked ctx d locked (c ∷ cs) = rank_candidates ctx d locked (c, cs)

-- RULE 10
unfoldable pub rule_10_on :
    ChannelAdvisoryContext → Draft → Option Scope → ChannelAdvisoryAssessment
rule_10_on ctx d locked =
    let after = suspended_draft d (or_empty ctx.operational.channel_delivery_failure_counts) in
    exhausted_or_ranked ctx after locked after.eligible

-- the list `r9`
unfoldable pub replay_violations : GovernanceCtx → TextDict → List Code
replay_violations gov rc =
    when (is_live gov.execution_mode) replay_live_mode_blocked
    ++ when (not (truthy (get_text "source_artifact_id" rc))) replay_source_artifact_missing
    ++ when (not (present gov.fingerprint_context)) replay_fingerprint_missing

-- `rc.get("historical_config_version_id") or rc.get("config_version_id")`
abbrev pub historical_version : TextDict → Option String
historical_version rc =
    let own = get_text "historical_config_version_id" rc in
    if truthy own then own else get_text "config_version_id" rc

-- the draft of a replay that RULE 9 lets through
unfoldable pub replay_draft : AiCtx → Draft → TextDict → Draft
replay_draft ai d rc = record d {
  rr = record {
    is_replay = true;
    replay_eligible = true;
    live_eligible = false;
    source_artifact_id = get_text "source_artifact_id" rc;
    historical_config_version_id = historical_version rc;
    is_fingerprint_unknown = true;
    replay_safe = true;
  };
  codes = d.codes ++ replay_candidate ∷ [];
  ai_out =
      if ai.ai_finalized_copy
      then record d.ai_out { ai_governance_tier = AiTier.finalized_copy }
      else d.ai_out;
}

-- RULE 9
unfoldable pub rule_9_on : ChannelAdvisoryContext → Draft → ChannelAdvisoryAssessment
rule_9_on ctx d =
    let gov = ctx.governance in
    let rc = or_empty gov.replay_context in
    let violations = replay_violations gov rc in
    let here = record d { path = d.path ++ rule_9 ∷ [] } in
    if not (is_replay_type gov.execution_type)
    then rule_10_on ctx d none
    else if nonempty violations
    then emit gov
        (record here {
          codes = d.codes ++ violations;
          rr = record d.rr { replay_eligible = false; live_eligible = false; replay_safe = false };
        })
        no_scope false [] (some replay_precondition_violated)
    else rule_10_on ctx (replay_draft ctx.ai here rc) (some replay_channel_candidate)
