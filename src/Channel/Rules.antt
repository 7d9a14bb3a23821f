-- ===== src/Channel/Rules.antt =====
-- RULES 1 to 8 of app/services/channel_selector.py and its entry point.
use student_success_intellig.Prelude.{
  if◌then◌else◌, truthy, ℤ, nonempty, when, String, Bool, true, false, not, ◌||◌, Option, none,
  some, List, [], ◌∷◌, ◌++◌, map,
}
use student_success_intellig.Prelude.Dict.{Dict, get, or_empty}
use student_success_intellig.Channel.Types.{
  Channel, call, sms, email, text_of, all_channels, channel_exhausted, no_scope, ProviderState,
  Exhaustion, exhausted, partial, Urgency, critical, rule_1, rule_2, rule_3, rule_4, rule_5, rule_6,
  rule_7, rule_8, Code, outreach_closed_terminal, compliance_hold_active,
  all_channels_compliance_blocked, compliance_hold_all_channels_blocked, no_phone_number,
  no_email_address, no_contact_info_any_channel, ai_insight_in_flight_channel_advisory_proceeds,
  opt_out_active, channel_exhausted_opt_out, all_channels_opt_out_prohibited,
  provider_health_unknown, provider_unavailable, provider_degraded, delivery_failure_suspended,
  channel_exhausted_provider_failure, all_channels_provider_unavailable_or_suspended,
  all_channels_exhausted, channel_exhaustion_confirmed, channel_exhaustion_partial, OperationalCtx,
  ChannelAdvisoryContext, Draft, ChannelAdvisoryAssessment,
}
use student_success_intellig.Channel.Thresholds.{key_map, missing_tags, bindings_of}
use student_success_intellig.Channel.Tier.{assess_ai_tier}
use student_success_intellig.Channel.Gate.{precondition_codes, first_draft, blocked_assessment}
use student_success_intellig.Channel.Ranking.{dropped, kept}
use student_success_intellig.Channel.Emit.{emit}
use student_success_intellig.Channel.Late.{escalation, rule_9_on}
use student_success_intellig.Governance.{OutreachState, AiTier, is_replay_type}

-- RULE 8
unfoldable pub exhaustion_rule :
    ChannelAdvisoryContext → Draft → Option Exhaustion → ChannelAdvisoryAssessment
exhaustion_rule ctx d (some exhausted) =
    let here = record d { path = d.path ++ rule_8 ∷ [] } in
    if nonempty d.eligible
    then rule_9_on ctx here
    else emit ctx.governance
        (record here {
          codes = d.codes ++ all_channels_exhausted ∷ [];
          esc = escalation Urgency.high channel_exhaustion_confirmed;
        })
        channel_exhausted true [] none
exhaustion_rule ctx d (some partial) =
    rule_9_on ctx (record d {
      path = d.path ++ rule_8 ∷ [];
      codes = d.codes ++ channel_exhaustion_partial ∷ [];
    })
exhaustion_rule ctx d _ = rule_9_on ctx (record d { path = d.path ++ rule_8 ∷ [] })

unfoldable pub rule_8_on : ChannelAdvisoryContext → Draft → ChannelAdvisoryAssessment
rule_8_on ctx d = exhaustion_rule ctx d ctx.operational.channel_exhaustion_state

-- what RULE 7 finds of a channel
pub data Finding : Type 0 where
  is_unavailable is_suspended is_degraded is_usable : Finding

-- `phs.get(ch, default)`
abbrev pub state_of : Dict ProviderState → ProviderState → Channel → ProviderState
state_of states default ch = elim (get (text_of ch) states) [ some s ↦ s | none ↦ default ]

-- `states.get(ch, False)`
abbrev pub flag_of : Dict Bool → Channel → Bool
flag_of states ch = elim (get (text_of ch) states) [ some b ↦ b | none ↦ false ]

abbrev pub or_suspended : ProviderState → Bool → Finding
or_suspended ProviderState.unavailable _ = is_unavailable
or_suspended _ true = is_suspended
or_suspended ProviderState.degraded false = is_degraded
or_suspended _ false = is_usable

unfoldable pub finding_of : OperationalCtx → Channel → Finding
finding_of op ch =
    or_suspended (state_of (or_empty op.provider_health_state) ProviderState.healthy ch)
      (flag_of (or_empty op.channel_suspension_state) ch)

abbrev pub is_out : Finding → Bool
is_out is_unavailable = true
is_out is_suspended = true
is_out _ = false

abbrev pub is_slow : Finding → Bool
is_slow is_degraded = true
is_slow _ = false

abbrev pub is_stopped : Finding → Bool
is_stopped is_suspended = true
is_stopped _ = false

abbrev pub code_of : Channel → Finding → List Code
code_of ch is_unavailable = provider_unavailable ch ∷ []
code_of ch is_suspended = delivery_failure_suspended ch ∷ []
code_of ch is_degraded = provider_degraded ch ∷ []
code_of ch is_usable = []

unfoldable pub finding_codes : OperationalCtx → List Channel → List Code
finding_codes op [] = []
finding_codes op (c ∷ cs) = code_of c (finding_of op c) ++ finding_codes op cs

-- the channels that are left, those of a degraded provider last
unfoldable pub usable : OperationalCtx → List Channel → List Channel
usable op cs =
    let left = kept (λ c. is_out (finding_of op c)) cs in
    kept (λ c. is_slow (finding_of op c)) left ++ dropped (λ c. is_slow (finding_of op c)) left

-- what RULE 7 makes of the draft
unfoldable pub health_draft : OperationalCtx → Draft → Draft
health_draft op d =
    let phs = or_empty op.provider_health_state in
    let out = dropped (λ c. is_out (finding_of op c)) d.eligible in
    record d {
      path = d.path ++ rule_7 ∷ [];
      eligible = usable op d.eligible;
      prohibited = d.prohibited ++ out;
      gc = record d.gc {
        suspended_channel_exclusions =
            d.gc.suspended_channel_exclusions
            ++ dropped (λ c. is_stopped (finding_of op c)) d.eligible;
      };
      ph = record {
        call_provider_state = state_of phs ProviderState.unknown call;
        sms_provider_state = state_of phs ProviderState.unknown sms;
        email_provider_state = state_of phs ProviderState.unknown email;
        channel_suspension_applied = d.ph.channel_suspension_applied || nonempty out;
        suspended_channels = d.ph.suspended_channels ++ out;
      };
      codes =
          d.codes
          ++ when (not (nonempty phs)) provider_health_unknown
          ++ finding_codes op d.eligible;
    }

-- RULE 7
unfoldable pub rule_7_on : ChannelAdvisoryContext → Draft → ChannelAdvisoryAssessment
rule_7_on ctx d =
    let after = health_draft ctx.operational d in
    if nonempty after.eligible
    then rule_8_on ctx after
    else emit ctx.governance
        (record after {
          codes = after.codes ++ channel_exhausted_provider_failure ∷ [];
          esc = escalation Urgency.high all_channels_provider_unavailable_or_suspended;
        })
        channel_exhausted true [] none

-- what RULE 6 makes of the draft
unfoldable pub opt_out_draft : OperationalCtx → Draft → Draft
opt_out_draft op d =
    let opted = flag_of (or_empty op.channel_opt_out_state) in
    let out = dropped opted d.eligible in
    record d {
      path = d.path ++ rule_6 ∷ [];
      eligible = kept opted d.eligible;
      prohibited = d.prohibited ++ out;
      gc = record d.gc { opt_out_channel_exclusions = d.gc.opt_out_channel_exclusions ++ out };
      codes = d.codes ++ map opt_out_active out;
    }

-- RULE 6
unfoldable pub rule_6_on : ChannelAdvisoryContext → Draft → ChannelAdvisoryAssessment
rule_6_on ctx d =
    let after = opt_out_draft ctx.operational d in
    if nonempty after.eligible
    then rule_7_on ctx after
    else emit ctx.governance
        (record after {
          codes = after.codes ++ channel_exhausted_opt_out ∷ [];
          esc = escalation Urgency.medium all_channels_opt_out_prohibited;
        })
        channel_exhausted true [] none

abbrev pub is_in_flight : AiTier → Bool
is_in_flight AiTier.in_flight = true
is_in_flight _ = false

-- a channel without contact data
abbrev pub is_unreachable : OperationalCtx → Channel → Bool
is_unreachable op call = not (truthy op.phone_number)
is_unreachable op sms = not (truthy op.phone_number)
is_unreachable op email = not (truthy op.email)

abbrev pub is_closed : Option OutreachState → Bool
is_closed (some OutreachState.closed) = true
is_closed _ = false

module _ (elapsed : String → Option ℤ) where
  -- what RULE 5 makes of the draft; an insight in flight is stale for a replay
  unfoldable pub tier_draft : ChannelAdvisoryContext → Draft → Draft
  tier_draft ctx d =
      let (out, tier_codes) = assess_ai_tier elapsed ctx.ai d.tb in
      let here = record d {
        path = d.path ++ rule_5 ∷ [];
        ai_out = out;
        codes = d.codes ++ tier_codes;
      } in
      if not (is_in_flight out.ai_governance_tier)
      then here
      else if is_replay_type ctx.governance.execution_type
      then record here { ai_out = record out { ai_governance_tier = AiTier.stale } }
      else record here {
        ai_out = record out { ai_input_used = false };
        codes = d.codes ++ tier_codes ++ ai_insight_in_flight_channel_advisory_proceeds ∷ [];
      }

  -- what RULES 3 and 4 make of the draft
  unfoldable pub contact_draft : ChannelAdvisoryContext → Draft → Draft
  contact_draft ctx d =
      let rules = ctx.governance.config_rule_set in
      let warnings = missing_tags rules key_map in
      record d {
        path = d.path ++ rule_3 ∷ rule_4 ∷ [];
        tb = bindings_of rules;
        threshold_warnings = warnings;
        eligible = kept (is_unreachable ctx.operational) all_channels;
        prohibited = dropped (is_unreachable ctx.operational) all_channels;
        codes =
            d.codes
            ++ warnings
            ++ when (not (truthy ctx.operational.phone_number)) no_phone_number
            ++ when (not (truthy ctx.operational.email)) no_email_address;
      }

  -- RULES 3 to 5
  unfoldable pub rule_3_on : ChannelAdvisoryContext → Draft → ChannelAdvisoryAssessment
  rule_3_on ctx d =
      let after = contact_draft ctx d in
      if nonempty after.eligible
      then rule_6_on ctx (tier_draft ctx after)
      else emit ctx.governance
          (record after { codes = after.codes ++ no_contact_info_any_channel ∷ [] }) no_scope false
          [] none

  -- RULES 1 and 2
  unfoldable pub rule_1_on : ChannelAdvisoryContext → Draft → ChannelAdvisoryAssessment
  rule_1_on ctx d =
      let gov = ctx.governance in
      if is_closed ctx.operational.outreach_state
      then emit gov
          (record d {
            path = d.path ++ rule_1 ∷ [];
            codes = d.codes ++ outreach_closed_terminal ∷ [];
          })
          no_scope false [] none
      else if gov.compliance_hold_flag
      then emit gov
          (record d {
            path = d.path ++ rule_1 ∷ rule_2 ∷ [];
            prohibited = all_channels;
            codes = d.codes ++ compliance_hold_active ∷ all_channels_compliance_blocked ∷ [];
            gc = record d.gc {
              compliance_channel_restrictions = all_channels;
              blocking_governance_flags =
                  d.gc.blocking_governance_flags ++ compliance_hold_active ∷ [];
            };
            esc = escalation critical compliance_hold_all_channels_blocked;
          })
          no_scope true [] none
      else rule_3_on ctx (record d { path = d.path ++ rule_1 ∷ rule_2 ∷ [] })

  -- `assess_channel_advisory`
  unfoldable pub assess_channel_advisory : ChannelAdvisoryContext → ChannelAdvisoryAssessment
  assess_channel_advisory ctx =
      let codes = precondition_codes ctx.governance in
      if nonempty codes
      then blocked_assessment ctx.governance codes
      else rule_1_on ctx (first_draft ctx.governance)
