-- ===== src/Channel/Advice.antt =====
-- What app/services/channel_selector.py recommends and permits, from its first rule to its last.
use student_success_intellig.Prelude.{
  ℤ, nonempty, String, ◌≡◌, refl, ◌⊎◌, inl, true, false, not, ◌&&◌, Option, none, some, [], arith,
}
use student_success_intellig.Prelude.Dict.{or_empty}
use student_success_intellig.Channel.Types.{
  all_channels, channel_exhausted, no_scope, Exhaustion, exhausted, partial, OperationalCtx,
  ChannelAdvisoryContext, Draft,
}
use student_success_intellig.Channel.Gate.{precondition_codes, first_draft, blocked_assessment}
use student_success_intellig.Channel.Emit.{is_delivery}
use student_success_intellig.Channel.Rules.{
  exhaustion_rule, rule_8_on, flag_of, health_draft, rule_7_on, opt_out_draft, rule_6_on,
  is_unreachable, is_closed, tier_draft, contact_draft, rule_3_on, rule_1_on,
  assess_channel_advisory,
}
use student_success_intellig.Governance.{is_live, is_replay_type}
use student_success_intellig.Channel.Partition.{
  count, IsPartition, IsPartition-split, IsPartition-usable,
}
use student_success_intellig.Channel.Soundness.{
  is_authorized, IsSound, IsSound-if, IsSound-none, IsSplit, IsSound-rule_9_on,
}

IsSound-rule_8_on :
    (ctx : ChannelAdvisoryContext) (d : Draft) → IsSplit d → IsSound (rule_8_on ctx d)
unfolding rule_8_on exhaustion_rule
IsSound-rule_8_on ctx d p = by_exhaustion ctx.operational.channel_exhaustion_state
  where
    by_exhaustion : (o : Option Exhaustion) → IsSound (exhaustion_rule ctx d o)
    by_exhaustion (some exhausted) =
        IsSound-if (nonempty d.eligible) _ _ (IsSound-rule_9_on ctx _ p)
          (IsSound-none ctx.governance _ _ true none)
    by_exhaustion (some partial) = IsSound-rule_9_on ctx _ p
    by_exhaustion (some (Exhaustion.other _)) = IsSound-rule_9_on ctx _ p
    by_exhaustion none = IsSound-rule_9_on ctx _ p

IsSplit-health : (op : OperationalCtx) (d : Draft) → IsSplit d → IsSplit (health_draft op d)
unfolding health_draft
IsSplit-health op d p = IsPartition-usable op d.eligible d.prohibited p

IsSplit-opt_out : (op : OperationalCtx) (d : Draft) → IsSplit d → IsSplit (opt_out_draft op d)
unfolding opt_out_draft
IsSplit-opt_out op d p =
    IsPartition-split (flag_of (or_empty op.channel_opt_out_state)) d.eligible d.prohibited p

IsSound-rule_7_on :
    (ctx : ChannelAdvisoryContext) (d : Draft) → IsSplit d → IsSound (rule_7_on ctx d)
unfolding rule_7_on
IsSound-rule_7_on ctx d p =
    IsSound-if (nonempty (health_draft ctx.operational d).eligible) _ _
      (IsSound-rule_8_on ctx (health_draft ctx.operational d) (IsSplit-health ctx.operational d p))
      (IsSound-none ctx.governance _ channel_exhausted true none)

IsSound-rule_6_on :
    (ctx : ChannelAdvisoryContext) (d : Draft) → IsSplit d → IsSound (rule_6_on ctx d)
unfolding rule_6_on
IsSound-rule_6_on ctx d p =
    IsSound-if (nonempty (opt_out_draft ctx.operational d).eligible) _ _
      (IsSound-rule_7_on ctx (opt_out_draft ctx.operational d)
        (IsSplit-opt_out ctx.operational d p))
      (IsSound-none ctx.governance _ channel_exhausted true none)

all_channels-IsPartition : IsPartition all_channels []
unfolding count
all_channels-IsPartition ch = ground arith

module _ (elapsed : String → Option ℤ) where
  IsSplit-tier :
      (ctx : ChannelAdvisoryContext) (d : Draft) → IsSplit d → IsSplit (tier_draft elapsed ctx d)
  unfolding tier_draft
  IsSplit-tier ctx d p ch = ground (arith, p ch)

  IsSplit-contact :
      (ctx : ChannelAdvisoryContext) (d : Draft) → IsSplit (contact_draft elapsed ctx d)
  unfolding contact_draft
  IsSplit-contact ctx d =
      IsPartition-split (is_unreachable ctx.operational) all_channels [] all_channels-IsPartition

  IsSound-rule_3_on : (ctx : ChannelAdvisoryContext) (d : Draft) → IsSound (rule_3_on elapsed ctx d)
  unfolding rule_3_on
  IsSound-rule_3_on ctx d =
      IsSound-if (nonempty (contact_draft elapsed ctx d).eligible) _ _
        (IsSound-rule_6_on ctx (tier_draft elapsed ctx (contact_draft elapsed ctx d))
          (IsSplit-tier ctx (contact_draft elapsed ctx d) (IsSplit-contact ctx d)))
        (IsSound-none ctx.governance _ no_scope false none)

  IsSound-rule_1_on : (ctx : ChannelAdvisoryContext) (d : Draft) → IsSound (rule_1_on elapsed ctx d)
  unfolding rule_1_on
  IsSound-rule_1_on ctx d =
      IsSound-if (is_closed ctx.operational.outreach_state) _ _
        (IsSound-none ctx.governance _ no_scope false none)
        (IsSound-if ctx.governance.compliance_hold_flag _ _
          (IsSound-none ctx.governance _ no_scope true none) (IsSound-rule_3_on ctx _))

  IsSound-assess : (ctx : ChannelAdvisoryContext) → IsSound (assess_channel_advisory elapsed ctx)
  unfolding assess_channel_advisory blocked_assessment
  IsSound-assess ctx =
      IsSound-if (nonempty (precondition_codes ctx.governance)) _ _
        (record { exact = inl refl; permitted = refl; scoped = refl })
        (IsSound-rule_1_on ctx (first_draft ctx.governance))

  -- An assessment recommends no channel, or recommends exactly the channels that it does not prohibit, each
  -- once, on every branch.
  pub recommended_or_prohibited :
      (ctx : ChannelAdvisoryContext)
      → let a = assess_channel_advisory elapsed ctx in
        (a.recommended_channel_candidates ≡ [])
        ⊎ IsPartition a.recommended_channel_candidates a.prohibited_channels
  recommended_or_prohibited ctx = (IsSound-assess ctx).exact

  -- On every branch LIVE delivery is permitted exactly if the advisory is produced for a delivery scope, in
  -- LIVE mode, for no replay, and not blocked; and the governance scope is AUTHORIZED exactly then.
  pub live_delivery_exact :
      (ctx : ChannelAdvisoryContext)
      → let a = assess_channel_advisory elapsed ctx in
        (a.governance_constraints.live_delivery_permitted ≡ (
          a.channel_advisory_produced
          && (is_delivery a.advisory_scope
              && (is_live a.execution_mode
                  && (not (is_replay_type a.execution_type) && not a.advisory_blocked)))))
        × (is_authorized a.governance_constraints.governance_scope
            ≡ a.governance_constraints.live_delivery_permitted)
  live_delivery_exact ctx = ((IsSound-assess ctx).permitted, (IsSound-assess ctx).scoped)
