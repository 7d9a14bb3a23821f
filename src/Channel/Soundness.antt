-- ===== src/Channel/Soundness.antt =====
-- RULES 9 to 13 of app/services/channel_selector.py: what the assessments that they emit recommend and permit.
use student_success_intellig.Prelude.{
  if◌then◌else◌, is_some, nonempty, ◌+◌, ◌≡◌, refl, ap, ◌∙◌, ◌⊎◌, inl, inr, Bool, true, false, not,
  ◌&&◌, Option, none, some, List, [], ◌∷◌, arith,
}
use student_success_intellig.Channel.Types.{
  Channel, Scope, Preference, GovernanceScope, authorized, Code, GovernanceCtx, AiCtx,
  ChannelAdvisoryContext, GovernanceConstraints, Draft, ChannelAdvisoryAssessment,
}
use student_success_intellig.Channel.Ranking.{has, Ranking, ranked, promote, prioritize_channels}
use student_success_intellig.Channel.Emit.{is_delivery, live_ok, constrained, emit}
use student_success_intellig.Channel.Late.{
  scope_of, conclude, adjusted, adjust, unadjusted, by_tier, rank_candidates, suspended_draft,
  exhausted_or_ranked, rule_10_on, replay_draft, rule_9_on,
}
use student_success_intellig.Governance.{AiTier, is_live, is_replay_type}
use student_success_intellig.Channel.Partition.{
  count, count-promote, IsPartition, IsPartition-split, count-prioritize,
}

abbrev pub is_authorized : GovernanceScope → Bool
is_authorized authorized = true
is_authorized _ = false

-- An assessment recommends nothing, or recommends exactly the channels that it does not prohibit, each once;
-- and what it says of LIVE delivery agrees with its own fields.
pub record IsSound (a : ChannelAdvisoryAssessment) : Type 0 where
  pub exact :
      (a.recommended_channel_candidates ≡ [])
      ⊎ IsPartition a.recommended_channel_candidates a.prohibited_channels
  pub permitted : a.governance_constraints.live_delivery_permitted ≡ (
      a.channel_advisory_produced
      && (is_delivery a.advisory_scope
          && (is_live a.execution_mode
              && (not (is_replay_type a.execution_type) && not a.advisory_blocked))))
  pub scoped :
      is_authorized a.governance_constraints.governance_scope
      ≡ a.governance_constraints.live_delivery_permitted

-- what `emit` makes of the constraints
emit_permitted :
    (gov : GovernanceCtx) (scope : Scope) (produced blocked : Bool) (gc : GovernanceConstraints)
    → let after = constrained gov (live_ok gov scope produced blocked) gc in
      (after.live_delivery_permitted ≡ live_ok gov scope produced blocked)
      × (is_authorized after.governance_scope ≡ after.live_delivery_permitted)
unfolding constrained live_ok
emit_permitted gov scope produced is_blocked gc = (ground arith, ground arith)

IsSound-emit :
    (gov : GovernanceCtx) (d : Draft) (scope : Scope) (produced : Bool) (cs : List Channel)
    (reason : Option Code)
    → (cs ≡ []) ⊎ IsPartition cs d.prohibited
    → IsSound (emit gov d scope produced cs reason)
unfolding emit live_ok
IsSound-emit gov d scope produced cs reason e =
    let (p, q) = emit_permitted gov scope produced (is_some reason) d.gc in
    record { exact = e; permitted = p; scoped = q }

pub IsSound-if :
    (b : Bool) (x y : ChannelAdvisoryAssessment)
    → IsSound x
    → IsSound y
    → IsSound (if b then x else y)
IsSound-if true x y p q = p
IsSound-if false x y p q = q

IsSound-test :
    (b : Bool) (x y : ChannelAdvisoryAssessment)
    → (b ≡ true → IsSound x)
    → IsSound y
    → IsSound (if b then x else y)
IsSound-test true x y p q = p refl
IsSound-test false x y p q = q

pub IsSound-none :
    (gov : GovernanceCtx) (d : Draft) (scope : Scope) (produced : Bool) (reason : Option Code)
    → IsSound (emit gov d scope produced [] reason)
IsSound-none gov d scope produced reason = IsSound-emit gov d scope produced [] reason (inl refl)

IsSound-conclude :
    (gov : GovernanceCtx) (d : Draft) (locked : Option Scope) (r : Ranking) (has_pref : Bool)
    → IsPartition (ranked r) d.prohibited
    → IsSound (conclude gov d locked r has_pref)
unfolding conclude
IsSound-conclude gov d locked r has_pref p =
    IsSound-emit gov _ (scope_of locked r has_pref d.ai_out) true (ranked r) none (inr p)

IsSound-adjusted :
    (gov : GovernanceCtx) (d : Draft) (ch : Channel) (r : Ranking) (signal : Option Preference)
    (code : Code)
    → has ch (ranked r) ≡ true
    → IsPartition (ranked r) d.prohibited
    → IsSound (adjusted gov d ch r signal code)
unfolding adjusted
IsSound-adjusted gov d ch r signal code h p =
    IsSound-conclude gov _ none (promote ch r) true
      (λ x. ap (λ n. n + count x d.prohibited) (count-promote x ch r h) ∙ p x)

IsSound-adjust :
    (gov : GovernanceCtx) (ai : AiCtx) (d : Draft) (r : Ranking) (has_pref is_confident : Bool)
    (signal : Option Channel)
    → IsPartition (ranked r) d.prohibited
    → IsSound (adjust gov ai d r has_pref is_confident signal)
unfolding adjust
IsSound-adjust gov ai d r has_pref is_confident none p = IsSound-conclude gov d none r has_pref p
IsSound-adjust gov ai d r has_pref is_confident (some ch) p =
    IsSound-test (not (has ch d.prohibited) && has ch (ranked r)) _ _
      (λ e.
        let h : has ch (ranked r) ≡ true = ground (arith, e) in
        IsSound-if is_confident _ _ (IsSound-adjusted gov d ch r _ _ h p) (
          IsSound-if (not has_pref) _ _ (IsSound-adjusted gov d ch r _ _ h p)
            (IsSound-conclude gov d none r has_pref p)))
      (IsSound-conclude gov d none r has_pref p)

prohibited-unadjusted :
    (gov : GovernanceCtx) (d : Draft) (tier : AiTier)
    → (unadjusted gov d tier).prohibited ≡ d.prohibited
unfolding unadjusted
prohibited-unadjusted gov d tier = ground arith

IsSound-by_tier :
    (gov : GovernanceCtx) (ai : AiCtx) (d : Draft) (locked : Option Scope) (r : Ranking)
    (has_pref : Bool) (tier : AiTier)
    → IsPartition (ranked r) d.prohibited
    → IsSound (by_tier gov ai d locked r has_pref tier)
unfolding by_tier unadjusted
IsSound-by_tier gov ai d none r has_pref AiTier.confident p =
    IsSound-adjust gov ai d r has_pref true _ p
IsSound-by_tier gov ai d none r has_pref AiTier.advisory p =
    IsSound-adjust gov ai d r has_pref false _ p
IsSound-by_tier gov ai d none r has_pref AiTier.stale p = IsSound-conclude gov _ none r has_pref p
IsSound-by_tier gov ai d none r has_pref AiTier.in_flight p =
    IsSound-conclude gov _ none r has_pref p
IsSound-by_tier gov ai d none r has_pref AiTier.unavailable p =
    IsSound-conclude gov _ none r has_pref p
IsSound-by_tier gov ai d none r has_pref AiTier.finalized_copy p =
    IsSound-conclude gov _ none r has_pref p
IsSound-by_tier gov ai d (some scope) r has_pref tier p =
    IsSound-conclude gov (unadjusted gov d tier) (some scope) r has_pref
      (λ ch. ap (λ ys. count ch (ranked r) + count ch ys) (prohibited-unadjusted gov d tier) ∙ p ch)

IsSound-rank :
    (ctx : ChannelAdvisoryContext) (d : Draft) (locked : Option Scope) (r : Ranking)
    → IsPartition (ranked r) d.prohibited
    → IsSound (rank_candidates ctx d locked r)
unfolding rank_candidates
IsSound-rank ctx d locked r p =
    let score = ctx.operational.engagement_signal_score in
    IsSound-by_tier ctx.governance ctx.ai _ locked (prioritize_channels r score d.tb).0 _ _
      (λ x. ap (λ n. n + count x d.prohibited) (count-prioritize x r score d.tb) ∙ p x)

IsSound-exhausted_or_ranked :
    (ctx : ChannelAdvisoryContext) (d : Draft) (locked : Option Scope) (cs : List Channel)
    → IsPartition cs d.prohibited
    → IsSound (exhausted_or_ranked ctx d locked cs)
unfolding exhausted_or_ranked
IsSound-exhausted_or_ranked ctx d locked [] p = IsSound-none ctx.governance _ _ true none
IsSound-exhausted_or_ranked ctx d locked (c ∷ cs) p = IsSound-rank ctx d locked (c, cs) p

-- a draft whose channels are eligible or prohibited
abbrev pub IsSplit : Draft → Type 0
IsSplit d = IsPartition d.eligible d.prohibited

IsSound-rule_10_on :
    (ctx : ChannelAdvisoryContext) (d : Draft) (locked : Option Scope)
    → IsSplit d
    → IsSound (rule_10_on ctx d locked)
unfolding rule_10_on suspended_draft
IsSound-rule_10_on ctx d locked p =
    IsSound-exhausted_or_ranked ctx _ locked _ (IsPartition-split _ d.eligible d.prohibited p)

pub IsSound-rule_9_on :
    (ctx : ChannelAdvisoryContext) (d : Draft) → IsSplit d → IsSound (rule_9_on ctx d)
unfolding rule_9_on replay_draft
IsSound-rule_9_on ctx d p =
    IsSound-if (not (is_replay_type ctx.governance.execution_type)) _ _
      (IsSound-rule_10_on ctx d none p)
      (IsSound-if (nonempty _) _ _ (IsSound-none ctx.governance _ _ false _)
        (IsSound-rule_10_on ctx _ _ p))
