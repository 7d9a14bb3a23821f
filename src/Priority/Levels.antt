-- ===== src/Priority/Levels.antt =====
-- What RULES 6 to 8 of app/services/priority.py keep: which contributions give which priority, how far
-- an AI signal moves it, and which records have no priority.
use student_success_intellig.Prelude.{
  Bool-cases, nonempty, ℕ, ◌+◌, ◌≤◌, String, ◌≡◌, refl, ◌≢◌, ◌↔◌, ◌⊎◌, inl, inr, Bool, true, false,
  ◌&&◌, ◌||◌, Option, some, List, arith,
}
use student_success_intellig.Prelude.Dict.{Dict, or_empty}
use student_success_intellig.Priority.Types.{Priority, Risk, Rule, Code, PrioritizationContext}
use student_success_intellig.Priority.Gate.{gate_codes}
use student_success_intellig.Priority.Tier.{resolve_priority_thresholds, classify_ai_tier}
use student_success_intellig.Priority.Scoring.{
  count, aggregate_priority, raised, raise_with, apply_ai_adjustment,
}
use student_success_intellig.Priority.Records.{blocked_record, maintenance_record, replay_record}
use student_success_intellig.Priority.Emission.{priority_record}
use student_success_intellig.Priority.Engine.{
  is_in_flight, scored, after_containment, after_gate, assess_orchestration_priority,
}
use student_success_intellig.Config.{Setting}
use student_success_intellig.Idempotency.{Keys}
use student_success_intellig.Governance.{
  Intervention, AiTier, confident, advisory, is_replay_type, is_original,
}

abbrev pub rank : Priority → ℕ
rank Priority.unknown = 0
rank Priority.low = 1
rank Priority.medium = 2
rank Priority.high = 3
rank Priority.critical = 4

-- CRITICAL is two high contributions or more; HIGH is one, with a medium one; LOW is neither a high
-- nor a medium one; the priority is never UNKNOWN.
pub aggregate_priority_levels :
    (cs : List Risk)
    → ((aggregate_priority cs ≡ Priority.critical) ↔ (2 ≤ count Risk.high cs))
      × ((aggregate_priority cs ≡ Priority.high)
          ↔ ((count Risk.high cs ≡ 1) × (1 ≤ count Risk.medium cs)))
      × ((aggregate_priority cs ≡ Priority.low)
          ↔ ((count Risk.high cs ≡ 0) × (count Risk.medium cs ≡ 0)))
      × (aggregate_priority cs ≢ Priority.unknown)
unfolding aggregate_priority
aggregate_priority_levels cs = (
  (λ e. ground arith, λ e. ground arith),
  (λ e. (ground arith, ground arith), λ e. ground arith),
  (λ e. (ground arith, ground arith), λ e. ground arith),
  λ e. ground arith,
)

-- the tiers under which RULE 8 may move a priority
abbrev pub moves : AiTier → Bool
moves confident = true
moves advisory = true
moves _ = false

abbrev pub escalates : AiTier → Option Intervention → Bool
escalates confident (some Intervention.escalate) = true
escalates _ _ = false

-- RULE 8 never lowers a priority; it moves it by one step at most unless a confident signal asks to
-- escalate; it leaves it alone under any tier but CONFIDENT and ADVISORY; and what it does not report
-- as adjusted is unchanged.
pub adjustment_bounds :
    (priority : Priority) (tier : AiTier) (intv : Option Intervention)
    → let (after, adjusted, _) = apply_ai_adjustment priority tier intv in
      (rank priority ≤ rank after)
      × ((escalates tier intv ≡ true) ⊎ (rank after ≤ rank priority + 1))
      × ((moves tier ≡ true) ⊎ (after ≡ priority))
      × ((adjusted ≡ true) ⊎ (after ≡ priority))
unfolding apply_ai_adjustment raise_with raised
adjustment_bounds priority tier intv = ground arith

adjusted_known :
    (priority : Priority) (tier : AiTier) (intv : Option Intervention)
    → priority ≢ Priority.unknown
    → (apply_ai_adjustment priority tier intv).0 ≢ Priority.unknown
unfolding apply_ai_adjustment raise_with raised
adjusted_known priority tier intv h = ground arith

-- RULE 5A applies: the AI insight is in flight and the execution is an original one.
abbrev pub is_deferred : PrioritizationContext → Bool
is_deferred ctx =
    is_in_flight
      (classify_ai_tier ctx (resolve_priority_thresholds (or_empty ctx.config_rule_set)).0)
    && is_original ctx.execution_type

scored_known :
    (ctx : PrioritizationContext) (event_id : String) (thresholds : Dict Setting)
    (flags : List Code) (tier : AiTier) (codes : List Code) (path : List Rule)
    → (scored ctx event_id thresholds flags tier codes path).advisory_priority ≢ Priority.unknown
unfolding scored priority_record
scored_known ctx event_id thresholds flags tier codes path =
    adjusted_known _ tier _ (aggregate_priority_levels _).3

unknown-after_containment :
    (ctx : PrioritizationContext) (event_id : String)
    → ((after_containment ctx event_id).advisory_priority ≡ Priority.unknown)
      ↔ (is_deferred ctx ≡ true)
unknown-after_containment ctx event_id = elim (Bool-cases (is_deferred ctx)) [
  | inl e ↦ unfold after_containment priority_record in rw e (λ _. refl, λ _. refl)
  | inr e ↦
      unfold after_containment in
      rw e ((λ h. elim (scored_known ctx event_id _ _ _ _ _ h) [ ]), λ h. cc)
]

-- The branches that give no priority.
abbrev pub stops_early : Keys → PrioritizationContext → Bool
stops_early keys ctx =
    nonempty (gate_codes keys ctx)
    || ctx.maintenance_mode_active
    || is_replay_type ctx.execution_type
    || is_deferred ctx

-- The advisory priority is UNKNOWN exactly if the gate refuses the context, maintenance is active, the
-- execution is a replay or a regeneration, or an original one waits for an AI insight in flight.
pub unknown_iff :
    (keys : Keys) (event_id : String) (ctx : PrioritizationContext)
    → ((assess_orchestration_priority keys event_id ctx).0.advisory_priority ≡ Priority.unknown)
      ↔ (stops_early keys ctx ≡ true)
unfolding assess_orchestration_priority after_gate blocked_record maintenance_record replay_record
unknown_iff keys event_id ctx =
    let (to, from) = unknown-after_containment ctx event_id in
    ((λ e. ground (arith, to)), λ e. ground (arith, from))
