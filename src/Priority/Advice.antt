-- ===== src/Priority/Advice.antt =====
-- How an AI recommendation changes the advisory priority of app/services/priority.py: two contexts that
-- differ in the recommendation alone are followed through the rules.
use student_success_intellig.Prelude.{
  if◌then◌else◌, Bool-cases, nonempty, ◌+◌, ◌≤◌, String, ◌≡◌, inl, inr, Bool, true, false, none,
  List, [], ◌∷◌, ◌++◌, map, arith,
}
use student_success_intellig.Prelude.Dict.{Dict}
use student_success_intellig.Priority.Levels.{rank, adjustment_bounds, is_deferred}
use student_success_intellig.Priority.Types.{
  Priority, Risk, Rule, Code, PrioritizationContext, PrioritizationRecord,
}
use student_success_intellig.Priority.Gate.{gate_codes}
use student_success_intellig.Priority.Tier.{classify_ai_tier}
use student_success_intellig.Priority.Scoring.{
  Finding, score_ai, findings_of, score_risk_factors, count, aggregate_priority,
  apply_ai_adjustment,
}
use student_success_intellig.Priority.Records.{blocked_record, maintenance_record, replay_record}
use student_success_intellig.Priority.Emission.{priority_record}
use student_success_intellig.Priority.Engine.{
  scored, after_containment, after_gate, assess_orchestration_priority,
}
use student_success_intellig.Config.{Setting}
use student_success_intellig.Idempotency.{Keys}
use student_success_intellig.Governance.{AiTier, is_replay_type}

-- the contributions of a list of findings
abbrev contributions : List Finding → List Risk
contributions found = map (λ f. f.0.contribution) found

count-contributions :
    (risk : Risk) (xs ys : List Finding)
    → count risk (contributions (xs ++ ys))
      ≡ count risk (contributions xs) + count risk (contributions ys)
unfolding count
count-contributions risk [] ys = omega arith
count-contributions risk (x ∷ xs) ys = ground (arith, count-contributions risk xs ys)

aggregate_priority-counts :
    (xs ys : List Risk)
    → count Risk.high xs ≤ count Risk.high ys
    → count Risk.medium xs ≤ count Risk.medium ys
    → rank (aggregate_priority xs) ≤ rank (aggregate_priority ys)
unfolding aggregate_priority
aggregate_priority-counts xs ys h m = ground arith

-- a context without the AI recommendation
abbrev pub without_ai : PrioritizationContext → PrioritizationContext
without_ai ctx = record ctx { ai_recommended_intervention = none }

no_signal : (tier : AiTier) → score_ai tier none ≡ []
unfolding score_ai
no_signal tier = ground arith

count-findings :
    (risk : Risk) (ctx : PrioritizationContext) (th : Dict Setting) (tier : AiTier)
    → count risk (contributions (findings_of (without_ai ctx) th tier))
      ≤ count risk (contributions (findings_of ctx th tier))
unfolding findings_of
count-findings risk ctx th tier =
    rw (no_signal tier) (unfold count in omega (arith, count-contributions))

unadjusted :
    (priority : Priority) (tier : AiTier) → (apply_ai_adjustment priority tier none).0 ≡ priority
unfolding apply_ai_adjustment
unadjusted priority tier = ground arith

scored-without_ai :
    (ctx : PrioritizationContext) (event_id : String) (th : Dict Setting) (flags : List Code)
    (tier : AiTier) (codes : List Code) (path : List Rule)
    → rank (scored (without_ai ctx) event_id th flags tier codes path).advisory_priority
      ≤ rank (scored ctx event_id th flags tier codes path).advisory_priority
unfolding scored priority_record score_risk_factors
scored-without_ai ctx event_id th flags tier codes path =
    let raised_by =
      adjustment_bounds (aggregate_priority (contributions (findings_of ctx th tier))) tier
        ctx.ai_recommended_intervention in
    let lower =
      aggregate_priority-counts (contributions (findings_of (without_ai ctx) th tier))
        (contributions (findings_of ctx th tier)) (count-findings Risk.high ctx th tier)
        (count-findings Risk.medium ctx th tier) in
    rw (unadjusted _ tier) (omega (arith, lower, raised_by.0))

abbrev Below : PrioritizationRecord → PrioritizationRecord → Type 0
Below r r' = rank r.advisory_priority ≤ rank r'.advisory_priority

Below-if :
    (b : Bool) (x x' y y' : PrioritizationRecord)
    → Below x x'
    → Below y y'
    → Below (if b then x else y) (if b then x' else y')
Below-if true x x' y y' p q = p
Below-if false x x' y y' p q = q

Below-after_gate :
    (ctx : PrioritizationContext) (event_id : String)
    → Below (after_gate (without_ai ctx) event_id) (after_gate ctx event_id)
unfolding after_gate after_containment classify_ai_tier priority_record maintenance_record
    replay_record
Below-after_gate ctx event_id = Below-if ctx.maintenance_mode_active _ _ _ _ (omega arith) (
    Below-if (is_replay_type ctx.execution_type) _ _ _ _ (omega arith)
      (Below-if (is_deferred ctx) _ _ _ _ (omega arith) (scored-without_ai ctx event_id _ _ _ _ _)))

-- An AI recommendation never lowers the advisory priority of a context: without it the priority is at
-- most what it is with it, on every branch.
pub recommendation_never_lowers :
    (keys : Keys) (event_id : String) (ctx : PrioritizationContext)
    → rank (assess_orchestration_priority keys event_id (without_ai ctx)).0.advisory_priority
      ≤ rank (assess_orchestration_priority keys event_id ctx).0.advisory_priority
unfolding assess_orchestration_priority gate_codes blocked_record
recommendation_never_lowers keys event_id ctx = elim (Bool-cases (nonempty (gate_codes keys ctx))) [
  | inl e ↦ rw e (omega arith)
  | inr e ↦ rw e (Below-after_gate ctx event_id)
]
