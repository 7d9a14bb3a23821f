-- ===== src/Priority/Containment.antt =====
-- What each assessment of app/services/priority.py may have an effect on: nothing LIVE, on any branch,
-- and what it says of its context.
use student_success_intellig.Prelude.{
  if◌then◌else◌, Bool-cases, nonempty, String, ◌≡◌, refl, ◌≢◌, ◌⊎◌, inl, inr, Bool, true, false,
  Option, List, [], arith,
}
use student_success_intellig.Prelude.Dict.{Dict}
use student_success_intellig.Priority.Types.{
  Scope, authorized, replay_only, maintenance, Priority, Rule, Code, PrioritizationContext,
  PrioritizationRecord,
}
use student_success_intellig.Priority.Gate.{gate_codes}
use student_success_intellig.Priority.Records.{blocked_record, maintenance_record, replay_record}
use student_success_intellig.Priority.Emission.{Findings, priority_record}
use student_success_intellig.Priority.Engine.{
  scored, after_containment, after_gate, assess_orchestration_priority,
}
use student_success_intellig.Config.{Setting}
use student_success_intellig.Idempotency.{Keys, register}
use student_success_intellig.Governance.{is_replay_type}

-- The limits of an advisory record.
pub record IsAdvisory (r : PrioritizationRecord) : Type 0 where
  pub not_authorized : r.governance_scope ≢ authorized
  pub no_emit : r.scoring_emit_authorized ≡ false
  pub suppressed : r.live_effects_suppressed ≡ true
  pub append_only : r.append_only_enforced ≡ true
  pub lineage_immutable : r.scoring_lineage_immutable ≡ true

-- What a record says of its context.
pub record IsAttributed (ctx : PrioritizationContext) (event_id : String) (r : PrioritizationRecord)
    : Type 0 where
  pub source : r.origin_source ≡ ctx.origin_source
  pub authority : r.origin_authority ≡ ctx.origin_authority
  pub actor : r.actor_identity ≡ ctx.actor_identity
  pub timestamp : r.attribution_timestamp ≡ ctx.attribution_timestamp
  pub upstream : r.upstream_correlation_id ≡ ctx.upstream_correlation_id
  pub correlation : r.correlation_id ≡ ctx.correlation_id
  pub causation : r.causation_id ≡ ctx.causation_id
  pub config_version : r.config_version_id ≡ ctx.config_version_id
  pub mode : r.execution_mode ≡ ctx.execution_mode
  pub type : r.execution_type ≡ ctx.execution_type
  pub event : r.event_id ≡ event_id

abbrev Kept : PrioritizationContext → String → PrioritizationRecord → Type 0
Kept ctx event_id r = IsAdvisory r × IsAttributed ctx event_id r

Kept-if :
    {ctx : PrioritizationContext} {event_id : String} {x y : PrioritizationRecord} (b : Bool)
    → Kept ctx event_id x
    → Kept ctx event_id y
    → Kept ctx event_id (if b then x else y)
Kept-if true p q = p
Kept-if false p q = q

Kept-blocked :
    (ctx : PrioritizationContext) (event_id : String) (codes : List Code) (path : List Rule)
    (reason : Option Code)
    → Kept ctx event_id (blocked_record ctx event_id codes path reason)
unfolding blocked_record
Kept-blocked ctx event_id codes path reason = ground arith

Kept-maintenance :
    (ctx : PrioritizationContext) (event_id : String) (codes : List Code) (path : List Rule)
    → Kept ctx event_id (maintenance_record ctx event_id codes path)
unfolding maintenance_record
Kept-maintenance ctx event_id codes path = ground arith

Kept-replay :
    (ctx : PrioritizationContext) (event_id : String) (codes : List Code) (path : List Rule)
    (bindings : Dict Setting)
    → Kept ctx event_id (replay_record ctx event_id codes path bindings)
unfolding replay_record
Kept-replay ctx event_id codes path bindings = ground arith

Kept-priority :
    (ctx : PrioritizationContext) (event_id : String) (codes : List Code) (path : List Rule)
    (f : Findings)
    → f.governance_scope ≡ Scope.shadow_only
    → f.scoring_emit_authorized ≡ false
    → Kept ctx event_id (priority_record ctx event_id codes path f)
unfolding priority_record
Kept-priority ctx event_id codes path f s e = ground arith

Kept-after_containment :
    (ctx : PrioritizationContext) (event_id : String)
    → Kept ctx event_id (after_containment ctx event_id)
unfolding after_containment scored
Kept-after_containment ctx event_id =
    Kept-if _ (Kept-priority ctx event_id _ _ _ refl refl)
      (Kept-priority ctx event_id _ _ _ refl refl)

Kept-after_gate :
    (ctx : PrioritizationContext) (event_id : String) → Kept ctx event_id (after_gate ctx event_id)
unfolding after_gate
Kept-after_gate ctx event_id =
    Kept-if ctx.maintenance_mode_active (Kept-maintenance ctx event_id _ _)
      (Kept-if _ (Kept-replay ctx event_id _ _ _) (Kept-after_containment ctx event_id))

Kept-assess :
    (keys : Keys) (event_id : String) (ctx : PrioritizationContext)
    → Kept ctx event_id (assess_orchestration_priority keys event_id ctx).0
unfolding assess_orchestration_priority
Kept-assess keys event_id ctx = elim (Bool-cases (nonempty (gate_codes keys ctx))) [
  | inl e ↦ rw e (Kept-blocked ctx event_id _ _ _)
  | inr e ↦ rw e (Kept-after_gate ctx event_id)
]

-- On every branch, the record's scope is not AUTHORIZED, no emission of scores is authorized, LIVE
-- effects are suppressed, and the scoring lineage is marked append-only and immutable.
pub assess_priority-IsAdvisory :
    (keys : Keys) (event_id : String) (ctx : PrioritizationContext)
    → IsAdvisory (assess_orchestration_priority keys event_id ctx).0
assess_priority-IsAdvisory keys event_id ctx = (Kept-assess keys event_id ctx).0

-- On every branch, the record carries the context's attribution, correlation and causation ids, config
-- version, mode and type unchanged, and the event id drawn for it.
pub assess_priority-IsAttributed :
    (keys : Keys) (event_id : String) (ctx : PrioritizationContext)
    → IsAttributed ctx event_id (assess_orchestration_priority keys event_id ctx).0
assess_priority-IsAttributed keys event_id ctx = (Kept-assess keys event_id ctx).1

-- A replay or a regeneration, on every branch: the priority is UNKNOWN, no factor is scored, no
-- adjustment is made, the scope is one of UNAVAILABLE, MAINTENANCE and REPLAY_ONLY, and the registered
-- keys are as before.
pub replay_unscored :
    (keys : Keys) (event_id : String) (ctx : PrioritizationContext)
    → is_replay_type ctx.execution_type ≡ true
    → let (r, _, after) = assess_orchestration_priority keys event_id ctx in
      (r.advisory_priority ≡ Priority.unknown)
      × (r.scoring_factors ≡ [])
      × (r.ai_priority_adjustment_applied ≡ false)
      × ((r.governance_scope ≡ Scope.unavailable)
          ⊎ (r.governance_scope ≡ maintenance)
          ⊎ (r.governance_scope ≡ replay_only))
      × (after ≡ keys)
unfolding assess_orchestration_priority after_gate blocked_record maintenance_record replay_record
    register
replay_unscored keys event_id ctx h = ground arith
