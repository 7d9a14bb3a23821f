-- ===== src/Outreach/Containment.antt =====
-- What the records of app/services/outreach.py may have an effect on, and what they say of their context.
use student_success_intellig.Prelude.{
  if◌then◌else◌, Bool-cases, ℤ, nonempty, String, ◌≡◌, refl, ◌≢◌, inl, inr, Bool, true, false,
  Option, List, arith,
}
use student_success_intellig.Prelude.Dict.{Dict}
use student_success_intellig.Outreach.Types.{
  Scope, authorized, Rule, Code, OutreachOrchestrationContext, OutreachCoordinationRecord,
}
use student_success_intellig.Outreach.Gate.{gate_codes}
use student_success_intellig.Outreach.Records.{blocked_record, maintenance_record, replay_record}
use student_success_intellig.Outreach.Emission.{Findings, coordination_record}
use student_success_intellig.Outreach.Engine.{
  after_containment, after_gate, coordinate_orchestration_cycle,
}
use student_success_intellig.Config.{Setting}
use student_success_intellig.Idempotency.{Keys}

-- The limits of a coordination record.
pub record IsContained (r : OutreachCoordinationRecord) : Type 0 where
  pub not_authorized : r.governance_scope ≢ authorized
  pub no_dispatch : r.dispatch_authorized ≡ false
  pub suppressed : r.live_effects_suppressed ≡ true

-- What a record says of its context.
pub record IsAttributed (ctx : OutreachOrchestrationContext) (event_id : String)
    (r : OutreachCoordinationRecord) : Type 0 where
  pub source : r.origin_source ≡ ctx.origin_source
  pub authority : r.origin_authority ≡ ctx.origin_authority
  pub actor : r.actor_identity ≡ ctx.actor_identity
  pub timestamp : r.attribution_timestamp ≡ ctx.attribution_timestamp
  pub upstream : r.upstream_correlation_id ≡ ctx.upstream_correlation_id
  pub correlation : r.correlation_id ≡ ctx.correlation_id
  pub causation : r.causation_id ≡ ctx.causation_id
  pub cycle : r.orchestration_cycle_id ≡ ctx.orchestration_cycle_id
  pub config_version : r.config_version_id ≡ ctx.config_version_id
  pub mode : r.execution_mode ≡ ctx.execution_mode
  pub type : r.execution_type ≡ ctx.execution_type
  pub student : r.student_id_opaque ≡ ctx.student_id_opaque
  pub event : r.event_id ≡ event_id

abbrev Kept : OutreachOrchestrationContext → String → OutreachCoordinationRecord → Type 0
Kept ctx event_id r = IsContained r × IsAttributed ctx event_id r

Kept-if :
    {ctx : OutreachOrchestrationContext} {event_id : String} {x y : OutreachCoordinationRecord}
    (b : Bool)
    → Kept ctx event_id x
    → Kept ctx event_id y
    → Kept ctx event_id (if b then x else y)
Kept-if true p q = p
Kept-if false p q = q

Kept-blocked :
    (ctx : OutreachOrchestrationContext) (event_id : String) (codes : List Code) (path : List Rule)
    (bindings : Dict Setting) (reason : Option Code)
    → Kept ctx event_id (blocked_record ctx event_id codes path bindings reason)
unfolding blocked_record
Kept-blocked ctx event_id codes path bindings reason = ground arith

Kept-maintenance :
    (ctx : OutreachOrchestrationContext) (event_id : String) (codes : List Code) (path : List Rule)
    → Kept ctx event_id (maintenance_record ctx event_id codes path)
unfolding maintenance_record
Kept-maintenance ctx event_id codes path = ground arith

Kept-replay :
    (ctx : OutreachOrchestrationContext) (event_id : String) (codes : List Code) (path : List Rule)
    (bindings : Dict Setting)
    → Kept ctx event_id (replay_record ctx event_id codes path bindings)
unfolding replay_record
Kept-replay ctx event_id codes path bindings = ground arith

Kept-record :
    (ctx : OutreachOrchestrationContext) (event_id : String) (codes : List Code) (path : List Rule)
    (f : Findings)
    → f.governance_scope ≢ authorized
    → f.dispatch_authorized ≡ false
    → Kept ctx event_id (coordination_record ctx event_id codes path f)
unfolding coordination_record
Kept-record ctx event_id codes path f s e = ground arith

either_scope : (b : Bool) → (if b then Scope.unavailable else Scope.shadow_only) ≢ authorized
either_scope b = ground arith

module _ (parse_int parse_float : String → Option ℤ) where
  Kept-after_gate :
      (ctx : OutreachOrchestrationContext) (event_id : String)
      → Kept ctx event_id (after_gate parse_int parse_float ctx event_id)
  unfolding after_gate after_containment
  Kept-after_gate ctx event_id =
      Kept-if ctx.maintenance_mode_active (Kept-maintenance ctx event_id _ _) (
        Kept-if _ (Kept-replay ctx event_id _ _ _)
          (Kept-record ctx event_id _ _ _ (either_scope _) refl))

  Kept-coordinate :
      (keys : Keys) (event_id : String) (ctx : OutreachOrchestrationContext)
      → Kept ctx event_id (coordinate_orchestration_cycle parse_int parse_float keys event_id ctx).0
  unfolding coordinate_orchestration_cycle
  Kept-coordinate keys event_id ctx = elim (Bool-cases (nonempty (gate_codes keys ctx))) [
    | inl e ↦ rw e (Kept-blocked ctx event_id _ _ _ _)
    | inr e ↦ rw e (Kept-after_gate ctx event_id)
  ]

  -- On every branch, the record's scope is not AUTHORIZED, no dispatch is authorized, and LIVE effects are
  -- suppressed.
  pub coordinate-IsContained :
      (keys : Keys) (event_id : String) (ctx : OutreachOrchestrationContext)
      → IsContained (coordinate_orchestration_cycle parse_int parse_float keys event_id ctx).0
  coordinate-IsContained keys event_id ctx = (Kept-coordinate keys event_id ctx).0

  -- On every branch, the record carries the context's attribution, ids, config version, mode, type and
  -- student unchanged, and the event id drawn for it.
  pub coordinate-IsAttributed :
      (keys : Keys) (event_id : String) (ctx : OutreachOrchestrationContext)
      → IsAttributed ctx event_id
          (coordinate_orchestration_cycle parse_int parse_float keys event_id ctx).0
  coordinate-IsAttributed keys event_id ctx = (Kept-coordinate keys event_id ctx).1
