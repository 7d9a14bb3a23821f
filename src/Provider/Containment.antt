-- ===== src/Provider/Containment.antt =====
-- What the assessments of app/services/ghl.py may have an effect on, and what the transport makes of them.
use student_success_intellig.Prelude.{
  if◌then◌else◌, truthy, ℤ, nonempty, String, ◌≡◌, ◌∙◌, ◌≢◌, Bool, true, false, not, Option, none,
  some, List, arith,
}
use student_success_intellig.Prelude.Dict.{Dict, contains}
use student_success_intellig.Provider.Types.{
  Cause, Rule, Code, ProviderOrchestrationContext, ProviderOrchestrationAssessment,
}
use student_success_intellig.Provider.Gate.{gate_codes}
use student_success_intellig.Provider.Records.{
  blocked_assessment, replay_assessment, shadow_assessment, duplicate_assessment,
}
use student_success_intellig.Provider.Engine.{
  Assessment, is_open, authorize, deduplicate, after_circuit, after_containment,
  assess_provider_orchestration,
}
use student_success_intellig.Provider.Transport.{
  DispatchOutcome, Payload, DispatchResult, dispatch_result, execute_ghl_dispatch,
}
use student_success_intellig.Outreach.Types.{authorized}
use student_success_intellig.Config.{Setting}
use student_success_intellig.Idempotency.{Keys}
use student_success_intellig.Governance.{is_shadow, is_replay_type}

-- The limits of an assessment.
pub record IsContained (a : ProviderOrchestrationAssessment) : Type 0 where
  pub not_authorized : a.governance_scope ≢ authorized
  pub suppressed : a.outbound_suppressed ≡ true

-- What an assessment says of its context.
pub record IsAttributed (ctx : ProviderOrchestrationContext) (event_id : String)
    (a : ProviderOrchestrationAssessment) : Type 0 where
  pub source : a.origin_source ≡ ctx.origin_source
  pub authority : a.origin_authority ≡ ctx.origin_authority
  pub correlation : a.correlation_id ≡ ctx.correlation_id
  pub causation : a.causation_id ≡ ctx.causation_id
  pub intent : a.upstream_intent_id ≡ ctx.upstream_intent_id
  pub config_version : a.config_version_id ≡ ctx.config_version_id
  pub mode : a.execution_mode ≡ ctx.execution_mode
  pub type : a.execution_type ≡ ctx.execution_type
  pub event : a.event_id ≡ event_id

abbrev Kept : ProviderOrchestrationContext → String → ProviderOrchestrationAssessment → Type 0
Kept ctx event_id a = IsContained a × IsAttributed ctx event_id a

Kept-if :
    {ctx : ProviderOrchestrationContext} {event_id : String} (b : Bool) (x y : Assessment)
    → Kept ctx event_id x.0
    → Kept ctx event_id y.0
    → Kept ctx event_id (if b then x else y).0
Kept-if true x y p q = p
Kept-if false x y p q = q

Kept-blocked :
    (ctx : ProviderOrchestrationContext) (event_id : String) (codes : List Code) (path : List Rule)
    (bindings : Dict Setting) (cause : Option Cause) (reason : Option Code)
    → Kept ctx event_id (blocked_assessment ctx event_id codes path bindings cause reason)
unfolding blocked_assessment
Kept-blocked ctx event_id codes path bindings cause reason = ground arith

Kept-replay :
    (ctx : ProviderOrchestrationContext) (event_id : String) (codes : List Code) (path : List Rule)
    → Kept ctx event_id (replay_assessment ctx event_id codes path)
unfolding replay_assessment
Kept-replay ctx event_id codes path = ground arith

Kept-shadow :
    (ctx : ProviderOrchestrationContext) (event_id : String) (codes : List Code) (path : List Rule)
    (bindings : Dict Setting) (is_degraded : Bool) (cause : Option Cause)
    → Kept ctx event_id (shadow_assessment ctx event_id codes path bindings is_degraded cause)
unfolding shadow_assessment
Kept-shadow ctx event_id codes path bindings is_degraded cause = ground arith

Kept-duplicate :
    (ctx : ProviderOrchestrationContext) (event_id : String) (codes : List Code) (path : List Rule)
    (bindings : Dict Setting)
    → Kept ctx event_id (duplicate_assessment ctx event_id codes path bindings)
unfolding duplicate_assessment
Kept-duplicate ctx event_id codes path bindings = ground arith

Kept-deduplicate :
    (keys : Keys) (ctx : ProviderOrchestrationContext) (event_id : String) (codes : List Code)
    (path : List Rule) (bindings : Dict Setting) (missing : List String) (cause : Option Cause)
    (key : Option String)
    → Kept ctx event_id (deduplicate keys ctx event_id codes path bindings missing cause key).0
unfolding deduplicate authorize
Kept-deduplicate keys ctx event_id codes path bindings missing cause none =
    Kept-shadow ctx event_id _ _ _ _ _
Kept-deduplicate keys ctx event_id codes path bindings missing cause (some key) =
    Kept-if (not (truthy (some key))) _ _ (Kept-shadow ctx event_id _ _ _ _ _) (
      Kept-if (contains key keys) _ _ (Kept-duplicate ctx event_id _ _ _)
        (Kept-shadow ctx event_id _ _ _ _ _))

module _ (parse_int parse_float : String → Option ℤ) where
  Kept-after_containment :
      (keys : Keys) (ctx : ProviderOrchestrationContext) (event_id : String)
      → Kept ctx event_id (after_containment parse_int parse_float keys ctx event_id).0
  unfolding after_containment after_circuit
  Kept-after_containment keys ctx event_id =
      Kept-if ctx.compliance_hold_active _ _ (Kept-blocked ctx event_id _ _ _ _ _) (
        Kept-if (is_open ctx.circuit_breaker_state) _ _ (Kept-blocked ctx event_id _ _ _ _ _) (
          Kept-if (is_shadow ctx.execution_mode) _ _ (Kept-shadow ctx event_id _ _ _ _ _) (
            Kept-if _ _ _ (Kept-blocked ctx event_id _ _ _ _ _)
              (Kept-deduplicate keys ctx event_id _ _ _ _ _ ctx.idempotency_key))))

  Kept-assess :
      (keys : Keys) (event_id : String) (ctx : ProviderOrchestrationContext)
      → Kept ctx event_id (assess_provider_orchestration parse_int parse_float keys event_id ctx).0
  unfolding assess_provider_orchestration
  Kept-assess keys event_id ctx =
      Kept-if (nonempty (gate_codes ctx)) _ _ (Kept-blocked ctx event_id _ _ _ _ _) (
        Kept-if (is_replay_type ctx.execution_type) _ _ (Kept-replay ctx event_id _ _)
          (Kept-after_containment keys ctx event_id))

  -- On every branch, the assessment's scope is not AUTHORIZED and the outbound message is suppressed.
  pub assess_provider-IsContained :
      (keys : Keys) (event_id : String) (ctx : ProviderOrchestrationContext)
      → IsContained (assess_provider_orchestration parse_int parse_float keys event_id ctx).0
  assess_provider-IsContained keys event_id ctx = (Kept-assess keys event_id ctx).0

  -- On every branch, the assessment carries the context's attribution, ids, config version, mode and type
  -- unchanged, and the event id drawn for it.
  pub assess_provider-IsAttributed :
      (keys : Keys) (event_id : String) (ctx : ProviderOrchestrationContext)
      → IsAttributed ctx event_id
          (assess_provider_orchestration parse_int parse_float keys event_id ctx).0
  assess_provider-IsAttributed keys event_id ctx = (Kept-assess keys event_id ctx).1

-- What comes of a dispatch that reached nobody.
pub record IsSimulated (r : DispatchResult) : Type 0 where
  pub suppressed : r.outbound_suppressed ≡ true
  pub no_success : r.outcome ≢ DispatchOutcome.success
  pub no_answer : r.provider_response_code ≡ none
  pub no_workflow : r.ghl_workflow_id ≡ none

-- For every assessment, however made, the dispatch has no success, no response of the provider and no
-- workflow, and it is suppressed where the assessment is.
pub dispatch-simulated :
    (a : ProviderOrchestrationAssessment) (payload : Payload)
    → let r = execute_ghl_dispatch a payload in
      (r.outcome ≢ DispatchOutcome.success)
      × (r.provider_response_code ≡ none)
      × (r.ghl_workflow_id ≡ none)
      × (r.outbound_suppressed ≡ a.outbound_suppressed)
unfolding execute_ghl_dispatch dispatch_result
dispatch-simulated a payload = ground arith

pub dispatch-IsSimulated :
    (a : ProviderOrchestrationAssessment) (payload : Payload)
    → IsContained a
    → IsSimulated (execute_ghl_dispatch a payload)
dispatch-IsSimulated a payload c =
    let (o, r, w, s) = dispatch-simulated a payload in
    record { suppressed = s ∙ c.suppressed; no_success = o; no_answer = r; no_workflow = w }
