-- ===== src/Correlation/Lineage.antt =====
-- What the middleware of app/middleware/correlation.py lets through, and what every request carries on.
use student_success_intellig.Prelude.{
  if◌then◌else◌, truthy, Bool-cases, nonempty, String, ◌≡◌, refl, ◌≢◌, ◌↔◌, ◌⊎◌, inl, inr, Bool,
  true, false, not, ◌&&◌, ◌||◌, Option, none, some, List, [], ◌∷◌, map, arith,
}
use student_success_intellig.Correlation.Types.{
  Mode, authorized, replay_only, Outcome, Event, Code, AttributionContext, PropagationRecord,
  Request, Response,
}
use student_success_intellig.Correlation.Gate.{
  is_valid_mode, is_valid_type, check_execution_mode, check_execution_type, check_replay_lineage,
  check_attribution_partial, gate_codes,
}
use student_success_intellig.Correlation.Resolve.{
  resolve_correlation_id, is_replay_mode, derive_governance_scope, build_attribution_context,
  blocked_context, propagation_record,
}
use student_success_intellig.Correlation.Middleware.{
  Dispatch, Ids, blocking_codes_of, block_request, resolve_context, attribute_response, propagate,
  dispatch,
}
use student_success_intellig.Governance.{ExecutionType, is_replay_type}

-- the pair of attributions is given together or not at all
abbrev pub is_paired : Option String → Option String → Bool
is_paired source authority = if truthy source then truthy authority else not (truthy authority)

abbrev pub is_resolvable_mode : Option Mode → Bool
is_resolvable_mode none = true
is_resolvable_mode (some mode) = is_valid_mode mode

-- a valid type, which comes with a historical version where it is a replay
abbrev pub has_lineage : Option ExecutionType → Option String → Bool
has_lineage none historical = true
has_lineage (some type) historical =
    is_valid_type type && (not (is_replay_type type) || truthy historical)

abbrev pub is_admissible : Request → Bool
is_admissible request =
    is_resolvable_mode request.execution_mode
    && (has_lineage request.execution_type request.historical_config_version_id
        && is_paired request.origin_source request.origin_authority)

pub gate-is_admissible :
    (mode : Option Mode) (type : Option ExecutionType) (historical source authority : Option String)
    → nonempty (gate_codes mode type historical source authority)
      ≡ not (is_resolvable_mode mode && (has_lineage type historical && is_paired source authority))
unfolding gate_codes check_execution_mode check_execution_type check_replay_lineage
    check_attribution_partial
gate-is_admissible mode type historical source authority = ground arith

-- A propagation record with no LIVE effect.
pub record IsContained (r : PropagationRecord) : Type 0 where
  pub not_authorized : r.governance_scope ≢ authorized
  pub suppressed : r.live_effects_suppressed ≡ true

pub data AllContained : List PropagationRecord → Type 0 where
  no_records : AllContained []
  contained :
      {r : PropagationRecord} {rs : List PropagationRecord}
      → IsContained r
      → AllContained rs
      → AllContained (r ∷ rs)

derive_scope_lem :
    (mode : Mode) (type : ExecutionType) → derive_governance_scope mode type ≢ authorized
unfolding derive_governance_scope
derive_scope_lem mode type = ground arith

IsContained-record :
    (ctx : AttributionContext) (request : Request) (id : String) (event : Event) (is_blocked : Bool)
    (codes : List Code) (reason : Option (List Code)) (outcome : Outcome)
    → ctx.governance_scope ≢ authorized
    → ctx.live_effects_suppressed ≡ true
    → IsContained (propagation_record ctx request id event is_blocked codes reason outcome)
unfolding propagation_record
IsContained-record ctx request id event is_blocked codes reason outcome n s = record {
  not_authorized = n;
  suppressed = s;
}

-- The response has the status and the body of the handler's answer to the context that the request carries.
pub record IsAnswered (call_next : AttributionContext → Response) (response : Response)
    (carried : Option AttributionContext) : Type 0 where
  pub context : AttributionContext
  pub is_carried : carried ≡ some context
  pub status : response.status ≡ (call_next context).status
  pub body : response.body ≡ (call_next context).body

module _ (call_next : AttributionContext → Response) (settings_mode : Mode) where
  -- Either the mode is absent or valid, the type absent or valid with a historical version for a replay, and
  -- the attribution complete or absent: then the request carries a context of its own, and the response has
  -- the status and the body of the handler's answer to this context. Or one of these fails: then the status is
  -- 400, the request carries no context, and any other handler would give the same response and records.
  pub dispatch_exact :
      (other : AttributionContext → Response) (ids : Ids) (request : Request)
      → let (response, ctx, _) = dispatch call_next settings_mode ids request in
        ((is_admissible request ≡ true) × IsAnswered call_next response ctx)
        ⊎ ((is_admissible request ≡ false)
            × (response.status ≡ 400)
            × (ctx ≡ none)
            × (dispatch other settings_mode ids request
                ≡ dispatch call_next settings_mode ids request))
  unfolding dispatch block_request propagate attribute_response
  dispatch_exact other ids request =
      let gate =
        gate-is_admissible request.execution_mode request.execution_type
          request.historical_config_version_id request.origin_source request.origin_authority in
      elim (Bool-cases (nonempty (blocking_codes_of request))) [
        | inl g ↦ rw g (inr (ground (arith, g, gate), refl, refl, refl))
        | inr g ↦
            let answer : IsAnswered call_next
                (propagate call_next ids (resolve_context ids settings_mode request) request).0
                (propagate call_next ids (resolve_context ids settings_mode request) request).1 =
              record {
                context = resolve_context ids settings_mode request;
                is_carried = refl;
                status = refl;
                body = refl;
              } in
            rw g (inl (ground (arith, g, gate), answer))
      ]

  resolved_contained :
      (ids : Ids) (request : Request)
      → ((resolve_context ids settings_mode request).governance_scope ≢ authorized)
        × ((resolve_context ids settings_mode request).live_effects_suppressed ≡ true)
  unfolding resolve_context build_attribution_context derive_governance_scope
  resolved_contained ids request = ground arith

  -- Every record that a dispatch emits, of a refusal too, has a scope other than AUTHORIZED and suppresses
  -- LIVE effects.
  pub dispatch-AllContained :
      (ids : Ids) (request : Request)
      → AllContained (dispatch call_next settings_mode ids request).2
  unfolding dispatch block_request propagate blocked_context
  dispatch-AllContained ids request =
      by_test (nonempty (blocking_codes_of request)) _ _
        (contained (IsContained-record _ request _ _ _ _ _ _ (derive_scope_lem _ _) refl)
          no_records)
        (let (n, s) = resolved_contained ids request in
          contained (IsContained-record _ request _ _ _ _ _ _ n s)
            (contained (IsContained-record _ request _ _ _ _ _ _ n s) no_records))
    where
      by_test :
          (b : Bool) (x y : Dispatch)
          → AllContained x.2
          → AllContained y.2
          → AllContained (if b then x else y).2
      by_test true x y p q = p
      by_test false x y p q = q

  -- A replay or regeneration that is let through has the scope REPLAY_ONLY and is marked as a replay, in
  -- every mode; and only requests of such a type or of a replay mode have this scope.
  pub replay_scope_iff :
      (ids : Ids) (request : Request)
      → let ctx = resolve_context ids settings_mode request in
        ((ctx.governance_scope ≡ replay_only)
          ↔ ((is_replay_type ctx.execution_type || is_replay_mode ctx.execution_mode) ≡ true))
        × (ctx.is_replay ≡ is_replay_type ctx.execution_type)
  unfolding resolve_context build_attribution_context derive_governance_scope
  replay_scope_iff ids request = ground arith

  -- A correlation id that a request brings is on the response and on every record, whether the request is let
  -- through or refused.
  pub correlation_kept :
      (ids : Ids) (request : Request) (id : String)
      → request.correlation_id ≡ some id
      → truthy (some id) ≡ true
      → let (response, _, records) = dispatch call_next settings_mode ids request in
        (response.correlation_id ≡ some id)
        × (map (λ r. r.correlation_id) records ≡ map (λ _. id) records)
  unfolding dispatch block_request propagate attribute_response blocked_context resolve_context
      build_attribution_context propagation_record resolve_correlation_id
  correlation_kept ids request id e t = elim (Bool-cases (nonempty (blocking_codes_of request))) [
    | inl g ↦ rw (g, e, t) (refl, refl)
    | inr g ↦ rw (g, e, t) (refl, refl)
  ]
