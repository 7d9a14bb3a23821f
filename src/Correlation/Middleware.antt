-- ===== src/Correlation/Middleware.antt =====
-- `AttributionMiddleware.dispatch` of app/middleware/correlation.py. The three random ids are arguments, and
-- so is the handler of the request, which reads the context that the middleware sets.
use student_success_intellig.Prelude.{
  if◌then◌else◌, truthy, nonempty, String, true, false, Option, none, some, List, [], ◌∷◌,
}
use student_success_intellig.Correlation.Types.{
  Mode, Outcome, propagated, attribution_blocked, api_request_received, api_response_dispatched,
  Code, rule_0, rule_1, rule_2, rule_3, rule_4, rule_5, rule_6, AttributionContext,
  PropagationRecord, Request, gate_failed, Response,
}
use student_success_intellig.Correlation.Gate.{gate_codes}
use student_success_intellig.Correlation.Resolve.{
  or_generated, resolve_correlation_id, resolve_execution_mode, resolve_execution_type,
  derive_governance_scope, build_attribution_context, blocked_context, propagation_record,
}

-- What a dispatch gives: the response, the context that the request carries, and the records emitted.
abbrev pub Dispatch : Type 0
Dispatch = Response × Option AttributionContext × List PropagationRecord

-- the random ids of one dispatch
pub record Ids : Type 0 where
  pub correlation : String
  pub first : String
  pub second : String

abbrev pub blocking_codes_of : Request → List Code
blocking_codes_of request =
    gate_codes request.execution_mode request.execution_type request.historical_config_version_id
      request.origin_source request.origin_authority

-- `if ctx.causation_id: response.headers[...] = ctx.causation_id`
abbrev pub or_kept : Option String → Option String → Option String
or_kept id old = if truthy id then id else old

-- the answer to a request that RULE 0 blocks
unfoldable pub block_request : Ids → Request → List Code → Dispatch
block_request ids request codes =
    let id = or_generated request.correlation_id ids.correlation in
    let ctx = blocked_context id request.execution_mode request.execution_type (rule_0 ∷ []) in
    (
      record {
        status = 400;
        body = gate_failed codes;
        correlation_id = some id;
        execution_mode = none;
        governance_scope = none;
        causation_id = none;
      },
      none,
      propagation_record ctx request ids.first attribution_blocked true codes (some codes)
            Outcome.blocked
          ∷ [],
    )

-- RULES 1 to 6
unfoldable pub resolve_context : Ids → Mode → Request → AttributionContext
resolve_context ids settings_mode request =
    let (id, generated) = resolve_correlation_id request.correlation_id ids.correlation in
    let mode = resolve_execution_mode request.execution_mode settings_mode in
    let type = resolve_execution_type request.execution_type in
    build_attribution_context request id generated mode type (derive_governance_scope mode type)
      (rule_0 ∷ rule_1 ∷ rule_2 ∷ rule_3 ∷ rule_4 ∷ rule_5 ∷ rule_6 ∷ [])

-- RULE 9
unfoldable pub attribute_response : AttributionContext → Response → Response
attribute_response ctx response = record response {
  correlation_id = some ctx.correlation_id;
  execution_mode = some ctx.execution_mode;
  governance_scope = some ctx.governance_scope;
  causation_id = or_kept ctx.causation_id response.causation_id;
}

-- RULES 7 to 9
unfoldable pub propagate :
    (AttributionContext → Response) → Ids → AttributionContext → Request → Dispatch
propagate call_next ids ctx request = (
  attribute_response ctx (call_next ctx),
  some ctx,
  propagation_record ctx request ids.first api_request_received false [] none propagated
      ∷ propagation_record ctx request ids.second api_response_dispatched false [] none propagated
      ∷ [],
)

-- `dispatch`
unfoldable pub dispatch : (AttributionContext → Response) → Mode → Ids → Request → Dispatch
dispatch call_next settings_mode ids request =
    let codes = blocking_codes_of request in
    if nonempty codes
    then block_request ids request codes
    else propagate call_next ids (resolve_context ids settings_mode request) request
