-- ===== src/Correlation/Resolve.antt =====
-- RULES 1 to 6 of app/middleware/_correlation_helpers.py, and its makers of contexts and records. A random id
-- is an argument.
use student_success_intellig.Prelude.{
  if◌then◌else◌, truthy, String, Bool, true, false, not, ◌&&◌, Option, none, some, List,
}
use student_success_intellig.Correlation.Types.{
  Mode, Scope, authorized, shadow_only, replay_only, Outcome, Event, Code, Rule, AttributionContext,
  PropagationRecord, Request,
}
use student_success_intellig.Correlation.Gate.{is_valid_mode, is_valid_type}
use student_success_intellig.Governance.{ExecutionType, original, is_replay_type}

-- `header or generated`
abbrev pub or_generated : Option String → String → String
or_generated none generated = generated
or_generated (some id) generated = if truthy (some id) then id else generated

-- `_resolve_correlation_id`
unfoldable pub resolve_correlation_id : Option String → String → String × Bool
resolve_correlation_id header generated = (or_generated header generated, not (truthy header))

-- `_resolve_execution_mode`
unfoldable pub resolve_execution_mode : Option Mode → Mode → Mode
resolve_execution_mode none settings_mode = settings_mode
resolve_execution_mode (some mode) settings_mode =
    if is_valid_mode mode then mode else settings_mode

-- `_resolve_execution_type`
unfoldable pub resolve_execution_type : Option ExecutionType → ExecutionType
resolve_execution_type none = original
resolve_execution_type (some type) = if is_valid_type type then type else original

-- `execution_mode in _REPLAY_MODES`
abbrev pub is_replay_mode : Mode → Bool
is_replay_mode Mode.replay = true
is_replay_mode Mode.regeneration = true
is_replay_mode _ = false

abbrev pub is_maintenance : Mode → Bool
is_maintenance Mode.maintenance = true
is_maintenance _ = false

-- `_derive_governance_scope`
unfoldable pub derive_governance_scope : Mode → ExecutionType → Scope
derive_governance_scope mode type =
    if is_replay_type type
    then replay_only
    else if is_replay_mode mode
    then replay_only
    else if is_maintenance mode
    then Scope.maintenance
    else shadow_only

abbrev pub is_authorized : Scope → Bool
is_authorized authorized = true
is_authorized _ = false

-- `_build_attribution_context`, on the request and what RULES 1 to 4 resolve
unfoldable pub build_attribution_context :
    Request → String → Bool → Mode → ExecutionType → Scope → List Rule → AttributionContext
build_attribution_context request id generated mode type scope path = record {
  correlation_id = id;
  causation_id = request.causation_id;
  config_version_id = request.config_version_id;
  execution_mode = mode;
  execution_type = type;
  governance_scope = scope;
  orchestration_cycle_id = request.orchestration_cycle_id;
  origin_source = request.origin_source;
  origin_authority = request.origin_authority;
  historical_config_version_id = request.historical_config_version_id;
  attribution_timestamp = request.attribution_timestamp;
  correlation_id_generated = generated;
  is_replay = is_replay_type type;
  attribution_complete = truthy request.origin_source && truthy request.origin_authority;
  live_effects_suppressed = not (is_authorized scope);
  rule_path_taken = path;
}

-- `_make_blocked_context`
unfoldable pub blocked_context :
    String → Option Mode → Option ExecutionType → List Rule → AttributionContext
blocked_context id mode_header type_header path =
    let mode = resolve_execution_mode mode_header Mode.shadow in
    let type = resolve_execution_type type_header in
    record {
      correlation_id = id;
      causation_id = none;
      config_version_id = none;
      execution_mode = mode;
      execution_type = type;
      governance_scope = derive_governance_scope mode type;
      orchestration_cycle_id = none;
      origin_source = none;
      origin_authority = none;
      historical_config_version_id = none;
      attribution_timestamp = none;
      correlation_id_generated = false;
      is_replay = is_replay_type type;
      attribution_complete = false;
      live_effects_suppressed = true;
      rule_path_taken = path;
    }

-- `_make_propagation_record`
unfoldable pub propagation_record :
    AttributionContext
    → Request
    → String
    → Event
    → Bool
    → List Code
    → Option (List Code)
    → Outcome
    → PropagationRecord
propagation_record ctx request id event is_blocked codes reason result = record {
  propagation_id = id;
  event = event;
  correlation_id = ctx.correlation_id;
  causation_id = ctx.causation_id;
  config_version_id = ctx.config_version_id;
  execution_mode = ctx.execution_mode;
  execution_type = ctx.execution_type;
  governance_scope = ctx.governance_scope;
  orchestration_cycle_id = ctx.orchestration_cycle_id;
  origin_source = ctx.origin_source;
  origin_authority = ctx.origin_authority;
  historical_config_version_id = ctx.historical_config_version_id;
  attribution_timestamp = ctx.attribution_timestamp;
  correlation_id_generated = ctx.correlation_id_generated;
  is_replay = ctx.is_replay;
  attribution_complete = ctx.attribution_complete;
  live_effects_suppressed = ctx.live_effects_suppressed;
  blocked = is_blocked;
  blocking_codes = codes;
  blocking_reason = reason;
  path = request.path;
  method = request.method;
  outcome = result;
  rule_path_taken = ctx.rule_path_taken;
}
