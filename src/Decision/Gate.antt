-- ===== src/Decision/Gate.antt =====
-- RULE 0 and RULE 13 of app/services/decision_engine.py: the governance preconditions, the scope of
-- an intent, the comparison of fingerprints, and the opaque identifier.
use student_success_intellig.Prelude.{
  String, Bool, true, false, not, ◌&&◌, ◌||◌, Option, none, some, List, [], ◌∷◌, ◌++◌, ℤ, str_eq,
  if◌then◌else◌, truthy, is_some, when, nonempty,
}
use student_success_intellig.Prelude.Dict.{get_text, present}
use student_success_intellig.Governance.{
  ExecutionMode, ExecutionType, TextDict, is_valid_mode, is_replay_type, is_shadow,
}
use student_success_intellig.Decision.Types.{
  Code, config_unresolved, execution_mode_invalid, correlation_id_missing, attribution_incomplete,
  replay_fingerprint_missing, Scope, authorized, shadow_only, replay_only, no_scope,
  GovernanceContext, OrchestrationIntent, no_eligible_intent, rule_0, rule_based, no_escalation,
  no_replay, no_ai, governance_precondition_failed,
}

abbrev pub required_attribution : List String
required_attribution = "origin_source" ∷ "origin_authority" ∷ "attribution_timestamp" ∷ []

-- `any(d.get(k) is None for k in keys)`
unfoldable pub any_missing : TextDict → List String → Bool
any_missing d [] = false
any_missing d (k ∷ ks) = not (is_some (get_text k d)) || any_missing d ks

-- `gov.execution_mode or "UNKNOWN"`
unfoldable pub mode_or_unknown : ExecutionMode → ExecutionMode
mode_or_unknown (ExecutionMode.other s) = ExecutionMode.other (if str_eq s "" then "UNKNOWN" else s)
mode_or_unknown m = m

-- the list `codes` of `validate_governance_preconditions`
unfoldable pub precondition_codes : GovernanceContext → List Code
precondition_codes gov =
    when (not (truthy gov.config_version_id)) config_unresolved
    ++ (when (not (is_valid_mode gov.execution_mode)) execution_mode_invalid
        ++ (when (not (truthy gov.correlation_id)) correlation_id_missing
            ++ (when (any_missing gov.attribution_context required_attribution)
                  attribution_incomplete
                ++ when (is_replay_type gov.execution_type && not (present gov.fingerprint_context))
                    replay_fingerprint_missing)))

-- the intent that `validate_governance_preconditions` returns when a precondition fails
unfoldable pub blocked_intent : GovernanceContext → List Code → OrchestrationIntent
unfolding mode_or_unknown
blocked_intent gov codes = record {
  orchestration_intent = no_eligible_intent;
  intent_confidence = 100;
  recommended_execution_path = "";
  execution_mode = mode_or_unknown gov.execution_mode;
  execution_type = gov.execution_type;
  governance_scope = no_scope;
  correlation_id = gov.correlation_id;
  causation_id = gov.causation_id;
  config_version_id = gov.config_version_id;
  attribution_metadata = gov.attribution_context;
  rule_path_taken = rule_0 ∷ [];
  decision_basis = rule_based;
  escalation_metadata = no_escalation;
  replay_safety_metadata = no_replay;
  ai_context = no_ai;
  reason_codes = codes;
  intent_blocked = true;
  blocking_reason = some governance_precondition_failed;
}

unfoldable pub validate_governance_preconditions : GovernanceContext → Option OrchestrationIntent
unfolding blocked_intent
validate_governance_preconditions gov =
    if nonempty (precondition_codes gov)
    then some (blocked_intent gov (precondition_codes gov))
    else none

-- `_governance_scope`
unfoldable pub scope_of : ExecutionMode → ExecutionType → Scope
scope_of mode type =
    if is_replay_type type then replay_only else if is_shadow mode then shadow_only else authorized

-- `ctx.get(k) in (None, UNKNOWN_V0)`
unfoldable pub is_unknown : Option String → Bool
is_unknown none = true
is_unknown (some s) = str_eq s "UNKNOWN_V0"

unfoldable pub any_unknown : TextDict → List String → Bool
unfolding is_unknown
any_unknown d [] = false
any_unknown d (k ∷ ks) = is_unknown (get_text k d) || any_unknown d ks

abbrev pub fingerprint_keys : List String
fingerprint_keys =
    "fingerprint_schema_version" ∷ "fingerprint_config_registry_version"
    ∷ "fingerprint_ai_prompt_version" ∷ "fingerprint_ai_model_version" ∷ []

-- `_compare_fingerprints`
unfoldable pub compare_fingerprints : Option TextDict → String
unfolding any_unknown
compare_fingerprints none = "UNKNOWN"
compare_fingerprints (some d) =
    if nonempty d
    then (if any_unknown d fingerprint_keys then "UNKNOWN" else "MATCH")
    else "UNKNOWN"

-- `_opaque_id`; `digest` is the first 16 digits of the SHA-256 of the prefixed number, by `hashlib`
unfoldable pub opaque_id : (ℤ → String) → Option ℤ → Option String
opaque_id digest none = none
opaque_id digest (some user_id) = some (digest user_id)
