-- ===== src/Provider/Transport.antt =====
-- The transport wrapper, app/services/integrations/ghl.py. What the remote service answers to a request is
-- an argument of the live call.
use student_success_intellig.Prelude.{
  if◌then◌else◌, ℤ, String, Bool, true, false, ◌||◌, Option, none, some, List, [], ◌∷◌, ◌++◌,
}
use student_success_intellig.Provider.Types.{
  EventType, Cause, Code, live_scope_requires_phase12_cert, ProviderOrchestrationAssessment,
}
use student_success_intellig.Outreach.Types.{Scope}
use student_success_intellig.Governance.{ExecutionMode, ExecutionType}

pub data DispatchOutcome : Type 0 where
  success shadow_only suppressed_replay blocked unavailable duplicate_suppressed : DispatchOutcome

-- the values that the payload takes from the student's dict
pub record Student : Type 0 where
  pub user_id : Option ℤ
  pub path_name : Option String
  pub email : Option String
  pub phone_number : Option String
  pub hws_behind : Option ℤ
  pub avg_eff_rating : Option ℤ
  pub last_activity_days : Option ℤ

pub data Channel : Type 0 where
  ghl call sms email : Channel

pub record Payload : Type 0 where
  pub location_id : String
  pub id : Option ℤ
  pub email_address : Option String
  pub phone : Option String
  pub channel : Channel
  pub attempt : ℤ
  pub checkpoint : Option String
  pub hws_behind : Option ℤ
  pub avg_eff_rating : Option ℤ
  pub last_activity_days : Option ℤ

-- `build_ghl_payload`
unfoldable pub build_ghl_payload : String → Student → Channel → ℤ → Payload
build_ghl_payload location student ch n = record {
  location_id = location;
  id = student.user_id;
  email_address = student.email;
  phone = student.phone_number;
  channel = ch;
  attempt = n;
  checkpoint = student.path_name;
  hws_behind = student.hws_behind;
  avg_eff_rating = student.avg_eff_rating;
  last_activity_days = student.last_activity_days;
}

pub record DispatchResult : Type 0 where
  pub governance_scope : Scope
  pub provider_event_type : Option EventType
  pub outbound_suppressed : Bool
  pub correlation_id : Option String
  pub causation_id : Option String
  pub upstream_intent_id : Option String
  pub origin_source : Option String
  pub origin_authority : Option String
  pub execution_mode : ExecutionMode
  pub execution_type : ExecutionType
  pub is_replay : Bool
  pub config_version_id : Option String
  pub degraded : Bool
  pub degradation_cause : Option Cause
  pub provider_blocked : Bool
  pub blocking_reason : Option Code
  pub outcome : DispatchOutcome
  pub reason_codes : List Code
  pub ghl_workflow_id : Option String
  pub provider_response_code : Option ℤ

-- `_make_dispatch_result`
unfoldable pub dispatch_result :
    ProviderOrchestrationAssessment → DispatchOutcome → Option ℤ → Option String → DispatchResult
dispatch_result a out code workflow = record {
  governance_scope = a.governance_scope;
  provider_event_type = a.provider_event_type;
  outbound_suppressed = a.outbound_suppressed;
  correlation_id = a.correlation_id;
  causation_id = a.causation_id;
  upstream_intent_id = a.upstream_intent_id;
  origin_source = a.origin_source;
  origin_authority = a.origin_authority;
  execution_mode = a.execution_mode;
  execution_type = a.execution_type;
  is_replay = a.is_replay;
  config_version_id = a.config_version_id;
  degraded = a.degraded;
  degradation_cause = a.degradation_cause;
  provider_blocked = a.provider_blocked;
  blocking_reason = a.blocking_reason;
  outcome = out;
  reason_codes = a.reason_codes;
  ghl_workflow_id = workflow;
  provider_response_code = code;
}

-- `scope in _SUPPRESSED_SCOPES`
abbrev pub is_suppressed : Scope → Bool
is_suppressed Scope.shadow_only = true
is_suppressed Scope.replay_only = true
is_suppressed Scope.blocked = true
is_suppressed Scope.unavailable = true
is_suppressed Scope.duplicate_suppressed = true
is_suppressed _ = false

-- `_SCOPE_OUTCOME_MAP.get(scope, "shadow_only")`
abbrev pub outcome_of : Scope → DispatchOutcome
outcome_of Scope.replay_only = DispatchOutcome.suppressed_replay
outcome_of Scope.blocked = DispatchOutcome.blocked
outcome_of Scope.unavailable = DispatchOutcome.unavailable
outcome_of Scope.duplicate_suppressed = DispatchOutcome.duplicate_suppressed
outcome_of _ = DispatchOutcome.shadow_only

-- `execute_ghl_dispatch`
unfoldable pub execute_ghl_dispatch : ProviderOrchestrationAssessment → Payload → DispatchResult
execute_ghl_dispatch a payload =
    if is_suppressed a.governance_scope || a.outbound_suppressed || a.provider_blocked
    then dispatch_result a (outcome_of a.governance_scope) none none
    else record (dispatch_result a DispatchOutcome.shadow_only none none) {
      reason_codes = a.reason_codes ++ live_scope_requires_phase12_cert ∷ [];
    }

-- What the remote service answers: a status and perhaps a workflow id, or an HTTP error, which the live
-- call logs and raises again.
pub data Answer : Type 0 where
  accepted : ℤ → Option String → Answer
  http_error : String → Answer

pub data LiveResult : Type 0 where
  ok : DispatchResult → LiveResult
  raised : String → LiveResult

-- `_live_ghl_dispatch`
unfoldable pub live_ghl_dispatch :
    (Payload → Answer) → Payload → ProviderOrchestrationAssessment → LiveResult
live_ghl_dispatch post payload a = elim (post payload) [
  | accepted code workflow ↦ ok (dispatch_result a DispatchOutcome.success (some code) workflow)
  | http_error class ↦ raised class
]
