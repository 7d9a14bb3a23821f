-- ===== src/Correlation/Types.antt =====
-- The context and the record of app/middleware/_correlation_types.py, the request as far as the middleware
-- reads it, and the response as far as it writes it. Each constant is a constructor. The clock's times
-- are left out.
use student_success_intellig.Prelude.{ℕ, String, Bool, Option, List}
use student_success_intellig.Governance.{ExecutionType}

pub data Mode : Type 0 where
  live shadow replay regeneration degraded maintenance : Mode
  other : String → Mode

pub data Scope : Type 0 where
  authorized shadow_only replay_only unavailable maintenance : Scope

pub data Outcome : Type 0 where
  propagated blocked : Outcome

pub data Event : Type 0 where
  attribution_blocked api_request_received api_response_dispatched : Event

-- the blocking codes
pub data Code : Type 0 where
  invalid_execution_mode invalid_execution_type replay_lineage_incomplete attribution_partial : Code

pub data Rule : Type 0 where
  rule_0 rule_1 rule_2 rule_3 rule_4 rule_5 rule_6 : Rule

pub record AttributionContext : Type 0 where
  pub correlation_id : String
  pub causation_id : Option String
  pub config_version_id : Option String
  pub execution_mode : Mode
  pub execution_type : ExecutionType
  pub governance_scope : Scope
  pub orchestration_cycle_id : Option String
  pub origin_source : Option String
  pub origin_authority : Option String
  pub historical_config_version_id : Option String
  pub attribution_timestamp : Option String
  pub correlation_id_generated : Bool
  pub is_replay : Bool
  pub attribution_complete : Bool
  pub live_effects_suppressed : Bool
  pub rule_path_taken : List Rule

-- The blocking reason, which the source joins to one text, is the list of its parts.
pub record PropagationRecord : Type 0 where
  pub propagation_id : String
  pub event : Event
  pub correlation_id : String
  pub causation_id : Option String
  pub config_version_id : Option String
  pub execution_mode : Mode
  pub execution_type : ExecutionType
  pub governance_scope : Scope
  pub orchestration_cycle_id : Option String
  pub origin_source : Option String
  pub origin_authority : Option String
  pub historical_config_version_id : Option String
  pub attribution_timestamp : Option String
  pub correlation_id_generated : Bool
  pub is_replay : Bool
  pub attribution_complete : Bool
  pub live_effects_suppressed : Bool
  pub blocked : Bool
  pub blocking_codes : List Code
  pub blocking_reason : Option (List Code)
  pub path : String
  pub method : String
  pub outcome : Outcome
  pub rule_path_taken : List Rule

-- the request's headers, path and method
pub record Request : Type 0 where
  pub correlation_id : Option String
  pub causation_id : Option String
  pub config_version_id : Option String
  pub execution_mode : Option Mode
  pub execution_type : Option ExecutionType
  pub orchestration_cycle_id : Option String
  pub origin_source : Option String
  pub origin_authority : Option String
  pub historical_config_version_id : Option String
  pub attribution_timestamp : Option String
  pub path : String
  pub method : String

-- what a response says: the middleware's refusal, or the text of a handler
pub data Body : Type 0 where
  gate_failed : List Code → Body
  content : String → Body

-- the status, the body, and the attribution headers of a response
pub record Response : Type 0 where
  pub status : ℕ
  pub body : Body
  pub correlation_id : Option String
  pub execution_mode : Option Mode
  pub governance_scope : Option Scope
  pub causation_id : Option String
