-- ===== src/Worker/Batch.antt =====
-- `run_batch_cycle` of app/services/worker.py, and `run_outreach_batch` of app/services/outreach.py, which
-- calls it. The rows of the two tables that it reads are an argument, one entry for each student, with
-- the random ids that the source draws for it; the sets of idempotency keys of the coordination and of
-- the provider are passed and returned. The branch for an unexpected exception is left out.
use student_success_intellig.Prelude.{
  ltb, if◌then◌else◌, truthy, ℤ, pos, negsuc, length, ℕ, suc, ◌+◌, ◌-◌, String, Bool, false, not,
  ◌&&◌, Option, none, some, List, [], ◌∷◌, ◌++◌, str_eq,
}
use student_success_intellig.Prelude.Dict.{Dict, get}
use student_success_intellig.Worker.Types.{Outcome, Code, WorkerExecutionRecord}
use student_success_intellig.Worker.Context.{opaque_id}
use student_success_intellig.Worker.Engine.{Ids, coordinate_worker_execution}
use student_success_intellig.Outreach.Types.{Scope, unknown_circuit, OutreachOrchestrationContext}
use student_success_intellig.Outreach.Engine.{coordinate_orchestration_cycle}
use student_success_intellig.Provider.Transport.{Student, Channel}
use student_success_intellig.Idempotency.{Keys}
use student_success_intellig.Governance.{ExecutionMode, ExecutionType, SettingsMode, str_of_mode}

-- A row of the source table, with the attempts of its row in the tracking table, if there is one.
pub record Row : Type 0 where
  pub student : Student
  pub current_attempt : Option ℤ
  pub correlation : String
  pub coordination_event : String
  pub ids : Ids

-- An entry of the summary for a student.
pub record StudentRecord : Type 0 where
  pub student_id_opaque : Option String
  pub outcome : Outcome
  pub governance_scope : Scope
  pub dispatch_delegated : Bool
  pub channel : Option Channel
  pub reason_codes : List Code
  pub execution_blocked : Bool

pub record Summary : Type 0 where
  pub cycle_correlation_id : String
  pub checkpoint_type : String
  pub execution_mode : ExecutionMode
  pub config_version_id : String
  pub total : ℕ
  pub processed : ℕ
  pub dispatch_delegated : ℕ
  pub suppressed : ℕ
  pub blocked : ℕ
  pub errors : ℕ
  pub student_records : List StudentRecord

-- What a batch works on: the keys of the two services and the summary.
pub record Progress : Type 0 where
  pub keys : Keys
  pub provider_keys : Keys
  pub summary : Summary

-- What the cycle gives to every student.
pub record Cycle : Type 0 where
  pub checkpoint_type : String
  pub execution_mode : ExecutionMode
  pub config_version_id : Option String
  pub attribution : Dict (Option String)
  pub correlation_id : String
  pub id : String

-- `attr.get(key, default)`
abbrev pub get_or : String → String → Dict (Option String) → Option String
get_or key default attr = elim (get key attr) [ some v ↦ v | none ↦ some default ]

-- `tracking_obj.current_attempt if tracking_obj else 0`
abbrev pub attempts_of : Option ℤ → ℤ
attempts_of none = pos 0
attempts_of (some n) = n

-- `n + 1`, in ten-thousandths
unfoldable pub plus_one : ℤ → ℤ
plus_one (pos n) = pos (n + 10000)
plus_one (negsuc n) = if ltb n 10000 then pos (9999 - n) else negsuc (n - 10000)

-- the context that the cycle makes for a student
unfoldable pub outreach_context : (ℤ → String) → Cycle → Row → OutreachOrchestrationContext
outreach_context show cycle row = record {
  config_version_id = cycle.config_version_id;
  execution_mode = cycle.execution_mode;
  execution_type = ExecutionType.original;
  correlation_id = some row.correlation;
  config_rule_set = none;
  causation_id = some cycle.correlation_id;
  orchestration_cycle_id = some cycle.id;
  idempotency_key = none;
  compliance_hold_flag = false;
  maintenance_mode_active = false;
  origin_source = get_or "origin_source" "batch_worker" cycle.attribution;
  origin_authority = get_or "origin_authority" "system" cycle.attribution;
  actor_identity = get_or "actor_identity" "batch_runner" cycle.attribution;
  attribution_timestamp = none;
  upstream_correlation_id = none;
  student_id_opaque = opaque_id show row.student.user_id;
  checkpoint_type = some cycle.checkpoint_type;
  outreach_state = none;
  contact_attempt_count = attempts_of row.current_attempt;
  last_contact_at = none;
  circuit_breaker_state = unknown_circuit;
  provider_degradation_state = "OPERATIONAL";
  sync_lag_hours = pos 0;
  ai_governance_tier = none;
  ai_confidence_score = none;
  historical_config_version_id = none;
  source_artifact_id = none;
}

abbrev pub student_record : WorkerExecutionRecord → StudentRecord
student_record r = record {
  student_id_opaque = r.student_id_opaque;
  outcome = r.outcome;
  governance_scope = r.governance_scope;
  dispatch_delegated = r.dispatch_delegated;
  channel = r.channel;
  reason_codes = r.reason_codes;
  execution_blocked = r.execution_blocked;
}

-- the counters and the entry of a student
unfoldable pub account : Summary → WorkerExecutionRecord → Summary
account s r = record s {
  processed = suc s.processed;
  dispatch_delegated =
      if r.dispatch_delegated then suc s.dispatch_delegated else s.dispatch_delegated;
  blocked = if not r.dispatch_delegated && r.execution_blocked then suc s.blocked else s.blocked;
  suppressed =
      if not r.dispatch_delegated && not r.execution_blocked
      then suc s.suppressed
      else s.suppressed;
  student_records = s.student_records ++ student_record r ∷ [];
}

-- `StudentTriggerData.PathName == checkpoint_type`
abbrev pub on_path : String → Option String → Bool
on_path checkpoint none = false
on_path checkpoint (some path) = str_eq path checkpoint

unfoldable pub select_students : String → List Row → List Row
select_students checkpoint [] = []
select_students checkpoint (row ∷ rows) =
    if on_path checkpoint row.student.path_name
    then row ∷ select_students checkpoint rows
    else select_students checkpoint rows

abbrev pub no_summary : Cycle → ℕ → Summary
no_summary cycle n = record {
  cycle_correlation_id = cycle.correlation_id;
  checkpoint_type = cycle.checkpoint_type;
  execution_mode = cycle.execution_mode;
  config_version_id = or_version cycle.config_version_id;
  total = n;
  processed = 0;
  dispatch_delegated = 0;
  suppressed = 0;
  blocked = 0;
  errors = 0;
  student_records = [];
}
  where
    -- `config_version_id or UNKNOWN_V0`
    or_version : Option String → String
    or_version none = "UNKNOWN_V0"
    or_version (some v) = if truthy (some v) then v else "UNKNOWN_V0"

-- before the first student
abbrev pub start : Keys → Keys → Cycle → ℕ → Progress
start keys provider_keys cycle n = record {
  keys = keys;
  provider_keys = provider_keys;
  summary = no_summary cycle n;
}

-- the cycle that `run_outreach_batch` asks for: it names no config version
abbrev pub outreach_cycle : SettingsMode → String → String → String → Cycle
outreach_cycle mode checkpoint correlation id = record {
  checkpoint_type = checkpoint;
  execution_mode = ExecutionMode.other (str_of_mode mode);
  config_version_id = none;
  attribution = [];
  correlation_id = correlation;
  id = id;
}

module _ (parse_int parse_float : String → Option ℤ) (show : ℤ → String) (location : String) where
  -- the coordination of a student, and the job that follows it
  unfoldable pub process_student : Cycle → Progress → Row → Progress
  process_student cycle p row =
      let (coordination, _, keys) =
        coordinate_orchestration_cycle parse_int parse_float p.keys row.coordination_event
          (outreach_context show cycle row) in
      let (r, _, provider_keys) =
        coordinate_worker_execution parse_int parse_float location row.ids show p.provider_keys
          coordination row.student (plus_one (attempts_of row.current_attempt)) in
      record { keys = keys; provider_keys = provider_keys; summary = account p.summary r }

  unfoldable pub process_students : Cycle → Progress → List Row → Progress
  process_students cycle p [] = p
  process_students cycle p (row ∷ rows) = process_students cycle (process_student cycle p row) rows

  unfoldable pub run_batch_cycle : Keys → Keys → Cycle → List Row → Progress
  run_batch_cycle keys provider_keys cycle rows =
      let students = select_students cycle.checkpoint_type rows in
      process_students cycle (start keys provider_keys cycle (length students)) students

  -- `run_outreach_batch`; the ids are those of the cycle
  unfoldable pub run_outreach_batch :
      Keys → Keys → SettingsMode → String → String → String → List Row → Progress
  run_outreach_batch keys provider_keys mode checkpoint correlation id rows =
      run_batch_cycle keys provider_keys (outreach_cycle mode checkpoint correlation id) rows
