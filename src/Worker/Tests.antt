-- ===== src/Worker/Tests.antt =====
-- Runs of Worker at concrete inputs.
use student_success_intellig.Prelude.{
  ◌==◌, if◌then◌else◌, ℤ, pos, negsuc, whole, String, ◌≡◌, true, false, Option, none, some, [], ◌∷◌,
  str_eq,
}
use student_success_intellig.Prelude.Dict.{get}
use student_success_intellig.Worker.Engine.{Ids, coordinate_worker_execution}
use student_success_intellig.Worker.Batch.{
  Row, Cycle, outreach_context, select_students, run_batch_cycle, run_outreach_batch,
}
use student_success_intellig.Outreach.Types.{Scope, initiate_outreach, OutreachCoordinationRecord}
use student_success_intellig.Outreach.Engine.{coordinate_orchestration_cycle}
use student_success_intellig.Provider.Transport.{Student}
use student_success_intellig.Idempotency.{is_duplicate}
use student_success_intellig.Governance.{shadow, live_setting}
use student_success_intellig.Worker.Containment.{
  IsHeld, unauthorized-IsHeld, IsQuiet, worker-IsQuiet,
}
use student_success_intellig.Worker.Accounts.{
  IsBalanced, batch-IsBalanced, outreach_batch_blocked, batch_initiates,
}
use student_success_intellig.Outreach.Containment.{coordinate-IsContained}

abbrev parse : String → Option ℤ
parse text = if str_eq text "3" then some (whole 3) else none

abbrev show : ℤ → String
show (pos n) = if n == 170000 then "17" else "1"
show (negsuc n) = "-1"

abbrev student : Student
student = record {
  user_id = some (whole 17);
  path_name = some "python";
  email = some "s@example.org";
  phone_number = none;
  hws_behind = some (whole 2);
  avg_eff_rating = none;
  last_activity_days = none;
}

abbrev ids : Ids
ids = record { job = "job-1"; event = "event-2"; assessment = "event-3" }

abbrev cycle : Cycle
cycle = record {
  checkpoint_type = "python";
  execution_mode = shadow;
  config_version_id = some "cfg-9";
  attribution = [];
  correlation_id = "corr-0";
  id = "cycle-1";
}

abbrev enrolled : Row
enrolled = record {
  student = student;
  current_attempt = some (whole 1);
  correlation = "corr-1";
  coordination_event = "event-1";
  ids = ids;
}

abbrev elsewhere : Row
elsewhere = record enrolled {
  student = record student { path_name = some "java" };
  current_attempt = none;
}

abbrev coordinated : OutreachCoordinationRecord
coordinated =
    (coordinate_orchestration_cycle parse parse [] "event-1"
      (outreach_context show cycle enrolled)).0

-- a coordination such as the service never gives
abbrev authorized_record : OutreachCoordinationRecord
authorized_record = record coordinated {
  governance_scope = Scope.authorized;
  dispatch_authorized = true;
  live_effects_suppressed = false;
}

worker-IsQuiet_example :
    IsQuiet
      (coordinate_worker_execution parse parse "location-1" ids show [] authorized_record student
        (whole 2)).0
worker-IsQuiet_example =
    worker-IsQuiet parse parse "location-1" ids show [] authorized_record student (whole 2)

unauthorized-IsHeld_example :
    let (e, _, after) =
      coordinate_worker_execution parse parse "location-1" ids show
        ("17:python:1" ∷ [])
        coordinated
        student
        (whole 2) in
    IsHeld e × (after ≡ "17:python:1" ∷ [])
unauthorized-IsHeld_example =
    unauthorized-IsHeld parse parse "location-1" ids show ("17:python:1" ∷ []) coordinated student
      (whole 2)
      (coordinate-IsContained parse parse [] "event-1"
        (outreach_context show cycle enrolled)).no_dispatch

batch-IsBalanced_example :
    let s =
      (run_batch_cycle parse parse show "location-1" [] [] cycle
        (enrolled ∷ elsewhere ∷ enrolled ∷ [])).summary in
    IsBalanced s × (s.processed ≡ s.total) × (s.total ≡ 2)
unfolding select_students
batch-IsBalanced_example =
    batch-IsBalanced parse parse show "location-1" [] [] cycle
      (enrolled ∷ elsewhere ∷ enrolled ∷ [])

outreach_batch_blocked_example :
    (run_outreach_batch parse parse show "location-1" [] [] live_setting "python" "corr-0" "cycle-1"
      (enrolled ∷ elsewhere ∷ enrolled ∷ [])).summary.blocked
    ≡ 2
unfolding select_students
outreach_batch_blocked_example =
    outreach_batch_blocked parse parse show "location-1" [] [] live_setting "python" "corr-0"
      "cycle-1" (enrolled ∷ elsewhere ∷ enrolled ∷ [])

batch_initiates_example :
    (coordinate_orchestration_cycle parse parse [] "event-1"
      (outreach_context show cycle enrolled)).0.intent_type
    ≡ some initiate_outreach
unfolding student_success_intellig.Outreach.Gate.gate_codes outreach_context get is_duplicate
batch_initiates_example = batch_initiates parse parse show "location-1" [] "event-1" cycle enrolled
