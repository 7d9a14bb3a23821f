-- ===== src/Worker/Accounts.antt =====
-- The accounts of the batch cycle of app/services/worker.py: what its counters count.
use student_success_intellig.Prelude.{
  if◌then◌else◌, ℤ, length, nonempty, length-append, ℕ, ◌+◌, String, ◌≡◌, refl, ◌∙◌, true, false,
  Option, none, some, List, [], ◌∷◌, arith,
}
use student_success_intellig.Prelude.Dict.{get}
use student_success_intellig.Outreach.Gate.{resolve_orchestration_thresholds}
use student_success_intellig.Worker.Types.{WorkerExecutionRecord}
use student_success_intellig.Worker.Gate.{is_unresolved}
use student_success_intellig.Worker.Context.{make_job_context}
use student_success_intellig.Worker.Engine.{coordinate_worker_execution}
use student_success_intellig.Governance.{SettingsMode}
use student_success_intellig.Worker.Batch.{
  Row, Summary, Progress, Cycle, attempts_of, plus_one, outreach_context, account, select_students,
  no_summary, start, outreach_cycle, process_student, process_students, run_batch_cycle,
  run_outreach_batch,
}
use student_success_intellig.Outreach.Types.{initiate_outreach}
use student_success_intellig.Outreach.Engine.{coordinate_orchestration_cycle}
use student_success_intellig.Config.{resolve_keys}
use student_success_intellig.Idempotency.{Keys}
use student_success_intellig.Worker.Containment.{unauthorized-IsHeld, unresolved_blocked}
use student_success_intellig.Outreach.Containment.{coordinate-IsContained, coordinate-IsAttributed}
use student_success_intellig.Outreach.Intents.{intent_exact}
use student_success_intellig.Outreach.Intent.{
  int_of, intent_of_state, attempts_exhausted, classify_intent,
}

-- The counters of a summary agree: every processed student is counted once, nothing is delegated, and
-- there is an entry for each.
pub record IsBalanced (s : Summary) : Type 0 where
  pub counted : s.processed ≡ s.suppressed + s.blocked
  pub none_delegated : s.dispatch_delegated ≡ 0
  pub entries : length s.student_records ≡ s.processed

no_summary-IsBalanced : (cycle : Cycle) (n : ℕ) → IsBalanced (no_summary cycle n)
no_summary-IsBalanced cycle n = record {
  counted = omega arith;
  none_delegated = refl;
  entries = refl;
}

account-IsBalanced :
    (s : Summary) (r : WorkerExecutionRecord)
    → IsBalanced s
    → r.dispatch_delegated ≡ false
    → IsBalanced (account s r)
unfolding account
account-IsBalanced s r b h =
    let c = b.counted in
    let d = b.none_delegated in
    let e = b.entries in
    record {
      counted = ground (arith, c, h);
      none_delegated = ground (arith, d, h);
      entries = length-append s.student_records _ ∙ omega (arith, e);
    }

module _ (parse_int parse_float : String → Option ℤ) (show : ℤ → String) (location : String) where
  process-IsBalanced :
      (cycle : Cycle) (p : Progress) (row : Row)
      → IsBalanced p.summary
      → IsBalanced (process_student parse_int parse_float show location cycle p row).summary
  unfolding process_student
  process-IsBalanced cycle p row b =
      account-IsBalanced p.summary _ b
        (unauthorized-IsHeld parse_int parse_float location row.ids show p.provider_keys _
          row.student _
          (coordinate-IsContained parse_int parse_float p.keys row.coordination_event
            (outreach_context show cycle row)).no_dispatch).0.not_delegated

  process_students-IsBalanced :
      (cycle : Cycle) (p : Progress) (rows : List Row)
      → IsBalanced p.summary
      → let q = process_students parse_int parse_float show location cycle p rows in
        IsBalanced q.summary
        × (q.summary.processed ≡ p.summary.processed + length rows)
        × (q.summary.total ≡ p.summary.total)
  unfolding process_students process_student account
  process_students-IsBalanced cycle p [] b = (b, omega arith, refl)
  process_students-IsBalanced cycle p (row ∷ rows) b =
      let (c, n, t) =
        process_students-IsBalanced cycle
          (process_student parse_int parse_float show location cycle p row) rows
          (process-IsBalanced cycle p row b) in
      (c, n ∙ omega arith, t)

  -- A batch processes every student of its checkpoint; each is suppressed or blocked, none is delegated, and
  -- there is an entry for each.
  pub batch-IsBalanced :
      (keys provider_keys : Keys) (cycle : Cycle) (rows : List Row)
      → let s =
          (run_batch_cycle parse_int parse_float show location keys provider_keys cycle
            rows).summary in
        IsBalanced s
        × (s.processed ≡ s.total)
        × (s.total ≡ length (select_students cycle.checkpoint_type rows))
  unfolding run_batch_cycle
  batch-IsBalanced keys provider_keys cycle rows =
      let students = select_students cycle.checkpoint_type rows in
      let (b, n, t) =
        process_students-IsBalanced cycle (start keys provider_keys cycle (length students))
          students (no_summary-IsBalanced cycle (length students)) in
      (b, n ∙ omega (arith, t), t)

  process-blocked :
      (cycle : Cycle) (p : Progress) (row : Row)
      → is_unresolved cycle.config_version_id ≡ true
      → p.summary.suppressed ≡ 0
      → (process_student parse_int parse_float show location cycle p row).summary.suppressed ≡ 0
  unfolding process_student account outreach_context coordinate_worker_execution make_job_context
  process-blocked cycle p row u h =
      let coordination =
        (coordinate_orchestration_cycle parse_int parse_float p.keys row.coordination_event
          (outreach_context show cycle row)).0 in
      let v : is_unresolved coordination.config_version_id ≡ true =
        rw
          ((coordinate-IsAttributed parse_int parse_float p.keys row.coordination_event
            (outreach_context show cycle row)).config_version)
          u in
      let b =
        unresolved_blocked parse_int parse_float location row.ids p.provider_keys coordination
          (make_job_context show coordination row.student
            (plus_one (attempts_of row.current_attempt)) row.ids.job)
          row.student (plus_one (attempts_of row.current_attempt)) v in
      ground (arith, b, h)

  process_students-blocked :
      (cycle : Cycle) (p : Progress) (rows : List Row)
      → is_unresolved cycle.config_version_id ≡ true
      → p.summary.suppressed ≡ 0
      → (process_students parse_int parse_float show location cycle p rows).summary.suppressed ≡ 0
  unfolding process_students
  process_students-blocked cycle p [] u h = h
  process_students-blocked cycle p (row ∷ rows) u h =
      process_students-blocked cycle
        (process_student parse_int parse_float show location cycle p row) rows u
        (process-blocked cycle p row u h)

  -- A batch for which no config version is resolved blocks every student of its checkpoint.
  pub unresolved_batch_blocked :
      (keys provider_keys : Keys) (cycle : Cycle) (rows : List Row)
      → is_unresolved cycle.config_version_id ≡ true
      → (run_batch_cycle parse_int parse_float show location keys provider_keys cycle
          rows).summary.blocked
        ≡ length (select_students cycle.checkpoint_type rows)
  unfolding run_batch_cycle
  unresolved_batch_blocked keys provider_keys cycle rows u =
      let students = select_students cycle.checkpoint_type rows in
      let z =
        process_students-blocked cycle (start keys provider_keys cycle (length students)) students u
          refl in
      let (b, p, t) = batch-IsBalanced keys provider_keys cycle rows in
      let c = b.counted in omega (arith, z, c, p, t)

  -- The batch that operators start blocks every student of its checkpoint, in SHADOW and in LIVE settings
  -- alike: it passes no config version on.
  pub outreach_batch_blocked :
      (keys provider_keys : Keys) (mode : SettingsMode) (checkpoint correlation id : String)
      (rows : List Row)
      → (run_outreach_batch parse_int parse_float show location keys provider_keys mode checkpoint
          correlation id rows).summary.blocked
        ≡ length (select_students checkpoint rows)
  unfolding run_outreach_batch
  outreach_batch_blocked keys provider_keys mode checkpoint correlation id rows =
      unresolved_batch_blocked keys provider_keys (outreach_cycle mode checkpoint correlation id)
        rows refl

  -- Whatever the state of the student and the attempts made, the batch coordinates a student whose context
  -- passes the gate with the intent INITIATE_OUTREACH, and the others with none.
  pub batch_initiates :
      (keys : Keys) (event_id : String) (cycle : Cycle) (row : Row)
      → let ctx = outreach_context show cycle row in
        (coordinate_orchestration_cycle parse_int parse_float keys event_id ctx).0.intent_type ≡ (
          if nonempty (student_success_intellig.Outreach.Gate.gate_codes keys ctx)
          then none
          else some initiate_outreach)
  unfolding outreach_context classify_intent attempts_exhausted int_of
      resolve_orchestration_thresholds resolve_keys get intent_of_state
  batch_initiates keys event_id cycle row =
      intent_exact parse_int parse_float keys event_id (outreach_context show cycle row)
      ∙ ground arith
