-- ===== src/Worker/Containment.antt =====
-- What the executions of app/services/worker.py may have an effect on: no delegation without an
-- authorization, and no delegation that reaches a student.
use student_success_intellig.Prelude.{
  if◌then◌else◌, ℤ, nonempty, String, ◌≡◌, ◌≢◌, Bool, true, false, not, ◌&&◌, ◌||◌, Option, none,
  some, List, arith,
}
use student_success_intellig.Worker.Types.{
  Outcome, suppressed, Rule, Code, Reason, WorkerJobContext, WorkerExecutionRecord,
}
use student_success_intellig.Worker.Gate.{is_unresolved, gate_codes}
use student_success_intellig.Worker.Context.{make_provider_context}
use student_success_intellig.Worker.Records.{execution_record}
use student_success_intellig.Worker.Engine.{
  Execution, Ids, blocking, suppressing, delegating, is_suppressed, delegate, after_scope,
  after_gate, run_job, coordinate_worker_execution,
}
use student_success_intellig.Outreach.Types.{OutreachCoordinationRecord}
use student_success_intellig.Provider.Transport.{DispatchOutcome, Student, Channel, DispatchResult}
use student_success_intellig.Idempotency.{Keys}
use student_success_intellig.Governance.{is_replay_type}
use student_success_intellig.Provider.Containment.{
  assess_provider-IsContained, IsSimulated, dispatch-IsSimulated,
}

-- An execution that held the job back: nothing is delegated, and it is blocked or its outbound message
-- suppressed.
pub record IsHeld (r : WorkerExecutionRecord) : Type 0 where
  pub not_delegated : r.dispatch_delegated ≡ false
  pub no_channel : r.channel ≡ none
  pub no_outcome : r.dispatch_outcome ≡ none
  pub held : (r.execution_blocked || r.outbound_suppressed) ≡ true

module _ (parse_int parse_float : String → Option ℤ) (location : String) (ids : Ids) where
  -- A job that RULES 0 to 5 let through.
  abbrev pub is_delegated : OutreachCoordinationRecord → WorkerJobContext → Bool
  is_delegated r ctx =
      not (nonempty (gate_codes ctx))
      && (r.dispatch_authorized
          && (not (is_suppressed ctx.governance_scope)
              && (not (ctx.is_replay || is_replay_type ctx.execution_type)
                  && (not ctx.live_effects_suppressed && not ctx.compliance_hold_active))))

  -- The worker delegates exactly the jobs that RULES 0 to 5 let through.
  pub delegated_exact :
      (keys : Keys) (r : OutreachCoordinationRecord) (ctx : WorkerJobContext) (student : Student)
      (attempt : ℤ)
      → (run_job parse_int parse_float location ids keys r ctx student attempt).0.dispatch_delegated
        ≡ is_delegated r ctx
  unfolding run_job after_gate after_scope delegate execution_record
  delegated_exact keys r ctx student attempt = ground arith

  -- A coordination that authorizes no dispatch is held back, and the provider's keys stay as they are.
  pub unauthorized-IsHeld :
      (show : ℤ → String) (keys : Keys) (r : OutreachCoordinationRecord) (student : Student)
      (attempt : ℤ)
      → r.dispatch_authorized ≡ false
      → let (e, _, after) =
          coordinate_worker_execution parse_int parse_float location ids show keys r student
            attempt in
        IsHeld e × (after ≡ keys)
  unfolding coordinate_worker_execution run_job after_gate execution_record
  unauthorized-IsHeld show keys r student attempt h = ground (arith, h)

  -- A job without a config version is blocked.
  pub unresolved_blocked :
      (keys : Keys) (r : OutreachCoordinationRecord) (ctx : WorkerJobContext) (student : Student)
      (attempt : ℤ)
      → is_unresolved ctx.config_version_id ≡ true
      → let e = (run_job parse_int parse_float location ids keys r ctx student attempt).0 in
        (e.dispatch_delegated ≡ false) × (e.execution_blocked ≡ true)
  unfolding run_job gate_codes execution_record
  unresolved_blocked keys r ctx student attempt h = ground (arith, h)

-- An execution that reached nobody: it is blocked or its outbound message suppressed, the dispatch has
-- not succeeded, and a blocked one has delegated nothing.
pub record IsQuiet (r : WorkerExecutionRecord) : Type 0 where
  pub quiet : (r.execution_blocked || r.outbound_suppressed) ≡ true
  pub no_success : r.dispatch_outcome ≢ some DispatchOutcome.success
  pub exclusive : (r.execution_blocked && r.dispatch_delegated) ≡ false

IsQuiet-if :
    (b : Bool) (x y : Execution) → IsQuiet x.0 → IsQuiet y.0 → IsQuiet (if b then x else y).0
IsQuiet-if true x y p q = p
IsQuiet-if false x y p q = q

IsQuiet-blocking :
    (ctx : WorkerJobContext) (event : String) (path : List Rule) (codes : List Code)
    (reason : Option Reason)
    → IsQuiet (execution_record ctx event Outcome.blocked path codes (blocking reason))
unfolding execution_record
IsQuiet-blocking ctx event path codes reason = ground arith

IsQuiet-suppressing :
    (ctx : WorkerJobContext) (event : String) (path : List Rule) (codes : List Code)
    (reason : Option Reason) (suppression : Reason)
    → IsQuiet (execution_record ctx event suppressed path codes (suppressing reason suppression))
unfolding execution_record
IsQuiet-suppressing ctx event path codes reason suppression = ground arith

IsQuiet-delegating :
    (ctx : WorkerJobContext) (event : String) (path : List Rule) (codes : List Code) (ch : Channel)
    (result : DispatchResult)
    → IsSimulated result
    → IsQuiet
        (execution_record ctx event Outcome.dispatch_delegated path codes (delegating ch result))
unfolding execution_record
IsQuiet-delegating ctx event path codes ch result s =
    let q = s.suppressed in let n = s.no_success in ground (arith, q, n)

module _ (parse_int parse_float : String → Option ℤ) (location : String) (ids : Ids) where
  IsQuiet-delegate :
      (keys : Keys) (ctx : WorkerJobContext) (student : Student) (attempt : ℤ)
      → IsQuiet (delegate parse_int parse_float location ids keys ctx student attempt).0
  unfolding delegate
  IsQuiet-delegate keys ctx student attempt = IsQuiet-delegating ctx ids.event _ _ _ _ (
      dispatch-IsSimulated _ _ (
        assess_provider-IsContained parse_int parse_float keys ids.assessment
          (make_provider_context ctx)))

  IsQuiet-after_gate :
      (keys : Keys) (r : OutreachCoordinationRecord) (ctx : WorkerJobContext) (student : Student)
      (attempt : ℤ)
      → IsQuiet (after_gate parse_int parse_float location ids keys r ctx student attempt).0
  unfolding after_gate after_scope
  IsQuiet-after_gate keys r ctx student attempt =
      IsQuiet-if (not r.dispatch_authorized) _ _ (IsQuiet-suppressing ctx ids.event _ _ _ _) (
        IsQuiet-if (is_suppressed ctx.governance_scope) _ _
          (IsQuiet-suppressing ctx ids.event _ _ _ _)
          (IsQuiet-if (ctx.is_replay || is_replay_type ctx.execution_type) _ _
            (IsQuiet-suppressing ctx ids.event _ _ _ _)
            (IsQuiet-if ctx.live_effects_suppressed _ _ (IsQuiet-suppressing ctx ids.event _ _ _ _)
              (IsQuiet-if ctx.compliance_hold_active _ _ (IsQuiet-blocking ctx ids.event _ _ _)
                (IsQuiet-delegate keys ctx student attempt)))))

  -- Whatever the coordination says, one that authorizes a dispatch included: the execution is blocked or
  -- its outbound message suppressed, the dispatch has not succeeded, and a blocked execution has
  -- delegated nothing.
  pub worker-IsQuiet :
      (show : ℤ → String) (keys : Keys) (r : OutreachCoordinationRecord) (student : Student)
      (attempt : ℤ)
      → IsQuiet
          (coordinate_worker_execution parse_int parse_float location ids show keys r student
            attempt).0
  unfolding coordinate_worker_execution run_job
  worker-IsQuiet show keys r student attempt =
      IsQuiet-if (nonempty _) _ _ (IsQuiet-blocking _ ids.event _ _ _)
        (IsQuiet-after_gate keys r _ student attempt)
