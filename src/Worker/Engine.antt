-- ===== src/Worker/Engine.antt =====
-- `coordinate_worker_execution` of app/services/worker.py. The ids of the job, the record and the provider
-- assessment, which the source draws at random, are arguments; so is the location id of the provider's
-- account. The provider's idempotency keys are passed and returned.
use student_success_intellig.Prelude.{
  if◌then◌else◌, ℤ, nonempty, when, String, Bool, true, false, not, ◌||◌, Option, none, some, List,
  [], ◌∷◌, map,
}
use student_success_intellig.Worker.Types.{
  Outcome, suppressed, rule_0, rule_1, rule_2, rule_3, rule_4, rule_5, rule_6, Code,
  governance_scope_suppressed, replay_execution_suppressed, transport, Reason, precondition,
  upstream, replay_containment, compliance_hold, transport_scope, WorkerJobContext,
  WorkerExecutionRecord,
}
use student_success_intellig.Worker.Gate.{gate_codes}
use student_success_intellig.Worker.Context.{
  make_job_context, make_provider_context, channel_for_intent,
}
use student_success_intellig.Worker.Records.{
  Decision, execution_record, ExecutionLog, execution_log,
}
use student_success_intellig.Outreach.Types.{Scope, CoordinationCode, OutreachCoordinationRecord}
use student_success_intellig.Provider.Transport.{
  Student, Channel, build_ghl_payload, DispatchResult, execute_ghl_dispatch,
}
use student_success_intellig.Provider.Engine.{assess_provider_orchestration}
use student_success_intellig.Idempotency.{Keys}
use student_success_intellig.Governance.{is_replay_type}

-- What an execution gives: the record, the logged entry, and the provider's keys afterwards.
abbrev pub Execution : Type 0
Execution = WorkerExecutionRecord × ExecutionLog × Keys

-- the random ids of one execution
pub record Ids : Type 0 where
  pub job : String
  pub event : String
  pub assessment : String

-- the two statements that end every branch
abbrev pub finish : WorkerJobContext → WorkerExecutionRecord → Keys → Execution
finish ctx r keys = (r, execution_log r ctx.student_id_opaque, keys)

-- a decision that blocks, and one that suppresses
abbrev pub blocking : Option Reason → Decision
blocking reason = record {
  execution_blocked = true;
  blocking_reason = reason;
  dispatch_delegated = false;
  channel = none;
  dispatch_outcome = none;
  outbound_suppressed = false;
  suppression_reason = none;
}

abbrev pub suppressing : Option Reason → Reason → Decision
suppressing reason suppression = record {
  execution_blocked = false;
  blocking_reason = reason;
  dispatch_delegated = false;
  channel = none;
  dispatch_outcome = none;
  outbound_suppressed = true;
  suppression_reason = some suppression;
}

-- a decision that delegates
abbrev pub delegating : Channel → DispatchResult → Decision
delegating ch result = record {
  execution_blocked = false;
  blocking_reason = none;
  dispatch_delegated = true;
  channel = some ch;
  dispatch_outcome = some result.outcome;
  outbound_suppressed = result.outbound_suppressed;
  suppression_reason =
      if result.outbound_suppressed then some (transport_scope result.governance_scope) else none;
}

abbrev pub first_reason : List Code → Option Reason
first_reason [] = none
first_reason (c ∷ _) = some (precondition c)

abbrev pub upstream_reason : Option CoordinationCode → Option Reason
upstream_reason none = none
upstream_reason (some r) = some (upstream r)

-- `dispatch_blocked_reason or "dispatch_not_authorized"`
abbrev pub or_not_authorized : Option Reason → Reason
or_not_authorized none = Reason.dispatch_not_authorized
or_not_authorized (some r) = r

-- `ctx.governance_scope in _SUPPRESSED_SCOPES`
abbrev pub is_suppressed : Scope → Bool
is_suppressed Scope.authorized = false
is_suppressed Scope.blocked = false
is_suppressed _ = true

module _ (parse_int parse_float : String → Option ℤ) (location : String) (ids : Ids) where
  -- RULE 6
  unfoldable pub delegate : Keys → WorkerJobContext → Student → ℤ → Execution
  delegate keys ctx student attempt =
      let (assessment, _, after) =
        assess_provider_orchestration parse_int parse_float keys ids.assessment
          (make_provider_context ctx) in
      let ch = channel_for_intent ctx.intent_type in
      let result =
        execute_ghl_dispatch assessment (build_ghl_payload location student ch attempt) in
      finish ctx
        (execution_record ctx ids.event Outcome.dispatch_delegated
          (rule_0 ∷ rule_1 ∷ rule_2 ∷ rule_3 ∷ rule_4 ∷ rule_5 ∷ rule_6 ∷ [])
          (map transport result.reason_codes) (delegating ch result))
        after

  -- RULES 3 to 5
  unfoldable pub after_scope : Keys → WorkerJobContext → Student → ℤ → Execution
  after_scope keys ctx student attempt =
      if ctx.is_replay || is_replay_type ctx.execution_type
      then finish ctx
          (execution_record ctx ids.event suppressed (rule_0 ∷ rule_1 ∷ rule_2 ∷ rule_3 ∷ [])
            (replay_execution_suppressed ∷ [])
            (suppressing (some replay_containment) replay_containment))
          keys
      else if ctx.live_effects_suppressed
      then finish ctx
          (execution_record ctx ids.event suppressed
            (rule_0 ∷ rule_1 ∷ rule_2 ∷ rule_3 ∷ rule_4 ∷ []) (Code.live_effects_suppressed ∷ [])
            (suppressing (some Reason.live_effects_suppressed) Reason.live_effects_suppressed))
          keys
      else if ctx.compliance_hold_active
      then finish ctx
          (execution_record ctx ids.event Outcome.blocked
            (rule_0 ∷ rule_1 ∷ rule_2 ∷ rule_3 ∷ rule_4 ∷ rule_5 ∷ [])
            (Code.compliance_hold_active ∷ []) (blocking (some compliance_hold)))
          keys
      else delegate keys ctx student attempt

  -- RULES 1 and 2
  unfoldable pub after_gate :
      Keys → OutreachCoordinationRecord → WorkerJobContext → Student → ℤ → Execution
  after_gate keys r ctx student attempt =
      if not r.dispatch_authorized
      then finish ctx
          (execution_record ctx ids.event suppressed (rule_0 ∷ rule_1 ∷ [])
            (Code.dispatch_not_authorized ∷ when r.orchestration_blocked Code.orchestration_blocked)
            (suppressing (upstream_reason r.dispatch_blocked_reason)
              (or_not_authorized (upstream_reason r.dispatch_blocked_reason))))
          keys
      else if is_suppressed ctx.governance_scope
      then finish ctx
          (execution_record ctx ids.event suppressed (rule_0 ∷ rule_1 ∷ rule_2 ∷ [])
            (governance_scope_suppressed ∷ Code.scope ctx.governance_scope ∷ [])
            (suppressing (some (Reason.scope ctx.governance_scope))
              (Reason.governance_scope ctx.governance_scope)))
          keys
      else after_scope keys ctx student attempt

  -- RULE 0
  unfoldable pub run_job :
      Keys → OutreachCoordinationRecord → WorkerJobContext → Student → ℤ → Execution
  run_job keys r ctx student attempt =
      let codes = gate_codes ctx in
      if nonempty codes
      then finish ctx
          (execution_record ctx ids.event Outcome.blocked (rule_0 ∷ []) codes
            (blocking (first_reason codes)))
          keys
      else after_gate keys r ctx student attempt

  unfoldable pub coordinate_worker_execution :
      (ℤ → String) → Keys → OutreachCoordinationRecord → Student → ℤ → Execution
  coordinate_worker_execution show keys r student attempt =
      run_job keys r (make_job_context show r student attempt ids.job) student attempt
