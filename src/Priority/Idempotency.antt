-- ===== src/Priority/Idempotency.antt =====
-- The idempotency keys that app/services/priority.py keeps in memory: which assessments register one,
-- and what becomes of a second assessment under the same key.
use student_success_intellig.Prelude.{
  truthy, nonempty, String, ◌≡◌, Bool, true, false, not, ◌&&◌, ◌||◌, some, List, [], ◌∷◌, arith,
}
use student_success_intellig.Prelude.Dict.{contains}
use student_success_intellig.Priority.Types.{
  Code, idempotency_duplicate_detected, PrioritizationContext,
}
use student_success_intellig.Priority.Gate.{gate_codes}
use student_success_intellig.Priority.Records.{blocked_record}
use student_success_intellig.Priority.Engine.{assess_orchestration_priority}
use student_success_intellig.Idempotency.{
  Keys, is_duplicate, names, contains-register, Registry, run, added-run,
}
use student_success_intellig.Governance.{is_original}

-- `k` is the key that an assessment of this context registers once it has passed the gate.
abbrev pub registers : String → PrioritizationContext → Bool
registers k ctx = is_original ctx.execution_type && names k ctx.idempotency_key

abbrev pub passes : Keys → PrioritizationContext → Bool
passes keys ctx = not (nonempty (gate_codes keys ctx))

-- An assessment adds exactly one key at most: that of an original execution that passes the gate. The
-- keys registered before stay registered, on every branch.
pub contains-assess :
    (k : String) (keys : Keys) (event_id : String) (ctx : PrioritizationContext)
    → contains k (assess_orchestration_priority keys event_id ctx).2
      ≡ (contains k keys || (passes keys ctx && registers k ctx))
unfolding assess_orchestration_priority
contains-assess k keys event_id ctx =
    ground (arith, contains-register k keys ctx.execution_type ctx.idempotency_key)

-- the assessments as calls: an event id and a context
unfoldable pub registry : Registry (String × PrioritizationContext)
registry = record {
  step = λ keys (event_id, ctx). (assess_orchestration_priority keys event_id ctx).2;
  adds = λ k keys (event_id, ctx). passes keys ctx && registers k ctx;
  contains-step = λ k keys (event_id, ctx). contains-assess k keys event_id ctx;
}

abbrev pub reports_duplicate : List Code → Bool
reports_duplicate [] = false
reports_duplicate (idempotency_duplicate_detected ∷ codes) = true
reports_duplicate (_ ∷ codes) = reports_duplicate codes

duplicate_refused :
    (keys : Keys) (event_id : String) (ctx : PrioritizationContext)
    → is_duplicate keys ctx.idempotency_key ≡ true
    → let (r, _, after) = assess_orchestration_priority keys event_id ctx in
      (r.orchestration_blocked ≡ true) × (reports_duplicate r.reason_codes ≡ true) × (after ≡ keys)
unfolding assess_orchestration_priority gate_codes blocked_record
duplicate_refused keys event_id ctx h = ground arith

-- Once an original execution with a key has passed the gate, maintenance and deferral included, every
-- context with this key is blocked as a duplicate, whatever its type, after any sequence of further
-- assessments; and the blocked assessment leaves the keys as they are.
pub second_refused :
    (k : String) (keys : Keys) (event_id : String) (ctx : PrioritizationContext)
    (later : List (String × PrioritizationContext)) (event_id' : String)
    (ctx' : PrioritizationContext)
    → passes keys ctx ≡ true
    → registers k ctx ≡ true
    → ctx'.idempotency_key ≡ some k
    → truthy (some k) ≡ true
    → let before = run registry (assess_orchestration_priority keys event_id ctx).2 later in
      let (r, _, after) = assess_orchestration_priority before event_id' ctx' in
      (r.orchestration_blocked ≡ true)
      × (reports_duplicate r.reason_codes ≡ true)
      × (after ≡ before)
unfolding is_duplicate registry
second_refused k keys event_id ctx later event_id' ctx' p g e t =
    let there = added-run registry k keys (event_id, ctx) later ground (arith, p, g) in
    duplicate_refused _ event_id' ctx' (rw (e, there) ground (arith, t))
