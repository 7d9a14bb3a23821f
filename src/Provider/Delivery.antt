-- ===== src/Provider/Delivery.antt =====
-- The idempotency keys of app/services/ghl.py, which RULE 9 alone reads and registers, and what a second
-- assessment under a registered key gives.
use student_success_intellig.Prelude.{
  if◌then◌else◌, truthy, ℤ, nonempty, String, ◌≡◌, refl, ◌∙◌, Bool, true, false, not, ◌&&◌, ◌||◌,
  Option, none, some, List, arith, eq_iff,
}
use student_success_intellig.Prelude.Dict.{Dict, get, or_empty, contains}
use student_success_intellig.Provider.Types.{Cause, Rule, Code, ProviderOrchestrationContext}
use student_success_intellig.Provider.Gate.{gate_codes, resolve_provider_thresholds}
use student_success_intellig.Provider.Records.{duplicate_assessment}
use student_success_intellig.Provider.Engine.{
  Assessment, is_open, Reading, reading, budget_exhausted, deduplicate, after_circuit,
  after_containment, assess_provider_orchestration,
}
use student_success_intellig.Outreach.Types.{Scope}
use student_success_intellig.Outreach.Intent.{int_of}
use student_success_intellig.Config.{Setting, or_unknown}
use student_success_intellig.Idempotency.{
  Keys, add_key, names, contains-add_key, Registry, run, added-run,
}
use student_success_intellig.Governance.{is_shadow, is_replay_type}

names_self : (k : String) → truthy (some k) ≡ true → names k (some k) ≡ true
names_self k t = ground (arith, t, (eq_iff k k).1 refl)

by_test :
    (Q : Assessment → Type 0) (b : Bool) (x y : Assessment)
    → (b ≡ true → Q x)
    → (b ≡ false → Q y)
    → Q (if b then x else y)
by_test Q true x y p q = p refl
by_test Q false x y p q = q refl

otherwise :
    (Q : Assessment → Type 0) {b : Bool} (x y : Assessment)
    → b ≡ false
    → Q y
    → Q (if b then x else y)
otherwise Q {b} x y e q = by_test Q b x y (λ t. ground (arith, e, t)) (λ _. q)

-- RULE 9 under a key that is registered
suppressed_again :
    (k : String) (keys : Keys) (ctx : ProviderOrchestrationContext) (event_id : String)
    (codes : List Code) (path : List Rule) (bindings : Dict Setting) (missing : List String)
    (cause : Option Cause)
    → truthy (some k) ≡ true
    → contains k keys ≡ true
    → ctx.idempotency_key ≡ some k
    → let (a, _, after) =
        deduplicate keys ctx event_id codes path bindings missing cause ctx.idempotency_key in
      (a.governance_scope ≡ Scope.duplicate_suppressed) × (after ≡ keys)
unfolding deduplicate duplicate_assessment
suppressed_again k keys ctx event_id codes path bindings missing cause t c e =
    rw e ground (arith, t, c)

module _ (parse_int parse_float : String → Option ℤ) where
  -- the configured number of retries
  abbrev pub retry_limit : ProviderOrchestrationContext → Reading
  retry_limit ctx = reading (int_of parse_int) (
      or_unknown (
        get "provider_failure_max_retry_attempts"
          (resolve_provider_thresholds (or_empty ctx.config_rule_set)).0))

  -- A context that reaches RULE 9: the gate passes, no replay, no hold, no open circuit breaker, not in SHADOW
  -- mode, and retries left.
  abbrev pub reaches_deduplication : ProviderOrchestrationContext → Bool
  reaches_deduplication ctx =
      not (nonempty (gate_codes ctx))
      && (not (is_replay_type ctx.execution_type)
          && (not ctx.compliance_hold_active
              && (not (is_open ctx.circuit_breaker_state)
                  && (not (is_shadow ctx.execution_mode)
                      && not (budget_exhausted (retry_limit ctx) ctx.retry_attempt_count)))))

  contains-deduplicate :
      (k : String) (keys : Keys) (ctx : ProviderOrchestrationContext) (event_id : String)
      (codes : List Code) (path : List Rule) (bindings : Dict Setting) (missing : List String)
      (cause : Option Cause) (key : Option String)
      → contains k (deduplicate keys ctx event_id codes path bindings missing cause key).2
        ≡ (contains k keys || names k key)
  unfolding deduplicate add_key
  contains-deduplicate k keys ctx event_id codes path bindings missing cause none = ground arith
  contains-deduplicate k keys ctx event_id codes path bindings missing cause (some key) =
      ground (arith, contains-add_key k key keys)

  -- RULES 4 to 9, where RULE 9 is reached exactly outside of SHADOW mode and with retries left
  contains-after_containment :
      (k : String) (keys : Keys) (event_id : String) (ctx : ProviderOrchestrationContext)
      → contains k (after_containment parse_int parse_float keys ctx event_id).2 ≡ (
          contains k keys
          || ((not ctx.compliance_hold_active
                && (not (is_open ctx.circuit_breaker_state)
                    && (not (is_shadow ctx.execution_mode)
                        && not (budget_exhausted (retry_limit ctx) ctx.retry_attempt_count))))
              && names k ctx.idempotency_key))
  unfolding after_containment after_circuit
  contains-after_containment k keys event_id ctx =
      let Added : Assessment → Type 0 = λ r. contains k r.2 ≡ (
        contains k keys
        || ((not ctx.compliance_hold_active
              && (not (is_open ctx.circuit_breaker_state)
                  && (not (is_shadow ctx.execution_mode)
                      && not (budget_exhausted (retry_limit ctx) ctx.retry_attempt_count))))
            && names k ctx.idempotency_key)) in
      by_test Added ctx.compliance_hold_active _ _ (λ e. ground (arith, e))
        (λ e.
          by_test Added (is_open ctx.circuit_breaker_state) _ _ (λ f. ground (arith, f))
            (λ f.
              by_test Added (is_shadow ctx.execution_mode) _ _ (λ g. ground (arith, g))
                (λ g.
                  by_test Added (budget_exhausted (retry_limit ctx) ctx.retry_attempt_count) _ _
                    (λ h. ground (arith, h))
                    (λ h.
                      contains-deduplicate k keys ctx event_id _ _ _ _ _ ctx.idempotency_key
                      ∙ ground (arith, e, f, g, h)))))

  -- An assessment adds exactly the key of a context that reaches RULE 9, and keeps every key registered
  -- before.
  pub contains-assess_provider :
      (k : String) (keys : Keys) (event_id : String) (ctx : ProviderOrchestrationContext)
      → contains k (assess_provider_orchestration parse_int parse_float keys event_id ctx).2
        ≡ (contains k keys || (reaches_deduplication ctx && names k ctx.idempotency_key))
  unfolding assess_provider_orchestration
  contains-assess_provider k keys event_id ctx =
      ground (arith, contains-after_containment k keys event_id ctx)

  -- the assessments as calls: an event id and a context
  unfoldable pub registry : Registry (String × ProviderOrchestrationContext)
  registry = record {
    step = λ keys (event_id, ctx).
        (assess_provider_orchestration parse_int parse_float keys event_id ctx).2;
    adds = λ k keys (event_id, ctx). reaches_deduplication ctx && names k ctx.idempotency_key;
    contains-step = λ k keys (event_id, ctx). contains-assess_provider k keys event_id ctx;
  }

  -- an assessment that reaches RULE 9 is what RULE 9 makes of it
  by_deduplication :
      (Q : Assessment → Type 0) (keys : Keys) (event_id : String)
      (ctx : ProviderOrchestrationContext)
      → ((codes : List Code) (path : List Rule) (bindings : Dict Setting) (missing : List String)
            (cause : Option Cause)
          → Q (deduplicate keys ctx event_id codes path bindings missing cause ctx.idempotency_key))
      → reaches_deduplication ctx ≡ true
      → Q (assess_provider_orchestration parse_int parse_float keys event_id ctx)
  unfolding assess_provider_orchestration after_containment after_circuit
  by_deduplication Q keys event_id ctx q r =
      let a : nonempty (gate_codes ctx) ≡ false = ground (arith, r) in
      let b : is_replay_type ctx.execution_type ≡ false = ground (arith, r) in
      let c : ctx.compliance_hold_active ≡ false = ground (arith, r) in
      let d : is_open ctx.circuit_breaker_state ≡ false = ground (arith, r) in
      let e : is_shadow ctx.execution_mode ≡ false = ground (arith, r) in
      let f : budget_exhausted (retry_limit ctx) ctx.retry_attempt_count ≡ false =
        ground (arith, r) in
      otherwise Q _ _ a (
        otherwise Q _ _ b (
          otherwise Q _ _ c
            (otherwise Q _ _ d (otherwise Q _ _ e (otherwise Q _ _ f (q _ _ _ _ _))))))

  -- Once a context with a key has reached RULE 9, every context that reaches it with the same key, after any
  -- sequence of further assessments, is suppressed as a duplicate and leaves the keys as they are.
  pub delivered_once :
      (k : String) (keys : Keys) (event_id : String) (ctx : ProviderOrchestrationContext)
      (later : List (String × ProviderOrchestrationContext)) (event_id' : String)
      (ctx' : ProviderOrchestrationContext)
      → truthy (some k) ≡ true
      → reaches_deduplication ctx ≡ true
      → ctx.idempotency_key ≡ some k
      → reaches_deduplication ctx' ≡ true
      → ctx'.idempotency_key ≡ some k
      → let before =
          run registry
            (assess_provider_orchestration parse_int parse_float keys event_id ctx).2
            later in
        let (a, _, after) =
          assess_provider_orchestration parse_int parse_float before event_id' ctx' in
        (a.governance_scope ≡ Scope.duplicate_suppressed) × (after ≡ before)
  unfolding registry
  delivered_once k keys event_id ctx later event_id' ctx' t r e r' e' =
      let here : (reaches_deduplication ctx && names k ctx.idempotency_key) ≡ true =
        rw (r, e) (names_self k t) in
      let there = added-run registry k keys (event_id, ctx) later here in
      by_deduplication
        (λ (a, _, after).
          (a.governance_scope ≡ Scope.duplicate_suppressed)
          × (after
              ≡ run registry
                  (assess_provider_orchestration parse_int parse_float keys event_id ctx).2 later))
        _ event_id' ctx'
        (λ codes path bindings missing cause.
          suppressed_again k _ ctx' event_id' codes path bindings missing cause t there e')
        r'
