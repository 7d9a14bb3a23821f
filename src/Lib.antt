-- ===== src/Lib.antt =====
-- Student Success Intelligence Platform: a model of its governance services and the proofs that
-- they keep their rules.
--
-- The platform follows students through an outreach lifecycle, sorts them into cohorts, and lets
-- advisory services judge each case before anything else acts on it. Each of them takes a context
-- (governance, academic, operational and AI data), runs a fixed sequence of rules with early returns, and
-- returns a record that its callers act on. They share a vocabulary of texts and the convention that a
-- context must pass a governance gate (RULE 0) before any rule is evaluated. The worker joins them: its
-- batch cycle makes a context for each student, has it coordinated by the outreach service, and runs a
-- job on the coordination, which asks the provider service for an assessment and gives it to the
-- transport. Operators act on the tracking rows beside it, under the table of the lifecycle; and every
-- HTTP request passes the attribution middleware first.
--
-- Governance: the shared vocabulary (app/services/_priority_types.py, eligibility_types.py): execution
--   modes and types, states, AI tiers, interventions, Config V2 values.
-- Decision: app/services/decision_engine.py. Gate is RULE 0 (validate_governance_preconditions,
--   _governance_scope, _opaque_id), Thresholds is _extract_thresholds, Risk is _assess_ai_tier and
--   _compute_risk, Log is _intent and _log, Actions and Pipeline are the rules of
--   evaluate_orchestration_intent from the last to the first, Replay and Engine are
--   evaluate_replay_intent, evaluate_orchestration_intent and evaluate_shadow_intent, Preview is decide.
--   Table states the rules as an ordered table; Rows and Contact read conditions off the table.
-- Eligibility: app/services/eligibility.py. Gate is RULE 0 and assess_orchestration_eligibility, Rules,
--   Candidacy, Tally and Late are its later rules, Emit is _emit, Tier is _assess_ai_tier, Thresholds is
--   _resolve_thresholds, Simple is check_eligibility. Table, Rows and Candidates are as in Decision.
-- Priority: app/services/priority.py with _priority_helpers.py. Gate is RULE 0 and the set of
--   idempotency keys, Tier is _resolve_priority_thresholds and _classify_ai_tier, Scoring is RULES 6 to
--   8, Records and Emission are the record makers and the event log, Engine is
--   assess_orchestration_priority, Display is score_student and risk_level_for_display.
-- Outreach: app/services/outreach.py with _outreach_helpers.py and _outreach_types.py. Gate is RULE 0 and
--   _resolve_orchestration_thresholds, Intent is _classify_intent, Records and Emission are the record
--   makers and the event log, Engine is coordinate_orchestration_cycle, Manual is execute_manual_action
--   and _log_transition. Containment and Intents are about the coordination, Actions, Lifelines and
--   Closing about manual actions and sequences of them.
-- Repository: append_state_transition of app/repositories/repository.py, which Manual writes its entries
--   with, and the persistence gate of _repository_helpers.py, which may refuse an entry.
-- Provider: app/services/ghl.py with _ghl_helpers.py and _ghl_types.py. Gate is RULE 0 and the thresholds,
--   Records and Emission are the makers of assessments and the event log, Engine is
--   assess_provider_orchestration, Transport is app/services/integrations/ghl.py. Containment and
--   Delivery are about the assessments and the dispatch.
-- Worker: app/services/worker.py with _worker_helpers.py and _worker_types.py. Gate is RULE 0, Context is
--   _make_job_context, _make_provider_context and _channel_for_intent, Records is
--   _build_execution_record and the log entry, Engine is coordinate_worker_execution, Batch is
--   run_batch_cycle and, from app/services/outreach.py, run_outreach_batch. Containment and Accounts are
--   about single executions and about batches.
-- Correlation: app/middleware/correlation.py with _correlation_helpers.py and _correlation_types.py. Gate
--   is RULE 0, Resolve is RULES 1 to 6 and the makers of contexts and records, Middleware is dispatch,
--   Lineage is about what it lets through.
-- Channel: app/services/channel_selector.py with _channel_advisory_helpers.py and channel_selector_types.py.
--   Thresholds is resolve_thresholds, Tier is assess_ai_tier, Gate is RULE 0, Rules is RULES 1 to 8 and
--   assess_channel_advisory, Late is RULES 9 to 13, Ranking is prioritize_channels, Emit is
--   emit_assessment. Partition, Soundness and Advice are about what it recommends and permits.
-- Preview: batch_preview of app/routers/batch.py, the dry run that joins check_eligibility, decide and
--   score_student. Batch is the endpoint, Ranking and Accounts are about the order and the counters.
-- Config and Idempotency: the loop that resolves Config V2 values and the sets of idempotency keys, which
--   three services write alike. Registry is what each of them promises of its set.
-- Lifecycle: app/state_machine.py. Machine is its table and tests, Histories the sequences of allowed
--   transitions.
-- Segmentation: app/services/segmentation.py. Classify is the whole service, Counting and Roles prove
--   what its summary and its filter do.
-- Prelude: lists, dicts, Boolean tests and numbers that the parts share.
--
-- How the code is represented. A text that the code compares with a fixed set is an enumeration
-- with a constructor `other` for every other text; an Optional is an Option; a dict is an
-- association list; ints and floats are integers that count ten-thousandths, so that 0.70 is
-- 7000. The services only compare these numbers. A Config V2 value is None, the sentinel
-- UNKNOWN_V0 or a number; in Priority, where the code tests the type, also a value of another
-- kind. The lists that the code appends to (reason codes, rule path) are built in the same
-- order. A rule with an early return is a function that calls the next rule. The sets of
-- idempotency keys, global in the code, are arguments and results, one set for each service; so is the
-- store of tracking rows and transitions. The digest of a user id (SHA-256), the time elapsed since a
-- timestamp, the test whether a text is part of another, what int, float, str and lower make of a value, the
-- answer of the remote provider and the handler of a request are arguments, as are the random ids. The
-- recursions are structural; no fuel is needed.
--
-- Not modelled: durations and the timestamps of records, which only the clock determines; the log
-- lines of the eligibility service, the channel service, the transport and the middleware; the
-- delivery history and the escalation texts of the channel service; the branch of the batch cycle for
-- an unexpected exception; the display names of the batch preview; the persistence records and the
-- other operations of the repository; the other services (alerts, timeline, synchronisation, AI
-- insights, scheduler); the other routers, models, other clients of remote services and the frontend,
-- which are storage, transport and display.
pub mod Prelude
pub mod Governance
pub mod Config
pub mod Idempotency
pub mod Decision
pub mod Eligibility
pub mod Priority
pub mod Lifecycle
pub mod Segmentation
pub mod Preview
pub mod Repository
pub mod Outreach
pub mod Provider
pub mod Worker
pub mod Correlation
pub mod Channel
