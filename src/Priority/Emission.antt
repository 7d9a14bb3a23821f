-- ===== src/Priority/Emission.antt =====
-- `_make_priority_record` and `emit_priority_event_log` of app/services/_priority_helpers.py.
use student_success_intellig.Prelude.{
  if◌then◌else◌, truthy, ℤ, String, Bool, true, false, not, ◌||◌, Option, none, List,
}
use student_success_intellig.Prelude.Dict.{Dict}
use student_success_intellig.Priority.Types.{
  Scope, authorized, Priority, Risk, Basis, Outcome, Rule, Code, ScoringFactor,
  PrioritizationContext, PrioritizationRecord,
}
use student_success_intellig.Config.{Setting}
use student_success_intellig.Governance.{ExecutionMode, ExecutionType, AiTier}

-- the arguments of `_make_priority_record` that the scoring computes
pub record Findings : Type 0 where
  pub threshold_bindings : Dict Setting
  pub advisory_priority : Priority
  pub governance_scope : Scope
  pub assessment_basis : Basis
  pub scoring_factors : List ScoringFactor
  pub risk_contributions : List Risk
  pub ai_governance_tier : AiTier
  pub ai_priority_adjustment_applied : Bool
  pub ai_fallback_applied : Bool
  pub degraded : Bool
  pub degradation_flags : List Code
  pub degradation_cause : Option Code
  pub outcome : Outcome
  pub scoring_emit_authorized : Bool

abbrev pub is_authorized : Scope → Bool
is_authorized authorized = true
is_authorized _ = false

abbrev pub is_unavailable : Scope → Bool
is_unavailable Scope.unavailable = true
is_unavailable _ = false

-- `_make_priority_record`
unfoldable pub priority_record :
    PrioritizationContext → String → List Code → List Rule → Findings → PrioritizationRecord
priority_record ctx event_id codes path f = record {
  advisory_priority = f.advisory_priority;
  governance_scope = f.governance_scope;
  assessment_basis = f.assessment_basis;
  is_replay = false;
  live_effects_suppressed = not (is_authorized f.governance_scope);
  origin_source = ctx.origin_source;
  origin_authority = ctx.origin_authority;
  actor_identity = ctx.actor_identity;
  attribution_timestamp = ctx.attribution_timestamp;
  upstream_correlation_id = ctx.upstream_correlation_id;
  config_version_id = ctx.config_version_id;
  historical_config_version_id = ctx.historical_config_version_id;
  threshold_bindings = f.threshold_bindings;
  event_id = event_id;
  correlation_id = ctx.correlation_id;
  causation_id = ctx.causation_id;
  orchestration_cycle_id = ctx.orchestration_cycle_id;
  execution_type = ctx.execution_type;
  execution_mode = ctx.execution_mode;
  rule_path_taken = path;
  outcome = f.outcome;
  error_class = none;
  scoring_factors = f.scoring_factors;
  risk_contributions = f.risk_contributions;
  ai_governance_tier = f.ai_governance_tier;
  ai_confidence_score = ctx.ai_confidence_score;
  ai_priority_adjustment_applied = f.ai_priority_adjustment_applied;
  ai_fallback_applied = f.ai_fallback_applied;
  execution_state_before = ctx.execution_state_before;
  execution_state_after = ctx.execution_state_after;
  causation_chain_preserved = truthy ctx.causation_id;
  append_only_enforced = true;
  replay_lineage_preserved = true;
  scoring_lineage_immutable = true;
  scoring_emit_authorized = f.scoring_emit_authorized;
  degraded = f.degraded;
  degradation_flags = f.degradation_flags;
  degradation_cause = f.degradation_cause;
  reason_codes = codes;
  orchestration_blocked = false;
  blocking_reason = none;
  orchestration_continues = not (is_unavailable f.governance_scope);
}

pub data Severity : Type 0 where
  info warning : Severity

pub data Event : Type 0 where
  priority_blocked priority_assessed : Event

-- The logged entry: its level, its event, and the fields of the record that it copies.
pub record EventLog : Type 0 where
  pub level : Severity
  pub event : Event
  pub event_id : String
  pub governance_scope : Scope
  pub advisory_priority : Priority
  pub assessment_basis : Basis
  pub is_replay : Bool
  pub live_effects_suppressed : Bool
  pub execution_mode : ExecutionMode
  pub execution_type : ExecutionType
  pub correlation_id : Option String
  pub causation_id : Option String
  pub orchestration_cycle_id : Option String
  pub config_version_id : Option String
  pub rule_path_taken : List Rule
  pub outcome : Outcome
  pub error_class : Option String
  pub scoring_emit_authorized : Bool
  pub causation_chain_preserved : Bool
  pub append_only_enforced : Bool
  pub replay_lineage_preserved : Bool
  pub scoring_lineage_immutable : Bool
  pub ai_governance_tier : AiTier
  pub ai_confidence_score : Option ℤ
  pub ai_priority_adjustment_applied : Bool
  pub ai_fallback_applied : Bool
  pub risk_contributions : List Risk
  pub degraded : Bool
  pub degradation_cause : Option Code
  pub degradation_flags : List Code
  pub orchestration_blocked : Bool
  pub blocking_reason : Option Code
  pub orchestration_continues : Bool
  pub reason_codes : List Code

-- `emit_priority_event_log`
unfoldable pub event_log : PrioritizationRecord → EventLog
event_log r = record {
  level = if r.degraded || r.orchestration_blocked then warning else info;
  event = if r.orchestration_blocked then priority_blocked else priority_assessed;
  event_id = r.event_id;
  governance_scope = r.governance_scope;
  advisory_priority = r.advisory_priority;
  assessment_basis = r.assessment_basis;
  is_replay = r.is_replay;
  live_effects_suppressed = r.live_effects_suppressed;
  execution_mode = r.execution_mode;
  execution_type = r.execution_type;
  correlation_id = r.correlation_id;
  causation_id = r.causation_id;
  orchestration_cycle_id = r.orchestration_cycle_id;
  config_version_id = r.config_version_id;
  rule_path_taken = r.rule_path_taken;
  outcome = r.outcome;
  error_class = r.error_class;
  scoring_emit_authorized = r.scoring_emit_authorized;
  causation_chain_preserved = r.causation_chain_preserved;
  append_only_enforced = r.append_only_enforced;
  replay_lineage_preserved = r.replay_lineage_preserved;
  scoring_lineage_immutable = r.scoring_lineage_immutable;
  ai_governance_tier = r.ai_governance_tier;
  ai_confidence_score = r.ai_confidence_score;
  ai_priority_adjustment_applied = r.ai_priority_adjustment_applied;
  ai_fallback_applied = r.ai_fallback_applied;
  risk_contributions = r.risk_contributions;
  degraded = r.degraded;
  degradation_cause = r.degradation_cause;
  degradation_flags = r.degradation_flags;
  orchestration_blocked = r.orchestration_blocked;
  blocking_reason = r.blocking_reason;
  orchestration_continues = r.orchestration_continues;
  reason_codes = r.reason_codes;
}
