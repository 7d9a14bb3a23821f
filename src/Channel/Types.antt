-- ===== src/Channel/Types.antt =====
-- The contexts and the assessment of app/services/channel_selector_types.py, as far as the rules read and
-- write them. Each constant that the service emits is a constructor. A dict by channel has the texts of
-- the channels as keys. The durations are left out.
use student_success_intellig.Prelude.{ℤ, String, Bool, Option, List, [], ◌∷◌}
use student_success_intellig.Prelude.Dict.{Dict}
use student_success_intellig.Config.{Setting}
use student_success_intellig.Governance.{
  ExecutionMode, ExecutionType, OutreachState, InsightState, AiTier, TextDict,
}

pub data Channel : Type 0 where
  call sms email : Channel

-- the key of a channel in a dict
abbrev pub text_of : Channel → String
text_of call = "CALL"
text_of sms = "SMS"
text_of email = "EMAIL"

abbrev pub all_channels : List Channel
all_channels = call ∷ sms ∷ email ∷ []

pub data Scope : Type 0 where
  preferred : Channel → Scope
  multi_channel_eligible channel_exhausted replay_channel_candidate no_scope : Scope

pub data Confidence : Type 0 where
  high medium low unknown : Confidence

pub data Preference : Type 0 where
  prefer : Channel → Preference
  other : String → Preference

pub data ProviderState : Type 0 where
  healthy degraded unavailable unknown : ProviderState
  other : String → ProviderState

pub data Exhaustion : Type 0 where
  exhausted partial : Exhaustion
  other : String → Exhaustion

pub data GovernanceScope : Type 0 where
  replay_only shadow_only authorized : GovernanceScope

pub data Suppression : Type 0 where
  replay_execution shadow_mode_active pre_phase12_certification : Suppression

pub data Urgency : Type 0 where
  no_urgency critical high medium : Urgency

pub data Basis : Type 0 where
  historical_replay ai_assisted fallback rule_based : Basis

pub data Rule : Type 0 where
  rule_0 rule_1 rule_2 rule_3 rule_4 rule_5 rule_6 rule_7 rule_8 rule_9 rule_10 : Rule
  rule_11 rule_12 rule_13 : Rule

-- the reason codes, the blocking flags and the reasons of an escalation
pub data Code : Type 0 where
  config_unresolved config_version_not_active execution_mode_invalid : Code
  correlation_id_missing attribution_incomplete execution_type_invalid : Code
  replay_context_missing governance_precondition_failed : Code
  outreach_closed_terminal compliance_hold_active all_channels_compliance_blocked : Code
  compliance_hold_all_channels_blocked no_phone_number no_email_address : Code
  no_contact_info_any_channel ai_ttl_not_configured : Code
  ai_insight_in_flight_channel_advisory_proceeds : Code
  opt_out_active : Channel → Code
  channel_exhausted_opt_out all_channels_opt_out_prohibited provider_health_unknown : Code
  provider_unavailable provider_degraded delivery_failure_suspended : Channel → Code
  channel_exhausted_provider_failure all_channels_provider_unavailable_or_suspended : Code
  all_channels_exhausted channel_exhaustion_confirmed channel_exhaustion_partial : Code
  replay_live_mode_blocked replay_source_artifact_missing replay_fingerprint_missing : Code
  replay_precondition_violated replay_candidate delivery_failure_counts_unknown : Code
  channel_exhausted_delivery_failure all_channels_delivery_failure_suspended : Code
  engagement_signal_unknown partial_engagement_assessment : Code
  ai_channel_preference_signal_confident ai_channel_preference_signal_advisory : Code
  stale_ai_channel_advisory_skipped stale_ai_live_mode_restricted : Code
  ai_unavailable_fallback_applied ai_finalized_copy_not_applied : Code
  config_threshold_missing : String → Code

pub record GovernanceCtx : Type 0 where
  pub config_version_id : Option String
  pub config_version_status : String
  pub config_rule_set : Dict Setting
  pub execution_mode : ExecutionMode
  pub execution_type : ExecutionType
  pub correlation_id : Option String
  pub causation_id : Option String
  pub attribution_context : TextDict
  pub fingerprint_context : Option TextDict
  pub idempotency_key : Option String
  pub compliance_hold_flag : Bool
  pub replay_context : Option TextDict

pub record AiCtx : Type 0 where
  pub ai_insight_state : Option InsightState
  pub ai_confidence_score : Option ℤ
  pub ai_stale_flag : Bool
  pub ai_finalized_copy : Bool
  pub ai_channel_preference_signal : Option Preference
  pub ai_generated_at : Option String

pub record OperationalCtx : Type 0 where
  pub email : Option String
  pub phone_number : Option String
  pub outreach_state : Option OutreachState
  pub engagement_signal_score : Option ℤ
  pub provider_health_state : Option (Dict ProviderState)
  pub channel_opt_out_state : Option (Dict Bool)
  pub channel_delivery_failure_counts : Option (Dict ℤ)
  pub channel_suspension_state : Option (Dict Bool)
  pub channel_exhaustion_state : Option Exhaustion

-- The communication context is left out: the rules read its delivery history into a table that they do not
-- use.
pub record ChannelAdvisoryContext : Type 0 where
  pub governance : GovernanceCtx
  pub operational : OperationalCtx
  pub ai : AiCtx

pub record GovernanceConstraints : Type 0 where
  pub execution_mode_constraint : ExecutionMode
  pub live_delivery_permitted : Bool
  pub governance_scope : GovernanceScope
  pub suppression_reason : Option Suppression
  pub compliance_channel_restrictions : List Channel
  pub opt_out_channel_exclusions : List Channel
  pub suspended_channel_exclusions : List Channel
  pub config_version_id : Option String
  pub idempotency_key : Option String
  pub governance_preconditions_met : Bool
  pub blocking_governance_flags : List Code

-- The context of an escalation, a text, is left out.
pub record EscalationConstraints : Type 0 where
  pub escalation_recommended : Bool
  pub escalation_urgency : Urgency
  pub escalation_reason_codes : List Code

pub record ReplayRestrictions : Type 0 where
  pub is_replay : Bool
  pub replay_eligible : Bool
  pub live_eligible : Bool
  pub source_artifact_id : Option String
  pub historical_config_version_id : Option String
  pub is_fingerprint_unknown : Bool
  pub replay_safe : Bool

pub record AiOutputCtx : Type 0 where
  pub ai_input_used : Bool
  pub ai_governance_tier : AiTier
  pub ai_confidence_score : Option ℤ
  pub stale_flag : Bool
  pub fallback_applied : Bool
  pub channel_priority_adjustment_applied : Bool
  pub ai_channel_preference_signal : Option Preference

pub record ThresholdBindings : Type 0 where
  pub preferred_initial_channel : Setting
  pub delivery_failure_suspension_threshold : Setting
  pub call_engagement_score_threshold : Setting
  pub sms_engagement_score_threshold : Setting
  pub email_engagement_score_threshold : Setting
  pub channel_specific_cooldown_hours : Setting
  pub ai_insight_ttl_hours : Setting
  pub channel_opt_out_respect_period_hours : Setting

pub record ProviderHealthMetadata : Type 0 where
  pub call_provider_state : ProviderState
  pub sms_provider_state : ProviderState
  pub email_provider_state : ProviderState
  pub channel_suspension_applied : Bool
  pub suspended_channels : List Channel

-- What the rules work on: the variables of `assess_channel_advisory`.
pub record Draft : Type 0 where
  pub path : List Rule
  pub codes : List Code
  pub eligible : List Channel
  pub prohibited : List Channel
  pub gc : GovernanceConstraints
  pub esc : EscalationConstraints
  pub rr : ReplayRestrictions
  pub ai_out : AiOutputCtx
  pub tb : ThresholdBindings
  pub ph : ProviderHealthMetadata
  pub threshold_warnings : List Code

pub record ChannelAdvisoryAssessment : Type 0 where
  pub channel_advisory_produced : Bool
  pub advisory_scope : Scope
  pub recommended_channel_candidates : List Channel
  pub prohibited_channels : List Channel
  pub governance_constraints : GovernanceConstraints
  pub escalation_constraints : EscalationConstraints
  pub replay_restrictions : ReplayRestrictions
  pub ai_context : AiOutputCtx
  pub threshold_bindings : ThresholdBindings
  pub provider_health_metadata : ProviderHealthMetadata
  pub advisory_confidence : Confidence
  pub execution_mode : ExecutionMode
  pub execution_type : ExecutionType
  pub config_version_id : Option String
  pub historical_config_version_id : Option String
  pub correlation_id : Option String
  pub causation_id : Option String
  pub attribution_metadata : TextDict
  pub is_attribution_complete : Bool
  pub degraded_evaluation : Bool
  pub rule_path_taken : List Rule
  pub assessment_basis : Basis
  pub reason_codes : List Code
  pub advisory_blocked : Bool
  pub blocking_reason : Option Code
  pub config_threshold_warnings : List Code
  pub student_id_opaque : Option String
