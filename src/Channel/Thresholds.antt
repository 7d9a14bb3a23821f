-- ===== src/Channel/Thresholds.antt =====
-- RULE 3 of app/services/channel_selector.py: `resolve_thresholds` of app/services/_channel_advisory_helpers.py.
use student_success_intellig.Prelude.{is_some, when, String, not, List, [], ◌∷◌, ◌++◌}
use student_success_intellig.Prelude.Dict.{Dict, get}
use student_success_intellig.Channel.Types.{Code, config_threshold_missing, ThresholdBindings}
use student_success_intellig.Config.{Setting, or_unknown}

abbrev pub k_preferred : String
k_preferred = "outreach_initial_channel_preference"

-- `_KEY_MAP`, the keys in its order
abbrev pub key_map : List String
key_map =
    k_preferred ∷ "channel_delivery_failure_suspension_threshold"
    ∷ "call_engagement_score_threshold" ∷ "sms_engagement_score_threshold"
    ∷ "email_engagement_score_threshold" ∷ "channel_specific_cooldown_hours"
    ∷ "ai_insight_ttl_hours" ∷ "channel_opt_out_respect_period_hours" ∷ []

-- the keys that the rule set lacks
unfoldable pub missing_tags : Dict Setting → List String → List Code
missing_tags rule_set [] = []
missing_tags rule_set (k ∷ keys) =
    when (not (is_some (get k rule_set))) (config_threshold_missing k) ++ missing_tags rule_set keys

-- the bindings that `resolve_thresholds` sets; a missing key leaves the sentinel. A value of another kind than
-- the rules compare makes the source raise `TypeError`, and counts as absent in the rules below.
unfoldable pub bindings_of : Dict Setting → ThresholdBindings
bindings_of rule_set = record {
  preferred_initial_channel = or_unknown (get k_preferred rule_set);
  delivery_failure_suspension_threshold =
      or_unknown (get "channel_delivery_failure_suspension_threshold" rule_set);
  call_engagement_score_threshold = or_unknown (get "call_engagement_score_threshold" rule_set);
  sms_engagement_score_threshold = or_unknown (get "sms_engagement_score_threshold" rule_set);
  email_engagement_score_threshold = or_unknown (get "email_engagement_score_threshold" rule_set);
  channel_specific_cooldown_hours = or_unknown (get "channel_specific_cooldown_hours" rule_set);
  ai_insight_ttl_hours = or_unknown (get "ai_insight_ttl_hours" rule_set);
  channel_opt_out_respect_period_hours =
      or_unknown (get "channel_opt_out_respect_period_hours" rule_set);
}

-- `ThresholdBindings()`
abbrev pub no_bindings : ThresholdBindings
no_bindings = bindings_of []
