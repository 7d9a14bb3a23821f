-- ===== src/Eligibility/Thresholds.antt =====
-- `_KEY_MAP`, `_resolve_thresholds` and `_t` of app/services/eligibility.py.
use student_success_intellig.Prelude.{
  is_some, ℤ, when, String, not, Option, none, some, List, [], ◌∷◌, ◌++◌,
}
use student_success_intellig.Prelude.Dict.{Dict, get}
use student_success_intellig.Eligibility.Types.{
  Code, config_threshold_missing, OrchestrationConstraints, ThresholdBindings, default_constraints,
}
use student_success_intellig.Governance.{Threshold, unknown_v0, comparable}

-- `_KEY_MAP`: each alias with its Config V2 key
abbrev pub key_map : List (String × String)
key_map =
    ("excl_window", "outreach_exclusion_window_hours")
    ∷ ("min_hws", "hws_behind_minimum_threshold")
    ∷ ("min_eff", "avg_eff_rating_minimum_threshold")
    ∷ ("max_inact", "last_activity_max_days")
    ∷ ("max_attempts", "outreach_max_attempts")
    ∷ ("retry_window", "outreach_retry_window_hours")
    ∷ ("payment_risk", "payment_balance_risk_threshold")
    ∷ ("ai_ttl", "ai_insight_ttl_hours")
    ∷ ("esc_repeat", "prior_escalation_repeat_threshold")
    ∷ ("hws_high", "hws_behind_high_risk_threshold")
    ∷ ("inact_high", "last_activity_high_risk_days")
    ∷ ("sync_age", "sql_server_max_sync_age_hours")
    ∷ []

abbrev pub or_unknown : Option Threshold → Threshold
or_unknown none = unknown_v0
or_unknown (some v) = v

-- the loop of `_resolve_thresholds`
unfoldable pub resolve_keys : Dict Threshold → List (String × String) → Dict Threshold × List Code
resolve_keys rule_set [] = ([], [])
resolve_keys rule_set ((alias, key) ∷ keys) =
    let (bindings, warnings) = resolve_keys rule_set keys in
    (
      (alias, or_unknown (get key rule_set)) ∷ bindings,
      when (not (is_some (get key rule_set))) (config_threshold_missing key) ++ warnings,
    )

unfoldable pub resolve_thresholds : Dict Threshold → Dict Threshold × List Code
resolve_thresholds rule_set = resolve_keys rule_set key_map

-- `th[alias]`
unfoldable pub bound : Dict Threshold → String → Threshold
bound th alias = or_unknown (get alias th)

-- `_t`
unfoldable pub limit_of : Dict Threshold → String → Option ℤ
limit_of th alias = comparable (bound th alias)

-- the `ThresholdBindings` of RULE 3
unfoldable pub bindings_of : Dict Threshold → ThresholdBindings
bindings_of th = record {
  exclusion_window_hours = bound th "excl_window";
  min_hws_behind = bound th "min_hws";
  min_effort_rating = bound th "min_eff";
  max_inactivity_days = bound th "max_inact";
  max_outreach_attempts = bound th "max_attempts";
  retry_window_hours = bound th "retry_window";
  payment_risk_balance_threshold = bound th "payment_risk";
  ai_insight_ttl_hours = bound th "ai_ttl";
  escalation_repeat_threshold = bound th "esc_repeat";
  hws_behind_high_risk = bound th "hws_high";
  inactivity_high_risk_days = bound th "inact_high";
}

-- the `OrchestrationConstraints` of RULE 3
unfoldable pub constraints_of : Dict Threshold → OrchestrationConstraints
constraints_of th = record default_constraints {
  max_attempts_constraint = bound th "max_attempts";
  exclusion_window_constraint_hours = bound th "excl_window";
  retry_window_constraint_hours = bound th "retry_window";
}
