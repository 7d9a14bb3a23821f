-- ===== src/Decision/Thresholds.antt =====
-- `_extract_thresholds` of app/services/decision_engine.py (RULE 3): every threshold key of the
-- Config V2 rule set, with the sentinel and a warning for each that is missing.
use student_success_intellig.Prelude.{
  String, Bool, true, false, Option, none, some, List, [], ◌∷◌, ◌++◌, when,
}
use student_success_intellig.Prelude.Dict.{Dict, get}
use student_success_intellig.Governance.{Threshold, null, unknown_v0}
use student_success_intellig.Decision.Types.{Code, config_threshold_missing}

abbrev pub k_max_attempts : String
k_max_attempts = "outreach_max_attempts"

abbrev pub k_hws_risk : String
k_hws_risk = "hws_behind_high_risk_threshold"

abbrev pub k_eff_risk : String
k_eff_risk = "avg_eff_rating_low_risk_threshold"

abbrev pub k_inactivity_risk : String
k_inactivity_risk = "last_activity_high_risk_days"

abbrev pub k_payment_risk : String
k_payment_risk = "payment_balance_risk_threshold"

abbrev pub k_ai_ttl : String
k_ai_ttl = "ai_insight_ttl_hours"

abbrev pub k_escalation_repeat : String
k_escalation_repeat = "prior_escalation_repeat_threshold"

abbrev pub k_sync_age : String
k_sync_age = "sql_server_max_sync_age_hours"

abbrev pub threshold_keys : List String
threshold_keys =
    k_max_attempts ∷ k_hws_risk ∷ k_eff_risk ∷ k_inactivity_risk ∷ k_payment_risk ∷ k_ai_ttl
    ∷ k_escalation_repeat ∷ k_sync_age ∷ []

-- `v if v is not None else UNKNOWN_V0` of `v = rule_set.get(k)`
unfoldable pub or_sentinel : Option Threshold → Threshold
or_sentinel none = unknown_v0
or_sentinel (some null) = unknown_v0
or_sentinel (some v) = v

unfoldable pub is_sentinel : Threshold → Bool
is_sentinel unknown_v0 = true
is_sentinel _ = false

-- the loop of `_extract_thresholds` over the keys
unfoldable pub extract_keys : Dict Threshold → List String → Dict Threshold × List Code
extract_keys rule_set [] = ([], [])
extract_keys rule_set (k ∷ ks) =
    let v : Threshold = or_sentinel (get k rule_set) in
    let (thresholds, warnings) = extract_keys rule_set ks in
    ((k, v) ∷ thresholds, when (is_sentinel v) (config_threshold_missing k) ++ warnings)

unfoldable pub extract_thresholds : Dict Threshold → Dict Threshold × List Code
unfolding extract_keys
extract_thresholds rule_set = extract_keys rule_set threshold_keys

-- `thresholds.get(k, UNKNOWN_V0)`
unfoldable pub threshold : Dict Threshold → String → Threshold
threshold thresholds k = elim (get k thresholds) [ none ↦ unknown_v0 | some v ↦ v ]
