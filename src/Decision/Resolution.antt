-- ===== src/Decision/Resolution.antt =====
-- What `_extract_thresholds` of app/services/decision_engine.py resolves, for every rule set: each of
-- the eight keys, and the warnings.
use student_success_intellig.Prelude.{
  if◌then◌else◌, Bool-cases, String, ◌≡◌, refl, inl, inr, true, some, List, [], ◌∷◌, map, arith,
  str_eq, eq_iff,
}
use student_success_intellig.Prelude.Dict.{Dict, get, contains}
use student_success_intellig.Decision.Types.{config_threshold_missing}
use student_success_intellig.Decision.Thresholds.{
  threshold_keys, or_sentinel, is_sentinel, extract_keys, extract_thresholds, threshold,
}
use student_success_intellig.Governance.{Threshold}

get-extract_keys :
    (rule_set : Dict Threshold) (k : String) (ks : List String)
    → contains k ks ≡ true
    → get k (extract_keys rule_set ks).0 ≡ some (or_sentinel (get k rule_set))
unfolding contains get extract_keys
get-extract_keys rule_set k [] h = cc
get-extract_keys rule_set k (j ∷ ks) h = elim (Bool-cases (str_eq j k)) [
  | inl e ↦ rw (e, (eq_iff j k).0 e) refl
  | inr e ↦ rw e (get-extract_keys rule_set k ks (rw e at h))
]

-- The keys that a rule set leaves to the sentinel, in order.
abbrev pub missing_keys : Dict Threshold → List String → List String
missing_keys rule_set [] = []
missing_keys rule_set (k ∷ ks) =
    if is_sentinel (or_sentinel (get k rule_set))
    then k ∷ missing_keys rule_set ks
    else missing_keys rule_set ks

warnings-extract_keys :
    (rule_set : Dict Threshold) (ks : List String)
    → (extract_keys rule_set ks).1 ≡ map config_threshold_missing (missing_keys rule_set ks)
unfolding extract_keys
warnings-extract_keys rule_set [] = refl
warnings-extract_keys rule_set (k ∷ ks) = ground (arith, warnings-extract_keys rule_set ks)

-- For every key of the table, the extracted threshold is the value of the rule set, or the
-- sentinel where the rule set has none; and the warnings name exactly the keys left to the sentinel,
-- in the order of the table.
pub extract_thresholds_lem :
    (rule_set : Dict Threshold) (k : String)
    → contains k threshold_keys ≡ true
    → (threshold (extract_thresholds rule_set).0 k ≡ or_sentinel (get k rule_set))
      × ((extract_thresholds rule_set).1
          ≡ map config_threshold_missing (missing_keys rule_set threshold_keys))
extract_thresholds_lem rule_set k h = (
  unfold threshold extract_thresholds in
      rw (get-extract_keys rule_set k threshold_keys h, threshold) refl,
  unfold extract_thresholds in warnings-extract_keys rule_set threshold_keys,
)
