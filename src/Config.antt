-- ===== src/Config.antt =====
-- Config V2 rule sets as the advisory services resolve them: app/services/priority.py, outreach.py and
-- ghl.py hold the same loop, each with keys of its own.
use student_success_intellig.Prelude.{
  ℤ, when, String, Bool, true, false, Option, none, some, List, [], ◌∷◌, ◌++◌, map,
}
use student_success_intellig.Prelude.Dict.{Dict, get}

-- A Config V2 value: `None`, the sentinel `UNKNOWN_V0`, a number, or a value of another kind, which
-- a text stands for.
pub data Setting : Type 0 where
  null unknown_v0 : Setting
  number : ℤ → Setting
  other : String → Setting

-- the value of a key, `UNKNOWN_V0` where it is missing
abbrev pub or_unknown : Option Setting → Setting
or_unknown none = unknown_v0
or_unknown (some v) = v

abbrev pub is_unknown : Setting → Bool
is_unknown unknown_v0 = true
is_unknown _ = false

-- the loop that resolves thresholds: the bindings and the missing keys
unfoldable pub resolve_keys : Dict Setting → List String → Dict Setting × List String
resolve_keys rule_set [] = ([], [])
resolve_keys rule_set (k ∷ keys) =
    let (bindings, missing) = resolve_keys rule_set keys in
    let value = or_unknown (get k rule_set) in
    ((k, value) ∷ bindings, when (is_unknown value) k ++ missing)

-- `{k: UNKNOWN_V0 for k in keys}`
abbrev pub unknown_for : List String → Dict Setting
unknown_for keys = map (λ k. (k, unknown_v0)) keys

-- a threshold that is a number: `t != UNKNOWN_V0 and isinstance(t, (int, float))`
abbrev pub numeric : Setting → Option ℤ
numeric (number n) = some n
numeric _ = none

unfoldable pub limit_of : Dict Setting → String → Option ℤ
limit_of thresholds k = numeric (or_unknown (get k thresholds))
