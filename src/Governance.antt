-- ===== src/Governance.antt =====
-- The vocabulary that the governance services of app/services share (`decision_engine.py`,
-- `eligibility_types.py`, `channel_selector_types.py`, `_priority_types.py`): the texts that the
-- code compares with, one constructor for each, and `other` for every other text.
use student_success_intellig.Prelude.{String, Bool, true, false, Option, none, some, ℤ, pos, ltb_ℤ}
use student_success_intellig.Prelude.Dict.{Dict}

pub data ExecutionMode : Type 0 where
  shadow live : ExecutionMode
  other : String → ExecutionMode

pub data ExecutionType : Type 0 where
  original replay regeneration recovery : ExecutionType
  other : String → ExecutionType

pub data AccessState : Type 0 where
  revoked suspended : AccessState
  other : String → AccessState

pub data OutreachState : Type 0 where
  closed resolved eligible queued contacted no_response retry intervention_required : OutreachState
  other : String → OutreachState

pub data InsightState : Type 0 where
  generating pending generation_failed reviewed archived : InsightState
  other : String → InsightState

pub data Intervention : Type 0 where
  escalate meeting outreach resource_delivery ipbc_followup : Intervention
  other : String → Intervention

pub data Trend : Type 0 where
  critical declining : Trend
  other : String → Trend

pub data AiTier : Type 0 where
  confident advisory stale in_flight unavailable finalized_copy : AiTier

-- A Config V2 value: `None`, the sentinel `UNKNOWN_V0`, or a number. A value of another kind makes
-- the source's comparisons raise `TypeError`, and is left out.
pub data Threshold : Type 0 where
  null unknown_v0 : Threshold
  number : ℤ → Threshold

-- attribution, fingerprint and replay contexts: texts that may be `None`
abbrev pub TextDict : Type 0
TextDict = Dict (Option String)

-- `execution_mode in ("SHADOW", "LIVE")`
abbrev pub is_valid_mode : ExecutionMode → Bool
is_valid_mode (ExecutionMode.other _) = false
is_valid_mode _ = true

abbrev pub is_live : ExecutionMode → Bool
is_live ExecutionMode.live = true
is_live _ = false

abbrev pub is_shadow : ExecutionMode → Bool
is_shadow ExecutionMode.shadow = true
is_shadow _ = false

-- `execution_type in ("replay", "regeneration")`
abbrev pub is_replay_type : ExecutionType → Bool
is_replay_type ExecutionType.replay = true
is_replay_type ExecutionType.regeneration = true
is_replay_type _ = false

abbrev pub is_original : ExecutionType → Bool
is_original ExecutionType.original = true
is_original _ = false

-- `None if v == UNKNOWN_V0 else v`
abbrev pub comparable : Threshold → Option ℤ
comparable (number n) = some n
comparable _ = none

-- `score >= 0.70` of `ai_confidence_score or 0.0`
abbrev pub score_or_zero : Option ℤ → ℤ
score_or_zero none = pos 0
score_or_zero (some s) = s

abbrev pub seven_tenths : ℤ
seven_tenths = pos 7000

-- the settings' `EXECUTION_MODE`, a member of an enumeration of texts
pub data SettingsMode : Type 0 where
  shadow_setting live_setting : SettingsMode

-- `str` of a member is its qualified name, not its text
unfoldable pub str_of_mode : SettingsMode → String
str_of_mode shadow_setting = "ExecutionMode.SHADOW"
str_of_mode live_setting = "ExecutionMode.LIVE"

-- The count is below the number that a rule set holds, if it holds one.
abbrev pub is_below : Option Threshold → ℤ → Bool
is_below (some (number n)) count = ltb_ℤ count n
is_below _ count = true
