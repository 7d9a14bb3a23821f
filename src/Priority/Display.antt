-- ===== src/Priority/Display.antt =====
-- The display heuristics of app/services/priority.py: `score_student` and `risk_level_for_display`.
-- The scores, floats with whole values in the source, are natural numbers.
use student_success_intellig.Prelude.{
  leb, if◌then◌else◌, ℤ, pos, ltb_ℤ, leb_ℤ, whole, at_least, above, below, ℕ, ◌+◌, String, ◌||◌,
  Option, none, some, List, [], ◌∷◌, ◌++◌, str_eq,
}
use student_success_intellig.Prelude.Dict.{get_text}
use student_success_intellig.Priority.Types.{Priority}
use student_success_intellig.Governance.{TextDict}

-- The keys of the student's dict that the service reads.
pub record Student : Type 0 where
  pub hws_behind : Option ℤ
  pub last_activity_days : Option ℤ
  pub avg_eff_rating : Option ℤ
  pub payment_balance : Option ℤ

pub data Action : Type 0 where
  escalate contact_immediately schedule_outreach monitor : Action

pub data Reason : Type 0 where
  hws_high_risk hws_moderate inactivity_high inactivity_moderate eff_rating_low : Reason
  payment_balance_risk intervention_state no_response_state : Reason

pub record StudentPriorityScore : Type 0 where
  pub level : Priority
  pub score : ℕ
  pub recommended_action : Action
  pub reason_codes : List Reason

-- `student.get(k) or 0`
abbrev pub or_zero : Option ℤ → ℤ
or_zero none = pos 0
or_zero (some v) = v

-- what one test adds to the score, and its code
abbrev pub Points : Type 0
Points = ℕ × List Reason

unfoldable pub hws_points : ℤ → Points
hws_points hws =
    if leb_ℤ (whole 3) hws
    then (40, hws_high_risk ∷ [])
    else if leb_ℤ (whole 1) hws
    then (20, hws_moderate ∷ [])
    else (0, [])

unfoldable pub inactivity_points : ℤ → Points
inactivity_points days =
    if ltb_ℤ (whole 14) days
    then (30, inactivity_high ∷ [])
    else if ltb_ℤ (whole 7) days
    then (15, inactivity_moderate ∷ [])
    else (0, [])

unfoldable pub effort_points : Option ℤ → Points
effort_points eff = if below eff (some (whole 3)) then (20, eff_rating_low ∷ []) else (0, [])

unfoldable pub balance_points : ℤ → Points
balance_points balance = if ltb_ℤ (pos 0) balance then (10, payment_balance_risk ∷ []) else (0, [])

unfoldable pub state_points : Option String → Points
state_points none = (0, [])
state_points (some state) =
    if str_eq state "INTERVENTION_REQUIRED"
    then (20, intervention_state ∷ [])
    else if str_eq state "NO_RESPONSE"
    then (10, no_response_state ∷ [])
    else (0, [])

-- `if tracking:` and `tracking.get("state", "")`
unfoldable pub tracking_points : Option TextDict → Points
tracking_points none = (0, [])
tracking_points (some tracking) = state_points (get_text "state" tracking)

unfoldable pub total : Points → Points → Points
total a b = (a.0 + b.0, a.1 ++ b.1)

unfoldable pub points_of : Student → Option TextDict → Points
points_of student tracking = total (hws_points (or_zero student.hws_behind)) (
    total (inactivity_points (or_zero student.last_activity_days)) (
      total (effort_points student.avg_eff_rating)
        (total (balance_points (or_zero student.payment_balance)) (tracking_points tracking))))

unfoldable pub level_of : ℕ → Priority × Action
level_of score =
    if leb 60 score
    then (Priority.critical, escalate)
    else if leb 40 score
    then (Priority.high, contact_immediately)
    else if leb 20 score
    then (Priority.medium, schedule_outreach)
    else (Priority.low, monitor)

unfoldable pub score_student : Student → Option TextDict → StudentPriorityScore
score_student student tracking =
    let points = points_of student tracking in
    record {
      level = (level_of points.0).0;
      score = points.0;
      recommended_action = (level_of points.0).1;
      reason_codes = points.1;
    }

-- the four display strings of `risk_level_for_display`
pub data DisplayRisk : Type 0 where
  high medium low unknown : DisplayRisk

-- `risk_level_for_display`, of the two attributes that it reads
unfoldable pub risk_level_for_display : Option Student → DisplayRisk
risk_level_for_display none = DisplayRisk.unknown
risk_level_for_display (some profile) =
    if at_least profile.hws_behind (some (whole 3))
      || above profile.last_activity_days (some (whole 14))
    then DisplayRisk.high
    else if at_least profile.hws_behind (some (whole 1))
        || above profile.last_activity_days (some (whole 7))
    then DisplayRisk.medium
    else DisplayRisk.low
