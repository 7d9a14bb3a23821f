-- ===== src/Priority/Heuristic.antt =====
-- The two display heuristics of app/services/priority.py: the range of the score, what it takes to
-- reach its ends, and how the two agree.
use student_success_intellig.Prelude.{
  ℤ, whole, at_least, length, length-append, ℕ, ◌+◌, ◌*◌, ◌≤◌, ◌<◌, ◌≡◌, ◌≢◌, ◌⊎◌, false, Option,
  some, arith,
}
use student_success_intellig.Priority.Types.{Priority}
use student_success_intellig.Priority.Display.{
  Student, or_zero, Points, hws_points, inactivity_points, effort_points, balance_points,
  state_points, tracking_points, total, points_of, level_of, score_student, DisplayRisk,
  risk_level_for_display,
}
use student_success_intellig.Governance.{TextDict}

points_lem :
    (hws days balance : ℤ) (eff : Option ℤ) (tracking : Option TextDict)
    → ((hws_points hws).0 ≤ 40)
      × ((inactivity_points days).0 ≤ 30)
      × ((effort_points eff).0 ≤ 20)
      × ((balance_points balance).0 ≤ 10)
      × ((tracking_points tracking).0 ≤ 20)
unfolding hws_points inactivity_points effort_points balance_points tracking_points state_points
points_lem hws days balance eff tracking =
    (ground arith, ground arith, ground arith, ground arith, ground arith)

-- each code stands for at least 10 points and at most 40
abbrev Covers : Points → Type 0
Covers p = (length p.1 * 10 ≤ p.0) × (p.0 ≤ length p.1 * 40)

Covers-each :
    (hws days balance : ℤ) (eff : Option ℤ) (tracking : Option TextDict)
    → Covers (hws_points hws)
      × Covers (inactivity_points days)
      × Covers (effort_points eff)
      × Covers (balance_points balance)
      × Covers (tracking_points tracking)
unfolding hws_points inactivity_points effort_points balance_points tracking_points state_points
Covers-each hws days balance eff tracking = (
  (ground arith, ground arith),
  (ground arith, ground arith),
  (ground arith, ground arith),
  (ground arith, ground arith),
  (ground arith, ground arith),
)

Covers-total : (a b : Points) → Covers a → Covers b → Covers (total a b)
unfolding total
Covers-total a b p q =
    (omega (arith, p, q, length-append a.1 b.1), omega (arith, p, q, length-append a.1 b.1))

Covers-points_of :
    (student : Student) (tracking : Option TextDict) → Covers (points_of student tracking)
unfolding points_of
Covers-points_of student tracking =
    let (h, i, e, b, s) =
      Covers-each (or_zero student.hws_behind) (or_zero student.last_activity_days)
        (or_zero student.payment_balance) student.avg_eff_rating tracking in
    Covers-total _ _ h (Covers-total _ _ i (Covers-total _ _ e (Covers-total _ _ b s)))

points_of-bound :
    (student : Student) (tracking : Option TextDict) → (points_of student tracking).0 ≤ 120
unfolding points_of total
points_of-bound student tracking = omega (
  arith,
  points_lem (or_zero student.hws_behind) (or_zero student.last_activity_days)
      (or_zero student.payment_balance) student.avg_eff_rating tracking,
)

level_of_lem :
    (score : ℕ)
    → (((level_of score).0 ≢ Priority.critical) ⊎ (60 ≤ score))
      × (((level_of score).0 ≡ Priority.low) ⊎ (20 ≤ score))
      × (((level_of score).0 ≢ Priority.low) ⊎ (score < 20))
unfolding level_of
level_of_lem score = (ground arith, ground arith, ground arith)

level_of-reasons :
    (score n : ℕ)
    → score ≤ n * 40
    → (((level_of score).0 ≢ Priority.critical) ⊎ (2 ≤ n))
      × (((level_of score).0 ≡ Priority.low) ⊎ (1 ≤ n))
level_of-reasons score n h =
    let (c, l, _) = level_of_lem score in (ground (arith, c), ground (arith, l))

-- A score is at most 120; each reason code accounts for 10 to 40 points of it; so CRITICAL takes two
-- reasons at least, and any level but LOW takes one.
pub score_student_bounds :
    (student : Student) (tracking : Option TextDict)
    → let s = score_student student tracking in
      (s.score ≤ 120)
      × (length s.reason_codes * 10 ≤ s.score)
      × (s.score ≤ length s.reason_codes * 40)
      × ((s.level ≢ Priority.critical) ⊎ (2 ≤ length s.reason_codes))
      × ((s.level ≡ Priority.low) ⊎ (1 ≤ length s.reason_codes))
unfolding score_student
score_student_bounds student tracking =
    let (least, most) = Covers-points_of student tracking in
    let (crit, some_reason) = level_of-reasons _ _ most in
    (points_of-bound student tracking, least, most, crit, some_reason)

display_points :
    (student : Student)
    → (score : ℕ)
    → (hws_points (or_zero student.hws_behind)).0
        + (inactivity_points (or_zero student.last_activity_days)).0
      ≤ score
    → ((risk_level_for_display (some student) ≢ DisplayRisk.high) ⊎ (20 ≤ score))
      × ((at_least student.hws_behind (some (whole 3)) ≡ false) ⊎ (40 ≤ score))
      × ((at_least student.hws_behind (some (whole 1)) ≡ false) ⊎ (20 ≤ score))
unfolding risk_level_for_display hws_points inactivity_points
display_points student score h = (ground arith, ground arith, ground arith)

points_of-least :
    (student : Student) (tracking : Option TextDict)
    → (hws_points (or_zero student.hws_behind)).0
        + (inactivity_points (or_zero student.last_activity_days)).0
      ≤ (points_of student tracking).0
unfolding points_of total
points_of-least student tracking = omega arith

-- A student whom the display calls HIGH is never LOW in the score; three homeworks behind give 40
-- points at least; and a student whose level is LOW is less than one homework behind.
pub display_agrees :
    (student : Student) (tracking : Option TextDict)
    → let s = score_student student tracking in
      ((risk_level_for_display (some student) ≢ DisplayRisk.high) ⊎ (s.level ≢ Priority.low))
      × ((at_least student.hws_behind (some (whole 3)) ≡ false) ⊎ (40 ≤ s.score))
      × ((s.level ≢ Priority.low) ⊎ (at_least student.hws_behind (some (whole 1)) ≡ false))
unfolding score_student
display_agrees student tracking =
    let (d, h, o) = display_points student _ (points_of-least student tracking) in
    let (_, _, at_low) = level_of_lem (points_of student tracking).0 in
    (ground (arith, d, at_low), h, ground (arith, o, at_low))
