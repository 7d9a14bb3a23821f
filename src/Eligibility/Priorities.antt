-- ===== src/Eligibility/Priorities.antt =====
-- What RULE 9 and RULE 11 of app/services/eligibility.py keep: which counts give which priority, and how
-- far an AI signal moves it.
use student_success_intellig.Prelude.{
  ℤ, at_least, above, below, ℕ, ◌+◌, ◌≤◌, ◌≡◌, ◌≢◌, ◌↔◌, ◌⊎◌, Bool, true, false, not, ◌&&◌, Option,
  none, some, arith,
}
use student_success_intellig.Prelude.Dict.{Dict}
use student_success_intellig.Eligibility.Types.{
  Priority, high, medium, low, unknown, Code, EligibilityContext,
}
use student_success_intellig.Eligibility.Thresholds.{limit_of}
use student_success_intellig.Eligibility.Tier.{priority_upgrade}
use student_success_intellig.Eligibility.Tally.{
  Tally, check, check_effort, check_payment, check_recurrence, check_trend, tally_of, priority_of,
}
use student_success_intellig.Eligibility.Late.{adjust}
use student_success_intellig.Governance.{
  ExecutionMode, Intervention, Trend, declining, AiTier, confident, advisory, Threshold,
}

abbrev pub rank : Priority → ℕ
rank unknown = 0
rank low = 1
rank medium = 2
rank high = 3
rank Priority.critical = 4

-- the signals that RULE 9 counts as high and as medium, one number for each test
abbrev pub one_if : Bool → ℕ
one_if true = 1
one_if false = 0

abbrev pub exceeds_high : Option ℤ → Option ℤ → ℕ
exceeds_high val high_thr = one_if (at_least val high_thr)

-- a value that reaches the medium threshold and not the high one
abbrev pub exceeds_med : Option ℤ → Option ℤ → Option ℤ → ℕ
exceeds_med val high_thr med_thr = one_if (not (at_least val high_thr) && at_least val med_thr)

abbrev pub is_trend_critical : Option Trend → Bool
is_trend_critical (some Trend.critical) = true
is_trend_critical _ = false

abbrev pub is_trend_declining : Option Trend → Bool
is_trend_declining (some declining) = true
is_trend_declining _ = false

check_lem :
    (val high_thr med_thr : Option ℤ) (h m : Code) (t : Tally)
    → ((check val high_thr med_thr h m t).highs ≡ t.highs + exceeds_high val high_thr)
      × ((check val high_thr med_thr h m t).meds ≡ t.meds + exceeds_med val high_thr med_thr)
unfolding check
check_lem none high_thr med_thr h m t = ground arith
check_lem (some val) high_thr med_thr h m t = ground arith

effort_lem :
    (eff min_eff : Option ℤ) (t : Tally)
    → ((check_effort eff min_eff t).highs ≡ t.highs)
      × ((check_effort eff min_eff t).meds ≡ t.meds + one_if (below eff min_eff))
unfolding check_effort
effort_lem none min_eff t = ground arith
effort_lem (some eff) min_eff t = ground arith

payment_lem :
    (pay pay_risk : Option ℤ) (t : Tally)
    → ((check_payment pay pay_risk t).highs ≡ t.highs)
      × ((check_payment pay pay_risk t).meds ≡ t.meds + one_if (above pay pay_risk))
unfolding check_payment
payment_lem pay pay_risk t = ground arith

recurrence_lem :
    (count : ℤ) (esc_rep : Option ℤ) (t : Tally)
    → ((check_recurrence count esc_rep t).highs ≡ t.highs + one_if (at_least (some count) esc_rep))
      × ((check_recurrence count esc_rep t).meds ≡ t.meds)
unfolding check_recurrence
recurrence_lem count esc_rep t = ground arith

trend_lem :
    (trend : Option Trend) (t : Tally)
    → ((check_trend trend t).highs ≡ t.highs + one_if (is_trend_critical trend))
      × ((check_trend trend t).meds ≡ t.meds + one_if (is_trend_declining trend))
unfolding check_trend
trend_lem trend t = ground arith

-- The tally of RULE 9 counts, as high, homework and inactivity at their high thresholds, a repeated
-- escalation and a critical trend; as medium, homework and inactivity at their lower thresholds only,
-- an effort below, a balance above its threshold, and a declining trend.
pub tally_of_lem :
    (ctx : EligibilityContext) (th : Dict Threshold)
    → ((tally_of ctx th).highs
        ≡ exceeds_high ctx.academic.hws_behind (limit_of th "hws_high")
          + exceeds_high ctx.academic.last_activity_days (limit_of th "inact_high")
          + one_if (at_least (some ctx.academic.prior_escalation_count) (limit_of th "esc_repeat"))
          + one_if (is_trend_critical ctx.academic.historical_risk_trend))
      × ((tally_of ctx th).meds
          ≡ exceeds_med ctx.academic.hws_behind (limit_of th "hws_high") (limit_of th "min_hws")
            + one_if (below ctx.academic.avg_eff_rating (limit_of th "min_eff"))
            + exceeds_med ctx.academic.last_activity_days
                (limit_of th "inact_high")
                (limit_of th "max_inact")
            + one_if (above ctx.academic.payment_balance (limit_of th "payment_risk"))
            + one_if (is_trend_declining ctx.academic.historical_risk_trend))
unfolding tally_of
tally_of_lem ctx th = omega (arith, check_lem, effort_lem, payment_lem, recurrence_lem, trend_lem)

-- CRITICAL is two high signals or more; HIGH is one and a medium signal; LOW is no signal; MEDIUM is
-- the rest; the priority is never UNKNOWN.
pub priority_of_levels :
    (t : Tally)
    → ((priority_of t ≡ Priority.critical) ↔ (2 ≤ t.highs))
      × ((priority_of t ≡ high) ↔ ((t.highs ≡ 1) × (1 ≤ t.meds)))
      × ((priority_of t ≡ low) ↔ ((t.highs ≡ 0) × (t.meds ≡ 0)))
      × (priority_of t ≢ unknown)
unfolding priority_of
priority_of_levels t = (
  (λ e. ground arith, λ e. ground arith),
  (λ e. (ground arith, ground arith), λ e. ground arith),
  (λ e. (ground arith, ground arith), λ e. ground arith),
  λ e. ground arith,
)

-- the tiers under which RULE 11 may move a priority
abbrev pub moves : AiTier → Bool
moves confident = true
moves advisory = true
moves _ = false

abbrev pub escalates : AiTier → Option Intervention → Bool
escalates confident (some Intervention.escalate) = true
escalates _ _ = false

-- RULE 11 never lowers a priority; it moves it by one step at most unless a confident signal asks to
-- escalate; and it leaves it alone under a stale, unavailable, in-flight or finalized insight.
pub adjust_bounds :
    (tier : AiTier) (intv : Option Intervention) (mode : ExecutionMode) (priority : Priority)
    → (rank priority ≤ rank (adjust tier intv mode priority).priority)
      × ((escalates tier intv ≡ true)
          ⊎ (rank (adjust tier intv mode priority).priority ≤ rank priority + 1))
      × ((moves tier ≡ true) ⊎ ((adjust tier intv mode priority).priority ≡ priority))
unfolding adjust priority_upgrade
adjust_bounds tier intv mode priority = ground arith
