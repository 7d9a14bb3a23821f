-- ===== src/Eligibility/Tally.antt =====
-- RULE 9 of app/services/eligibility.py: the multi-factor risk and the priority that it gives.
use student_success_intellig.Prelude.{
  leb, ◌==◌, if◌then◌else◌, ℤ, at_least, above, below, when, ℕ, ◌+◌, Bool, true, false, ◌&&◌, ◌||◌,
  Option, none, some, List, [], ◌∷◌, ◌++◌,
}
use student_success_intellig.Prelude.Dict.{Dict}
use student_success_intellig.Eligibility.Types.{
  Priority, high, medium, low, Code, hws_delinquency_high_risk, hws_delinquency_moderate,
  effort_decline, inactivity_high_risk, inactivity_moderate, payment_risk, escalation_recurrence,
  historical_trend_critical, historical_trend_declining, partial_risk_assessment,
  EligibilityContext,
}
use student_success_intellig.Eligibility.Thresholds.{limit_of}
use student_success_intellig.Governance.{Trend, declining, Threshold}

-- the variables `high`, `med`, `partial`, and what is appended to `codes`
pub record Tally : Type 0 where
  pub highs : ℕ
  pub meds : ℕ
  pub partial : Bool
  pub noted : List Code

abbrev pub no_tally : Tally
no_tally = record { highs = 0; meds = 0; partial = false; noted = [] }

abbrev add_high : Code → Tally → Tally
add_high code t = record t { highs = t.highs + 1; noted = t.noted ++ code ∷ [] }

abbrev add_med : Code → Tally → Tally
add_med code t = record t { meds = t.meds + 1; noted = t.noted ++ code ∷ [] }

-- `_check`, which is never called with `invert=True`
unfoldable pub check : Option ℤ → Option ℤ → Option ℤ → Code → Code → Tally → Tally
check none high_thr med_thr high_label med_label t = record t { partial = true }
check (some val) high_thr med_thr high_label med_label t =
    if at_least (some val) high_thr
    then add_high high_label t
    else if at_least (some val) med_thr
    then add_med med_label t
    else t

unfoldable pub check_effort : Option ℤ → Option ℤ → Tally → Tally
check_effort none min_eff t = record t { partial = true }
check_effort (some eff) min_eff t = if below (some eff) min_eff then add_med effort_decline t else t

unfoldable pub check_payment : Option ℤ → Option ℤ → Tally → Tally
check_payment pay pay_risk t = if above pay pay_risk then add_med payment_risk t else t

unfoldable pub check_recurrence : ℤ → Option ℤ → Tally → Tally
check_recurrence count esc_rep t =
    if at_least (some count) esc_rep then add_high escalation_recurrence t else t

unfoldable pub check_trend : Option Trend → Tally → Tally
check_trend (some Trend.critical) t = add_high historical_trend_critical t
check_trend (some declining) t = add_med historical_trend_declining t
check_trend _ t = t

unfoldable pub tally_of : EligibilityContext → Dict Threshold → Tally
tally_of ctx th = check_trend ctx.academic.historical_risk_trend (
    check_recurrence ctx.academic.prior_escalation_count (limit_of th "esc_repeat") (
      check_payment ctx.academic.payment_balance (limit_of th "payment_risk") (
        check ctx.academic.last_activity_days (limit_of th "inact_high") (limit_of th "max_inact")
          inactivity_high_risk inactivity_moderate
          (check_effort ctx.academic.avg_eff_rating (limit_of th "min_eff") (
            check ctx.academic.hws_behind (limit_of th "hws_high") (limit_of th "min_hws")
              hws_delinquency_high_risk hws_delinquency_moderate no_tally)))))

unfoldable pub priority_of : Tally → Priority
priority_of t =
    if leb 2 t.highs
    then Priority.critical
    else if (t.highs == 1) && leb 1 t.meds
    then high
    else if leb 1 t.highs || leb 1 t.meds
    then medium
    else low

-- the codes that RULE 9 appends
unfoldable pub tally_codes : Tally → List Code
tally_codes t = t.noted ++ when t.partial partial_risk_assessment
