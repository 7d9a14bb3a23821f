-- ===== src/Outreach/Intent.antt =====
-- `_classify_intent` of app/services/outreach.py, and the threshold of RULE 5. What Python's `int` and
-- `float` make of a text is an argument, `none` where they raise `ValueError`.
use student_success_intellig.Prelude.{
  if◌then◌else◌, ℤ, pos, negsuc, at_least, above, ℕ, zero, suc, ◌*◌, ◌/◌, String, Bool, true, false,
  Option, none, some,
}
use student_success_intellig.Prelude.Dict.{Dict, get}
use student_success_intellig.Outreach.Types.{
  Intent, initiate_outreach, retry_outreach, escalate, defer_pending_ai, hold,
  OutreachOrchestrationContext,
}
use student_success_intellig.Config.{Setting, number, or_unknown}
use student_success_intellig.Lifecycle.Machine.{
  State, eligible, queued, contacted, no_response, responded, intervention_required, closed,
}
use student_success_intellig.Governance.{AiTier, in_flight}

-- `int(x)` of a number: its fraction is cut off
abbrev pub truncated : ℤ → ℤ
truncated (pos n) = pos (n / 10000 * 10000)
truncated (negsuc n) = negated (suc n / 10000 * 10000)
  where
    negated : ℕ → ℤ
    negated zero = pos 0
    negated (suc m) = negsuc m

-- `int(v)`; `none` where it raises `ValueError` or `TypeError`
unfoldable pub int_of : (String → Option ℤ) → Setting → Option ℤ
int_of parse_int (number n) = some (truncated n)
int_of parse_int (Setting.other text) = parse_int text
int_of parse_int _ = none

-- `float(v)`; `none` where it raises `ValueError` or `TypeError`
unfoldable pub float_of : (String → Option ℤ) → Setting → Option ℤ
float_of parse_float (number n) = some n
float_of parse_float (Setting.other text) = parse_float text
float_of parse_float _ = none

-- `state in _TERMINAL_STATES`
abbrev pub is_terminal : Option State → Bool
is_terminal (some responded) = true
is_terminal (some closed) = true
is_terminal (some intervention_required) = true
is_terminal _ = false

-- the intent of a state that is not terminal
unfoldable pub intent_of_state : Option State → Intent
intent_of_state (some no_response) = retry_outreach
intent_of_state none = initiate_outreach
intent_of_state (some eligible) = initiate_outreach
intent_of_state (some queued) = initiate_outreach
intent_of_state (some contacted) = hold
intent_of_state _ = hold

abbrev pub is_in_flight : Option AiTier → Bool
is_in_flight (some in_flight) = true
is_in_flight _ = false

-- the count has reached the configured number of attempts
unfoldable pub attempts_exhausted :
    (String → Option ℤ) → OutreachOrchestrationContext → Dict Setting → Bool
attempts_exhausted parse_int ctx thresholds =
    at_least (some ctx.contact_attempt_count)
      (int_of parse_int (or_unknown (get "outreach_max_retry_attempts" thresholds)))

unfoldable pub classify_intent :
    (String → Option ℤ) → OutreachOrchestrationContext → Dict Setting → Option AiTier → Intent
classify_intent parse_int ctx thresholds tier =
    if is_terminal ctx.outreach_state
    then hold
    else if is_in_flight tier
    then defer_pending_ai
    else if attempts_exhausted parse_int ctx thresholds
    then escalate
    else intent_of_state ctx.outreach_state

-- RULE 5: the mirrored data are older than the configured number of hours
unfoldable pub is_stale : (String → Option ℤ) → OutreachOrchestrationContext → Dict Setting → Bool
is_stale parse_float ctx thresholds =
    above (some ctx.sync_lag_hours)
      (float_of parse_float (or_unknown (get "sql_server_max_sync_age_hours" thresholds)))
