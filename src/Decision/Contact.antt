-- ===== src/Decision/Contact.antt =====
-- When app/services/decision_engine.py lets a student be contacted: what holds of every context for
-- which the engine emits INITIATE_OUTREACH or RETRY_OUTREACH, read off the table of its rules.
use student_success_intellig.Prelude.{
  ℤ, pos, ltb_ℤ, ◌≡◌, ◌≢◌, ◌⊎◌, Bool, true, false, ◌&&◌, Option, none, some, [],
}
use student_success_intellig.Prelude.Dict.{get}
use student_success_intellig.Decision.Table.{level_of}
use student_success_intellig.Decision.Types.{low, medium, DecisionContext}
use student_success_intellig.Decision.Gate.{precondition_codes}
use student_success_intellig.Governance.{
  revoked, suspended, OutreachState, closed, eligible, queued, Intervention, meeting,
  resource_delivery, ipbc_followup, AiTier, confident, advisory, in_flight, ExecutionType, original,
  Threshold, number, is_below, is_replay_type,
}

abbrev pub count_of : DecisionContext → ℤ
count_of ctx = ctx.operational.contact_attempt_count

-- What every rule that stands before the two contact rules must have let pass.
pub record IsClear (ctx : DecisionContext) : Type 0 where
  pub preconditions_met : precondition_codes ctx.governance ≡ []
  pub not_replay : is_replay_type ctx.governance.execution_type ≡ false
  pub not_closed : ctx.operational.outreach_state ≢ some closed
  pub no_hold : ctx.governance.compliance_hold_flag ≡ false
  pub not_revoked : ctx.academic.access_state ≢ some revoked
  pub not_suspended : ctx.academic.access_state ≢ some suspended
  pub below_ceiling :
      is_below (get "outreach_max_attempts" ctx.governance.config_rule_set) (count_of ctx) ≡ true
  pub low_or_medium : (level_of ctx ≡ low) ⊎ (level_of ctx ≡ medium)

-- The count is above 0 and below the number that the rule set holds; false if it holds none.
abbrev pub is_within : Option Threshold → ℤ → Bool
is_within (some (number n)) count = ltb_ℤ (pos 0) count && ltb_ℤ count n
is_within _ count = false

-- An original execution waits for an AI insight in flight.
abbrev pub is_waiting : AiTier → ExecutionType → Bool
is_waiting in_flight original = true
is_waiting _ _ = false

-- A confident or advisory insight recommends a meeting, a resource or an IPBC follow-up.
abbrev pub has_advice : AiTier → Option Intervention → Bool
has_advice confident (some meeting) = true
has_advice confident (some resource_delivery) = true
has_advice confident (some ipbc_followup) = true
has_advice advisory (some meeting) = true
has_advice advisory (some resource_delivery) = true
has_advice advisory (some ipbc_followup) = true
has_advice _ _ = false

-- The state is ELIGIBLE, QUEUED or none.
abbrev pub IsFresh : Option OutreachState → Type 0
IsFresh s = (s ≡ none) ⊎ ((s ≡ some eligible) ⊎ (s ≡ some queued))
