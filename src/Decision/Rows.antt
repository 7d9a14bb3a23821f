-- ===== src/Decision/Rows.antt =====
-- The table of the decision engine's rules over plain Booleans: when a row of
-- app/services/decision_engine.py gives a contact intent.
use student_success_intellig.Prelude.{
  nonempty, ◌≡◌, ◌≢◌, ◌⊎◌, Bool, true, false, ◌&&◌, Option, some, [], ◌∷◌, arith,
}
use student_success_intellig.Decision.Table.{
  first_match, is_revoked, is_suspended, is_high_or_critical, thresholds_of, tier_of, level_of,
}
use student_success_intellig.Decision.Types.{
  IntentKind, initiate_outreach, retry_outreach, escalate_to_operator, recommend_intervention,
  defer_pending_ai, close_orchestration, no_eligible_intent, Level, low, medium, DecisionContext,
}
use student_success_intellig.Decision.Gate.{precondition_codes}
use student_success_intellig.Decision.Actions.{
  attempts_exhausted, retry_due, first_contact_due, recommends,
}
use student_success_intellig.Decision.Pipeline.{is_in_flight, is_terminal}
use student_success_intellig.Governance.{
  AccessState, revoked, suspended, OutreachState, closed, is_replay_type, is_original,
}

pub not-terminal : (s : Option OutreachState) → s ≢ some closed → is_terminal s ≡ false
not-terminal s h = ground arith

pub not-revoked : (s : Option AccessState) → s ≢ some revoked → is_revoked s ≡ false
not-revoked s h = ground arith

pub not-suspended : (s : Option AccessState) → s ≢ some suspended → is_suspended s ≡ false
not-suspended s h = ground arith

pub not-high : (l : Level) → (l ≡ low) ⊎ (l ≡ medium) → is_high_or_critical l ≡ false
not-high l h = ground arith

pub closed-not : (s : Option OutreachState) → is_terminal s ≡ false → s ≢ some closed
closed-not s h = ground arith

pub revoked-not : (s : Option AccessState) → is_revoked s ≡ false → s ≢ some revoked
revoked-not s h = ground arith

pub suspended-not : (s : Option AccessState) → is_suspended s ≡ false → s ≢ some suspended
suspended-not s h = ground arith

pub high-not : (l : Level) → is_high_or_critical l ≡ false → (l ≡ low) ⊎ (l ≡ medium)
high-not l h = ground arith

abbrev pub is_contact : IntentKind → Bool
is_contact initiate_outreach = true
is_contact retry_outreach = true
is_contact _ = false

-- The conditions of the table's rows.
pub record Facts : Type 0 where
  pub gate : Bool
  pub replay : Bool
  pub closed : Bool
  pub hold : Bool
  pub revoked : Bool
  pub suspended : Bool
  pub defers : Bool
  pub exhausted : Bool
  pub high : Bool
  pub retry : Bool
  pub recommends : Bool
  pub first : Bool

abbrev pub facts : DecisionContext → Facts
facts ctx = record {
  gate = nonempty (precondition_codes ctx.governance);
  replay = is_replay_type ctx.governance.execution_type;
  closed = is_terminal ctx.operational.outreach_state;
  hold = ctx.governance.compliance_hold_flag;
  revoked = is_revoked ctx.academic.access_state;
  suspended = is_suspended ctx.academic.access_state;
  defers = is_in_flight (tier_of ctx) && is_original ctx.governance.execution_type;
  exhausted = attempts_exhausted ctx (thresholds_of ctx);
  high = is_high_or_critical (level_of ctx);
  retry = retry_due ctx (thresholds_of ctx);
  recommends = recommends ctx (tier_of ctx);
  first = first_contact_due ctx;
}

module _ (f : Facts) where
  abbrev pub decision : IntentKind
  decision = first_match (
      (f.gate, no_eligible_intent)
      ∷ (f.replay, no_eligible_intent)
      ∷ (f.closed, no_eligible_intent)
      ∷ (f.hold, escalate_to_operator)
      ∷ (f.revoked, escalate_to_operator)
      ∷ (f.suspended, no_eligible_intent)
      ∷ (f.defers, defer_pending_ai)
      ∷ (f.exhausted, close_orchestration)
      ∷ (f.high, escalate_to_operator)
      ∷ (f.retry, retry_outreach)
      ∷ (f.recommends, recommend_intervention)
      ∷ (f.first, initiate_outreach)
      ∷ [])

  pub initiate_needs :
      decision ≡ initiate_outreach
      → (f.defers ≡ false) × (f.retry ≡ false) × (f.recommends ≡ false) × (f.first ≡ true)
  initiate_needs e = ground arith

  pub retry_needs : decision ≡ retry_outreach → (f.defers ≡ false) × (f.retry ≡ true)
  retry_needs e = ground arith

  -- the eight rows above the contact rows, without the deferral
  abbrev pub Passes : Type 0
  Passes =
      (f.gate ≡ false)
      × (f.replay ≡ false)
      × (f.closed ≡ false)
      × (f.hold ≡ false)
      × (f.revoked ≡ false)
      × (f.suspended ≡ false)
      × (f.exhausted ≡ false)
      × (f.high ≡ false)

  pub contact_needs : is_contact decision ≡ true → Passes
  contact_needs e = ground arith

  pub retry_when : Passes → f.defers ≡ false → f.retry ≡ true → decision ≡ retry_outreach
  retry_when p d y = ground arith

  pub initiate_when :
      Passes
      → f.defers ≡ false
      → f.retry ≡ false
      → f.recommends ≡ false
      → f.first ≡ true
      → decision ≡ initiate_outreach
  initiate_when p d y a c = ground arith
