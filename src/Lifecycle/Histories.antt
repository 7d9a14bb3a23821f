-- ===== src/Lifecycle/Histories.antt =====
-- What the table of app/state_machine.py allows in a row: histories as sequences of allowed
-- transitions, their length, and where they end.
use student_success_intellig.Prelude.{
  nonempty, ℕ, suc, ◌+◌, ◌*◌, ◌≤◌, String, ◌≡◌, ◌↔◌, Bool, true, false, not, ◌&&◌, none, arith,
}
use student_success_intellig.Lifecycle.Machine.{
  State, eligible, queued, contacted, no_response, retry, responded, analyzed,
  intervention_required, resolved, closed, other, transitions, member, can_transition,
  validate_transition, is_terminal,
}

abbrev pub is_known : State → Bool
is_known (other _) = false
is_known _ = true

-- A transition is allowed exactly if validating it raises nothing; every known state can be closed but
-- CLOSED itself; a state is terminal exactly if it is known and nothing leaves it; and no transition
-- leads to ELIGIBLE.
pub transition_laws :
    (s t : State) (trigger : String)
    → ((can_transition s t ≡ true) ↔ (validate_transition s t trigger ≡ none))
      × (can_transition s closed ≡ (is_known s && not (is_terminal s)))
      × (is_terminal s ≡ (is_known s && not (nonempty (transitions s))))
      × (can_transition s eligible ≡ false)
unfolding can_transition validate_transition is_terminal member
transition_laws s t trigger =
    ((λ e. ground (arith, e), λ e. ground (arith, e)), ground arith, ground arith, ground arith)

-- The allowed transitions from one state to another, one after the other.
pub data History : State → State → Type 0 where
  done : (s : State) → History s s
  then_to : (s t : State) {u : State} → can_transition s t ≡ true → History t u → History s u

abbrev pub steps : {s t : State} → History s t → ℕ
steps (done _) = 0
steps (then_to _ _ _ h) = suc (steps h)

-- 1 for a transition from RETRY to CONTACTED
abbrev pub reopens : State → State → ℕ
reopens retry contacted = 1
reopens _ _ = 0

-- how often a history goes from RETRY back to CONTACTED
abbrev pub retries : {s t : State} → History s t → ℕ
retries (done _) = 0
retries (then_to s t _ h) = reopens s t + retries h

-- the longest way to CLOSED without a retry
abbrev pub depth : State → ℕ
depth eligible = 7
depth queued = 6
depth contacted = 5
depth no_response = 4
depth responded = 4
depth retry = 3
depth analyzed = 3
depth intervention_required = 2
depth resolved = 1
depth closed = 0
depth (other _) = 0

depth-step : (s t : State) → can_transition s t ≡ true → 1 + depth t ≤ depth s + 3 * reopens s t
unfolding can_transition member
depth-step s t e = ground arith

-- A history takes at most as many steps as the depth it descends, and three more for each retry: so
-- seven without a retry, and no history goes on for ever without retrying for ever.
pub steps_bound : {s t : State} (h : History s t) → steps h + depth t ≤ depth s + 3 * retries h
steps_bound (done s) = omega arith
steps_bound (then_to s t e h) = omega (arith, depth-step s t e, steps_bound h)
