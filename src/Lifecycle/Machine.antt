-- ===== src/Lifecycle/Machine.antt =====
-- The transition table of app/state_machine.py and its three tests. The message of the exception is
-- kept as its parts.
use student_success_intellig.Prelude.{
  if◌then◌else◌, String, Bool, true, false, ◌||◌, Option, none, some, List, [], ◌∷◌, str_eq,
}

pub data State : Type 0 where
  eligible queued contacted no_response retry responded analyzed intervention_required : State
  resolved closed : State
  other : String → State

-- `TRANSITIONS.get(from_state, set())`
abbrev pub transitions : State → List State
transitions eligible = queued ∷ closed ∷ []
transitions queued = contacted ∷ closed ∷ []
transitions contacted = no_response ∷ responded ∷ closed ∷ intervention_required ∷ []
transitions no_response = retry ∷ closed ∷ intervention_required ∷ []
transitions retry = contacted ∷ closed ∷ intervention_required ∷ []
transitions responded = analyzed ∷ resolved ∷ closed ∷ intervention_required ∷ []
transitions analyzed = intervention_required ∷ resolved ∷ closed ∷ []
transitions intervention_required = resolved ∷ closed ∷ []
transitions resolved = closed ∷ []
transitions closed = []
transitions (other _) = []

abbrev pub same_state : State → State → Bool
same_state eligible eligible = true
same_state queued queued = true
same_state contacted contacted = true
same_state no_response no_response = true
same_state retry retry = true
same_state responded responded = true
same_state analyzed analyzed = true
same_state intervention_required intervention_required = true
same_state resolved resolved = true
same_state closed closed = true
same_state (other a) (other b) = str_eq a b
same_state _ _ = false

-- `to_state in allowed`
unfoldable pub member : State → List State → Bool
member s [] = false
member s (t ∷ ts) = same_state t s || member s ts

unfoldable pub can_transition : State → State → Bool
can_transition from_state to_state = member to_state (transitions from_state)

-- `StateViolationError`: the transition, the trigger and the states allowed
pub record StateViolation : Type 0 where
  pub from_state : State
  pub to_state : State
  pub trigger : String
  pub allowed : List State

-- `validate_transition`: the error that it raises, if any
unfoldable pub validate_transition : State → State → String → Option StateViolation
validate_transition from to trigger =
    if member to (transitions from)
    then none
    else some
        (record { from_state = from; to_state = to; trigger = trigger; allowed = transitions from })

-- `state in TERMINAL`
unfoldable pub is_terminal : State → Bool
is_terminal s = member s (closed ∷ [])
