-- ===== src/Lifecycle/Tests.antt =====
-- A history of app/state_machine.py with one retry, and the theorems at concrete states.
use student_success_intellig.Prelude.{
  nonempty, ◌+◌, ◌*◌, ◌≤◌, ◌≡◌, refl, ◌↔◌, true, false, not, ◌&&◌, none,
}
use student_success_intellig.Lifecycle.Machine.{
  eligible, contacted, no_response, retry, resolved, closed, transitions, member, can_transition,
  validate_transition, is_terminal,
}
use student_success_intellig.Lifecycle.Histories.{
  is_known, transition_laws, History, done, then_to, steps_bound,
}

abbrev retried : History contacted closed
retried = then_to contacted no_response (unfold can_transition member in refl) (
    then_to no_response retry (unfold can_transition member in refl) (
      then_to retry contacted (unfold can_transition member in refl)
        (then_to contacted closed (unfold can_transition member in refl) (done closed))))

transition_laws_example :
    ((can_transition resolved retry ≡ true) ↔ (validate_transition resolved retry "op" ≡ none))
    × (can_transition resolved closed ≡ (is_known resolved && not (is_terminal resolved)))
    × (is_terminal resolved ≡ (is_known resolved && not (nonempty (transitions resolved))))
    × (can_transition resolved eligible ≡ false)
transition_laws_example = transition_laws resolved retry "op"

steps_bound_example : 4 + 0 ≤ 5 + 3 * 1
steps_bound_example = steps_bound retried
