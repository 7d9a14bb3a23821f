-- ===== src/Outreach/Manual.antt =====
-- `execute_manual_action` and `_log_transition` of app/services/outreach.py over the store of tracking
-- rows and transitions. The execution mode, a text of the settings, and the correlation id are arguments;
-- the rows are passed in the order of their last update, latest first.
use student_success_intellig.Prelude.{
  if◌then◌else◌, truthy, ℤ, leb_ℤ, String, Bool, false, ◌&&◌, Option, none, some, List, [], ◌∷◌,
  str_eq,
}
use student_success_intellig.Repository.{AttributionFields, Transition, append_state_transition}
use student_success_intellig.Lifecycle.Machine.{
  State, retry, intervention_required, resolved, closed, can_transition,
}

-- A row of the tracking table, as far as the action reads or writes it.
pub record Tracking : Type 0 where
  pub id : ℤ
  pub user_id : ℤ
  pub state : State
  pub correlation_id : Option String

pub record Store : Type 0 where
  pub rows : List Tracking
  pub transitions : List Transition

pub data ActionResult : Type 0 where
  invalid_action : String → ActionResult
  not_found : ℤ → ActionResult
  invalid_transition : State → State → ActionResult
  ok : ℤ → String → State → State → ℤ → String → ActionResult

-- `_ACTION_TYPE_TO_STATE.get(action_type)`
unfoldable pub target_of : String → Option State
target_of action =
    if str_eq action "CLOSE_CASE"
    then some closed
    else if str_eq action "FORCE_RETRY"
    then some retry
    else if str_eq action "ESCALATE"
    then some intervention_required
    else if str_eq action "BOOK_MEETING"
    then some resolved
    else none

abbrev pub same_id : ℤ → ℤ → Bool
same_id a b = leb_ℤ a b && leb_ℤ b a

-- the row of the user that was updated last
unfoldable pub latest : ℤ → List Tracking → Option Tracking
latest user [] = none
latest user (t ∷ rows) = if same_id t.user_id user then some t else latest user rows

-- the rows with the state and the correlation id of one of them written
unfoldable pub write_state : ℤ → State → String → List Tracking → List Tracking
write_state id target correlation [] = []
write_state id target correlation (t ∷ rows) =
    (if same_id t.id id then record t { state = target; correlation_id = some correlation } else t)
    ∷ write_state id target correlation rows

-- `"REPLAY_ONLY" if mode == "REPLAY" else "SHADOW_ONLY"`
abbrev pub scope_text : String → String
scope_text mode = if str_eq mode "REPLAY" then "REPLAY_ONLY" else "SHADOW_ONLY"

-- `meta={"notes": notes} if notes else None`
abbrev pub noted : Option String → Option String
noted notes = if truthy notes then notes else none

-- the attribution of an entry; both callers write an original execution
abbrev pub attributed : String → String → String → String → AttributionFields
attributed mode correlation source authority = record {
  correlation_id = correlation;
  execution_mode = mode;
  execution_type = "original";
  governance_scope = scope_text mode;
  origin_source = source;
  origin_authority = authority;
  is_replay = false;
}

module _ (mode : String) (correlation : String) where
  -- the write of an action that is allowed, and the entry that it asks the repository for; the repository may
  -- refuse the entry, which the action does not look at
  unfoldable pub apply_action :
      Store → ℤ → String → Option String → State → Tracking → Store × ActionResult
  apply_action store user action notes target t =
      let by = attributed mode correlation "operator_manual_action" "operator" in
      let (log, _) =
        append_state_transition store.transitions t.id user t.state target action by "operator"
          (noted notes) in
      (
        record { rows = write_state t.id target correlation store.rows; transitions = log },
        ok user action t.state target t.id correlation,
      )

  unfoldable pub action_on :
      Store → ℤ → String → Option String → State → Option Tracking → Store × ActionResult
  action_on store user action notes target none = (store, not_found user)
  action_on store user action notes target (some t) =
      if can_transition t.state target
      then apply_action store user action notes target t
      else (store, invalid_transition t.state target)

  unfoldable pub targeted_action :
      Store → ℤ → String → Option String → Option State → Store × ActionResult
  targeted_action store user action notes none = (store, invalid_action action)
  targeted_action store user action notes (some target) =
      action_on store user action notes target (latest user store.rows)

  -- `execute_manual_action`
  unfoldable pub execute_manual_action : Store → ℤ → String → Option String → Store × ActionResult
  execute_manual_action store user action notes =
      targeted_action store user action notes (target_of action)

  -- `_log_transition`, which the webhook's handler calls
  unfoldable pub log_transition : Store → ℤ → ℤ → State → State → String → String → Store
  log_transition store row user from to event who =
      let by = attributed mode correlation "webhook_handler" "ghl_webhook" in
      let (log, _) = append_state_transition store.transitions row user from to event by who none in
      record store { transitions = log }
