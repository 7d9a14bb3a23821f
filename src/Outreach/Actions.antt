-- ===== src/Outreach/Actions.antt =====
-- What `execute_manual_action` of app/services/outreach.py does to the store: its failures, its successes,
-- and what a sequence of actions leaves.
use student_success_intellig.Prelude.{
  if◌then◌else◌, ℤ, nonempty, String, ◌≡◌, refl, Bool, true, false, ◌&&◌, Option, none, some, List,
  [], ◌∷◌, ◌++◌, arith,
}
use student_success_intellig.Outreach.Manual.{
  Tracking, Store, ActionResult, ok, target_of, latest, write_state, apply_action, action_on,
  targeted_action, execute_manual_action,
}
use student_success_intellig.Repository.{
  AttributionFields, Transition, PersistenceCode, persistence_gate, append_state_transition,
}
use student_success_intellig.Lifecycle.Machine.{State, can_transition}

abbrev pub is_ok : ActionResult → Bool
is_ok (ok _ _ _ _ _ _) = true
is_ok _ = false

module _ (mode : String) (correlation : String) where
  -- An action that does not succeed leaves the store as it was.
  pub failed_unchanged :
      (store : Store) (user : ℤ) (action : String) (notes : Option String)
      → is_ok (execute_manual_action mode correlation store user action notes).1 ≡ false
      → (execute_manual_action mode correlation store user action notes).0 ≡ store
  unfolding execute_manual_action targeted_action action_on apply_action
  failed_unchanged store user action notes h = ground arith

-- The entries of a log are transitions that the table of the lifecycle allows.
unfoldable pub all_allowed : List Transition → Bool
all_allowed [] = true
all_allowed (e ∷ log) = can_transition e.from_state e.to_state && all_allowed log

pub all_allowed-append :
    (log : List Transition) (e : Transition)
    → all_allowed (log ++ e ∷ []) ≡ (all_allowed log && can_transition e.from_state e.to_state)
unfolding all_allowed
all_allowed-append [] e = ground arith
all_allowed-append (d ∷ log) e = ground (arith, all_allowed-append log e)

-- An action with what the service draws for it.
pub record Action : Type 0 where
  pub mode : String
  pub correlation : String
  pub user_id : ℤ
  pub action_type : String
  pub notes : Option String

abbrev pub perform : Store → Action → Store
perform store a =
    (execute_manual_action a.mode a.correlation store a.user_id a.action_type a.notes).0

unfoldable pub perform_all : Store → List Action → Store
perform_all store [] = store
perform_all store (a ∷ later) = perform_all (perform store a) later

-- What the repository makes of the log: it refuses the entry, or it appends one of the transition.
pub data Logged (log : List Transition) (row : ℤ) (from to : State) : List Transition → Type 0 where
  refused : Logged log row from to log
  appended :
      (e : Transition)
      → e.from_state ≡ from
      → e.to_state ≡ to
      → e.tracking_id ≡ row
      → Logged log row from to (log ++ e ∷ [])

append-Logged :
    (log : List Transition) (row user : ℤ) (from to : State) (trigger : String)
    (by : AttributionFields) (actor : String) (notes : Option String)
    → Logged log row from to (append_state_transition log row user from to trigger by actor notes).0
unfolding append_state_transition
append-Logged log row user from to trigger by actor notes =
    by_gate (nonempty (persistence_gate by none [] false false)) _ _ refused
      (appended _ refl refl refl)
  where
    by_gate :
        (b : Bool) (x y : List Transition × List PersistenceCode)
        → Logged log row from to x.0
        → Logged log row from to y.0
        → Logged log row from to (if b then x else y).0
    by_gate true x y p q = p
    by_gate false x y p q = q

-- What an action does: nothing, or an allowed transition of the user's latest row, with or without its entry.
pub data Effect (user : ℤ) (store : Store) : Store → Type 0 where
  nothing : Effect user store store
  moved :
      (t : Tracking) (target : State) (correlation : String) (log : List Transition)
      → latest user store.rows ≡ some t
      → can_transition t.state target ≡ true
      → Logged store.transitions t.id t.state target log
      → Effect user store
          (record { rows = write_state t.id target correlation store.rows; transitions = log })

Effect-if :
    (user : ℤ) (store : Store) (b : Bool) (x y : Store × ActionResult)
    → (b ≡ true → Effect user store x.0)
    → Effect user store y.0
    → Effect user store (if b then x else y).0
Effect-if user store true x y p q = p refl
Effect-if user store false x y p q = q

pub action-Effect : (store : Store) (a : Action) → Effect a.user_id store (perform store a)
unfolding execute_manual_action targeted_action action_on apply_action
action-Effect store a = by_target (target_of a.action_type)
  where
    by_row :
        (target : State) (found : Option Tracking)
        → latest a.user_id store.rows ≡ found
        → Effect a.user_id store
            (action_on a.mode a.correlation store a.user_id a.action_type a.notes target found).0
    by_row target none e = nothing
    by_row target (some t) e =
        Effect-if a.user_id store (can_transition t.state target) _ _
          (λ h. moved t target a.correlation _ e h (append-Logged _ _ _ _ _ _ _ _ _)) nothing

    by_target :
        (target : Option State)
        → Effect a.user_id store
            (targeted_action a.mode a.correlation store a.user_id a.action_type a.notes target).0
    by_target none = nothing
    by_target (some target) = by_row target (latest a.user_id store.rows) refl
