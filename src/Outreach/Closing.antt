-- ===== src/Outreach/Closing.antt =====
-- Closing a case with `execute_manual_action` of app/services/outreach.py, and what becomes of its entry in the
-- log, which `append_state_transition` of app/repositories/repository.py writes.
use student_success_intellig.Prelude.{
  if◌then◌else◌, Bool-cases, nonempty, when, ℤ, String, ◌≡◌, refl, ap, subst, ◌∙◌, inl, inr, Bool,
  true, false, not, ◌&&◌, ◌||◌, Option, none, some, List, [], ◌∷◌, ◌++◌, str_eq, eq_iff, arith,
}
use student_success_intellig.Prelude.Dict.{contains}
use student_success_intellig.Repository.{
  Transition, valid_modes, valid_types, is_blank, check_attribution_fields,
  check_attribution_complete, check_idempotency, persistence_gate, append_state_transition,
}
use student_success_intellig.Lifecycle.Machine.{State, closed, can_transition, is_terminal}
use student_success_intellig.Outreach.Manual.{
  Tracking, Store, noted, attributed, target_of, same_id, scope_text, latest, write_state,
  apply_action, action_on, targeted_action, execute_manual_action,
}
use student_success_intellig.Outreach.Actions.{is_ok}
use student_success_intellig.Outreach.Lifelines.{same_id_refl}
use student_success_intellig.Governance.{SettingsMode, shadow_setting, live_setting, str_of_mode}
use student_success_intellig.Lifecycle.Histories.{is_known, transition_laws}

-- the row as an action leaves it
abbrev pub written : State → String → Tracking → Tracking
written target c t = record t { state = target; correlation_id = some c }

latest-write :
    (user : ℤ) (t : Tracking) (target : State) (c : String) (rows : List Tracking)
    → latest user rows ≡ some t
    → latest user (write_state t.id target c rows) ≡ some (written target c t)
unfolding latest write_state
latest-write user t target c [] e = ground (arith, e)
latest-write user t target c (r ∷ rows) e = elim (Bool-cases (same_id r.user_id user)) [
  | inl g ↦ here g (first_of (same_id r.user_id user) g e)
  | inr g ↦ later g (latest-write user t target c rows (rest_of (same_id r.user_id user) g e))
]
  where
    first_of : (b : Bool) → b ≡ true → (if b then some r else latest user rows) ≡ some t → r ≡ t
    first_of true g e = ap (λ o. elim o [ some x ↦ x | none ↦ t ]) e
    first_of false g e = ground (arith, g)

    rest_of :
        (b : Bool)
        → b ≡ false
        → (if b then some r else latest user rows) ≡ some t
        → latest user rows ≡ some t
    rest_of true g e = ground (arith, g)
    rest_of false g e = e

    here :
        same_id r.user_id user ≡ true
        → r ≡ t
        → latest user (write_state t.id target c (r ∷ rows)) ≡ some (written target c t)
    here g p =
        subst (λ x. latest user (write_state x.id target c (r ∷ rows)) ≡ some (written target c x))
          p (rw (same_id_refl r.id, g) refl)

    later :
        same_id r.user_id user ≡ false
        → latest user (write_state t.id target c rows) ≡ some (written target c t)
        → latest user (write_state t.id target c (r ∷ rows)) ≡ some (written target c t)
    later g k = elim (Bool-cases (same_id r.id t.id)) [ inl h ↦ rw (h, g) k | inr h ↦ rw (h, g) k ]

-- the modes that the repository accepts
abbrev pub is_accepted : String → Bool
is_accepted mode =
    str_eq "LIVE" mode
    || (str_eq "SHADOW" mode
        || (str_eq "REPLAY" mode
            || (str_eq "REGENERATION" mode
                || (str_eq "DEGRADED" mode || str_eq "MAINTENANCE" mode))))

-- a log with the entry, where the repository accepts the mode and the correlation id
abbrev pub logged : String → String → List Transition → Transition → List Transition
logged mode correlation log entry =
    if is_accepted mode && not (str_eq correlation "") then log ++ entry ∷ [] else log

-- the entry for a case that an operator closes
abbrev pub closing_entry : String → String → ℤ → Option String → Tracking → Transition
closing_entry mode correlation user notes t = record {
  tracking_id = t.id;
  user_id = user;
  from_state = t.state;
  to_state = closed;
  trigger = "CLOSE_CASE";
  attribution = attributed mode correlation "operator_manual_action" "operator";
  actor = "operator";
  notes = noted notes;
  attribution_complete = true;
}

contains-valid_modes : (mode : String) → contains mode valid_modes ≡ is_accepted mode
unfolding contains
contains-valid_modes mode = ground arith

contains-valid_types : contains "original" valid_types ≡ true
unfolding contains
contains-valid_types = refl

scope_text_nonblank : (mode : String) → is_blank (scope_text mode) ≡ false
scope_text_nonblank mode = elim (Bool-cases (str_eq mode "REPLAY")) [
  | inl r ↦ rw r refl
  | inr r ↦ rw r refl
]

nonempty-codes {ℓ} :
    {A : Type ℓ} (c a : Bool) (x y : A)
    → nonempty (when c x ++ when (not a) y ++ [] ++ [] ++ [] ++ [] ++ []) ≡ not (a && not c)
nonempty-codes true true x y = refl
nonempty-codes true false x y = refl
nonempty-codes false true x y = refl
nonempty-codes false false x y = refl

-- the codes for an attribution of a manual action
gate_lem :
    (mode correlation : String)
    → let by = attributed mode correlation "operator_manual_action" "operator" in
      (nonempty (persistence_gate by none [] false false)
        ≡ not (is_accepted mode && not (str_eq correlation "")))
      × (check_attribution_complete by ≡ (not (str_eq correlation "") && not (str_eq mode "")))
unfolding persistence_gate check_attribution_fields check_attribution_complete check_idempotency
gate_lem mode correlation = elim (Bool-cases (str_eq mode "")) [
  | inl b ↦
      rw ((eq_iff mode "").0 b)
        (elim (Bool-cases (str_eq correlation "")) [ inl c ↦ rw c refl | inr c ↦ rw c refl ], refl)
  | inr b ↦
      rw (b, contains-valid_modes mode, contains-valid_types, scope_text_nonblank mode)
        (nonempty-codes (str_eq correlation "") (is_accepted mode) _ _, ground arith)
]

accepted_nonblank :
    (mode correlation : String)
    → (is_accepted mode && not (str_eq correlation "")) ≡ true
    → (not (str_eq correlation "") && not (str_eq mode "")) ≡ true
accepted_nonblank mode correlation e = elim (Bool-cases (str_eq mode "")) [
  | inl b ↦
      impossible (subst (λ m. is_accepted m ≡ true) ((eq_iff mode "").0 b) (ground (arith, e)))
  | inr b ↦ ground (arith, e, b)
]
  where
    impossible : false ≡ true → (not (str_eq correlation "") && not (str_eq mode "")) ≡ true
    impossible f = cc

append_logged :
    (mode correlation : String) (user : ℤ) (notes : Option String) (t : Tracking)
    (log : List Transition)
    → (append_state_transition log t.id user t.state closed "CLOSE_CASE"
        (attributed mode correlation "operator_manual_action" "operator")
        "operator"
        (noted notes)).0
      ≡ logged mode correlation log (closing_entry mode correlation user notes t)
unfolding append_state_transition
append_logged mode correlation user notes t log =
    let (refusal, complete) = gate_lem mode correlation in
    elim (Bool-cases (is_accepted mode && not (str_eq correlation ""))) [
      | inl e ↦ rw (refusal, e, complete, accepted_nonblank mode correlation e) refl
      | inr e ↦ rw (refusal, e) refl
    ]

-- CLOSE_CASE for a user whose latest row is in a known state other than CLOSED succeeds; this row is the
-- user's latest afterwards, closed and with the correlation id of the action; and the log of transitions has
-- the entry exactly if the text of the mode is one that the repository accepts and the id is not empty.
pub close_case_succeeds :
    (mode correlation : String) (store : Store) (user : ℤ) (notes : Option String) (t : Tracking)
    → latest user store.rows ≡ some t
    → (is_known t.state && not (is_terminal t.state)) ≡ true
    → let (after, result) = execute_manual_action mode correlation store user "CLOSE_CASE" notes in
      (is_ok result ≡ true)
      × (latest user after.rows ≡ some (written closed correlation t))
      × (after.transitions
          ≡ logged mode correlation store.transitions (closing_entry mode correlation user notes t))
unfolding execute_manual_action targeted_action action_on apply_action target_of
close_case_succeeds mode correlation store user notes t e k =
    let a : can_transition t.state closed ≡ true = (transition_laws t.state t.state "").1 ∙ k in
    rw (e, a)
      (
        refl,
        latest-write user t closed correlation store.rows e,
        append_logged mode correlation user notes t store.transitions,
      )

-- With the text that the service makes of its settings, SHADOW or LIVE, the repository refuses every entry.
pub logged-settings :
    (setting : SettingsMode) (correlation : String) (log : List Transition) (entry : Transition)
    → logged (str_of_mode setting) correlation log entry ≡ log
unfolding str_of_mode
logged-settings shadow_setting correlation log entry = refl
logged-settings live_setting correlation log entry = refl
