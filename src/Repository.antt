-- ===== src/Repository.antt =====
-- `append_state_transition` of app/repositories/repository.py and the gate of
-- app/repositories/_repository_helpers.py, over the log of state transitions. The persistence records that the
-- repository writes to its own log, ids and times are left out.
use student_success_intellig.Prelude.{
  if◌then◌else◌, ℤ, nonempty, when, String, Bool, false, not, ◌&&◌, ◌||◌, Option, none, some, List,
  [], ◌∷◌, ◌++◌, str_eq,
}
use student_success_intellig.Prelude.Dict.{contains}
use student_success_intellig.Lifecycle.Machine.{State}

-- The attribution that a service gives for a row, as far as the two callers fill it in.
pub record AttributionFields : Type 0 where
  pub correlation_id : String
  pub execution_mode : String
  pub execution_type : String
  pub governance_scope : String
  pub origin_source : String
  pub origin_authority : String
  pub is_replay : Bool

-- An entry of the state transition log, which is only appended to.
pub record Transition : Type 0 where
  pub tracking_id : ℤ
  pub user_id : ℤ
  pub from_state : State
  pub to_state : State
  pub trigger : String
  pub attribution : AttributionFields
  pub actor : String
  pub notes : Option String
  pub attribution_complete : Bool

pub data PersistenceCode : Type 0 where
  correlation_id_missing execution_mode_missing invalid_execution_mode : PersistenceCode
  execution_type_missing invalid_execution_type governance_scope_missing : PersistenceCode
  finalized_mutation_blocked replay_live_overwrite_blocked idempotency_duplicate : PersistenceCode

-- `_VALID_EXECUTION_MODES`, `_VALID_EXECUTION_TYPES` and `_REPLAY_EXECUTION_TYPES`
abbrev pub valid_modes : List String
valid_modes = "LIVE" ∷ "SHADOW" ∷ "REPLAY" ∷ "REGENERATION" ∷ "DEGRADED" ∷ "MAINTENANCE" ∷ []

abbrev pub valid_types : List String
valid_types = "original" ∷ "replay" ∷ "regeneration" ∷ "recovery" ∷ []

abbrev pub replay_types : List String
replay_types = "replay" ∷ "regeneration" ∷ []

abbrev pub is_blank : String → Bool
is_blank text = str_eq text ""

-- one code for a missing value, another for a value that is not among the valid ones
abbrev pub checked : String → List String → PersistenceCode → PersistenceCode → List PersistenceCode
checked value valid missing invalid =
    if is_blank value then missing ∷ [] else when (not (contains value valid)) invalid

unfoldable pub check_attribution_fields : AttributionFields → List PersistenceCode
check_attribution_fields a =
    when (is_blank a.correlation_id) correlation_id_missing
    ++ checked a.execution_mode valid_modes execution_mode_missing invalid_execution_mode
    ++ checked a.execution_type valid_types execution_type_missing invalid_execution_type
    ++ when (is_blank a.governance_scope) governance_scope_missing

unfoldable pub check_attribution_complete : AttributionFields → Bool
check_attribution_complete a =
    not (is_blank a.correlation_id)
    && (not (is_blank a.execution_mode)
        && (not (is_blank a.execution_type) && not (is_blank a.governance_scope)))

abbrev pub check_finalized_protection : Bool → List PersistenceCode
check_finalized_protection is_finalized = when is_finalized finalized_mutation_blocked

abbrev pub check_replay_live_overwrite : Bool → Bool → List PersistenceCode
check_replay_live_overwrite is_replay target_is_live =
    when (is_replay && target_is_live) replay_live_overwrite_blocked

unfoldable pub check_idempotency : Option String → List String → String → List PersistenceCode
check_idempotency none keys type = []
check_idempotency (some key) keys type =
    if is_blank key || contains type replay_types
    then []
    else when (contains key keys) idempotency_duplicate

-- `_governance_persistence_gate`
unfoldable pub persistence_gate :
    AttributionFields → Option String → List String → Bool → Bool → List PersistenceCode
persistence_gate a key keys is_finalized target_is_live =
    check_attribution_fields a
    ++ check_finalized_protection is_finalized
    ++ check_replay_live_overwrite a.is_replay target_is_live
    ++ check_idempotency key keys a.execution_type

-- `append_state_transition`: the log afterwards, and the codes that block the entry
unfoldable pub append_state_transition :
    List Transition
    → ℤ
    → ℤ
    → State
    → State
    → String
    → AttributionFields
    → String
    → Option String
    → List Transition × List PersistenceCode
append_state_transition log tracking user from to trigger attribution actor notes =
    let codes = persistence_gate attribution none [] false false in
    let entry : Transition = record {
      tracking_id = tracking;
      user_id = user;
      from_state = from;
      to_state = to;
      trigger = trigger;
      attribution = attribution;
      actor = actor;
      notes = notes;
      attribution_complete = check_attribution_complete attribution;
    } in
    if nonempty codes then (log, codes) else (log ++ entry ∷ [], [])
