-- ===== src/Preview/Batch.antt =====
-- `batch_preview` of app/routers/batch.py, over the rows of the two tables that it reads. The display name of a
-- student and the settings that the response repeats are left out.
use student_success_intellig.Prelude.{
  leb, if◌then◌else◌, ℤ, leb_ℤ, ℕ, suc, String, Bool, false, ◌&&◌, Option, none, some, List, [],
  ◌∷◌, ◌++◌, str_eq,
}
use student_success_intellig.Governance.{OutreachState, TextDict}
use student_success_intellig.Decision.Preview.{
  Preview, trigger_outreach, retry_outreach, escalate, close, no_action, decide,
}
use student_success_intellig.Eligibility.Simple.{StudentRow, SkipReason, check_eligibility}
use student_success_intellig.Priority.Types.{Priority}
use student_success_intellig.Priority.Display.{Student, Action, Reason, score_student}

-- a row of `StudentTriggerData`: what the check reads of it, and what the score reads
pub record Candidate : Type 0 where
  pub profile : StudentRow
  pub academic : Student

-- a row of `StudentOutreachTracking`
pub record Tracking : Type 0 where
  pub user_id : ℤ
  pub checkpoint_type : String
  pub state : String
  pub current_attempt : ℕ

pub record PreviewRow : Type 0 where
  pub user_id : Option ℤ
  pub decision : Preview
  pub priority_level : Priority
  pub priority_score : ℕ
  pub recommended_action : Action
  pub reason_codes : List Reason
  pub is_eligible : Bool
  pub skip_reason : Option SkipReason
  pub current_state : Option String
  pub current_attempt : ℕ

-- the dict `decisions`
pub record Decisions : Type 0 where
  pub trigger : ℕ
  pub retry : ℕ
  pub escalation : ℕ
  pub closing : ℕ
  pub inaction : ℕ

-- the variables of the loop
pub record Progress : Type 0 where
  pub decisions : Decisions
  pub rows : List PreviewRow
  pub processed : ℕ

abbrev pub no_progress : Progress
no_progress = record {
  decisions = record { trigger = 0; retry = 0; escalation = 0; closing = 0; inaction = 0 };
  rows = [];
  processed = 0;
}

-- the states that `decide` compares with
unfoldable pub state_named : String → OutreachState
state_named text =
    if str_eq text "CLOSED"
    then OutreachState.closed
    else if str_eq text "RESOLVED"
    then OutreachState.resolved
    else if str_eq text "INTERVENTION_REQUIRED"
    then OutreachState.intervention_required
    else if str_eq text "NO_RESPONSE"
    then OutreachState.no_response
    else if str_eq text "RETRY"
    then OutreachState.retry
    else if str_eq text "ELIGIBLE"
    then OutreachState.eligible
    else if str_eq text "QUEUED"
    then OutreachState.queued
    else if str_eq text "CONTACTED"
    then OutreachState.contacted
    else OutreachState.other text

abbrev pub is_id : Option ℤ → ℤ → Bool
is_id none m = false
is_id (some n) m = leb_ℤ n m && leb_ℤ m n

-- the query of the tracking row; the table has one at most for a user and a checkpoint
unfoldable pub find_tracking : Option ℤ → String → List Tracking → Option Tracking
find_tracking user checkpoint [] = none
find_tracking user checkpoint (t ∷ table) =
    if is_id user t.user_id && str_eq t.checkpoint_type checkpoint
    then some t
    else find_tracking user checkpoint table

abbrev pub state_of : Option Tracking → Option String
state_of none = none
state_of (some t) = some t.state

abbrev pub attempt_of : Option Tracking → ℕ
attempt_of none = 0
attempt_of (some t) = t.current_attempt

-- the dict `tracking`, as `decide` and as `score_student` read it
abbrev pub known_state : Option Tracking → Option (Option OutreachState)
known_state none = none
known_state (some t) = some (some (state_named t.state))

abbrev pub tracking_dict : Option Tracking → Option TextDict
tracking_dict none = none
tracking_dict (some t) = some (("state", some t.state) ∷ [])

-- `decisions[decision] = decisions.get(decision, 0) + 1`
unfoldable pub bump : Preview → Decisions → Decisions
bump trigger_outreach d = record d { trigger = suc d.trigger }
bump retry_outreach d = record d { retry = suc d.retry }
bump escalate d = record d { escalation = suc d.escalation }
bump close d = record d { closing = suc d.closing }
bump no_action d = record d { inaction = suc d.inaction }

-- `rows.sort(key=score, reverse=True)`, which keeps the order of equal scores
unfoldable pub insert_row : PreviewRow → List PreviewRow → List PreviewRow
insert_row r [] = r ∷ []
insert_row r (x ∷ xs) =
    let rest = insert_row r xs in
    if leb x.priority_score r.priority_score then r ∷ x ∷ xs else x ∷ rest

unfoldable pub sort_rows : List PreviewRow → List PreviewRow
sort_rows [] = []
sort_rows (r ∷ rs) = insert_row r (sort_rows rs)

-- `StudentTriggerData.PathName == checkpoint_type`
abbrev pub is_on_path : String → Option String → Bool
is_on_path checkpoint none = false
is_on_path checkpoint (some path) = str_eq path checkpoint

unfoldable pub select_candidates : String → List Candidate → List Candidate
select_candidates checkpoint [] = []
select_candidates checkpoint (c ∷ cs) =
    let rest = select_candidates checkpoint cs in
    if is_on_path checkpoint c.profile.path_name then c ∷ rest else rest

unfoldable pub visit : Progress → PreviewRow → Progress
visit p row = record {
  decisions = bump row.decision p.decisions;
  rows = p.rows ++ row ∷ [];
  processed = suc p.processed;
}

module _ (lower : String → String) where
  -- the row of a student
  unfoldable pub preview_row : Option Tracking → Candidate → PreviewRow
  preview_row tracking c =
      let eligibility = check_eligibility lower c.profile in
      let priority = score_student c.academic (tracking_dict tracking) in
      record {
        user_id = c.profile.user_id;
        decision = decide (known_state tracking) eligibility.eligible;
        priority_level = priority.level;
        priority_score = priority.score;
        recommended_action = priority.recommended_action;
        reason_codes = priority.reason_codes;
        is_eligible = eligibility.eligible;
        skip_reason = eligibility.skip_reason;
        current_state = state_of tracking;
        current_attempt = attempt_of tracking;
      }

  -- the loop over the students, up to the limit
  unfoldable pub preview_students :
      ℕ → String → List Tracking → Progress → List Candidate → Progress
  preview_students limit checkpoint table p [] = p
  preview_students limit checkpoint table p (c ∷ cs) =
      let row = preview_row (find_tracking c.profile.user_id checkpoint table) c in
      let rest = preview_students limit checkpoint table (visit p row) cs in
      if leb limit p.processed then p else rest

  unfoldable pub batch_preview : ℕ → String → List Tracking → List Candidate → Progress
  batch_preview limit checkpoint table students =
      let chosen = select_candidates checkpoint students in
      let p = preview_students limit checkpoint table no_progress chosen in
      record p { rows = sort_rows p.rows }
