-- ===== src/Decision/Preview.antt =====
-- `decide` of app/services/decision_engine.py: the decision string of the batch preview.
use student_success_intellig.Prelude.{if◌then◌else◌, Bool, not, Option, none, some}
use student_success_intellig.Governance.{
  OutreachState, closed, resolved, eligible, queued, contacted, no_response, retry,
  intervention_required,
}

-- The decision strings of `decide`.
pub data Preview : Type 0 where
  trigger_outreach retry_outreach escalate close no_action : Preview

-- the tests of `decide` on `tracking["state"]`; `none` is a missing state, read as ""
unfoldable pub decide_state : Option OutreachState → Preview
decide_state (some closed) = close
decide_state (some resolved) = close
decide_state (some intervention_required) = escalate
decide_state (some no_response) = retry_outreach
decide_state (some retry) = retry_outreach
decide_state (some eligible) = trigger_outreach
decide_state (some queued) = trigger_outreach
decide_state (some contacted) = trigger_outreach
decide_state _ = no_action

-- `decide`: `tracking` is `None`, or a dict with or without a state
unfoldable pub decide : Option (Option OutreachState) → Bool → Preview
unfolding decide_state
decide tracking is_eligible =
    if not is_eligible
    then no_action
    else elim tracking [ none ↦ trigger_outreach | some state ↦ decide_state state ]
