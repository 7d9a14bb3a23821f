-- ===== src/Eligibility/Simple.antt =====
-- `check_eligibility` of app/services/eligibility.py, for the batch preview. What `str.lower` makes of a text is
-- an argument; an id that is `None` or 0 is missing.
use student_success_intellig.Prelude.{
  if◌then◌else◌, truthy, is_some, ℤ, pos, ltb_ℤ, String, ◌≡◌, Bool, true, false, not, ◌||◌, Option,
  none, some, List, [], ◌∷◌, arith,
}
use student_success_intellig.Prelude.Dict.{contains}

-- The keys of the student's dict that the check reads.
pub record StudentRow : Type 0 where
  pub user_id : Option ℤ
  pub path_name : Option String
  pub active_status : Option String

pub data SkipReason : Type 0 where
  no_user_id no_path_name inactive_status : SkipReason

-- `_SimpleEligibility`
pub record SimpleEligibility : Type 0 where
  pub eligible : Bool
  pub skip_reason : Option SkipReason

-- `bool(user_id)`
abbrev pub has_id : Option ℤ → Bool
has_id none = false
has_id (some n) = ltb_ℤ (pos 0) n || ltb_ℤ n (pos 0)

-- `value or ""`
abbrev pub or_blank : Option String → String
or_blank none = ""
or_blank (some text) = text

abbrev pub inactive : List String
inactive = "inactive" ∷ "withdrawn" ∷ "dropped" ∷ "0" ∷ []

module _ (lower : String → String) where
  unfoldable pub check_eligibility : StudentRow → SimpleEligibility
  check_eligibility student =
      if not (has_id student.user_id)
      then record { eligible = false; skip_reason = some no_user_id }
      else if not (truthy student.path_name)
      then record { eligible = false; skip_reason = some no_path_name }
      else if contains (lower (or_blank student.active_status)) inactive
      then record { eligible = false; skip_reason = some inactive_status }
      else record { eligible = true; skip_reason = none }

  -- A student is eligible exactly if no reason to skip is given.
  pub eligible_unless_skipped :
      (student : StudentRow)
      → let result = check_eligibility student in result.eligible ≡ not (is_some result.skip_reason)
  unfolding check_eligibility
  eligible_unless_skipped student = ground arith
