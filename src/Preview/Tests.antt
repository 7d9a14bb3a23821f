-- ===== src/Preview/Tests.antt =====
-- A preview of three students of two checkpoints.
use student_success_intellig.Prelude.{ℤ, pos, whole, String, ◌≡◌, some, none, List, [], ◌∷◌, length}
use student_success_intellig.Preview.Batch.{
  Candidate, Tracking, Progress, batch_preview, select_candidates,
}
use student_success_intellig.Preview.Ranking.{IsRanked}
use student_success_intellig.Preview.Accounts.{IsBalanced, smaller, batch_preview-IsBalanced}

abbrev student_of : ℤ → String → ℤ → Candidate
student_of id path behind = record {
  profile = record { user_id = some id; path_name = some path; active_status = none };
  academic = record {
    hws_behind = some behind;
    last_activity_days = some (whole 2);
    avg_eff_rating = none;
    payment_balance = none;
  };
}

abbrev students : List Candidate
students =
    student_of (pos 1) "Checkpoint 2" (whole 0)
    ∷ student_of (pos 2) "Checkpoint 2" (whole 4)
    ∷ student_of (pos 3) "Checkpoint 3" (whole 4)
    ∷ []

abbrev table : List Tracking
table =
    record {
      user_id = pos 2;
      checkpoint_type = "Checkpoint 2";
      state = "NO_RESPONSE";
      current_attempt = 2;
    }
    ∷ []

abbrev as_is : String → String
as_is text = text

abbrev previewed : Progress
previewed = batch_preview as_is 50 "Checkpoint 2" table students

batch_preview-IsBalanced_example :
    IsBalanced previewed
    × ((previewed.processed ≡ smaller 50 (length (select_candidates "Checkpoint 2" students)))
        × IsRanked previewed.rows)
batch_preview-IsBalanced_example = batch_preview-IsBalanced as_is 50 "Checkpoint 2" table students
