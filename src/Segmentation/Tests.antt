-- ===== src/Segmentation/Tests.antt =====
-- Runs of app/services/segmentation.py on two students, and the theorems at them.
use student_success_intellig.Prelude.{
  ℤ, whole, String, ◌≡◌, refl, Bool, Option, none, some, List, [], ◌∷◌, str_eq,
}
use student_success_intellig.Segmentation.Classify.{
  newcomers, hyper_active, cap_hopefuls, placement_hopefuls, Student, section_of, is_newcomer,
  classify_student, count_of, segment_summary,
}
use student_success_intellig.Segmentation.Counting.{members, segment_summary-members}

abbrev days_since : String → Option ℤ
days_since start = some (whole 30)

abbrev is_part_of : String → String → Bool
is_part_of part text = str_eq part text

abbrev fresh : Student
fresh = record {
  ipbc_start_date = some "2026-01-05";
  student_start_date = none;
  past_10_days_logon = some (whole 8);
  avg_eff_rating = some (whole 95);
  attendance_percentage = some (whole 80);
  last_activity_section = none;
  current_section = some "Launch";
  path_name = none;
}

abbrev absent : Student
absent = record fresh {
  ipbc_start_date = none;
  attendance_percentage = some (whole 20);
  current_section = none;
}

abbrev both : List Student
both = fresh ∷ absent ∷ []

fresh_segments :
    classify_student days_since is_part_of fresh
    ≡ newcomers ∷ hyper_active ∷ cap_hopefuls ∷ placement_hopefuls ∷ []
unfolding classify_student is_newcomer section_of
fresh_segments = refl

segment_summary-members_example :
    count_of cap_hopefuls (segment_summary days_since is_part_of both)
    ≡ members days_since is_part_of cap_hopefuls both
segment_summary-members_example = segment_summary-members days_since is_part_of cap_hopefuls both
