-- ===== src/Segmentation/Classify.antt =====
-- `classify_student`, `segment_summary` and `filter_by_role` of app/services/segmentation.py. The days
-- since a start date, `none` for a text that is no date, and the test whether a text is part of
-- another are arguments. A start date is a text.
use student_success_intellig.Prelude.{
  if◌then◌else◌, truthy, ℤ, pos, ltb_ℤ, leb_ℤ, whole, when, ℕ, ◌+◌, String, Bool, false, ◌&&◌, ◌||◌,
  Option, none, some, List, [], ◌∷◌, ◌++◌,
}

pub data Segment : Type 0 where
  newcomers hyper_active cap_hopefuls launch_hopefuls placement_hopefuls : Segment

-- The keys of the student's dict that the service reads.
pub record Student : Type 0 where
  pub ipbc_start_date : Option String
  pub student_start_date : Option String
  pub past_10_days_logon : Option ℤ
  pub avg_eff_rating : Option ℤ
  pub attendance_percentage : Option ℤ
  pub last_activity_section : Option String
  pub current_section : Option String
  pub path_name : Option String

-- `a or b`
abbrev pub first_truthy : Option String → Option String → Option String
first_truthy a b = if truthy a then a else b

-- `str(a or "")`
abbrev pub text_of : Option String → String
text_of none = ""
text_of (some s) = s

-- `float(v or 0)`
abbrev pub or_zero : Option ℤ → ℤ
or_zero none = pos 0
or_zero (some v) = v

-- `_section`
unfoldable pub section_of : Student → String
section_of s =
    text_of (first_truthy s.last_activity_section (first_truthy s.current_section s.path_name))

-- `(now - start).days <= 90`
abbrev pub is_recent : Option ℤ → Bool
is_recent none = false
is_recent (some days) = leb_ℤ days (whole 90)

-- the test of a start date: a text that is no date counts as none
unfoldable pub is_newcomer : (String → Option ℤ) → Option String → Bool
is_newcomer days_since none = false
is_newcomer days_since (some start) = is_recent (days_since start)

module _ (days_since : String → Option ℤ) (is_part_of : String → String → Bool) where
  unfoldable pub classify_student : Student → List Segment
  classify_student s =
      let attendance = or_zero s.attendance_percentage in
      when (is_newcomer days_since (first_truthy s.ipbc_start_date s.student_start_date)) newcomers
      ++ when
          (leb_ℤ (whole 7) (or_zero s.past_10_days_logon)
            && ltb_ℤ (whole 90) (or_zero s.avg_eff_rating))
          hyper_active
      ++ when (ltb_ℤ (whole 50) attendance) cap_hopefuls
      ++ when (ltb_ℤ (whole 70) attendance && is_part_of "CAP Project" (section_of s))
          launch_hopefuls
      ++ when (ltb_ℤ (whole 70) attendance && is_part_of "Launch" (section_of s)) placement_hopefuls

-- the dict of counts, with one field for each key of `ALL_SEGMENTS`
pub record Counts : Type 0 where
  pub newcomer_count : ℕ
  pub hyper_active_count : ℕ
  pub cap_count : ℕ
  pub launch_count : ℕ
  pub placement_count : ℕ

abbrev pub no_counts : Counts
no_counts = record {
  newcomer_count = 0;
  hyper_active_count = 0;
  cap_count = 0;
  launch_count = 0;
  placement_count = 0;
}

-- `counts[seg]`
abbrev pub count_of : Segment → Counts → ℕ
count_of newcomers c = c.newcomer_count
count_of hyper_active c = c.hyper_active_count
count_of cap_hopefuls c = c.cap_count
count_of launch_hopefuls c = c.launch_count
count_of placement_hopefuls c = c.placement_count

-- `counts[seg] += 1`
abbrev pub bump : Segment → Counts → Counts
bump newcomers c = record c { newcomer_count = c.newcomer_count + 1 }
bump hyper_active c = record c { hyper_active_count = c.hyper_active_count + 1 }
bump cap_hopefuls c = record c { cap_count = c.cap_count + 1 }
bump launch_hopefuls c = record c { launch_count = c.launch_count + 1 }
bump placement_hopefuls c = record c { placement_count = c.placement_count + 1 }

-- the inner loop of `segment_summary`
unfoldable pub bump_all : List Segment → Counts → Counts
bump_all [] c = c
bump_all (seg ∷ segs) c = bump_all segs (bump seg c)

module _ (days_since : String → Option ℤ) (is_part_of : String → String → Bool) where
  -- the outer loop
  unfoldable pub summarise : List Student → Counts → Counts
  summarise [] c = c
  summarise (s ∷ students) c =
      summarise students (bump_all (classify_student days_since is_part_of s) c)

  unfoldable pub segment_summary : List Student → Counts
  segment_summary students = summarise students no_counts

pub data Role : Type 0 where
  support placement_team instructor : Role
  other : String → Role

-- `[s for s in students if keep(s)]`
unfoldable pub filtered : (Student → Bool) → List Student → List Student
filtered keep [] = []
filtered keep (s ∷ students) =
    let rest = filtered keep students in if keep s then s ∷ rest else rest

abbrev pub in_placement : (String → String → Bool) → Student → Bool
in_placement is_part_of s =
    is_part_of "Launch" (section_of s) || is_part_of "Placement" (section_of s)

-- `filter_by_role`
unfoldable pub filter_by_role :
    (String → String → Bool) → List Student → Option Role → Option String → List Student
filter_by_role is_part_of students (some placement_team) section =
    filtered (in_placement is_part_of) students
filter_by_role is_part_of students (some instructor) section =
    if truthy section
    then filtered (λ s. is_part_of (text_of section) (section_of s)) students
    else students
filter_by_role is_part_of students _ section = students
