-- ===== src/Segmentation/Counting.antt =====
-- What the counts of `segment_summary` in app/services/segmentation.py are.
use student_success_intellig.Prelude.{
  ℤ, ℕ, ◌+◌, ◌≤◌, String, ◌≡◌, ◌∙◌, Bool, true, false, ◌||◌, Option, List, [], ◌∷◌, arith,
}
use student_success_intellig.Segmentation.Classify.{
  Segment, newcomers, hyper_active, cap_hopefuls, launch_hopefuls, placement_hopefuls, Student,
  classify_student, Counts, no_counts, count_of, bump, bump_all, summarise, segment_summary,
}

abbrev pub same_segment : Segment → Segment → Bool
same_segment newcomers newcomers = true
same_segment hyper_active hyper_active = true
same_segment cap_hopefuls cap_hopefuls = true
same_segment launch_hopefuls launch_hopefuls = true
same_segment placement_hopefuls placement_hopefuls = true
same_segment _ _ = false

-- the segment is one of the list
unfoldable pub has : Segment → List Segment → Bool
has g [] = false
has g (s ∷ segs) = same_segment s g || has g segs

abbrev pub one_if : Bool → ℕ
one_if true = 1
one_if false = 0

-- how often the segment stands in the list
unfoldable pub occurrences : Segment → List Segment → ℕ
occurrences g [] = 0
occurrences g (s ∷ segs) = one_if (same_segment s g) + occurrences g segs

count_of-bump :
    (g s : Segment) (c : Counts) → count_of g (bump s c) ≡ count_of g c + one_if (same_segment s g)
count_of-bump g s c = ground arith

count_of-bump_all :
    (g : Segment) (segs : List Segment) (c : Counts)
    → count_of g (bump_all segs c) ≡ count_of g c + occurrences g segs
unfolding bump_all occurrences
count_of-bump_all g [] c = omega arith
count_of-bump_all g (s ∷ segs) c =
    omega (arith, count_of-bump_all g segs (bump s c), count_of-bump g s c)

module _ (days_since : String → Option ℤ) (is_part_of : String → String → Bool) where
  -- the students whose classification has the segment
  unfoldable pub members : Segment → List Student → ℕ
  members g [] = 0
  members g (s ∷ students) =
      one_if (has g (classify_student days_since is_part_of s)) + members g students

  occurrences-classify :
      (g : Segment) (s : Student)
      → occurrences g (classify_student days_since is_part_of s)
        ≡ one_if (has g (classify_student days_since is_part_of s))
  unfolding occurrences has classify_student
  occurrences-classify g s = ground arith

  count_of-summarise :
      (g : Segment) (students : List Student) (c : Counts)
      → count_of g (summarise days_since is_part_of students c) ≡ count_of g c + members g students
  unfolding summarise members
  count_of-summarise g [] c = omega arith
  count_of-summarise g (s ∷ students) c =
      let segs = classify_student days_since is_part_of s in
      omega (
        arith,
        count_of-summarise g students (bump_all segs c),
        count_of-bump_all g segs c,
        occurrences-classify g s,
      )

  -- The summary counts, for each segment, the students whose classification has it, each once.
  pub segment_summary-members :
      (g : Segment) (students : List Student)
      → count_of g (segment_summary days_since is_part_of students) ≡ members g students
  unfolding segment_summary
  segment_summary-members g students = count_of-summarise g students no_counts ∙ ground arith

  nested_each :
      (s : Student)
      → let segs = classify_student days_since is_part_of s in
        (one_if (has launch_hopefuls segs) ≤ one_if (has cap_hopefuls segs))
        × (one_if (has placement_hopefuls segs) ≤ one_if (has cap_hopefuls segs))
  unfolding has classify_student
  nested_each s = (ground arith, ground arith)

  members-nested :
      (students : List Student)
      → (members launch_hopefuls students ≤ members cap_hopefuls students)
        × (members placement_hopefuls students ≤ members cap_hopefuls students)
  unfolding members
  members-nested [] = (omega arith, omega arith)
  members-nested (s ∷ students) = (
    omega (arith, (nested_each s).0, (members-nested students).0),
    omega (arith, (nested_each s).1, (members-nested students).1),
  )

  -- In every summary the launch and the placement hopefuls are at most as many as the CAP hopefuls.
  pub summary_nested :
      (students : List Student)
      → let counts = segment_summary days_since is_part_of students in
        (counts.launch_count ≤ counts.cap_count) × (counts.placement_count ≤ counts.cap_count)
  summary_nested students = (
    omega (
      arith,
      segment_summary-members launch_hopefuls students,
      segment_summary-members cap_hopefuls students,
      (members-nested students).0,
    ),
    omega (
      arith,
      segment_summary-members placement_hopefuls students,
      segment_summary-members cap_hopefuls students,
      (members-nested students).1,
    ),
  )
