-- ===== src/Segmentation/Roles.antt =====
-- What `filter_by_role` in app/services/segmentation.py keeps.
use student_success_intellig.Prelude.{
  truthy, Bool-cases, length, ◌≤◌, String, ◌≡◌, refl, inl, inr, Bool, Option, some, List, [], ◌∷◌,
  arith,
}
use student_success_intellig.Segmentation.Classify.{
  Student, Role, placement_team, instructor, filtered, filter_by_role,
}

filtered-filtered :
    (keep : Student → Bool) (students : List Student)
    → filtered keep (filtered keep students) ≡ filtered keep students
unfolding filtered
filtered-filtered keep [] = refl
filtered-filtered keep (s ∷ students) = elim (Bool-cases (keep s)) [
  | inl e ↦ rw (e, e, filtered-filtered keep students) refl
  | inr e ↦ rw (e, filtered-filtered keep students) refl
]

length-filtered :
    (keep : Student → Bool) (students : List Student)
    → length (filtered keep students) ≤ length students
unfolding filtered
length-filtered keep [] = omega arith
length-filtered keep (s ∷ students) = ground (arith, length-filtered keep students)

-- Filtering a list a second time by the same role and section changes nothing, and no filtering makes
-- a list longer.
pub filter_by_role-idempotent :
    (is_part_of : String → String → Bool) (students : List Student) (role : Option Role)
    (section : Option String)
    → let kept = filter_by_role is_part_of students role section in
      (filter_by_role is_part_of kept role section ≡ kept) × (length kept ≤ length students)
unfolding filter_by_role
filter_by_role-idempotent is_part_of students (some placement_team) section =
    (filtered-filtered _ students, length-filtered _ students)
filter_by_role-idempotent is_part_of students (some instructor) section =
    elim (Bool-cases (truthy section)) [
      | inl e ↦ rw e (filtered-filtered _ students, length-filtered _ students)
      | inr e ↦ rw e (refl, omega arith)
    ]
filter_by_role-idempotent is_part_of students _ section = (refl, omega arith)
