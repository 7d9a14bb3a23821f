-- ===== src/Preview/Accounts.antt =====
-- What the counters and the rows of `batch_preview` in app/routers/batch.py say of each other.
use student_success_intellig.Prelude.{
  leb, if◌then◌else◌, length, length-append, ℕ, ◌+◌, ◌≤◌, String, ◌≡◌, refl, List, [], ◌∷◌, ◌++◌,
  arith,
}
use student_success_intellig.Decision.Preview.{
  Preview, trigger_outreach, retry_outreach, escalate, close, no_action,
}
use student_success_intellig.Preview.Batch.{
  Candidate, Tracking, PreviewRow, Decisions, Progress, no_progress, find_tracking, bump, visit,
  preview_row, select_candidates, preview_students, batch_preview,
}
use student_success_intellig.Preview.Ranking.{
  same_decision, one_if, occurrences, by_test, IsRanked, IsRanked-sort, occurrences-sort,
  length-sort,
}

abbrev pub count_of : Preview → Decisions → ℕ
count_of trigger_outreach d = d.trigger
count_of retry_outreach d = d.retry
count_of escalate d = d.escalation
count_of close d = d.closing
count_of no_action d = d.inaction

-- there is a row for each processed student, and each counter has the rows of its decision
pub record IsBalanced (p : Progress) : Type 0 where
  pub listed : length p.rows ≡ p.processed
  pub counted : (d : Preview) → count_of d p.decisions ≡ occurrences d p.rows

-- the smaller of two numbers
abbrev pub smaller : ℕ → ℕ → ℕ
smaller m n = if leb m n then m else n

count_of-bump :
    (d e : Preview) (ds : Decisions)
    → count_of d (bump e ds) ≡ count_of d ds + one_if (same_decision d e)
unfolding bump
count_of-bump d e ds = ground arith

occurrences-append :
    (d : Preview) (xs ys : List PreviewRow)
    → occurrences d (xs ++ ys) ≡ occurrences d xs + occurrences d ys
unfolding occurrences
occurrences-append d [] ys = omega arith
occurrences-append d (x ∷ xs) ys = omega (arith, occurrences-append d xs ys)

visit-IsBalanced : (p : Progress) (row : PreviewRow) → IsBalanced p → IsBalanced (visit p row)
unfolding visit occurrences
visit-IsBalanced p row b = record {
  listed = omega (arith, length-append p.rows (row ∷ []), b.listed);
  counted = λ d. omega (
    arith,
    count_of-bump d row.decision p.decisions,
    occurrences-append d p.rows (row ∷ []),
    b.counted d,
  );
}

no_progress-IsBalanced : IsBalanced no_progress
unfolding occurrences
no_progress-IsBalanced = record { listed = refl; counted = λ d. ground arith }

module _ (lower : String → String) (limit : ℕ) (checkpoint : String) (table : List Tracking) where
  -- the variables after a student within the limit
  abbrev next : Progress → Candidate → Progress
  next p c = visit p (preview_row lower (find_tracking c.profile.user_id checkpoint table) c)

  students-IsBalanced :
      (p : Progress) (cs : List Candidate)
      → IsBalanced p
      → IsBalanced (preview_students lower limit checkpoint table p cs)
  unfolding preview_students
  students-IsBalanced p [] b = b
  students-IsBalanced p (c ∷ cs) b =
      by_test IsBalanced (leb limit p.processed) _ _ (λ e. b)
        (λ e. students-IsBalanced (next p c) cs (visit-IsBalanced p _ b))

  processed-students :
      (p : Progress) (cs : List Candidate)
      → p.processed ≤ limit
      → (preview_students lower limit checkpoint table p cs).processed
        ≡ smaller limit (p.processed + length cs)
  unfolding preview_students visit
  processed-students p [] h = ground (arith, h)
  processed-students p (c ∷ cs) h =
      by_test (λ (q : Progress). q.processed ≡ smaller limit (p.processed + length (c ∷ cs)))
        (leb limit p.processed) _ _ (λ e. ground (arith, e, h))
        (λ e. ground (arith, e, processed-students (next p c) cs (ground (arith, e))))

  -- The preview processes as many of the checkpoint's students as the limit lets it; it lists a row for each
  -- with the scores never rising, and each counter has the number of rows with its decision.
  pub batch_preview-IsBalanced :
      (students : List Candidate)
      → let p = batch_preview lower limit checkpoint table students in
        IsBalanced p
        × ((p.processed ≡ smaller limit (length (select_candidates checkpoint students)))
            × IsRanked p.rows)
  unfolding batch_preview
  batch_preview-IsBalanced students =
      let chosen = select_candidates checkpoint students in
      let p = preview_students lower limit checkpoint table no_progress chosen in
      let b = students-IsBalanced no_progress chosen no_progress-IsBalanced in
      (
        record {
          listed = omega (arith, length-sort p.rows, b.listed);
          counted = λ d. omega (arith, occurrences-sort d p.rows, b.counted d);
        },
        (ground (arith, processed-students no_progress chosen (omega arith)), IsRanked-sort p.rows),
      )
