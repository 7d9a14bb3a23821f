-- ===== src/Preview/Ranking.antt =====
-- What `rows.sort` of app/routers/batch.py does with the rows.
use student_success_intellig.Prelude.{
  leb, if◌then◌else◌, length, ℕ, suc, ◌+◌, ◌≤◌, ◌≡◌, refl, Bool, true, false, List, [], ◌∷◌, arith,
}
use student_success_intellig.Decision.Preview.{
  Preview, trigger_outreach, retry_outreach, escalate, close, no_action,
}
use student_success_intellig.Preview.Batch.{PreviewRow, insert_row, sort_rows}

abbrev pub same_decision : Preview → Preview → Bool
same_decision trigger_outreach trigger_outreach = true
same_decision retry_outreach retry_outreach = true
same_decision escalate escalate = true
same_decision close close = true
same_decision no_action no_action = true
same_decision _ _ = false

abbrev pub one_if : Bool → ℕ
one_if true = 1
one_if false = 0

-- how many rows have the decision
unfoldable pub occurrences : Preview → List PreviewRow → ℕ
occurrences d [] = 0
occurrences d (r ∷ rs) = one_if (same_decision d r.decision) + occurrences d rs

-- what holds of each branch, under its test, holds of an `if`
pub by_test {ℓ} :
    {A : Type ℓ} (P : A → Type 0) (b : Bool) (x y : A)
    → (b ≡ true → P x)
    → (b ≡ false → P y)
    → P (if b then x else y)
by_test P true x y p q = p refl
by_test P false x y p q = q refl

-- no row has a higher score
unfoldable pub IsBelow : ℕ → List PreviewRow → Type 0
IsBelow n [] = 0 ≤ n
IsBelow n (r ∷ rs) = (r.priority_score ≤ n) × IsBelow n rs

-- the scores never rise from a row to a later one
unfoldable pub IsRanked : List PreviewRow → Type 0
IsRanked [] = 0 ≤ 0
IsRanked (r ∷ rs) = IsBelow r.priority_score rs × IsRanked rs

IsBelow-mono : (m n : ℕ) (rs : List PreviewRow) → m ≤ n → IsBelow m rs → IsBelow n rs
unfolding IsBelow
IsBelow-mono m n [] h p = omega arith
IsBelow-mono m n (r ∷ rs) h (q, p) = (omega (arith, h, q), IsBelow-mono m n rs h p)

IsBelow-insert :
    (n : ℕ) (r : PreviewRow) (rs : List PreviewRow)
    → r.priority_score ≤ n
    → IsBelow n rs
    → IsBelow n (insert_row r rs)
unfolding IsBelow insert_row
IsBelow-insert n r [] h p = (h, omega arith)
IsBelow-insert n r (x ∷ xs) h (q, p) =
    by_test (IsBelow n) (leb x.priority_score r.priority_score) _ _ (λ e. (h, (q, p)))
      (λ e. (q, IsBelow-insert n r xs h p))

IsRanked-insert : (r : PreviewRow) (rs : List PreviewRow) → IsRanked rs → IsRanked (insert_row r rs)
unfolding IsRanked IsBelow insert_row
IsRanked-insert r [] p = (omega arith, omega arith)
IsRanked-insert r (x ∷ xs) (q, p) =
    let rest = IsRanked-insert r xs p in
    by_test IsRanked (leb x.priority_score r.priority_score) _ _
      (λ e.
        let h : x.priority_score ≤ r.priority_score = ground (arith, e) in
        ((h, IsBelow-mono x.priority_score r.priority_score xs h q), (q, p)))
      (λ e.
        let h : r.priority_score ≤ x.priority_score = ground (arith, e) in
        (IsBelow-insert x.priority_score r xs h q, rest))

pub IsRanked-sort : (rs : List PreviewRow) → IsRanked (sort_rows rs)
unfolding IsRanked sort_rows
IsRanked-sort [] = omega arith
IsRanked-sort (r ∷ rs) = IsRanked-insert r (sort_rows rs) (IsRanked-sort rs)

occurrences-insert :
    (d : Preview) (r : PreviewRow) (rs : List PreviewRow)
    → occurrences d (insert_row r rs) ≡ one_if (same_decision d r.decision) + occurrences d rs
unfolding occurrences insert_row
occurrences-insert d r [] = refl
occurrences-insert d r (x ∷ xs) = grind (arith, occurrences-insert d r xs)

pub occurrences-sort :
    (d : Preview) (rs : List PreviewRow) → occurrences d (sort_rows rs) ≡ occurrences d rs
unfolding occurrences sort_rows
occurrences-sort d [] = refl
occurrences-sort d (r ∷ rs) =
    omega (arith, occurrences-insert d r (sort_rows rs), occurrences-sort d rs)

length-insert : (r : PreviewRow) (rs : List PreviewRow) → length (insert_row r rs) ≡ suc (length rs)
unfolding insert_row
length-insert r [] = refl
length-insert r (x ∷ xs) = grind (arith, length-insert r xs)

pub length-sort : (rs : List PreviewRow) → length (sort_rows rs) ≡ length rs
unfolding sort_rows
length-sort [] = refl
length-sort (r ∷ rs) = omega (arith, length-insert r (sort_rows rs), length-sort rs)
