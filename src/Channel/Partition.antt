-- ===== src/Channel/Partition.antt =====
-- The lists of channels that app/services/channel_selector.py keeps: what its filters and its ranking leave.
use student_success_intellig.Prelude.{
  if◌then◌else◌, Bool-cases, ℤ, when, ℕ, ◌+◌, ◌≡◌, refl, ap, subst, inl, inr, Bool, true, false,
  not, Option, none, some, List, [], ◌∷◌, ◌++◌, arith,
}
use student_success_intellig.Channel.Types.{
  Channel, call, sms, email, OperationalCtx, ThresholdBindings,
}
use student_success_intellig.Channel.Ranking.{
  same_channel, has, dropped, kept, remove, Ranking, ranked, promote, engaged, configured,
  promote_if, prioritized, prioritize_channels,
}
use student_success_intellig.Channel.Rules.{finding_of, is_out, is_slow, usable}

-- 1 for the same channel
abbrev pub one_if : Channel → Channel → ℕ
one_if ch c = if same_channel ch c then 1 else 0

-- how often a channel is in a list
unfoldable pub count : Channel → List Channel → ℕ
count ch [] = 0
count ch (c ∷ cs) = one_if ch c + count ch cs

pub count-append :
    (ch : Channel) (xs ys : List Channel) → count ch (xs ++ ys) ≡ count ch xs + count ch ys
unfolding count
count-append ch [] ys = omega arith
count-append ch (x ∷ xs) ys = omega (arith, count-append ch xs ys)

count-when :
    (ch c : Channel) (b : Bool) → count ch (when b c) + count ch (when (not b) c) ≡ one_if ch c
unfolding count
count-when ch c true = omega arith
count-when ch c false = omega arith

-- A test splits a list.
pub count-split :
    (ch : Channel) (test : Channel → Bool) (cs : List Channel)
    → count ch (kept test cs) + count ch (dropped test cs) ≡ count ch cs
unfolding count kept dropped
count-split ch test [] = omega arith
count-split ch test (c ∷ cs) =
    let w = count-when ch c (test c) in
    let h = count-split ch test cs in
    let p = count-append ch (when (test c) c) (dropped test cs) in
    let q = count-append ch (when (not (test c)) c) (kept test cs) in omega (arith, w, h, p, q)

one_if-same : (ch x c : Channel) → same_channel ch c ≡ true → one_if x c ≡ one_if x ch
one_if-same ch x c h = ground (arith, h)

count-remove :
    (x ch : Channel) (cs : List Channel)
    → has ch cs ≡ true
    → one_if x ch + count x (remove ch cs) ≡ count x cs
unfolding count has remove
count-remove x ch [] h = ground (arith, h)
count-remove x ch (c ∷ cs) h = elim (Bool-cases (same_channel ch c)) [
  | inl e ↦ let s = one_if-same ch x c e in rw e omega (arith, s)
  | inr e ↦ let k = count-remove x ch cs (ground (arith, h, e)) in rw e omega (arith, k)
]

pub count-promote :
    (x ch : Channel) (r : Ranking)
    → has ch (ranked r) ≡ true
    → count x (ranked (promote ch r)) ≡ count x (ranked r)
unfolding count has promote
count-promote x ch (c, cs) h = elim (Bool-cases (same_channel ch c)) [
  | inl e ↦ rw e refl
  | inr e ↦ let k = count-remove x ch cs (ground (arith, h, e)) in rw e omega (arith, k)
]

-- Each channel is in exactly one of two lists, once.
abbrev pub IsPartition : List Channel → List Channel → Type 0
IsPartition xs ys = (ch : Channel) → count ch xs + count ch ys ≡ 1

-- a test moves channels from the first list to the second
pub IsPartition-split :
    (test : Channel → Bool) (xs ys : List Channel)
    → IsPartition xs ys
    → IsPartition (kept test xs) (ys ++ dropped test xs)
IsPartition-split test xs ys p ch =
    omega (arith, p ch, count-split ch test xs, count-append ch ys (dropped test xs))

pub IsPartition-usable :
    (op : OperationalCtx) (xs ys : List Channel)
    → IsPartition xs ys
    → IsPartition (usable op xs) (ys ++ dropped (λ c. is_out (finding_of op c)) xs)
unfolding usable
IsPartition-usable op xs ys p ch =
    let left = kept (λ c. is_out (finding_of op c)) xs in
    omega (
      arith,
      IsPartition-split (λ c. is_out (finding_of op c)) xs ys p ch,
      count-split ch (λ c. is_slow (finding_of op c)) left,
      count-append ch (kept (λ c. is_slow (finding_of op c)) left)
          (dropped (λ c. is_slow (finding_of op c)) left),
    )

pick :
    (cs : List Channel) (ch : Channel) (b : Bool) (c : Channel) (o : Option Channel)
    → (b ≡ true → has c cs ≡ true)
    → (o ≡ some ch → has ch cs ≡ true)
    → (if b then some c else o) ≡ some ch
    → has ch cs ≡ true
pick cs ch true c o h k e =
    subst (λ x. has x cs ≡ true) (ap (λ a. elim a [ some x ↦ x | none ↦ c ]) e) (h refl)
pick cs ch false c o h k e = k e

-- a signal promotes a channel that is among the candidates
engaged-has :
    (score : Option ℤ) (tb : ThresholdBindings) (cs : List Channel) (ch : Channel)
    → engaged score tb cs ≡ some ch
    → has ch cs ≡ true
unfolding engaged
engaged-has score tb cs ch =
    pick cs ch _ call _ (λ e. ground (arith, e))
      (pick cs ch _ sms _ (λ e. ground (arith, e))
        (pick cs ch _ email none (λ e. ground (arith, e)) (λ e. ground (arith, e))))

count-promote_if :
    (x : Channel) (o : Option Channel) (r : Ranking)
    → count x (ranked (promote_if o r)) ≡ count x (ranked r)
unfolding promote_if
count-promote_if x none r = refl
count-promote_if x (some ch) r = elim (Bool-cases (has ch (ranked r))) [
  | inl e ↦ rw e (count-promote x ch r e)
  | inr e ↦ rw e refl
]

pub count-prioritize :
    (x : Channel) (r : Ranking) (score : Option ℤ) (tb : ThresholdBindings)
    → count x (ranked (prioritize_channels r score tb).0) ≡ count x (ranked r)
unfolding prioritize_channels prioritized
count-prioritize x r score tb =
    by_signal (engaged score tb (ranked r)) (engaged-has score tb (ranked r))
  where
    by_signal :
        (o : Option Channel)
        → ((ch : Channel) → o ≡ some ch → has ch (ranked r) ≡ true)
        → count x (ranked (prioritized o (configured tb.preferred_initial_channel) r).0)
          ≡ count x (ranked r)
    by_signal none f = count-promote_if x (configured tb.preferred_initial_channel) r
    by_signal (some ch) f = count-promote x ch r (f ch refl)
