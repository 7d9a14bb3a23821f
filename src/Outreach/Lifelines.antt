-- ===== src/Outreach/Lifelines.antt =====
-- What a sequence of manual actions, `execute_manual_action` of app/services/outreach.py, does to the rows of
-- the tracking table: each moves along the lifecycle of app/state_machine.py.
use student_success_intellig.Prelude.{
  if◌then◌else◌, ℤ, String, ◌≡◌, refl, ap, subst, ◌∙◌, ◌⊎◌, inl, inr, Bool, true, false, not, ◌&&◌,
  Option, none, some, List, [], ◌∷◌, arith,
}
use student_success_intellig.Outreach.Manual.{Tracking, Store, same_id, latest, write_state}
use student_success_intellig.Repository.{Transition}
use student_success_intellig.Lifecycle.Machine.{State, can_transition}
use student_success_intellig.Outreach.Actions.{
  all_allowed, all_allowed-append, Logged, refused, appended, Action, perform, perform_all, Effect,
  nothing, moved, action-Effect,
}
use student_success_intellig.Lifecycle.Histories.{History, done, then_to}

-- no row has the id
unfoldable pub is_fresh : ℤ → List Tracking → Bool
is_fresh i [] = true
is_fresh i (t ∷ rows) = not (same_id t.id i) && is_fresh i rows

-- The ids of the rows are distinct, as the primary key of the table.
unfoldable pub is_distinct : List Tracking → Bool
is_distinct [] = true
is_distinct (t ∷ rows) = is_fresh t.id rows && is_distinct rows

-- The rows after some actions: the same ids and users, and states to which a history leads.
pub data Follows : List Tracking → List Tracking → Type 0 where
  no_rows : Follows [] []
  row :
      (t t' : Tracking) {ts ts' : List Tracking}
      → t'.id ≡ t.id
      → t'.user_id ≡ t.user_id
      → History t.state t'.state
      → Follows ts ts'
      → Follows (t ∷ ts) (t' ∷ ts')

Follows-refl : (rows : List Tracking) → Follows rows rows
Follows-refl [] = no_rows
Follows-refl (t ∷ rows) = row t t refl refl (done t.state) (Follows-refl rows)

abbrev pub append_history : {s t u : State} → History s t → History t u → History s u
append_history (done _) k = k
append_history (then_to s t e h) k = then_to s t e (append_history h k)

Follows-trans : {a b c : List Tracking} → Follows a b → Follows b c → Follows a c
Follows-trans no_rows no_rows = no_rows
Follows-trans (row t t' i u h f) (row _ t'' j v k g) =
    row t t'' (j ∙ i) (v ∙ u) (append_history h k) (Follows-trans f g)

pub same_id_refl : (a : ℤ) → same_id a a ≡ true
same_id_refl a = ground arith

fresh-write :
    (i : ℤ) (target : State) (c : String) (rows : List Tracking)
    → is_fresh i rows ≡ true
    → write_state i target c rows ≡ rows
unfolding is_fresh write_state
fresh-write i target c [] h = refl
fresh-write i target c (t ∷ rows) h =
    let e : same_id t.id i ≡ false = ground (arith, h) in
    let f : is_fresh i rows ≡ true = ground (arith, h) in
    simp (e, fresh-write i target c rows f) refl

one_of :
    (b : Bool) (r t : Tracking) (l : Option Tracking)
    → (if b then some r else l) ≡ some t
    → (r ≡ t) ⊎ (l ≡ some t)
one_of true r t l e = inl (ap (λ o. elim o [ some x ↦ x | none ↦ t ]) e)
one_of false r t l e = inr e

-- the latest row of the user is the first one or the latest of the others
latest-cases :
    (user : ℤ) (r t : Tracking) (rows : List Tracking)
    → latest user (r ∷ rows) ≡ some t
    → (r ≡ t) ⊎ (latest user rows ≡ some t)
unfolding latest
latest-cases user r t rows e = one_of (same_id r.user_id user) r t (latest user rows) e

fresh-latest :
    (i user : ℤ) (t : Tracking) (rows : List Tracking)
    → is_fresh i rows ≡ true
    → latest user rows ≡ some t
    → same_id i t.id ≡ false
unfolding is_fresh latest
fresh-latest i user t [] h e = ground (arith, e)
fresh-latest i user t (r ∷ rows) h e = elim (latest-cases user r t rows e) [
  | inl p ↦ rw⁻¹ p ground (arith, h)
  | inr f ↦ fresh-latest i user t rows ground (arith, h) f
]

-- the write of an allowed transition to the latest row of a user
write-Follows :
    (user : ℤ) (t : Tracking) (target : State) (c : String) (rows : List Tracking)
    → is_distinct rows ≡ true
    → latest user rows ≡ some t
    → can_transition t.state target ≡ true
    → Follows rows (write_state t.id target c rows)
unfolding is_distinct write_state
write-Follows user t target c [] d e a = no_rows
write-Follows user t target c (r ∷ rows) d e a = elim (latest-cases user r t rows e) [
  | inl p ↦ first p
  | inr f ↦ later f (write-Follows user t target c rows ground (arith, d) f a)
]
  where
    fresh : is_fresh r.id rows ≡ true
    fresh = ground (arith, d)

    here :
        can_transition r.state target ≡ true
        → Follows (r ∷ rows) (write_state r.id target c (r ∷ rows))
    here a =
        rw (same_id_refl r.id, fresh-write r.id target c rows fresh)
          (row r _ refl refl (then_to r.state target a (done target)) (Follows-refl rows))

    first : r ≡ t → Follows (r ∷ rows) (write_state t.id target c (r ∷ rows))
    first p =
        subst (λ x. Follows (r ∷ rows) (write_state x.id target c (r ∷ rows))) p (here (rw p a))

    later :
        latest user rows ≡ some t
        → Follows rows (write_state t.id target c rows)
        → Follows (r ∷ rows) (write_state t.id target c (r ∷ rows))
    later f k = rw (fresh-latest r.id user t rows fresh f) (row r r refl refl (done r.state) k)

-- the rows keep their ids
fresh-Follows :
    (i : ℤ) {a b : List Tracking} → Follows a b → is_fresh i a ≡ true → is_fresh i b ≡ true
unfolding is_fresh
fresh-Follows i no_rows h = h
fresh-Follows i (row t t' e u k f) h =
    let g = fresh-Follows i f ground (arith, h) in rw e ground (arith, h, g)

distinct-Follows : {a b : List Tracking} → Follows a b → is_distinct a ≡ true → is_distinct b ≡ true
unfolding is_distinct
distinct-Follows no_rows h = h
distinct-Follows (row t t' e u k f) h =
    let g = fresh-Follows t.id f ground (arith, h) in
    let d = distinct-Follows f ground (arith, h) in rw e ground (arith, g, d)

Effect-Follows :
    {user : ℤ} {s s' : Store}
    → Effect user s s'
    → is_distinct s.rows ≡ true
    → Follows s.rows s'.rows
Effect-Follows {s = s} nothing d = Follows-refl s.rows
Effect-Follows {user} {s} (moved t target c log l a e) d =
    write-Follows user t target c s.rows d l a

-- After any sequence of manual actions on a table with distinct ids, each row has kept its id and its user,
-- and a history of allowed transitions leads from the state that it had to the one it has.
pub perform_all-Follows :
    (store : Store) (actions : List Action)
    → is_distinct store.rows ≡ true
    → Follows store.rows (perform_all store actions).rows
unfolding perform_all
perform_all-Follows store [] d = Follows-refl store.rows
perform_all-Follows store (a ∷ later) d =
    let f = Effect-Follows (action-Effect store a) d in
    Follows-trans f (perform_all-Follows (perform store a) later (distinct-Follows f d))

Logged-allowed :
    {log log' : List Transition} {row : ℤ} {from to : State}
    → Logged log row from to log'
    → can_transition from to ≡ true
    → all_allowed log ≡ true
    → all_allowed log' ≡ true
Logged-allowed refused a h = h
Logged-allowed {log} (appended e f g i) a h = all_allowed-append log e ∙ rw (h, f, g, a) refl

Effect-allowed :
    {user : ℤ} {s s' : Store}
    → Effect user s s'
    → all_allowed s.transitions ≡ true
    → all_allowed s'.transitions ≡ true
Effect-allowed nothing h = h
Effect-allowed {s = s} (moved t target c log l a e) h = Logged-allowed e a h

-- A log of allowed transitions stays one under any sequence of manual actions.
pub perform_all-allowed :
    (store : Store) (actions : List Action)
    → all_allowed store.transitions ≡ true
    → all_allowed (perform_all store actions).transitions ≡ true
unfolding perform_all
perform_all-allowed store [] h = h
perform_all-allowed store (a ∷ later) h =
    perform_all-allowed (perform store a) later (Effect-allowed (action-Effect store a) h)
