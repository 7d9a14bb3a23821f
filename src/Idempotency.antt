-- ===== src/Idempotency.antt =====
-- The idempotency keys that app/services/priority.py, outreach.py and ghl.py keep in memory, each in a
-- set of its own.
use student_success_intellig.Prelude.{
  if◌then◌else◌, truthy, Bool-cases, String, ◌≡◌, refl, ◌∙◌, inl, inr, Bool, true, false, ◌&&◌,
  ◌||◌, Option, none, some, List, [], ◌∷◌, arith, str_eq, eq_iff,
}
use student_success_intellig.Prelude.Dict.{contains}
use student_success_intellig.Governance.{ExecutionType, is_original}

-- the keys that are registered
abbrev pub Keys : Type 0
Keys = List String

-- `ctx.idempotency_key and ctx.idempotency_key in _priority_idempotency_keys`
unfoldable pub is_duplicate : Keys → Option String → Bool
is_duplicate keys none = false
is_duplicate keys (some key) = truthy (some key) && contains key keys

-- `keys.add(key)`
unfoldable pub add_key : String → Keys → Keys
add_key key keys = if contains key keys then keys else key ∷ keys

-- the registration of the key, for original executions only
unfoldable pub register : Keys → ExecutionType → Option String → Keys
unfolding add_key
register keys ExecutionType.original (some key) =
    if truthy (some key) then add_key key keys else keys
register keys _ _ = keys

-- `k` is the text of a key that is not empty.
abbrev pub names : String → Option String → Bool
names k none = false
names k (some j) = truthy (some j) && str_eq j k

pub contains-add_key :
    (k j : String) (keys : Keys) → contains k (add_key j keys) ≡ (contains k keys || str_eq j k)
unfolding add_key contains
contains-add_key k j keys = elim (Bool-cases (str_eq j k)) [
  | inl e ↦ ground (arith, (eq_iff j k).0 e)
  | inr e ↦ ground (arith, e)
]

pub contains-register :
    (k : String) (keys : Keys) (type : ExecutionType) (key : Option String)
    → contains k (register keys type key) ≡ (contains k keys || (is_original type && names k key))
unfolding register
contains-register k keys type none = ground arith
contains-register k keys type (some j) = ground (arith, contains-add_key k j keys)

-- What a service that keeps such a set promises: a call adds certain keys and drops none.
pub record Registry (Call : Type 0) : Type 0 where
  pub step : Keys → Call → Keys
  pub adds : String → Keys → Call → Bool
  pub contains-step :
      (k : String) (keys : Keys) (c : Call)
      → contains k (step keys c) ≡ (contains k keys || adds k keys c)

module _ {Call : Type 0} (service : Registry Call) where
  -- The keys after a sequence of calls.
  unfoldable pub run : Keys → List Call → Keys
  run keys [] = keys
  run keys (c ∷ later) = run (service.step keys c) later

  pub contains-run :
      (k : String) (keys : Keys) (later : List Call)
      → contains k keys ≡ true
      → contains k (run keys later) ≡ true
  unfolding run
  contains-run k keys [] h = h
  contains-run k keys (c ∷ later) h =
      contains-run k (service.step keys c) later (rw (service.contains-step k keys c, h) refl)

  pub added-run :
      (k : String) (keys : Keys) (c : Call) (later : List Call)
      → service.adds k keys c ≡ true
      → contains k (run (service.step keys c) later) ≡ true
  added-run k keys c later h =
      contains-run k _ later (service.contains-step k keys c ∙ ground (arith, h))
