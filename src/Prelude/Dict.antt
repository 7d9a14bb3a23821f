-- ===== src/Prelude/Dict.antt =====
-- Python's `dict` with text keys, as an association list.

use mathlib.Core.Bool.{Bool, false, ◌||◌}
use mathlib.Core.Option.{Option, none, some}
use mathlib.Core.List.{List, [], ◌∷◌}
use Prim.Native.String.{String}
use text.Mathlib.Text.{◌==◌ as str_eq}
use student_success_intellig.Prelude.Tests.{if◌then◌else◌}
use student_success_intellig.Prelude.Lists.{nonempty}

abbrev pub Dict {ℓ} : Type ℓ → Type ℓ
Dict V = List (String × V)

module _ {ℓ} {V : Type ℓ} where
  -- `d.get(k)`
  unfoldable pub get : String → Dict V → Option V
  get k [] = none
  get k ((j, v) ∷ d) = if str_eq j k then some v else get k d

  -- `bool(d)` of an `Optional[Dict]`
  abbrev pub present : Option (Dict V) → Bool
  present none = false
  present (some d) = nonempty d

  -- `d or {}`
  abbrev pub or_empty : Option (Dict V) → Dict V
  or_empty none = []
  or_empty (some d) = d

-- `d.get(k)` where the values may be `None`
unfoldable pub get_text : String → Dict (Option String) → Option String
get_text k [] = none
get_text k ((j, v) ∷ d) = if str_eq j k then v else get_text k d

-- `k in ks`
unfoldable pub contains : String → List String → Bool
contains k [] = false
contains k (j ∷ ks) = str_eq j k || contains k ks
