-- ===== src/Prelude/Numbers.antt =====
-- The numbers that the program compares: its ints and floats, as integers that count ten-thousandths.
-- The program compares these values and does no arithmetic with them.
use Prim.Native.Nat.{ℕ, suc, ◌+◌, ◌*◌}
use mathlib.Core.Bool.{Bool, false}
use mathlib.Core.Option.{Option, some}
use student_success_intellig.Prelude.Tests.{ltb, leb}

-- `negsuc n` is -(n + 1).
pub data ℤ : Type 0 where
  pos : ℕ → ℤ
  negsuc : ℕ → ℤ

abbrev pub pos_part : ℤ → ℕ
pos_part (pos n) = n
pos_part (negsuc n) = 0

abbrev pub neg_part : ℤ → ℕ
neg_part (pos n) = 0
neg_part (negsuc n) = suc n

abbrev pub ltb_ℤ : ℤ → ℤ → Bool
ltb_ℤ a b = ltb (pos_part a + neg_part b) (pos_part b + neg_part a)

abbrev pub leb_ℤ : ℤ → ℤ → Bool
leb_ℤ a b = leb (pos_part a + neg_part b) (pos_part b + neg_part a)

-- The whole number n, in ten-thousandths.
abbrev pub whole : ℕ → ℤ
whole n = pos (n * 10000)

-- `v is not None and t is not None and v >= t`, and so with `>` and `<`.
abbrev pub at_least : Option ℤ → Option ℤ → Bool
at_least (some v) (some t) = leb_ℤ t v
at_least _ _ = false

abbrev pub above : Option ℤ → Option ℤ → Bool
above (some v) (some t) = ltb_ℤ t v
above _ _ = false

abbrev pub below : Option ℤ → Option ℤ → Bool
below (some v) (some t) = ltb_ℤ v t
below _ _ = false
