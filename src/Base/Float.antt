-- ===== src/Base/Float.antt =====
-- IEEE 754 double precision values as exact dyadic numbers, with the comparisons the program makes.
use Prim.Native.Nat.{ℕ, suc, ◌*◌, ◌^◌}
use mathlib.Core.Bool.{Bool, true, false, not, ◌&&◌}
use verustcode.Base.Tests.{ltb, ◌==◌}
use verustcode.Base.Int.{ℤ, pos, negsuc}

-- `finite neg m e` is m * 2 ^ e, negated if `neg`; -0 and 0 are both zero.
pub data Float64 : Type 0 where
  finite : Bool → ℕ → ℤ → Float64
  inf : Bool → Float64
  nan : Float64

-- `x != 0`, which NaN satisfies.
abbrev pub is_nonzero : Float64 → Bool
is_nonzero (finite neg m e) = not (m == 0)
is_nonzero (inf neg) = true
is_nonzero nan = true

-- `x < 0`
abbrev pub is_negative : Float64 → Bool
is_negative (finite neg m e) = neg && not (m == 0)
is_negative (inf neg) = neg
is_negative nan = false

-- `x > 1`
abbrev pub exceeds_one : Float64 → Bool
exceeds_one (finite neg m (pos k)) = not neg && ltb 1 (m * 2 ^ k)
exceeds_one (finite neg m (negsuc k)) = not neg && ltb (2 ^ suc k) m
exceeds_one (inf neg) = not neg
exceeds_one nan = false
