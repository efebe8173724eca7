-- ===== src/Prelude/Double.antt =====
-- The values of a C++ `double`, as far as the program compares them. A finite IEEE 754 value is a
-- whole multiple of 2 ^ -1074, and is given by that multiple. The two zeros are one value here:
-- no comparison tells them apart.
use Prim.Native.Nat.{ℕ, ◌*◌, ◌^◌}
use mathlib.Core.Bool.{Bool, true, false}
use mwfl.Prelude.Tests.{leb}

pub data Double : Type 0 where
  -- a NaN, -∞, +∞
  nan negative_infinity infinity : Double
  -- the finite values that are at least zero, and the others: `minus k` is -(k + 1)
  plus minus : ℕ → Double

-- `std::isfinite`.
abbrev pub is_finite : Double → Bool
is_finite (plus n) = true
is_finite (minus n) = true
is_finite d = false

-- `a <= b`; a NaN compares false.
unfoldable pub le_double : Double → Double → Bool
le_double nan b = false
le_double a nan = false
le_double negative_infinity b = true
le_double a infinity = true
le_double infinity b = false
le_double a negative_infinity = false
le_double (plus n) (plus m) = leb n m
le_double (plus n) (minus m) = false
le_double (minus n) (plus m) = true
le_double (minus n) (minus m) = leb m n

-- The nearest double to `n / d` where it is positive and exact in 2 ^ -1074, such as an integer.
abbrev pub of_ℕ : ℕ → Double
of_ℕ n = plus (n * 2 ^ 1074)

-- The double nearest to 0.1 is 3602879701896397 / 2 ^ 55, and that nearest to 0.9 is
-- 8106479329266893 / 2 ^ 53.
unfoldable pub tenth : Double
tenth = plus (3602879701896397 * 2 ^ 1019)

unfoldable pub nine_tenths : Double
nine_tenths = plus (8106479329266893 * 2 ^ 1021)

unfoldable pub half : Double
half = plus (2 ^ 1073)
