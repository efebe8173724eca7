-- ===== src/Stream/Doubles.antt =====
-- The text of a `double`: what `std::setprecision(17)` prints and what the extraction of a `double`
-- reads are parameters. Seventeen digits are enough for every finite value to be read back.
use mwfl.Prelude.{◌≡◌, true, some, Text}
use mwfl.Prelude.Double.{Double, is_finite}
use mwfl.Stream.{Parser, put}
use mwfl.Stream.Fields.{Ends}
use mwfl.Stream.Lines.{OneLine}

pub record DoubleFormat : Type 0 where
  pub print : Double → Text
  pub read : Parser Double

-- What the standard library documents of the two.
pub record IsExact (f : DoubleFormat) : Type 0 where
  pub reads :
      (d : Double) (rest : Text)
      → is_finite d ≡ true
      → Ends rest
      → f.read (put (f.print d) rest) ≡ some (d, rest)
  pub one_line : (d : Double) → OneLine (f.print d)
