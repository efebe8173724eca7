-- ===== src/Stream/Plain.antt =====
-- A text of doubles that is exact: the multiple of 2 ^ -1074, in decimal digits. The witnesses that
-- need a format use it.
use mwfl.Prelude.{ℕ, ◌≡◌, refl, Bool, true, false, none, some, ◌∷◌, arith, Text, codes}
use mwfl.Prelude.Double.{Double, nan, negative_infinity, infinity, plus, minus, is_finite}
use mwfl.Stream.{Parser, read_integer, show, put}
use mwfl.Stream.Fields.{Ends, read_integer-put, read_integer-minus}
use mwfl.Stream.Doubles.{DoubleFormat, IsExact}
use mwfl.Stream.Lines.{OneLine}
use mwfl.Stream.Printed.{show_one_line}

unfoldable pub show_plain : Double → Text
show_plain (plus n) = show n
show_plain (minus n) = 45 ∷ show n
show_plain infinity = codes "inf"
show_plain negative_infinity = codes "-inf"
show_plain nan = codes "nan"

abbrev to_double : Bool × ℕ × Text → Double × Text
to_double (false, n, rest) = (plus n, rest)
to_double (true, n, rest) = (minus n, rest)

unfoldable pub read_plain : Parser Double
read_plain t = elim (read_integer t) [ none ↦ none | some r ↦ some (to_double r) ]

abbrev pub plain : DoubleFormat
plain = record { print = show_plain; read = read_plain }

plain_reads :
    (d : Double) (rest : Text)
    → is_finite d ≡ true
    → Ends rest
    → read_plain (put (show_plain d) rest) ≡ some (d, rest)
unfolding show_plain read_plain
plain_reads (plus n) rest h e = rw (read_integer-put n rest e, read_plain) refl
plain_reads (minus n) rest h e = rw (read_integer-minus n rest e, read_plain) refl
plain_reads infinity rest h e = cc
plain_reads negative_infinity rest h e = cc
plain_reads nan rest h e = cc

plain_one_line : (d : Double) → OneLine (show_plain d)
unfolding show_plain
plain_one_line (plus n) = show_one_line n
plain_one_line (minus n) = (refl, show_one_line n)
plain_one_line infinity = ground arith
plain_one_line negative_infinity = ground arith
plain_one_line nan = ground arith

pub plain-IsExact : IsExact plain
plain-IsExact = record { reads = plain_reads; one_line = plain_one_line }
