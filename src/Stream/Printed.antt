-- ===== src/Stream/Printed.antt =====
-- The fields that are printed have no line feed and no U+FFFF, so that a record stays on its line.
use mwfl.Prelude.{
  ℕ, ◌≡◌, refl, inl, inr, Bool, true, false, ◌||◌, [], ◌∷◌, arith, Text, ◌==◌, Bool-cases,
  All-append,
}
use mwfl.Stream.{is_digit, show, show_bool, escape, show_quoted, put}
use mwfl.Stream.Fields.{show-AllDigits, AllDigits}
use mwfl.Stream.Lines.{OneLine}

digits_one_line : (t : Text) → AllDigits t → OneLine t
unfolding is_digit
digits_one_line [] h = tt
digits_one_line (c ∷ t) h = (ground (arith, h.0), digits_one_line t h.1)

pub show_one_line : (n : ℕ) → OneLine (show n)
show_one_line n = digits_one_line (show n) (show-AllDigits n)

pub show_bool_one_line : (b : Bool) → OneLine (show_bool b)
unfolding show_bool
show_bool_one_line true = (refl, tt)
show_bool_one_line false = (refl, tt)

escape_one_line : (t : Text) → OneLine t → OneLine (escape t)
unfolding escape
escape_one_line [] h = tt
escape_one_line (c ∷ t) h = elim (Bool-cases ((c == 34) || (c == 92))) [
  | inl e ↦ rw e (refl, (h.0, escape_one_line t h.1))
  | inr e ↦ rw e (h.0, escape_one_line t h.1)
]

pub put_one_line : (field rest : Text) → OneLine field → OneLine rest → OneLine (put field rest)
put_one_line field rest f r =
    (refl, All-append (λ c. ((c == 10) || (c == 65535)) ≡ false) field rest f r)

pub show_quoted_one_line : (t : Text) → OneLine t → OneLine (show_quoted t)
unfolding show_quoted
show_quoted_one_line t h = (
  refl,
  All-append (λ c. ((c == 10) || (c == 65535)) ≡ false) (escape t) (34 ∷ []) (escape_one_line t h)
      (refl, tt),
)
