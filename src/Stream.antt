-- ===== src/Stream.antt =====
-- What the session formats of src/docking_session.cpp and src/document_session.cpp use of the text
-- streams of the standard library, in the classic locale: a `Parser A` is an extraction from a
-- `std::wistringstream`, from the units that are left, and `none` is a stream that has failed. A
-- printer puts its text in front of what is printed after it.
pub mod Fields
pub mod Lines
pub mod Doubles
pub mod Printed
pub mod Plain
pub mod Steps
pub mod Yields
use mwfl.Prelude.{
  ℕ, zero, suc, ◌+◌, ◌-◌, ◌*◌, ◌/◌, ◌%◌, ◌^◌, ◌≤◌, ◌<◌, min, max, ◌≡◌, refl, sym, ap, subst, ◌∙◌,
  ◌≢◌, ◌↔◌, ◌⊎◌, inl, inr, Bool, true, false, not, ◌&&◌, ◌||◌, Option, none, some, List, [], ◌∷◌,
  ◌++◌, map, Mem, Nodup, Perm, arith, Text, u64_mod, next_u64, ltb, leb, ◌==◌, if◌then◌else◌,
  ltb→lt, lt→ltb, leb→le, ==_iff, ==_refl, Bool-cases, Option-cases, Either-cases, text_eq,
  text_eq_iff, opt_eq, codes, is_nil, is_some, length, get_elem?, take, drop, insert_at, erase_idx,
  modify, find_index, find, any, erase_if, length-append, length-take, length-drop,
  length-insert_at, length-erase_idx, length-modify, get_elem?-insert_at_self, erase_idx-insert_at,
  get_elem?_of_lt, lt-length_of_get_elem?, mem_of_get_elem?, insert_at-perm, erase_idx-perm,
  find_index_sound, find_index-any, length-map, get_elem?-map, map-insert_at, map-erase_idx,
  map-modify, shift, All, All-append, All-insert_at, All-erase_idx, All-modify, All-take,
  All-erase_if, All-get_elem?, get_elem?-erase_idx_lt, get_elem?-erase_idx_le, heir,
  get_elem?-min-erase_idx,
}

abbrev pub Parser : Type 0 → Type 0
Parser A = Text → Option (A × Text)

module _ {A B : Type 0} where
  infixl 1 ◌>>=◌
  unfoldable pub ◌>>=◌ : Parser A → (A → Parser B) → Parser B
  ◌>>=◌ p f t = elim (p t) [ none ↦ none | some (a, rest) ↦ f a rest ]

  pub bind_step :
      (p : Parser A) (f : A → Parser B) (t : Text) {a : A} {rest : Text} {r : Option (B × Text)}
      → p t ≡ some (a, rest)
      → f a rest ≡ r
      → (p >>= f) t ≡ r
  unfolding ◌>>=◌
  bind_step p f t e k = rw (e, ◌>>=◌) k

module _ {A : Type 0} where
  abbrev pub pure : A → Parser A
  pure a t = some (a, t)

  -- The value, if the test holds.
  abbrev pub pure_if : Bool → A → Parser A
  pure_if true a t = some (a, t)
  pure_if false a t = none

-- `std::isspace`.
unfoldable pub is_space : ℕ → Bool
is_space c = (leb 9 c && leb c 13) || (c == 32)

unfoldable pub is_digit : ℕ → Bool
is_digit c = leb 48 c && leb c 57

-- `stream >> std::ws`, and what a formatted extraction does first.
unfoldable pub skip_space : Text → Text
skip_space [] = []
skip_space (c ∷ t) = if is_space c then skip_space t else c ∷ t

-- `Finish`: nothing but white space is left.
unfoldable pub finish : Text → Bool
finish t = is_nil (skip_space t)

-- The digits at the front, after a number that is read already.
unfoldable pub scan_digits : ℕ → Text → ℕ × Text
scan_digits n [] = (n, [])
scan_digits n (c ∷ t) = if is_digit c then scan_digits (n * 10 + (c - 48)) t else (n, c ∷ t)

unfoldable pub read_magnitude : Parser ℕ
read_magnitude [] = none
read_magnitude (c ∷ t) = if is_digit c then some (scan_digits 0 (c ∷ t)) else none

-- A sign: whether the number is negative, and the rest.
unfoldable pub read_sign : Text → Bool × Text
read_sign [] = (false, [])
read_sign (c ∷ t) = if c == 45 then (true, t) else if c == 43 then (false, t) else (false, c ∷ t)

abbrev pub with_sign : Bool × Text → Option (Bool × ℕ × Text)
with_sign (negative, digits) = elim (read_magnitude digits) [
  | none ↦ none
  | some (n, rest) ↦ some (negative, n, rest)
]

-- White space, a sign and digits.
unfoldable pub read_integer : Text → Option (Bool × ℕ × Text)
read_integer t = with_sign (read_sign (skip_space t))

-- An unsigned integer of `w` bits: what is out of range fails, and a minus sign negates in `w` bits.
abbrev pub in_range : ℕ → Bool → ℕ → Parser ℕ
in_range w negative n rest =
    if leb (2 ^ w) n then none else some (if negative then (2 ^ w - n) % 2 ^ w else n, rest)

unfoldable pub read_unsigned : ℕ → Parser ℕ
read_unsigned w t = elim (read_integer t) [
  | none ↦ none
  | some (negative, n, rest) ↦ in_range w negative n rest
]

-- A `bool` without `std::boolalpha`: 0 or 1, and anything else fails.
abbrev pub to_bool : Bool → ℕ → Parser Bool
to_bool negative n rest =
    if n == 0
    then some (false, rest)
    else if (n == 1) && not negative
    then some (true, rest)
    else none

unfoldable pub read_bool : Parser Bool
read_bool t = elim (read_integer t) [
  | none ↦ none
  | some (negative, n, rest) ↦ to_bool negative n rest
]

unfoldable pub first_unit : Parser ℕ
first_unit [] = none
first_unit (c ∷ t) = some (c, t)

-- A `wchar_t`.
unfoldable pub read_char : Parser ℕ
read_char t = first_unit (skip_space t)

unfoldable pub split_word : Text → Text × Text
split_word [] = ([], [])
split_word (c ∷ t) =
    if is_space c then ([], c ∷ t) else let (word, rest) = split_word t in (c ∷ word, rest)

abbrev pub some_word : Text × Text → Option (Text × Text)
some_word ([], rest) = none
some_word (c ∷ word, rest) = some (c ∷ word, rest)

-- A `std::wstring`: the units before the next white space, at least one.
unfoldable pub read_word : Parser Text
read_word t = some_word (split_word (skip_space t))

-- The units up to the closing quotation mark; a backslash escapes the next one.
abbrev push : ℕ → Option (Text × Text) → Option (Text × Text)
push c none = none
push c (some (quoted, rest)) = some (c ∷ quoted, rest)

unfoldable pub unquote : Parser Text
unquote [] = none
unquote (c ∷ []) = if c == 34 then some ([], []) else none
unquote (c ∷ d ∷ t) =
    let escaped = push d (unquote t) in
    let plain = push c (unquote (d ∷ t)) in
    if c == 92 then escaped else if c == 34 then some ([], d ∷ t) else plain

-- `stream >> std::quoted(text)`: a plain word where no quotation mark stands first.
abbrev pub quoted_or_word : Text → Option (Text × Text)
quoted_or_word [] = none
quoted_or_word (c ∷ t) = if c == 34 then unquote t else read_word (c ∷ t)

unfoldable pub read_quoted : Parser Text
read_quoted t = quoted_or_word (skip_space t)

-- `stream << n`: the decimal digits.
unfoldable pub show_fuel : ℕ → ℕ → Text
show_fuel zero n = []
show_fuel (suc fuel) n =
    let high = show_fuel fuel (n / 10) in
    if n / 10 == 0 then (48 + n) ∷ [] else high ++ (48 + n % 10) ∷ []

unfoldable pub show : ℕ → Text
show n = show_fuel (suc n) n

unfoldable pub show_bool : Bool → Text
show_bool true = 49 ∷ []
show_bool false = 48 ∷ []

-- `std::quoted(text)` on the way out.
unfoldable pub escape : Text → Text
escape [] = []
escape (c ∷ t) = if (c == 34) || (c == 92) then 92 ∷ c ∷ escape t else c ∷ escape t

unfoldable pub show_quoted : Text → Text
show_quoted t = 34 ∷ escape t ++ 34 ∷ []

-- `<< L' ' << field`, and what is printed after it.
abbrev pub put : Text → Text → Text
put field rest = 32 ∷ field ++ rest

-- An optional ID as a number, where zero stands for none, and back: `value_or(DockPanelId{}).value`,
-- and `if (active) ... = DockPanelId{active}`.
abbrev pub optional_code : Option ℕ → ℕ
optional_code none = 0
optional_code (some id) = id

abbrev pub optional_of : ℕ → Option ℕ
optional_of zero = none
optional_of (suc n) = some (suc n)

-- The value that a parser makes of a whole line.
abbrev pub value_of : {A : Type 0} → Option (A × Text) → Option A
value_of none = none
value_of (some (a, rest)) = some a

-- The tests at the end of a record, with `Finish(line)`.
abbrev pub done_if : {A : Type 0} → Bool → A → Parser A
done_if test a rest = pure_if (test && finish rest) a rest
