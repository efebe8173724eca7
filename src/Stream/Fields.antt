-- ===== src/Stream/Fields.antt =====
-- Reading back what was printed: each extraction of Stream.antt after the printer of its field, with
-- any rest that ends the field.
use mwfl.Prelude.{
  ℕ, zero, suc, ◌+◌, ◌-◌, ◌*◌, ◌/◌, ◌%◌, ◌^◌, ◌<◌, ◌≡◌, refl, ap, ◌∙◌, ◌⊎◌, inl, inr, Bool, true,
  false, ◌||◌, Option, none, some, [], ◌∷◌, ◌++◌, arith, Text, u64_mod, ltb, ◌==◌, Bool-cases,
  is_nil, any, All, All-append,
}
use mathlib.Core.List.{append_assoc}
use mwfl.Stream.{
  pure_if, done_if, optional_code, optional_of, is_space, is_digit, skip_space, finish, scan_digits,
  read_magnitude, read_sign, with_sign, read_integer, read_unsigned, read_bool, first_unit,
  read_char, split_word, read_word, unquote, read_quoted, show_fuel, show, show_bool, escape,
  show_quoted, put,
}

-- The rest of a line after a field: nothing, or a space.
abbrev pub Ends : Text → Type 0
Ends [] = Unit
Ends (c ∷ t) = c ≡ 32

-- A text of digits that does not start the number over.
abbrev pub AllDigits : Text → Type 0
AllDigits = All (λ c. is_digit c ≡ true)

digit_of : (d : ℕ) → d < 10 → is_digit (48 + d) ≡ true
unfolding is_digit
digit_of d h = ground arith

show_fuel-AllDigits : (fuel n : ℕ) → AllDigits (show_fuel fuel n)
unfolding show_fuel
show_fuel-AllDigits zero n = tt
show_fuel-AllDigits (suc fuel) n = elim (Bool-cases (n / 10 == 0)) [
  | inl e ↦ rw e (digit_of n (ground arith), tt)
  | inr e ↦ rw e (
      All-append (λ c. is_digit c ≡ true) (show_fuel fuel (n / 10)) ((48 + n % 10) ∷ [])
        (show_fuel-AllDigits fuel (n / 10)) (digit_of (n % 10) (omega arith), tt))
]

not_nil_append : (t : Text) (c : ℕ) → is_nil (t ++ c ∷ []) ≡ false
not_nil_append [] c = refl
not_nil_append (d ∷ t) c = refl

show_not_nil : (n : ℕ) → is_nil (show n) ≡ false
unfolding show show_fuel
show_not_nil n = elim (Bool-cases (n / 10 == 0)) [
  | inl e ↦ rw e refl
  | inr e ↦ rw e (not_nil_append (show_fuel n (n / 10)) (48 + n % 10))
]

scan_step : (n : ℕ) (rest : Text) → scan_digits (n / 10) ((48 + n % 10) ∷ rest) ≡ scan_digits n rest
unfolding scan_digits
scan_step n rest =
    let e : n / 10 * 10 + (48 + n % 10 - 48) ≡ n = omega arith in
    rw (digit_of (n % 10) (omega arith), e) refl

scan_small : (n : ℕ) (rest : Text) → n < 10 → scan_digits 0 ((48 + n) ∷ rest) ≡ scan_digits n rest
unfolding scan_digits
scan_small n rest h = let e : 0 * 10 + (48 + n - 48) ≡ n = omega arith in rw (digit_of n h, e) refl

scan-show_fuel :
    (fuel n : ℕ) (rest : Text)
    → n < fuel
    → scan_digits 0 (show_fuel fuel n ++ rest) ≡ scan_digits n rest
unfolding show_fuel
scan-show_fuel zero n rest h = elim h [ ]
scan-show_fuel (suc fuel) n rest h = elim (Bool-cases (n / 10 == 0)) [
  | inl e ↦ rw e (scan_small n rest (ground arith))
  | inr e ↦
      rw
        (
          e,
          append_assoc (show_fuel fuel (n / 10)) ((48 + n % 10) ∷ []) rest,
          scan-show_fuel fuel (n / 10) ((48 + n % 10) ∷ rest) (ground arith),
        )
        (scan_step n rest)
]

scan_end : (n : ℕ) (rest : Text) → Ends rest → scan_digits n rest ≡ (n, rest)
unfolding scan_digits is_digit
scan_end n [] h = refl
scan_end n (c ∷ t) h = ground arith

no_sign :
    (t rest : Text)
    → AllDigits t
    → is_nil t ≡ false
    → read_sign (skip_space (32 ∷ t ++ rest)) ≡ (false, t ++ rest)
unfolding read_sign skip_space is_space is_digit
no_sign [] rest d n = cc
no_sign (c ∷ t) rest d n = ground (arith, d.0)

magnitude :
    (t rest : Text)
    → AllDigits t
    → is_nil t ≡ false
    → read_magnitude (t ++ rest) ≡ some (scan_digits 0 (t ++ rest))
unfolding read_magnitude
magnitude [] rest d n = cc
magnitude (c ∷ t) rest d n = rw (d.0) refl

sign-show :
    (n : ℕ) (rest : Text) → read_sign (skip_space (put (show n) rest)) ≡ (false, show n ++ rest)
unfolding show
sign-show n rest = no_sign (show n) rest (show_fuel-AllDigits (suc n) n) (show_not_nil n)

scan-show : (n : ℕ) (rest : Text) → Ends rest → scan_digits 0 (show n ++ rest) ≡ (n, rest)
unfolding show
scan-show n rest h = scan-show_fuel (suc n) n rest (omega arith) ∙ scan_end n rest h

pub show-AllDigits : (n : ℕ) → AllDigits (show n)
unfolding show
show-AllDigits n = show_fuel-AllDigits (suc n) n

magnitude-show :
    (n : ℕ) (rest : Text) → Ends rest → read_magnitude (show n ++ rest) ≡ some (n, rest)
magnitude-show n rest h =
    magnitude (show n) rest (show-AllDigits n) (show_not_nil n)
    ∙ ap (λ r. some r) (scan-show n rest h)

pub read_integer-put :
    (n : ℕ) (rest : Text) → Ends rest → read_integer (put (show n) rest) ≡ some (false, n, rest)
unfolding read_integer
read_integer-put n rest h =
    ap with_sign (sign-show n rest) ∙ rw (magnitude-show n rest h, with_sign) refl

-- A minus sign in front of the digits.
pub read_integer-minus :
    (n : ℕ) (rest : Text) → Ends rest → read_integer (put (45 ∷ show n) rest) ≡ some (true, n, rest)
unfolding read_integer skip_space is_space read_sign
read_integer-minus n rest h = rw (magnitude-show n rest h, with_sign) refl

-- An unsigned number that fits is read back.
pub read_unsigned-put :
    (w n : ℕ) (rest : Text)
    → n < 2 ^ w
    → Ends rest
    → read_unsigned w (put (show n) rest) ≡ some (n, rest)
unfolding read_unsigned
read_unsigned-put w n rest fits h = rw (read_integer-put n rest h, read_unsigned) (ground arith)

bool_number :
    (b : Bool) → ((b ≡ true) × (show_bool b ≡ show 1)) ⊎ ((b ≡ false) × (show_bool b ≡ show 0))
unfolding show_bool show show_fuel
bool_number true = inl (refl, refl)
bool_number false = inr (refl, refl)

pub read_bool-put :
    (b : Bool) (rest : Text) → Ends rest → read_bool (put (show_bool b) rest) ≡ some (b, rest)
unfolding read_bool
read_bool-put b rest h = elim (bool_number b) [
  | inl e ↦ rw (e.1, read_integer-put 1 rest h, read_bool, e.0) refl
  | inr e ↦ rw (e.1, read_integer-put 0 rest h, read_bool, e.0) refl
]

-- A text between quotation marks.
unquote-escape : (t rest : Text) → unquote (escape t ++ 34 ∷ rest) ≡ some (t, rest)
unfolding unquote escape
unquote-escape [] [] = refl
unquote-escape [] (r ∷ rest) = refl
unquote-escape (c ∷ t) rest = elim (Bool-cases ((c == 34) || (c == 92))) [
  | inl e ↦ rw (e, unquote-escape t rest) refl
  | inr e ↦
      rw e (plain_unit c (escape t) rest (ground arith) (ground arith) (unquote-escape t rest))
]
  where
    plain_unit :
        (c : ℕ) (u rest : Text) {v : Text}
        → (c == 92) ≡ false
        → (c == 34) ≡ false
        → unquote (u ++ 34 ∷ rest) ≡ some (v, rest)
        → unquote (c ∷ u ++ 34 ∷ rest) ≡ some (c ∷ v, rest)
    plain_unit c [] rest e f h = rw (e, f, h) refl
    plain_unit c (d ∷ u) rest e f h = rw (e, f, h) refl

pub read_quoted-put : (t rest : Text) → read_quoted (put (show_quoted t) rest) ≡ some (t, rest)
unfolding read_quoted show_quoted skip_space is_space
read_quoted-put t rest = rw (append_assoc (escape t) (34 ∷ []) rest) (unquote-escape t rest)

-- The end of a line, directly after the last field.
pub finish_nil : finish [] ≡ true
unfolding finish skip_space
finish_nil = refl

pub read_char_lem :
    (c : ℕ) (rest : Text) → is_space c ≡ false → read_char (c ∷ rest) ≡ some (c, rest)
unfolding read_char first_unit skip_space
read_char_lem c rest h = rw h refl

-- A word of other units than white space.
abbrev pub IsWord : Text → Type 0
IsWord = All (λ c. is_space c ≡ false)

pub any-IsWord : (w : Text) → any is_space w ≡ false → IsWord w
unfolding any
any-IsWord [] h = tt
any-IsWord (c ∷ w) h = (ground arith, any-IsWord w (ground arith))

split_word-append : (w rest : Text) → IsWord w → Ends rest → split_word (w ++ rest) ≡ (w, rest)
unfolding split_word is_space
split_word-append [] [] h e = refl
split_word-append [] (c ∷ rest) h e = ground arith
split_word-append (c ∷ w) rest h e = rw (h.0, split_word-append w rest h.1 e) refl

pub read_word-append :
    (c : ℕ) (w rest : Text)
    → IsWord (c ∷ w)
    → Ends rest
    → read_word (c ∷ w ++ rest) ≡ some (c ∷ w, rest)
unfolding read_word skip_space
read_word-append c w rest h e = rw (h.0, split_word-append (c ∷ w) rest h e) refl

-- An optional ID that can be printed: an ID of zero stands for none.
abbrev pub IsProper : Option ℕ → Type 0
IsProper none = Unit
IsProper (some id) = (0 < id) × (id < u64_mod)

pub optional_back :
    (o : Option ℕ) → IsProper o → (optional_code o < u64_mod) × (optional_of (optional_code o) ≡ o)
optional_back none h = (omega arith, refl)
optional_back (some zero) h = absurd (omega arith)
optional_back (some (suc id)) h = (h.1, refl)

-- Behind the last field, the tests decide.
pub done_lem :
    {A : Type 0} (test : Bool) {a b : A} → test ≡ true → a ≡ b → done_if test a [] ≡ some (b, [])
done_lem test e k = rw (e, finish_nil, k) refl

pub pure_if_lem :
    {A : Type 0} (test : Bool) (a : A) (rest : Text)
    → test ≡ true
    → pure_if test a rest ≡ some (a, rest)
pure_if_lem test a rest h = rw h refl

pub ×_path :
    {A B : Type 0} {a a' : A} {b b' : B} → a ≡ a' → b ≡ b' → ◌≡◌ {A = A × B} (a, b) (a', b')
×_path p q = rw (p, q) refl

pub tag_lem : (c : ℕ) (rest : Text) → ltb 32 c ≡ true → read_char (c ∷ rest) ≡ some (c, rest)
unfolding is_space
tag_lem c rest h = read_char_lem c rest (ground arith)
