-- ===== src/RecentFiles/Format.antt =====
-- The text of the `REG_MULTI_SZ` value of src/recent_files.cpp: what the save writes and how the load
-- takes it apart. The loop of the load has fuel for one round per code unit.
use mwfl.Prelude.{
  ℕ, zero, suc, ◌+◌, ◌-◌, ◌<◌, ◌≡◌, refl, sym, ap, subst, ◌∙◌, Bool, true, false, ◌&&◌, ◌||◌,
  Option, none, some, List, [], ◌∷◌, ◌++◌, arith, Text, ltb, leb, ◌==◌, if◌then◌else◌, is_nil,
  length, get_elem?, take, drop, find_index, any, length-append, All,
}
use mathlib.Core.List.{append_assoc, append-nil}
use mwfl.RecentFiles.{path_is_invalid}

-- The loop over the paths.
unfoldable pub encode_paths : List Text → List ℕ
encode_paths [] = []
encode_paths (p ∷ ps) = p ++ 0 ∷ encode_paths ps

unfoldable pub encode : List Text → List ℕ
encode ps = (encode_paths ps ++ 0 ∷ []) ++ (if is_nil ps then 0 ∷ [] else [])

abbrev pub is_zero : Option ℕ → Bool
is_zero none = false
is_zero (some c) = c == 0

unfoldable pub ends_properly : List ℕ → Bool
ends_properly units =
    leb 2 (length units)
    && is_zero (get_elem? units (length units - 1))
    && is_zero (get_elem? units (length units - 2))

-- `offset + 1 < data.size() && data[offset] != 0`, negated.
unfoldable pub at_end : List ℕ → Bool
at_end units = ltb (length units) 2 || is_zero (get_elem? units 0)

-- The loop over the units that are left, `none` where a text does not end.
unfoldable pub parse_from : ℕ → List ℕ → Option (List Text)
parse_from zero units = none
parse_from (suc fuel) units = elim (at_end units) [
  | true ↦ some []
  | false ↦ elim (find_index (λ c. c == 0) units) [
    | none ↦ none
    | some end ↦ elim (parse_from fuel (drop (suc end) units)) [
      | none ↦ none
      | some ps ↦ some (take end units ∷ ps)
    ]
  ]
]

unfoldable pub parse : List ℕ → Option (List Text)
parse units = if ends_properly units then parse_from (suc (length units)) units else none

find_index-append :
    (p rest : List ℕ)
    → any (λ c. c == 0) p ≡ false
    → find_index (λ c. c == 0) (p ++ 0 ∷ rest) ≡ some (length p)
unfolding find_index any
find_index-append [] rest h = refl
find_index-append (c ∷ p) rest h = ground (arith, find_index-append p rest)

take-append : (p rest : List ℕ) → take (length p) (p ++ rest) ≡ p
take-append [] rest = refl
take-append (c ∷ p) rest = ap (λ t. c ∷ t) (take-append p rest)

drop-append : (p rest : List ℕ) (c : ℕ) → drop (suc (length p)) (p ++ c ∷ rest) ≡ rest
drop-append [] rest c = refl
drop-append (x ∷ p) rest c = drop-append p rest c

length-append_one : (xs rest : List ℕ) → length (xs ++ 0 ∷ rest) ≡ suc (length xs + length rest)
length-append_one xs rest = omega (arith, length-append xs (0 ∷ rest))

any_step : (c : ℕ) (p : List ℕ) → any (λ d. d == 0) (c ∷ p) ≡ ((c == 0) || any (λ d. d == 0) p)
unfolding any
any_step c p = ground arith

parse_from-nothing : (fuel : ℕ) → parse_from (suc fuel) (0 ∷ []) ≡ some []
unfolding parse_from at_end
parse_from-nothing fuel = refl

parse_from_step :
    (fuel : ℕ) (units : List ℕ) {end : ℕ} {ps : List Text}
    → at_end units ≡ false
    → find_index (λ c. c == 0) units ≡ some end
    → parse_from fuel (drop (suc end) units) ≡ some ps
    → parse_from (suc fuel) units ≡ some (take end units ∷ ps)
unfolding parse_from
parse_from_step fuel units going found left = ground (arith, going, found, left)

-- A path at the front of the units is taken off, and the rest is parsed.
parse_from-append :
    (fuel : ℕ) (p rest : List ℕ) {ps : List Text}
    → path_is_invalid p ≡ false
    → parse_from fuel rest ≡ some ps
    → parse_from (suc fuel) (p ++ 0 ∷ rest) ≡ some (p ∷ ps)
unfolding path_is_invalid at_end
parse_from-append fuel [] rest v h = cc
parse_from-append fuel (c ∷ p) rest {ps = ps} v h =
    let going : at_end ((c ∷ p) ++ 0 ∷ rest) ≡ false =
      ground (arith, length-append_one p rest, any_step c p) in
    let found = find_index-append (c ∷ p) rest (ground arith) in
    let left : parse_from fuel (drop (suc (length (c ∷ p))) ((c ∷ p) ++ 0 ∷ rest)) ≡ some ps =
      rw (drop-append (c ∷ p) rest 0) h in
    subst (λ t. parse_from (suc fuel) ((c ∷ p) ++ 0 ∷ rest) ≡ some (t ∷ ps))
      (take-append (c ∷ p) (0 ∷ rest)) (parse_from_step fuel ((c ∷ p) ++ 0 ∷ rest) going found left)

parse_from-encode_paths :
    (ps : List Text) (fuel : ℕ)
    → length (encode_paths ps) < fuel
    → All (λ p. path_is_invalid p ≡ false) ps
    → parse_from fuel (encode_paths ps ++ 0 ∷ []) ≡ some ps
unfolding encode_paths
parse_from-encode_paths ps zero h v = elim h [ ]
parse_from-encode_paths [] (suc fuel) h v = parse_from-nothing fuel
parse_from-encode_paths (p ∷ ps) (suc fuel) h v =
    subst (λ l. parse_from (suc fuel) l ≡ some (p ∷ ps))
      (sym (append_assoc p (0 ∷ encode_paths ps) (0 ∷ [])))
      (parse_from-append fuel p (encode_paths ps ++ 0 ∷ []) v.0 (
        parse_from-encode_paths ps fuel (omega (arith, length-append_one p (encode_paths ps))) v.1))

get_elem?-last : (xs : List ℕ) → get_elem? (xs ++ 0 ∷ 0 ∷ []) (suc (length xs)) ≡ some 0
get_elem?-last [] = refl
get_elem?-last (x ∷ xs) = get_elem?-last xs

get_elem?-before_last : (xs : List ℕ) → get_elem? (xs ++ 0 ∷ 0 ∷ []) (length xs) ≡ some 0
get_elem?-before_last [] = refl
get_elem?-before_last (x ∷ xs) = get_elem?-before_last xs

ends_properly-last_two : (xs : List ℕ) → ends_properly (xs ++ 0 ∷ 0 ∷ []) ≡ true
unfolding ends_properly
ends_properly-last_two xs =
    let size : length (xs ++ 0 ∷ 0 ∷ []) ≡ suc (suc (length xs)) =
      omega (arith, length-append xs (0 ∷ 0 ∷ [])) in
    let first : suc (suc (length xs)) - 1 ≡ suc (length xs) = omega arith in
    let second : suc (suc (length xs)) - 2 ≡ length xs = omega arith in
    rw (size, first, second, get_elem?-last xs, get_elem?-before_last xs) (ground arith)

-- The units before the last two.
unfoldable body : Text → List Text → List ℕ
body p [] = p
body p (q ∷ ps) = p ++ 0 ∷ body q ps

encode_paths-body : (p : Text) (ps : List Text) → encode_paths (p ∷ ps) ≡ body p ps ++ 0 ∷ []
unfolding encode_paths body
encode_paths-body p [] = refl
encode_paths-body p (q ∷ ps) =
    ap (λ l. p ++ 0 ∷ l) (encode_paths-body q ps) ∙ sym (append_assoc p (0 ∷ body q ps) (0 ∷ []))

encode_some : (p : Text) (ps : List Text) → encode (p ∷ ps) ≡ encode_paths (p ∷ ps) ++ 0 ∷ []
unfolding encode
encode_some p ps = append-nil (encode_paths (p ∷ ps) ++ 0 ∷ [])

encode-ends_properly : (p : Text) (ps : List Text) → ends_properly (encode (p ∷ ps)) ≡ true
encode-ends_properly p ps =
    rw (encode_some p ps, encode_paths-body p ps, append_assoc (body p ps) (0 ∷ []) (0 ∷ []))
      (ends_properly-last_two (body p ps))

parse-nothing : parse (encode []) ≡ some []
unfolding parse ends_properly parse_from at_end encode encode_paths
parse-nothing = refl

-- What the save writes for proper paths, the load takes apart into the same paths.
pub parse-encode :
    (ps : List Text) → All (λ p. path_is_invalid p ≡ false) ps → parse (encode ps) ≡ some ps
unfolding parse
parse-encode [] v = parse-nothing
parse-encode (p ∷ ps) v =
    rw (encode-ends_properly p ps, encode_some p ps)
      (parse_from-encode_paths (p ∷ ps) (suc (length (encode_paths (p ∷ ps) ++ 0 ∷ [])))
        (omega (arith, length-append (encode_paths (p ∷ ps)) (0 ∷ []))) v)
