-- ===== src/TextSearch/Replace.antt =====
-- `ReplaceAllText` of src/text_search.cpp ends, since each round leaves less of the text to search.
use mwfl.Prelude.{
  ℕ, zero, suc, ◌+◌, ◌-◌, ◌*◌, ◌≤◌, ◌<◌, min, ◌≡◌, refl, sym, ap, subst, inl, inr, true, false,
  some, [], ◌∷◌, ◌++◌, arith, Text, u64_mod, Bool-cases, Option-cases, is_nil, is_some, length,
  take, drop, length-append, length-take, length-drop,
}
use mwfl.TextSearch.{CharApi, TextSearchOptions, find_text_match, replace_from, replace_all_text}
use mwfl.TextSearch.First.{IsFirst, Found, find_text_match_lem}

mul_step : (a b r : ℕ) → a < b → a * r + r ≤ b * r
mul_step a b r h =
    let e : b ≡ suc a + (b - suc a) = omega arith in
    subst (λ c. a * r + r ≤ c * r) (sym e) (omega arith)

length_positive : (xs : Text) → is_nil xs ≡ false → 0 < length xs
length_positive [] h = cc
length_positive (x ∷ xs) h = omega arith

-- What is left to search, times the length that each replacement may add.
abbrev room : Text → ℕ → Text → ℕ
room text offset replacement = (length text - offset) * length replacement

module _ ⦃chars : CharApi⦄ (query replacement : Text) (options : TextSearchOptions) where
  -- A match that a forward search from an offset finds.
  found_fits :
      (text : Text) (offset : ℕ) {found : ℕ}
      → options.backwards ≡ false
      → is_nil query ≡ false
      → offset ≤ length text
      → length text + length query + 1 < u64_mod
      → find_text_match text query offset options ≡ some found
      → (offset ≤ found) × (found + length query ≤ length text)
  found_fits text offset {found = found} forth some_query inside fits hit =
      let first : IsFirst text query options (min offset (length text)) (some found) =
        subst (IsFirst text query options (min offset (length text))) hit (
          subst
            (λ b.
              Found text query options b (min offset (length text))
                (find_text_match text query offset options))
            forth (find_text_match_lem text query options offset some_query fits)) in
      (omega (arith, first.0, inside), first.1)

  abbrev replaced : Text → ℕ → Text
  replaced text found = take found text ++ replacement ++ drop (found + length query) text

  length-replaced :
      (text : Text) (found : ℕ)
      → found + length query ≤ length text
      → length (replaced text found) + length query ≡ length text + length replacement
  length-replaced text found within = omega (
    arith,
    within,
    length-append (take found text ++ replacement) (drop (found + length query) text),
    length-append (take found text) replacement,
    length-take found text,
    length-drop (found + length query) text,
  )

  -- The room after a replacement.
  room-replaced :
      (text : Text) (offset found : ℕ)
      → is_nil query ≡ false
      → offset ≤ found
      → found + length query ≤ length text
      → length (replaced text found)
          + room (replaced text found) (found + length replacement) replacement
        ≤ length text + room text offset replacement
  room-replaced text offset found some_query from within =
      let size = length-replaced text found within in
      let positive : 0 < length query = length_positive query some_query in
      let less : length (replaced text found) - (found + length replacement)
          < length text - offset =
        omega (arith, size, positive, from, within) in
      omega (
        arith,
        size,
        mul_step (length (replaced text found) - (found + length replacement))
            (length text - offset) (length replacement) less,
      )

  replace_from-ends :
      (fuel : ℕ) (text : Text) (offset count : ℕ)
      → options.backwards ≡ false
      → is_nil query ≡ false
      → length text < fuel + offset
      → offset ≤ length text
      → length text + room text offset replacement + length query + 1 < u64_mod
      → is_some (replace_from fuel query replacement options text offset count) ≡ true
  unfolding replace_from
  replace_from-ends zero text offset count forth some_query enough inside fits =
      absurd (omega (arith, enough, inside))
  replace_from-ends (suc fuel) text offset count forth some_query enough inside fits =
      elim (Option-cases (find_text_match text query offset options)) [
        | inl done ↦ ground (arith, done)
        | inr (found, hit) ↦
            let (from, within) =
              found_fits text offset {found = found} forth some_query inside (omega (arith, fits))
                hit in
            let size = length-replaced text found within in
            let positive : 0 < length query = length_positive query some_query in
            ground (
              arith,
              hit,
              replace_from-ends fuel (replaced text found) (found + length replacement) (count + 1)
                  forth some_query (omega (arith, size, positive, from, within, enough))
                  (omega (arith, size, within))
                  (omega (arith, fits, room-replaced text offset found some_query from within)),
            )
      ]

-- Unless the text can grow to nearly 2 ^ 64 units, the replacement of all matches ends, after no more
-- rounds than the text has units and one.
pub replace_all_text-ends :
    ⦃chars : CharApi⦄
    → (text query replacement : Text) (options : TextSearchOptions)
    → length text + length text * length replacement + length query + 1 < u64_mod
    → is_some (replace_all_text text query replacement options) ≡ true
unfolding replace_all_text replace_from find_text_match
replace_all_text-ends text query replacement options fits = elim (Bool-cases (is_nil query)) [
  | inl empty ↦ ground (arith, empty)
  | inr some_query ↦
      let whole : length text - 0 ≡ length text = omega arith in
      replace_from-ends query replacement (record options { backwards = false }) (suc (length text))
        text 0 0 refl some_query (omega arith) (omega arith)
        (omega (arith, fits, ap (λ n. n * length replacement) whole))
]
