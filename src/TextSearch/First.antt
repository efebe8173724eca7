-- ===== src/TextSearch/First.antt =====
-- What `FindTextMatch` of src/text_search.cpp finds: the first match in its direction.
use mwfl.Prelude.{
  ℕ, zero, suc, ◌+◌, ◌-◌, ◌≤◌, ◌<◌, min, ◌≡◌, inl, inr, Bool, true, false, Option, none, some,
  arith, Text, u64_mod, ltb, ◌==◌, ==_iff, Bool-cases, is_nil, length,
}
use mwfl.TextSearch.{
  CharApi, TextSearchOptions, end_of, text_matches_at, find_forwards, find_backwards,
  find_text_match,
}

module _ ⦃chars : CharApi⦄ (text query : Text) (options : TextSearchOptions) where
  -- The first match at an offset or behind it, or none.
  abbrev pub IsFirst : ℕ → Option ℕ → Type 0
  IsFirst start none =
      (j : ℕ)
      → start ≤ j
      → j < u64_mod - length query
      → text_matches_at text query j options ≡ false
  IsFirst start (some i) =
      (start ≤ i)
      × (i + length query ≤ length text)
      × (text_matches_at text query i options ≡ true)
      × ((j : ℕ) → start ≤ j → j < i → text_matches_at text query j options ≡ false)

  -- The last match before an offset, or none.
  abbrev pub IsLast : ℕ → Option ℕ → Type 0
  IsLast start none = (j : ℕ) → j < start → text_matches_at text query j options ≡ false
  IsLast start (some i) =
      (i < start)
      × (text_matches_at text query i options ≡ true)
      × ((j : ℕ) → i < j → j < start → text_matches_at text query j options ≡ false)

  beyond :
      (j : ℕ)
      → j < u64_mod - length query
      → length text < j + length query
      → text_matches_at text query j options ≡ false
  unfolding text_matches_at end_of
  beyond j small past = ground (arith, small, past)

  past_end :
      (offset j : ℕ)
      → length text + length query + 1 < u64_mod
      → offset ≤ length text + 1
      → ltb (length text) (end_of query offset) ≡ true
      → offset ≤ j
      → length text < j + length query
  unfolding end_of
  past_end offset j fits inside past from = ground (arith, fits, inside, past, from)

  within_end :
      (offset : ℕ)
      → length text + length query + 1 < u64_mod
      → offset ≤ length text + 1
      → ltb (length text) (end_of query offset) ≡ false
      → offset + 1 ≤ length text + 1
  unfolding end_of
  within_end offset fits inside within = ground (arith, fits, inside, within)

  end_within :
      (offset : ℕ)
      → length text + length query + 1 < u64_mod
      → offset ≤ length text + 1
      → ltb (length text) (end_of query offset) ≡ false
      → offset + length query ≤ length text
  unfolding end_of
  end_within offset fits inside within = ground (arith, fits, inside, within)

  -- No match at an offset is none at an offset that is equal to it.
  miss_at :
      (offset j : ℕ)
      → (j == offset) ≡ true
      → text_matches_at text query offset options ≡ false
      → text_matches_at text query j options ≡ false
  miss_at offset j e miss = rw ((==_iff j offset).0 e) miss

  IsFirst-later :
      (offset : ℕ) (o : Option ℕ)
      → text_matches_at text query offset options ≡ false
      → IsFirst (offset + 1) o
      → IsFirst offset o
  IsFirst-later offset none miss h = λ j from small. elim (Bool-cases (j == offset)) [
    | inl same ↦ miss_at offset j same miss
    | inr other ↦ h j (ground (arith, from, other)) small
  ]
  IsFirst-later offset (some i) miss (from, within, hit, before) = (
    omega arith,
    within,
    hit,
    λ j start until. elim (Bool-cases (j == offset)) [
      | inl same ↦ miss_at offset j same miss
      | inr other ↦ before j (ground (arith, start, other)) until
    ],
  )

  find_forwards-IsFirst :
      (fuel offset : ℕ)
      → length text < fuel + offset
      → length text + length query + 1 < u64_mod
      → offset ≤ length text + 1
      → IsFirst offset (find_forwards fuel text query options offset)
  unfolding find_forwards
  find_forwards-IsFirst zero offset enough fits inside =
      λ j from small. beyond j small (omega (arith, from, enough))
  find_forwards-IsFirst (suc fuel) offset enough fits inside =
      elim (Bool-cases (ltb (length text) (end_of query offset))) [
        | inl past ↦
            rw (past, find_forwards)
              (λ j from small. beyond j small (past_end offset j fits inside past from))
        | inr within ↦ elim (Bool-cases (text_matches_at text query offset options)) [
          | inl hit ↦
              rw (within, find_forwards, hit)
                (
                  omega arith,
                  end_within offset fits inside within,
                  hit,
                  λ j from until. absurd (omega (arith, from, until)),
                )
          | inr miss ↦
              rw (within, find_forwards, miss)
                (IsFirst-later offset _ miss (
                  find_forwards-IsFirst fuel (offset + 1) (omega (arith, enough)) fits
                    (within_end offset fits inside within)))
        ]
      ]

  IsLast-later :
      (start : ℕ) (o : Option ℕ)
      → text_matches_at text query start options ≡ false
      → IsLast start o
      → IsLast (suc start) o
  IsLast-later start none miss h = λ j until. elim (Bool-cases (j == start)) [
    | inl same ↦ miss_at start j same miss
    | inr other ↦ h j (ground (arith, until, other))
  ]
  IsLast-later start (some i) miss (from, hit, after) = (
    omega arith,
    hit,
    λ j since until. elim (Bool-cases (j == start)) [
      | inl same ↦ miss_at start j same miss
      | inr other ↦ after j since (ground (arith, until, other))
    ],
  )

  find_backwards-IsLast : (start : ℕ) → IsLast start (find_backwards text query options start)
  unfolding find_backwards
  find_backwards-IsLast zero = λ j until. absurd (omega (arith, until))
  find_backwards-IsLast (suc start) = elim (Bool-cases (text_matches_at text query start options)) [
    | inl hit ↦
        rw (hit, find_backwards)
          (omega arith, hit, λ j since until. absurd (omega (arith, since, until)))
    | inr miss ↦ rw (miss, find_backwards) (IsLast-later start _ miss (find_backwards-IsLast start))
  ]

  -- In its direction, the first of two searches.
  abbrev pub Found : Bool → ℕ → Option ℕ → Type 0
  Found false start o = IsFirst start o
  Found true start o = IsLast start o

  -- Unless the sizes come near 2 ^ 64, a search for a text that is not empty finds the first match at
  -- the start or behind it, or with `backwards` the last match before the start, where the start is
  -- cut to the size of the text. It finds nothing only where there is no such match
  -- at an offset whose sum with the size of the query does not wrap.
  pub find_text_match_lem :
      (start : ℕ)
      → is_nil query ≡ false
      → length text + length query + 1 < u64_mod
      → Found options.backwards (min start (length text)) (find_text_match text query start options)
  unfolding find_text_match
  find_text_match_lem start some_query fits = elim (Bool-cases options.backwards) [
    | inl back ↦ simp (some_query, back) (find_backwards-IsLast (min start (length text)))
    | inr forth ↦
        simp (some_query, forth)
          (find_forwards-IsFirst (suc (length text)) (min start (length text)) (omega arith) fits
            (omega arith))
  ]
