-- ===== src/TextSearch.antt =====
-- Searching and replacing in a text: src/text_search.cpp and include/mwfl/text_search.h. The sum of
-- an offset and a length wraps at 2 ^ 64, as `size_t` does. A read outside the text has no meaning in
-- the source; here it is a mismatch.
pub mod First
pub mod Replace
mod Tests
use mwfl.Prelude.{
  ℕ, zero, suc, ◌+◌, ◌-◌, ◌*◌, ◌/◌, ◌%◌, ◌^◌, ◌≤◌, ◌<◌, min, max, ◌≡◌, refl, sym, ap, subst, ◌∙◌,
  ◌≢◌, ◌↔◌, ◌⊎◌, inl, inr, Bool, true, false, not, ◌&&◌, ◌||◌, Option, none, some, List, [], ◌∷◌,
  ◌++◌, map, Mem, Nodup, Perm, arith, Text, u64_mod, next_u64, ltb, leb, ◌==◌, if◌then◌else◌,
  ltb→lt, lt→ltb, leb→le, ==_iff, ==_refl, Bool-cases, Option-cases, Either-cases, text_eq,
  text_eq_iff, opt_eq, ◌>>=◌, codes, is_nil, is_some, length, get_elem?, take, drop, insert_at,
  erase_idx, modify, find_index, find, any, erase_if, length-append, length-take, length-drop,
  length-insert_at, length-erase_idx, length-modify, get_elem?-insert_at_self, erase_idx-insert_at,
  get_elem?_of_lt, lt-length_of_get_elem?, mem_of_get_elem?, insert_at-perm, erase_idx-perm,
  find_index_sound, find_index-any, length-map, get_elem?-map, map-insert_at, map-erase_idx,
  map-modify, shift, All, All-append, All-insert_at, All-erase_idx, All-modify, All-take,
  All-erase_if, All-get_elem?, get_elem?-erase_idx_lt, get_elem?-erase_idx_le, heir,
  get_elem?-min-erase_idx,
}

-- `std::towlower` and `std::iswalnum`.
pub record CharApi : Type 0 where
  pub towlower : ℕ → ℕ
  pub iswalnum : ℕ → Bool

pub record TextSearchOptions : Type 0 where
  pub match_case : Bool
  pub whole_word : Bool
  pub backwards : Bool

-- `offset + query.size()`.
unfoldable pub end_of : Text → ℕ → ℕ
end_of query offset = (offset + length query) % u64_mod

module _ ⦃chars : CharApi⦄ where
  unfoldable pub is_word_character : ℕ → Bool
  is_word_character c = chars.iswalnum c || (c == 95)

  unfoldable pub same_character : TextSearchOptions → ℕ → ℕ → Bool
  same_character options a b =
      if options.match_case then a == b else chars.towlower a == chars.towlower b

  -- The loop over the query, against the text from the offset on.
  unfoldable pub starts_with : TextSearchOptions → Text → Text → Bool
  starts_with options text [] = true
  starts_with options [] (q ∷ query) = false
  starts_with options (c ∷ text) (q ∷ query) =
      same_character options c q && starts_with options text query

  -- No word character at a position.
  abbrev pub breaks_at : Option ℕ → Bool
  breaks_at none = true
  breaks_at (some c) = not (is_word_character c)

  unfoldable pub is_whole_word : Text → Text → ℕ → Bool
  is_whole_word text query offset =
      ((offset == 0) || breaks_at (get_elem? text (offset - 1)))
      && ((end_of query offset == length text) || breaks_at (get_elem? text (end_of query offset)))

  unfoldable pub text_matches_at : Text → Text → ℕ → TextSearchOptions → Bool
  text_matches_at text query offset options =
      if is_nil query || ltb (length text) (end_of query offset)
      then false
      else if not (starts_with options (drop offset text) query)
      then false
      else not options.whole_word || is_whole_word text query offset

  -- The loop forwards; it has fuel for one round per offset.
  unfoldable pub find_forwards : ℕ → Text → Text → TextSearchOptions → ℕ → Option ℕ
  find_forwards zero text query options offset = none
  find_forwards (suc fuel) text query options offset =
      elim (ltb (length text) (end_of query offset)) [
        | true ↦ none
        | false ↦ elim (text_matches_at text query offset options) [
          | true ↦ some offset
          | false ↦ find_forwards fuel text query options (offset + 1)
        ]
      ]

  -- The loop backwards, from the offset before the given one.
  unfoldable pub find_backwards : Text → Text → TextSearchOptions → ℕ → Option ℕ
  find_backwards text query options zero = none
  find_backwards text query options (suc offset) =
      elim (text_matches_at text query offset options) [
        | true ↦ some offset
        | false ↦ find_backwards text query options offset
      ]

  unfoldable pub find_text_match : Text → Text → ℕ → TextSearchOptions → Option ℕ
  find_text_match text query start options =
      let offset = min start (length text) in
      if is_nil query
      then none
      else if not options.backwards
      then find_forwards (suc (length text)) text query options offset
      else find_backwards text query options offset

  -- The loop; `none` where the fuel runs out.
  unfoldable pub replace_from :
      ℕ → Text → Text → TextSearchOptions → Text → ℕ → ℕ → Option (Text × ℕ)
  replace_from zero query replacement options text offset count = none
  replace_from (suc fuel) query replacement options text offset count =
      elim (find_text_match text query offset options) [
        | none ↦ some (text, count)
        | some found ↦
            replace_from fuel query replacement options
              (take found text ++ replacement ++ drop (found + length query) text)
              (found + length replacement) (count + 1)
      ]

  unfoldable pub replace_all_text : Text → Text → Text → TextSearchOptions → Option (Text × ℕ)
  replace_all_text text query replacement options =
      replace_from (suc (length text)) query replacement (record options { backwards = false }) text
        0 0
