-- ===== src/TextSearch/Tests.antt =====
-- Runs of src/text_search.cpp at concrete texts, and the theorems applied there.
use mwfl.Prelude.{
  ◌+◌, ◌≡◌, refl, true, false, ◌&&◌, ◌||◌, some, arith, leb, if◌then◌else◌, codes, is_some,
}
use mwfl.TextSearch.{
  CharApi, TextSearchOptions, end_of, is_word_character, same_character, starts_with, is_whole_word,
  text_matches_at, find_forwards, find_backwards, find_text_match, replace_from, replace_all_text,
}
use mwfl.TextSearch.First.{Found, find_text_match_lem}
use mwfl.TextSearch.Replace.{replace_all_text-ends}

-- The ASCII letters.
instance abbrev ascii : CharApi
ascii = record {
  towlower = λ c. if leb 65 c && leb c 90 then c + 32 else c;
  iswalnum = λ c. (leb 65 c && leb c 90) || (leb 97 c && leb c 122);
}

abbrev plain : TextSearchOptions
plain = record { match_case = false; whole_word = false; backwards = false }

abbrev words : TextSearchOptions
words = record { match_case = true; whole_word = true; backwards = false }

find-plain : find_text_match (codes "xABab") (codes "ab") 0 plain ≡ some 1
unfolding find_text_match find_forwards text_matches_at starts_with same_character end_of
find-plain = refl

find-back :
    find_text_match (codes "xABab") (codes "ab") 5 (record plain { backwards = true }) ≡ some 3
unfolding find_text_match find_backwards text_matches_at starts_with same_character end_of
find-back = refl

find-words : find_text_match (codes "cats cat") (codes "cat") 0 words ≡ some 5
unfolding find_text_match find_forwards text_matches_at starts_with same_character end_of
    is_whole_word is_word_character
find-words = refl

replace-plain :
    replace_all_text (codes "aaa") (codes "a") (codes "aa") plain ≡ some (codes "aaaaaa", 3)
unfolding replace_all_text replace_from find_text_match find_forwards text_matches_at starts_with
    same_character end_of
replace-plain = refl

find_text_match_lem_example :
    Found
      (codes "xABab")
      (codes "ab")
      plain
      false
      2
      (find_text_match (codes "xABab") (codes "ab") 2 plain)
find_text_match_lem_example =
    find_text_match_lem (codes "xABab") (codes "ab") plain 2 refl (omega arith)

replace_all_text-ends_example :
    is_some (replace_all_text (codes "aaa") (codes "a") (codes "aa") plain) ≡ true
replace_all_text-ends_example =
    replace_all_text-ends (codes "aaa") (codes "a") (codes "aa") plain (omega arith)
