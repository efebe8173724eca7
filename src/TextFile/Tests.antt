-- ===== src/TextFile/Tests.antt =====
-- Runs of the encodings of src/text_file.cpp, and the theorem applied there.
use mwfl.Prelude.{
  ℕ, ◌≤◌, ◌<◌, ◌≡◌, refl, sym, ap, subst, ◌∙◌, false, Option, none, some, List, [], ◌∷◌, arith, leb,
  if◌then◌else◌, codes, is_nil, any,
}
use mwfl.TextFile.{
  utf16_be, Utf8Api, is_valid_utf16, is_high, is_low, int_max, bytes_of, bom, starts_with,
  encode_as, encode, decode,
}
use mwfl.TextFile.RoundTrip.{is_marked, Converts, decode-encode}

-- Conversions of ASCII alone, which leave it as it is.
unfoldable ascii : List ℕ → Option (List ℕ)
ascii codes = if any (λ c. leb 128 c) codes then none else some codes

instance abbrev ascii_api : Utf8Api
ascii_api = record { to_wide = ascii; to_multi_byte = ascii }

ascii_same : (t b : List ℕ) → ascii t ≡ some b → t ≡ b
unfolding ascii
ascii_same t b e = ground (arith, e)

ascii_front : (c : ℕ) (t b : List ℕ) → ascii (c ∷ t) ≡ some b → c < 128
unfolding ascii any
ascii_front c t b e = ground (arith, e)

no_mark :
    (t : List ℕ)
    → ascii t ≡ some t
    → (starts_with (255 ∷ 254 ∷ []) t ≡ false) × (starts_with (254 ∷ 255 ∷ []) t ≡ false)
unfolding starts_with
no_mark [] e = (refl, refl)
no_mark (c ∷ t) e =
    (ground (arith, ascii_front c t (c ∷ t) e), ground (arith, ascii_front c t (c ∷ t) e))

mark : (t : List ℕ) → ascii t ≡ some t → starts_with bom t ≡ is_marked t
unfolding starts_with
mark [] e = refl
mark (c ∷ t) e = ground (arith, ascii_front c t (c ∷ t) e)

ascii_self : (t b : List ℕ) → ascii t ≡ some b → ascii b ≡ some b
ascii_self t b e = subst (λ x. ascii x ≡ some b) (ascii_same t b e) e

ascii_api-Converts : Converts ascii_api
ascii_api-Converts = record {
  back = λ t b e. ascii_self t b e ∙ ap some (sym (ascii_same t b e));
  not_empty = λ t b e. ap is_nil (sym (ascii_same t b e));
  no_mark = λ t b e. no_mark b (ascii_self t b e);
  mark = λ t b e. mark b (ascii_self t b e) ∙ ap is_marked (sym (ascii_same t b e));
}

-- U+1F600 as two surrogates, and a high one alone.
encode-smile : encode (55357 ∷ 56832 ∷ []) utf16_be ≡ some (254 ∷ 255 ∷ 216 ∷ 61 ∷ 222 ∷ 0 ∷ [])
unfolding encode encode_as is_valid_utf16 is_high is_low bytes_of
encode-smile = refl

encode-alone : encode (55357 ∷ 65 ∷ []) utf16_be ≡ none
unfolding encode is_valid_utf16 is_high is_low
encode-alone = refl

six_bytes : 6 ≤ int_max
unfolding int_max
six_bytes = omega arith

decode-encode_example :
    decode (254 ∷ 255 ∷ 216 ∷ 61 ∷ 222 ∷ 0 ∷ []) ≡ (utf16_be, some (55357 ∷ 56832 ∷ []))
decode-encode_example =
    decode-encode (55357 ∷ 56832 ∷ []) utf16_be {bytes = 254 ∷ 255 ∷ 216 ∷ 61 ∷ 222 ∷ 0 ∷ []}
      ascii_api-Converts (omega arith) refl six_bytes encode-smile
