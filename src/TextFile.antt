-- ===== src/TextFile.antt =====
-- The encodings of text files: `IsValidUtf16`, `DecodeUtf8`, `DecodeUtf16`, `Encode` and the choice of
-- the decoder in `ReadTextFile`, all of src/text_file.cpp. The children Files and Write have the reading
-- and the atomic writing of files. The conversions from and to UTF-8 that
-- Windows makes are parameters. A byte is a number below 256.
pub mod RoundTrip
pub mod Files
pub mod Write
mod Tests
use mwfl.Prelude.{
  ℕ, zero, suc, ◌+◌, ◌-◌, ◌*◌, ◌/◌, ◌%◌, ◌^◌, ◌≤◌, ◌<◌, min, max, ◌≡◌, refl, sym, ap, subst, ◌∙◌,
  ◌≢◌, ◌↔◌, ◌⊎◌, inl, inr, Bool, true, false, not, ◌&&◌, ◌||◌, Option, none, some, List, [], ◌∷◌,
  ◌++◌, map, Mem, Nodup, Perm, arith, Text, u64_mod, next_u64, ltb, leb, ◌==◌, if◌then◌else◌,
  ltb→lt, lt→ltb, leb→le, ==_iff, ==_refl, Bool-cases, Option-cases, Either-cases, text_eq,
  text_eq_iff, opt_eq, ◌>>=◌, codes, is_nil, is_some, length, get_elem?, take, drop, insert_at,
  erase_idx, modify, find_index, find, any, erase_if, length-append, length-take, length-drop,
  length-insert_at, length-erase_idx, length-modify, get_elem?-insert_at_self, erase_idx-insert_at,
  get_elem?_of_lt, lt-length_of_get_elem?, mem_of_get_elem?, insert_at-perm, erase_idx-perm,
  find_index_sound, find_index-any, length-map, get_elem?-map, map-insert_at, map-erase_idx,
  map-modify, shift, All, All-append, All-insert_at, All-erase_idx, All-modify, All-take,
  All-erase_if, All-get_elem?, get_elem?-erase_idx_lt, get_elem?-erase_idx_le, heir,
  get_elem?-min-erase_idx,
}

pub data TextEncoding : Type 0 where
  utf8 utf8_bom utf16_le utf16_be : TextEncoding

-- `MultiByteToWideChar` and `WideCharToMultiByte` for UTF-8, which refuse what is not valid.
pub record Utf8Api : Type 0 where
  pub to_wide : List ℕ → Option Text
  pub to_multi_byte : Text → Option (List ℕ)

unfoldable pub is_high : ℕ → Bool
is_high v = leb 55296 v && leb v 56319

unfoldable pub is_low : ℕ → Bool
is_low v = leb 56320 v && leb v 57343

-- `IsValidUtf16`: every high surrogate stands before a low one, and no low one stands alone.
unfoldable pub is_valid_utf16 : Text → Bool
is_valid_utf16 [] = true
is_valid_utf16 (v ∷ []) = not (is_high v) && not (is_low v)
is_valid_utf16 (v ∷ w ∷ t) = elim (is_high v) [
  | true ↦ elim (is_low w) [ true ↦ is_valid_utf16 t | false ↦ false ]
  | false ↦ elim (is_low v) [ true ↦ false | false ↦ is_valid_utf16 (w ∷ t) ]
]

-- `(std::numeric_limits<int>::max)()`.
unfoldable pub int_max : ℕ
int_max = 2147483647

-- The two bytes of each unit.
unfoldable pub bytes_of : Bool → Text → List ℕ
bytes_of big [] = []
bytes_of big (u ∷ t) =
    (if big then u / 256 % 256 else u % 256)
    ∷ (if big then u % 256 else u / 256 % 256)
    ∷ bytes_of big t

unfoldable pub units_of : Bool → List ℕ → Text
units_of big [] = []
units_of big (a ∷ []) = []
units_of big (a ∷ b ∷ bytes) = (if big then a * 256 + b else a + b * 256) ∷ units_of big bytes

unfoldable pub decode_utf16 : List ℕ → Bool → Option Text
decode_utf16 bytes big =
    if not (length bytes % 2 == 0)
    then none
    else if is_valid_utf16 (units_of big bytes)
    then some (units_of big bytes)
    else none

abbrev pub bom : List ℕ
bom = 239 ∷ 187 ∷ 191 ∷ []

unfoldable pub starts_with : List ℕ → List ℕ → Bool
starts_with [] bytes = true
starts_with (m ∷ mark) [] = false
starts_with (m ∷ mark) (b ∷ bytes) = (m == b) && starts_with mark bytes

module _ ⦃os : Utf8Api⦄ where
  unfoldable pub decode_utf8 : List ℕ → Option Text
  decode_utf8 bytes =
      if ltb int_max (length bytes)
      then none
      else if is_nil bytes
      then some []
      else os.to_wide bytes

  -- The branch of `Encode` for UTF-8, with its prefix.
  unfoldable pub encode_utf8 : List ℕ → Text → Option (List ℕ)
  encode_utf8 prefix text =
      if ltb int_max (length text)
      then none
      else if is_nil text
      then some prefix
      else do bytes ← os.to_multi_byte text; some (prefix ++ bytes)

  unfoldable pub encode_as : TextEncoding → Text → Option (List ℕ)
  encode_as utf8 text = encode_utf8 [] text
  encode_as utf8_bom text = encode_utf8 bom text
  encode_as utf16_le text = some (255 ∷ 254 ∷ bytes_of false text)
  encode_as utf16_be text = some (254 ∷ 255 ∷ bytes_of true text)

  unfoldable pub encode : Text → TextEncoding → Option (List ℕ)
  encode text encoding = if is_valid_utf16 text then encode_as encoding text else none

  -- What `ReadTextFile` makes of the bytes: the encoding, and the text where it decodes.
  unfoldable pub decode : List ℕ → TextEncoding × Option Text
  decode bytes =
      if starts_with (255 ∷ 254 ∷ []) bytes
      then (utf16_le, decode_utf16 (drop 2 bytes) false)
      else if starts_with (254 ∷ 255 ∷ []) bytes
      then (utf16_be, decode_utf16 (drop 2 bytes) true)
      else if starts_with bom bytes
      then (utf8_bom, decode_utf8 (drop 3 bytes))
      else (utf8, decode_utf8 bytes)
