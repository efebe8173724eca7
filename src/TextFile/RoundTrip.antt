-- ===== src/TextFile/RoundTrip.antt =====
-- A text that src/text_file.cpp encodes, it decodes again.
use mwfl.Prelude.{
  ℕ, ◌*◌, ◌≤◌, ◌<◌, ◌≡◌, refl, sym, ap, subst, ◌∙◌, inl, inr, Bool, true, false, ◌&&◌, Option, some,
  List, [], ◌∷◌, ◌++◌, arith, Text, ◌==◌, Bool-cases, Option-cases, is_nil, length, All,
}
use mathlib.Core.Option.{some-injective}
use mwfl.TextFile.{
  TextEncoding, utf8, utf8_bom, utf16_le, utf16_be, Utf8Api, is_valid_utf16, int_max, bytes_of,
  units_of, decode_utf16, bom, starts_with, decode_utf8, encode_utf8, encode_as, encode, decode,
}

-- U+FEFF stands first.
abbrev pub is_marked : Text → Bool
is_marked [] = false
is_marked (c ∷ t) = c == 65279

-- The documented conversions: what was converted is converted back; only an empty text has no bytes;
-- no UTF-8 begins with a byte order mark of UTF-16; and only U+FEFF has the bytes of the mark.
pub record Converts (os : Utf8Api) : Type 0 where
  pub back :
      (text : Text) (bytes : List ℕ)
      → os.to_multi_byte text ≡ some bytes
      → os.to_wide bytes ≡ some text
  pub not_empty :
      (text : Text) (bytes : List ℕ)
      → os.to_multi_byte text ≡ some bytes
      → is_nil bytes ≡ is_nil text
  pub no_mark :
      (text : Text) (bytes : List ℕ)
      → os.to_multi_byte text ≡ some bytes
      → (starts_with (255 ∷ 254 ∷ []) bytes ≡ false) × (starts_with (254 ∷ 255 ∷ []) bytes ≡ false)
  pub mark :
      (text : Text) (bytes : List ℕ)
      → os.to_multi_byte text ≡ some bytes
      → starts_with bom bytes ≡ is_marked text

abbrev pub IsUnit : ℕ → Type 0
IsUnit u = u < 65536

abbrev pub is_plain : TextEncoding → Bool
is_plain utf8 = true
is_plain encoding = false

units_of-bytes_of : (big : Bool) (t : Text) → All IsUnit t → units_of big (bytes_of big t) ≡ t
unfolding units_of bytes_of
units_of-bytes_of big [] v = refl
units_of-bytes_of true (u ∷ t) v = ground (arith, units_of-bytes_of true t v.1, v.0)
units_of-bytes_of false (u ∷ t) v = ground (arith, units_of-bytes_of false t v.1, v.0)

length-bytes_of : (big : Bool) (t : Text) → length (bytes_of big t) ≡ 2 * length t
unfolding bytes_of
length-bytes_of big [] = refl
length-bytes_of big (u ∷ t) = omega (arith, length-bytes_of big t)

decode_utf16-bytes_of :
    (big : Bool) (t : Text)
    → All IsUnit t
    → is_valid_utf16 t ≡ true
    → decode_utf16 (bytes_of big t) big ≡ some t
unfolding decode_utf16
decode_utf16-bytes_of big t v valid =
    ground (arith, length-bytes_of big t, units_of-bytes_of big t v, valid)

module _ ⦃os : Utf8Api⦄ where
  encode-valid :
      (text : Text) (encoding : TextEncoding) {bytes : List ℕ}
      → encode text encoding ≡ some bytes
      → (is_valid_utf16 text ≡ true) × (encode_as encoding text ≡ some bytes)
  unfolding encode
  encode-valid text encoding e = elim (Bool-cases (is_valid_utf16 text)) [
    | inl valid ↦ (valid, ground (arith, e, valid))
    | inr bad ↦ absurd (ground (arith, e, bad))
  ]

  decode-le :
      (text : Text)
      → All IsUnit text
      → is_valid_utf16 text ≡ true
      → decode (255 ∷ 254 ∷ bytes_of false text) ≡ (utf16_le, some text)
  unfolding decode starts_with
  decode-le text v valid =
      ap (λ (d : Option Text). (utf16_le, d)) (decode_utf16-bytes_of false text v valid)

  decode-be :
      (text : Text)
      → All IsUnit text
      → is_valid_utf16 text ≡ true
      → decode (254 ∷ 255 ∷ bytes_of true text) ≡ (utf16_be, some text)
  unfolding decode starts_with
  decode-be text v valid =
      ap (λ (d : Option Text). (utf16_be, d)) (decode_utf16-bytes_of true text v valid)

  -- The bytes of a text that is not empty, as they are and behind the mark.
  decode-converted :
      (c : ℕ) (t : Text) (bytes : List ℕ)
      → Converts os
      → os.to_multi_byte (c ∷ t) ≡ some bytes
      → is_marked (c ∷ t) ≡ false
      → length bytes ≤ int_max
      → decode bytes ≡ (utf8, some (c ∷ t))
  unfolding decode decode_utf8
  decode-converted c t bytes laws e plain small =
      let (first, second) = laws.no_mark (c ∷ t) bytes e in
      ground (
        arith,
        small,
        first,
        second,
        laws.mark (c ∷ t) bytes e,
        plain,
        laws.not_empty (c ∷ t) bytes e,
        laws.back (c ∷ t) bytes e,
      )

  decode_utf8-converted :
      (c : ℕ) (t : Text) (bytes : List ℕ)
      → Converts os
      → os.to_multi_byte (c ∷ t) ≡ some bytes
      → length bytes ≤ int_max
      → decode (bom ++ bytes) ≡ (utf8_bom, some (c ∷ t))
  unfolding decode decode_utf8 starts_with
  decode_utf8-converted c t bytes laws e small =
      ground (arith, small, laws.not_empty (c ∷ t) bytes e, laws.back (c ∷ t) bytes e)

  encode_utf8-some :
      (prefix : List ℕ) (c : ℕ) (t : Text) {bytes : List ℕ}
      → encode_utf8 prefix (c ∷ t) ≡ some bytes
      → (body : List ℕ) × (os.to_multi_byte (c ∷ t) ≡ some body) × (prefix ++ body ≡ bytes)
  unfolding encode_utf8
  encode_utf8-some prefix c t {bytes = bytes} e = elim (Option-cases (os.to_multi_byte (c ∷ t))) [
    | inl refused ↦ absurd (ground (arith, e, refused))
    | inr (body, converted) ↦ (body, converted, ground (arith, e, converted))
  ]

  decode-empty : (decode [] ≡ (utf8, some [])) × (decode bom ≡ (utf8_bom, some []))
  unfolding decode starts_with decode_utf8 int_max
  decode-empty = (refl, refl)

  encode_utf8-empty : (prefix : List ℕ) → encode_utf8 prefix [] ≡ some prefix
  unfolding encode_utf8 int_max
  encode_utf8-empty prefix = refl

  decode-encode_as :
      (text : Text) (encoding : TextEncoding) {bytes : List ℕ}
      → Converts os
      → All IsUnit text
      → is_valid_utf16 text ≡ true
      → (is_plain encoding && is_marked text) ≡ false
      → length bytes ≤ int_max
      → encode_as encoding text ≡ some bytes
      → decode bytes ≡ (encoding, some text)
  unfolding encode_as
  decode-encode_as text utf16_le {bytes = bytes} laws v valid plain small e =
      subst (λ b. decode b ≡ (utf16_le, some text)) (some-injective _ bytes e)
        (decode-le text v valid)
  decode-encode_as text utf16_be {bytes = bytes} laws v valid plain small e =
      subst (λ b. decode b ≡ (utf16_be, some text)) (some-injective _ bytes e)
        (decode-be text v valid)
  decode-encode_as [] utf8 {bytes = bytes} laws v valid plain small e =
      subst (λ b. decode b ≡ (utf8, some []))
        (some-injective [] bytes (sym (encode_utf8-empty []) ∙ e)) decode-empty.0
  decode-encode_as [] utf8_bom {bytes = bytes} laws v valid plain small e =
      subst (λ b. decode b ≡ (utf8_bom, some []))
        (some-injective bom bytes (sym (encode_utf8-empty bom) ∙ e)) decode-empty.1
  decode-encode_as (c ∷ t) utf8 {bytes = bytes} laws v valid plain small e =
      let (body, converted, same) = encode_utf8-some [] c t {bytes = bytes} e in
      decode-converted c t bytes laws
        (subst (λ b. os.to_multi_byte (c ∷ t) ≡ some b) same converted) plain small
  decode-encode_as (c ∷ t) utf8_bom {bytes = bytes} laws v valid plain small e =
      let (body, converted, same) = encode_utf8-some bom c t {bytes = bytes} e in
      subst (λ b. decode b ≡ (utf8_bom, some (c ∷ t))) same
        (decode_utf8-converted c t body laws converted (omega (arith, small, ap length same)))

  -- A text that was encoded is decoded to the same text and the same encoding, unless it is written as
  -- UTF-8 without a mark and begins with U+FEFF, or its bytes are too many for an `int`.
  pub decode-encode :
      (text : Text) (encoding : TextEncoding) {bytes : List ℕ}
      → Converts os
      → All IsUnit text
      → (is_plain encoding && is_marked text) ≡ false
      → length bytes ≤ int_max
      → encode text encoding ≡ some bytes
      → decode bytes ≡ (encoding, some text)
  decode-encode text encoding {bytes = bytes} laws v plain small e =
      let (valid, made) = encode-valid text encoding {bytes = bytes} e in
      decode-encode_as text encoding {bytes = bytes} laws v valid plain small made
