-- ===== src/Stream/Lines.antt =====
-- A stream that is read line by line, as both session formats do: a `std::wistringstream` under
-- `std::getline` is the list of its lines that are left. `read_required` is `ReadRequiredLine` of
-- src/docking_session.cpp and `ReadRecordLine` of src/document_session.cpp, and `utf8_size` is the
-- `Utf8Size` of both.
pub mod Trim
use mwfl.Prelude.{
  ℕ, zero, suc, ◌+◌, ◌-◌, ◌*◌, ◌/◌, ◌%◌, ◌^◌, ◌≤◌, ◌<◌, min, max, ◌≡◌, refl, sym, ap, subst, ◌∙◌,
  ◌≢◌, ◌↔◌, ◌⊎◌, inl, inr, Bool, true, false, not, ◌&&◌, ◌||◌, Option, none, some, List, [], ◌∷◌,
  ◌++◌, map, Mem, Nodup, Perm, arith, Text, u64_mod, next_u64, ltb, leb, ◌==◌, if◌then◌else◌,
  ltb→lt, lt→ltb, leb→le, ==_iff, ==_refl, Bool-cases, Option-cases, Either-cases, text_eq,
  text_eq_iff, opt_eq, ◌>>=◌, codes, is_nil, is_some, length, get_elem?, take, drop, insert_at,
  erase_idx, modify, find_index, find, any, erase_if, length-append, length-take, length-drop,
  length-insert_at, length-erase_idx, length-modify, get_elem?-insert_at_self, erase_idx-insert_at,
  get_elem?_of_lt, lt-length_of_get_elem?, mem_of_get_elem?, insert_at-perm, erase_idx-perm,
  find_index_sound, find_index-any, length-map, get_elem?-map, map-insert_at, map-erase_idx,
  map-modify, shift, All, All-append, All-insert_at, All-erase_idx, All-modify, All-take,
  All-erase_if, All-get_elem?, get_elem?-erase_idx_lt, get_elem?-erase_idx_le, heir,
  get_elem?-min-erase_idx,
}
use mathlib.Core.List.{append_assoc}
use mwfl.TextFile.{Utf8Api, int_max, starts_with}

abbrev pub cons_first : ℕ → List Text → List Text
cons_first c [] = (c ∷ []) ∷ []
cons_first c (l ∷ ls) = (c ∷ l) ∷ ls

-- The lines that `std::getline` finds in a text; after the last line feed there is none. The unit
-- U+FFFF is `WEOF` on Windows, and ends the stream.
unfoldable pub lines : Text → List Text
lines [] = []
lines (c ∷ t) =
    let rest = lines t in
    if c == 65535 then [] else if c == 10 then [] ∷ rest else cons_first c rest

-- Each line and a line feed.
unfoldable pub unlines : List Text → Text
unlines [] = []
unlines (l ∷ ls) = l ++ 10 ∷ unlines ls

-- `line.starts_with(L"X ")`.
unfoldable pub is_extension : Text → Bool
is_extension l = starts_with (codes "X ") l

unfoldable pub read_required : List Text → Option (Text × List Text)
read_required [] = none
read_required (l ∷ ls) = if is_extension l then read_required ls else some (l, ls)

module _ {A : Type 0} where
  abbrev pub cons_record : Option A → Option (List A × List Text) → Option (List A × List Text)
  cons_record none r = none
  cons_record (some a) none = none
  cons_record (some a) (some (records, rest)) = some (a ∷ records, rest)

  -- A record of the line that was read, and those after it.
  abbrev pub record_of :
      (Text → Option A)
      → (List Text → Option (List A × List Text))
      → Option (Text × List Text)
      → Option (List A × List Text)
  record_of p others none = none
  record_of p others (some (l, rest)) = cons_record (p l) (others rest)

  -- One record in each of the next lines that are no extension.
  unfoldable pub read_records : (Text → Option A) → ℕ → List Text → Option (List A × List Text)
  read_records p zero ls = some ([], ls)
  read_records p (suc n) ls = record_of p (read_records p n) (read_required ls)

-- What may stand after the last record: empty lines and extensions.
unfoldable pub ends_cleanly : List Text → Bool
ends_cleanly ls = not (any (λ l. not (is_nil l) && not (is_extension l)) ls)

module _ ⦃os : Utf8Api⦄ where
  abbrev pub byte_count : Text → Option (List ℕ) → Option ℕ
  byte_count text none = if is_nil text then some 0 else none
  byte_count text (some bytes) =
      if is_nil bytes && not (is_nil text) then none else some (length bytes)

  -- The size in UTF-8, `none` for what Windows does not convert.
  unfoldable pub utf8_size : Text → Option ℕ
  utf8_size text =
      if ltb int_max (length text) then none else byte_count text (os.to_multi_byte text)

abbrev pub OneLine : Text → Type 0
OneLine = All (λ c. ((c == 10) || (c == 65535)) ≡ false)

lines-append : (l t : Text) → OneLine l → lines (l ++ 10 ∷ t) ≡ l ∷ lines t
unfolding lines
lines-append [] t h = refl
lines-append (c ∷ l) t h = ground (arith, h.0, lines-append l t h.1)

-- Lines without line feeds and without U+FFFF are found again.
pub lines-unlines : (ls : List Text) → All OneLine ls → lines (unlines ls) ≡ ls
unfolding unlines
lines-unlines [] h = unfold lines in refl
lines-unlines (l ∷ ls) h = lines-append l (unlines ls) h.0 ∙ ap (λ r. l ∷ r) (lines-unlines ls h.1)

pub read_required_lem :
    (l : Text) (ls : List Text) → is_extension l ≡ false → read_required (l ∷ ls) ≡ some (l, ls)
unfolding read_required
read_required_lem l ls h = rw h refl

-- The line of a record is read back, and is no extension.
abbrev pub ReadsBack : {A : Type 0} → (Text → Option A) → (A → Text) → A → Type 0
ReadsBack p print x = (p (print x) ≡ some x) × (is_extension (print x) ≡ false)

pub read_records-append :
    {A : Type 0} (p : Text → Option A) (print : A → Text) (xs : List A) (ls : List Text)
    → All (ReadsBack p print) xs
    → read_records p (length xs) (map print xs ++ ls) ≡ some (xs, ls)
unfolding read_records
read_records-append p print [] ls h = refl
read_records-append p print (x ∷ xs) ls h =
    rw
      (
        read_records,
        read_required_lem (print x) (map print xs ++ ls) h.0.1,
        record_of,
        h.0.0,
        read_records-append p print xs ls h.1,
      )
      refl
