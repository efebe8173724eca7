-- ===== src/Stream/Lines/Trim.antt =====
-- Reading a stream without its extension lines, which later versions may add.
use mwfl.Prelude.{
  ℕ, zero, suc, ◌≡◌, refl, ap, ◌∙◌, inl, inr, Option, none, some, List, [], ◌∷◌, arith, Text,
  Bool-cases, any, erase_if,
}
use mwfl.Stream.Lines.{
  is_extension, read_required, cons_record, record_of, read_records, ends_cleanly,
}

-- The lines that are no extensions.
abbrev pub trim : List Text → List Text
trim ls = erase_if is_extension ls

abbrev pub trim_rest : {A : Type 0} → Option (A × List Text) → Option (A × List Text)
trim_rest none = none
trim_rest (some (a, ls)) = some (a, trim ls)

pub read_required-trim : (ls : List Text) → read_required (trim ls) ≡ trim_rest (read_required ls)
unfolding read_required erase_if
read_required-trim [] = refl
read_required-trim (l ∷ ls) = elim (Bool-cases (is_extension l)) [
  | inl e ↦ rw e (read_required-trim ls)
  | inr e ↦ rw (e, e) refl
]

cons_record-trim :
    {A : Type 0} (a : Option A) (r : Option (List A × List Text))
    → cons_record a (trim_rest r) ≡ trim_rest (cons_record a r)
cons_record-trim none r = refl
cons_record-trim (some a) none = refl
cons_record-trim (some a) (some r) = refl

module _ {A : Type 0} (p : Text → Option A) where
  record_of-trim :
      (others : List Text → Option (List A × List Text)) (r : Option (Text × List Text))
      → ((ls : List Text) → others (trim ls) ≡ trim_rest (others ls))
      → record_of p others (trim_rest r) ≡ trim_rest (record_of p others r)
  record_of-trim others none h = refl
  record_of-trim others (some (l, rest)) h =
      ap (cons_record (p l)) (h rest) ∙ cons_record-trim (p l) (others rest)

  pub read_records-trim :
      (n : ℕ) (ls : List Text) → read_records p n (trim ls) ≡ trim_rest (read_records p n ls)
  unfolding read_records
  read_records-trim zero ls = refl
  read_records-trim (suc n) ls =
      ap (record_of p (read_records p n)) (read_required-trim ls)
      ∙ record_of-trim (read_records p n) (read_required ls) (read_records-trim n)

pub ends_cleanly-trim : (ls : List Text) → ends_cleanly (trim ls) ≡ ends_cleanly ls
unfolding ends_cleanly any erase_if
ends_cleanly-trim [] = refl
ends_cleanly-trim (l ∷ ls) = ground (arith, ends_cleanly-trim ls)
