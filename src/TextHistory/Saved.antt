-- ===== src/TextHistory/Saved.antt =====
-- The saved mark of src/text_history.cpp.
use mwfl.Prelude.{
  ℕ, zero, suc, ◌+◌, ◌-◌, ◌<◌, ◌≡◌, refl, ap, subst, ◌∙◌, inl, inr, false, not, Option, none, some,
  List, [], ◌∷◌, ◌++◌, arith, Text, ltb, leb, ==_iff, Bool-cases, opt_eq, length, get_elem?, take,
  drop, length-take,
}
use mwfl.TextHistory.{
  TextHistory, trim_to_capacity, append_entry, record_text, undo, redo, mark_saved, is_modified,
  rebase_saved, forget_future_save, current_text, Call, resets, records, undoes, redoes, saves,
  step, run,
}
use mwfl.TextHistory.Invariant.{IsValid, step-IsValid}

-- The calls by which a user edits: neither a new document nor a save.
abbrev pub IsEdit : Call → Type 0
IsEdit (resets text flag) = ⊥
IsEdit saves = ⊥
IsEdit c = Unit {0}

abbrev pub AllEdits : List Call → Type 0
AllEdits [] = Unit {0}
AllEdits (c ∷ cs) = IsEdit c × AllEdits cs

-- The mark, where there is one, stands at this text.
abbrev Marks : Option ℕ → List Text → Text → Type 0
Marks none es text = Unit {0}
Marks (some s) es text = get_elem? es s ≡ some text

module _ {ℓ} {A : Type ℓ} where
  get_elem?-append :
      (xs ys : List A) (i : ℕ) → i < length xs → get_elem? (xs ++ ys) i ≡ get_elem? xs i
  get_elem?-append [] ys i h = elim h [ ]
  get_elem?-append (x ∷ xs) ys zero h = refl
  get_elem?-append (x ∷ xs) ys (suc i) h = get_elem?-append xs ys i (omega arith)

  get_elem?-take : (n : ℕ) (xs : List A) (i : ℕ) → i < n → get_elem? (take n xs) i ≡ get_elem? xs i
  get_elem?-take zero xs i h = elim h [ ]
  get_elem?-take (suc n) [] i h = refl
  get_elem?-take (suc n) (x ∷ xs) zero h = refl
  get_elem?-take (suc n) (x ∷ xs) (suc i) h = get_elem?-take n xs i (omega arith)

  get_elem?-drop :
      (n : ℕ) (xs : List A) (i j : ℕ) → i ≡ n + j → get_elem? (drop n xs) j ≡ get_elem? xs i
  get_elem?-drop zero xs i j e = ap (get_elem? xs) (omega arith)
  get_elem?-drop (suc n) [] i j e = refl
  get_elem?-drop (suc n) (x ∷ xs) zero j e = absurd (omega arith)
  get_elem?-drop (suc n) (x ∷ xs) (suc i) j e = get_elem?-drop n xs i j (omega arith)

append_entry-Marks :
    (o : Option ℕ) (h : TextHistory) (new text : Text)
    → h.current < length h.entries
    → Marks o h.entries text
    → Marks (forget_future_save o h.current) (append_entry h new).entries text
unfolding append_entry
append_entry-Marks none h new text r m = tt
append_entry-Marks (some s) h new text r m = elim (Bool-cases (ltb h.current s)) [
  | inl past ↦ rw past tt
  | inr kept ↦ rw kept (
      get_elem?-append (take (suc h.current) h.entries) (new ∷ []) s
        (ground (arith, length-take (suc h.current) h.entries))
      ∙ get_elem?-take (suc h.current) h.entries s (ground arith)
      ∙ m)
]

rebase_saved-Marks :
    (o : Option ℕ) (n : ℕ) (es : List Text) (text : Text)
    → Marks o es text
    → Marks (rebase_saved o n) (drop n es) text
rebase_saved-Marks none n es text m = tt
rebase_saved-Marks (some s) n es text m = elim (Bool-cases (ltb s n)) [
  | inl gone ↦ rw gone tt
  | inr kept ↦ rw kept (get_elem?-drop n es s (s - n) (ground arith) ∙ m)
]

trim_to_capacity-Marks :
    (h : TextHistory) (text : Text)
    → Marks h.saved h.entries text
    → Marks (trim_to_capacity h).saved (trim_to_capacity h).entries text
unfolding trim_to_capacity
trim_to_capacity-Marks h text m = elim (Bool-cases (leb (length h.entries) h.maximum_entries)) [
  | inl fits ↦ rw fits m
  | inr over ↦
      rw over (rebase_saved-Marks h.saved (length h.entries - h.maximum_entries) h.entries text m)
]

record_text-Marks :
    (h : TextHistory) (new text : Text)
    → h.current < length h.entries
    → Marks h.saved h.entries text
    → Marks (record_text h new).0.saved (record_text h new).0.entries text
unfolding record_text append_entry
record_text-Marks h new text r m = ground (
  arith,
  trim_to_capacity-Marks (append_entry h new) text (append_entry-Marks h.saved h new text r m),
)

step-Marks :
    (h : TextHistory) (c : Call) (text : Text)
    → IsEdit c
    → IsValid h
    → Marks h.saved h.entries text
    → Marks (step h c).saved (step h c).entries text
unfolding step undo redo
step-Marks h (resets t flag) text e v m = elim e [ ]
step-Marks h (records t) text e v m = record_text-Marks h t text v.in_range m
step-Marks h undoes text e v m = ground arith
step-Marks h redoes text e v m = ground arith
step-Marks h saves text e v m = elim e [ ]

run-Marks :
    (h : TextHistory) (cs : List Call) (text : Text)
    → AllEdits cs
    → IsValid h
    → Marks h.saved h.entries text
    → Marks (run h cs).saved (run h cs).entries text
unfolding run
run-Marks h [] text e v m = m
run-Marks h (c ∷ cs) text e v m =
    run-Marks (step h c) cs text e.1 (step-IsValid h c v) (step-Marks h c text e.0 v m)

-- Unmodified means that the mark stands at the cursor.
Marks-current :
    (o : Option ℕ) (es : List Text) (current : ℕ) (text : Text)
    → not (opt_eq o (some current)) ≡ false
    → Marks o es text
    → get_elem? es current ≡ some text
unfolding opt_eq
Marks-current none es current text e m = cc
Marks-current (some s) es current text e m =
    subst (λ k. get_elem? es k ≡ some text) ((==_iff s current).0 (ground arith)) m

-- After a save and any edits, undos and redos, a history that calls itself unmodified holds the
-- text that was saved.
pub run-unmodified :
    (h : TextHistory) (cs : List Call) (text : Text)
    → IsValid h
    → current_text h ≡ some text
    → AllEdits cs
    → is_modified (run (mark_saved h) cs) ≡ false
    → current_text (run (mark_saved h) cs) ≡ some text
unfolding mark_saved step is_modified
run-unmodified h cs text v now edits e =
    Marks-current _ _ _ text e (run-Marks (mark_saved h) cs text edits (step-IsValid h saves v) now)
