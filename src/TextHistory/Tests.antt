-- ===== src/TextHistory/Tests.antt =====
-- Runs of src/text_history.cpp at concrete inputs, and the theorems applied there.
use mwfl.Prelude.{◌≡◌, refl, false, some, [], ◌∷◌, arith, Text, text_eq}
use mwfl.TextHistory.{
  trim_to_capacity, append_entry, TextHistory, create, record_text, undo, mark_saved, is_modified,
  current_text, records, undoes, step, run,
}
use mwfl.TextHistory.Invariant.{IsValid, run-create-IsValid}
use mwfl.TextHistory.Timeline.{Timeline, Shows, travel, step-Shows}
use mwfl.TextHistory.Saved.{run-unmodified}

abbrev text_a : Text
text_a = 97 ∷ []

abbrev text_b : Text
text_b = 98 ∷ []

abbrev text_c : Text
text_c = 99 ∷ []

-- Full, with the cursor on the newest entry.
abbrev full : TextHistory
full = record { entries = text_a ∷ text_b ∷ []; current = 1; saved = some 1; maximum_entries = 2 }

abbrev full_timeline : Timeline
full_timeline = record { past = text_a ∷ []; present = text_b; future = [] }

full-IsValid : IsValid full
full-IsValid = record {
  capacity = omega arith;
  bounded = omega arith;
  in_range = omega arith;
  saved_in_range = omega arith;
}

full-Shows : Shows full full_timeline
full-Shows = record { texts = refl; cursor = refl }

-- The oldest entry makes room for the new one.
oldest_makes_room : (record_text full text_c).0.entries ≡ text_b ∷ text_c ∷ []
unfolding record_text text_eq trim_to_capacity append_entry
oldest_makes_room = refl

-- The mark moves with its entry.
undo_full : is_modified (undo (record_text full text_c).0).0 ≡ false
unfolding record_text undo is_modified text_eq trim_to_capacity append_entry
undo_full = refl

run-create-IsValid_example : IsValid (
    run
      (record { entries = [] ∷ []; current = 0; saved = some 0; maximum_entries = 2 })
      (records text_a ∷ records text_b ∷ undoes ∷ []))
unfolding create
run-create-IsValid_example =
    run-create-IsValid 2 _ (records text_a ∷ records text_b ∷ undoes ∷ []) refl

step-Shows_example : Shows (step full (records text_c)) (travel 2 full_timeline (records text_c))
step-Shows_example = step-Shows full full_timeline (records text_c) full-IsValid full-Shows

run-unmodified_example :
    current_text (run (mark_saved full) (records text_c ∷ undoes ∷ [])) ≡ some text_b
unfolding run step record_text undo is_modified mark_saved text_eq trim_to_capacity append_entry
run-unmodified_example =
    run-unmodified full (records text_c ∷ undoes ∷ []) text_b full-IsValid refl (tt, (tt, tt)) refl
