-- ===== src/TextHistory/Invariant.antt =====
-- The bounds that every call of `TextHistory` keeps (src/text_history.cpp).
use mwfl.Prelude.{
  ℕ, suc, ◌+◌, ◌-◌, ◌≤◌, ◌<◌, ◌≡◌, Option, none, some, List, [], ◌∷◌, arith, Text, length, take,
  length-append, length-take, length-drop,
}
use mwfl.TextHistory.{
  TextHistory, reset, create, trim_to_capacity, append_entry, record_text, undo, redo, mark_saved,
  rebase_saved, forget_future_save, Call, resets, records, undoes, redoes, saves, step, run,
}

-- An index, where there is one, lies below the bound.
abbrev pub Within : Option ℕ → ℕ → Type 0
Within none n = Unit {0}
Within (some s) n = s < n

pub record IsValid (h : TextHistory) : Type 0 where
  pub capacity : 2 ≤ h.maximum_entries
  pub bounded : length h.entries ≤ h.maximum_entries
  pub in_range : h.current < length h.entries
  pub saved_in_range : Within h.saved (length h.entries)

rebase_saved-Within : (o : Option ℕ) (n m : ℕ) → Within o m → Within (rebase_saved o n) (m - n)
rebase_saved-Within none n m w = tt
rebase_saved-Within (some s) n m w = ground arith

forget_future_save-Within : (o : Option ℕ) (c m : ℕ) → c < m → Within (forget_future_save o c) m
forget_future_save-Within none c m h = tt
forget_future_save-Within (some s) c m h = ground arith

-- What appending leaves to be trimmed.
record IsAppended (h : TextHistory) : Type 0 where
  capacity : 2 ≤ h.maximum_entries
  current_last : length h.entries ≡ suc h.current
  over_by_one : h.current ≤ h.maximum_entries
  saved_in_range : Within h.saved (length h.entries)

pub length-append_entry :
    (h : TextHistory) (text : Text)
    → IsValid h
    → length (append_entry h text).entries ≡ h.current + 2
unfolding append_entry
length-append_entry h text v = omega (
  arith,
  v.in_range,
  length-append (take (suc h.current) h.entries) (text ∷ []),
  length-take (suc h.current) h.entries,
)

append_entry-IsAppended :
    (h : TextHistory) (text : Text) → IsValid h → IsAppended (append_entry h text)
unfolding append_entry
append_entry-IsAppended h text v = record {
  capacity = v.capacity;
  current_last = omega (arith, length-append_entry h text v);
  over_by_one = omega (arith, v.in_range, v.bounded);
  saved_in_range =
      forget_future_save-Within h.saved h.current _ (omega (arith, length-append_entry h text v));
}

trim_to_capacity-IsValid : (h : TextHistory) → IsAppended h → IsValid (trim_to_capacity h)
unfolding trim_to_capacity
trim_to_capacity-IsValid h v = ground (
  arith,
  length-drop (length h.entries - h.maximum_entries) h.entries,
  rebase_saved-Within h.saved (length h.entries - h.maximum_entries) (length h.entries),
)

record_text-IsValid : (h : TextHistory) (text : Text) → IsValid h → IsValid (record_text h text).0
unfolding record_text
record_text-IsValid h text v =
    ground (arith, trim_to_capacity-IsValid _ (append_entry-IsAppended h text v))

-- Every call keeps the current entry inside the list, the saved mark inside the list where there
-- is one, and the list within its capacity.
pub step-IsValid : (h : TextHistory) (c : Call) → IsValid h → IsValid (step h c)
unfolding step reset undo redo mark_saved
step-IsValid h (resets text flag) v = ground arith
step-IsValid h (records text) v = record_text-IsValid h text v
step-IsValid h undoes v = ground arith
step-IsValid h redoes v = ground arith
step-IsValid h saves v = ground arith

pub run-IsValid : (h : TextHistory) (cs : List Call) → IsValid h → IsValid (run h cs)
unfolding run
run-IsValid h [] v = v
run-IsValid h (c ∷ cs) v = run-IsValid (step h c) cs (step-IsValid h c v)

-- After any calls on a history that the constructor built, the current entry is inside the list,
-- the saved mark is inside it where there is one, and the list is within its capacity.
pub run-create-IsValid :
    (n : ℕ) (h : TextHistory) (cs : List Call) → create n ≡ some h → IsValid (run h cs)
unfolding create reset
run-create-IsValid n h cs e = run-IsValid h cs (ground arith)
