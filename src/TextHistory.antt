-- ===== src/TextHistory.antt =====
-- The undo history of a text control: src/text_history.cpp and include/mwfl/text_history.h.
-- An entry is a whole text. Reading or erasing past the end is undefined in the source; the
-- invariant below shows that no operation does so.
pub mod Invariant
pub mod Timeline
pub mod Saved
pub mod Tests
use mwfl.Prelude.{
  ℕ, zero, suc, ◌+◌, ◌-◌, ◌<◌, ◌≤◌, ◌≡◌, Bool, true, false, not, ◌||◌, Option, none, some, List, [],
  ◌∷◌, ◌++◌, Text, ltb, leb, ◌==◌, if◌then◌else◌, text_eq, opt_eq, length, get_elem?, take, drop,
}

pub record TextHistory : Type 0 where
  pub entries : List Text
  pub current : ℕ
  pub saved : Option ℕ
  pub maximum_entries : ℕ

-- `entries_[current_]`.
abbrev pub current_text : TextHistory → Option Text
current_text h = get_elem? h.entries h.current

unfoldable pub reset : TextHistory → Text → Bool → TextHistory
reset h text mark_saved = record h {
  entries = text ∷ [];
  current = 0;
  saved = if mark_saved then some 0 else none;
}

-- The constructor; `none` is the exception for a capacity below two.
unfoldable pub create : ℕ → Option TextHistory
unfolding reset
create maximum_entries =
    if ltb maximum_entries 2
    then none
    else some (
        reset
          (record { entries = []; current = 0; saved = none; maximum_entries = maximum_entries }) []
          true)

-- `if (saved_) { if (*saved_ < n) saved_.reset(); else *saved_ -= n; }`
abbrev pub rebase_saved : Option ℕ → ℕ → Option ℕ
rebase_saved none n = none
rebase_saved (some s) n = if ltb s n then none else some (s - n)

unfoldable pub trim_to_capacity : TextHistory → TextHistory
trim_to_capacity h = if leb (length h.entries) h.maximum_entries then h else record h {
  entries = drop (length h.entries - h.maximum_entries) h.entries;
  current = h.current - (length h.entries - h.maximum_entries);
  saved = rebase_saved h.saved (length h.entries - h.maximum_entries);
}

-- `if (saved_ && *saved_ > current_) saved_.reset();`
abbrev pub forget_future_save : Option ℕ → ℕ → Option ℕ
forget_future_save none current = none
forget_future_save (some s) current = if ltb current s then none else some s

-- The new text is the current one already.
abbrev pub is_current : Option Text → Text → Bool
is_current none text = false
is_current (some t) text = text_eq text t

-- The entries behind the current one go, the new one comes behind it.
unfoldable pub append_entry : TextHistory → Text → TextHistory
append_entry h text = record h {
  entries = take (suc h.current) h.entries ++ text ∷ [];
  current = suc h.current;
  saved = forget_future_save h.saved h.current;
}

-- `Record`: the new history, and whether anything changed.
unfoldable pub record_text : TextHistory → Text → TextHistory × Bool
record_text h text =
    if is_current (current_text h) text
    then (h, false)
    else (trim_to_capacity (append_entry h text), true)

abbrev pub can_undo : TextHistory → Bool
can_undo h = ltb 0 h.current

abbrev pub can_redo : TextHistory → Bool
can_redo h = ltb (suc h.current) (length h.entries)

unfoldable pub undo : TextHistory → TextHistory × Option Text
undo h =
    if not (can_undo h)
    then (h, none)
    else (record h { current = h.current - 1 }, get_elem? h.entries (h.current - 1))

unfoldable pub redo : TextHistory → TextHistory × Option Text
redo h =
    if not (can_redo h)
    then (h, none)
    else (record h { current = suc h.current }, get_elem? h.entries (suc h.current))

unfoldable pub mark_saved : TextHistory → TextHistory
mark_saved h = record h { saved = some h.current }

unfoldable pub is_modified : TextHistory → Bool
unfolding opt_eq
is_modified h = not (opt_eq h.saved (some h.current))

-- The calls that change a history.
pub data Call : Type 0 where
  resets : Text → Bool → Call
  records : Text → Call
  undoes redoes saves : Call

unfoldable pub step : TextHistory → Call → TextHistory
step h (resets text flag) = reset h text flag
step h (records text) = (record_text h text).0
step h undoes = (undo h).0
step h redoes = (redo h).0
step h saves = mark_saved h

unfoldable pub run : TextHistory → List Call → TextHistory
run h [] = h
run h (c ∷ cs) = run (step h c) cs
