-- ===== src/TabWorkspace.antt =====
-- The model behind a strip of tabs: src/tab_workspace.cpp and include/mwfl/tab_workspace.h.
-- A tab is found by its ID; the pointer that `Find` returns is its position here.
pub mod Invariant
pub mod Order
pub mod Tests
use mwfl.Prelude.Selection.{id_at}
use mwfl.Prelude.Keyed.{index_of}
use mathlib.Core.Option
use mwfl.Prelude.{
  ℕ, zero, suc, ◌+◌, ◌-◌, ◌*◌, ◌/◌, ◌%◌, ◌^◌, ◌≤◌, ◌<◌, min, max, ◌≡◌, refl, sym, ap, subst, ◌∙◌,
  ◌≢◌, ◌↔◌, ◌⊎◌, inl, inr, Bool, true, false, not, ◌&&◌, ◌||◌, Option, none, some, List, [], ◌∷◌,
  ◌++◌, map, Mem, Nodup, Perm, arith, Text, u64_mod, next_u64, ltb, leb, ◌==◌, if◌then◌else◌,
  ltb→lt, lt→ltb, leb→le, ==_iff, ==_refl, Bool-cases, Option-cases, text_eq, text_eq_iff, opt_eq,
  is_nil, is_some, length, get_elem?, take, drop, insert_at, erase_idx, modify, find_index, find,
  any, erase_if, length-append, length-take, length-drop, length-insert_at, length-erase_idx,
  length-modify, get_elem?-insert_at_self, erase_idx-insert_at, get_elem?_of_lt,
  lt-length_of_get_elem?, mem_of_get_elem?, insert_at-perm, erase_idx-perm, find_index_sound,
  find_index-any, length-map, get_elem?-map, map-insert_at, map-erase_idx, map-modify, shift, All,
  All-append, All-insert_at, All-erase_idx, All-modify, All-take, All-erase_if, All-get_elem?,
  get_elem?-erase_idx_lt, get_elem?-erase_idx_le, heir, get_elem?-min-erase_idx,
}

pub record TabEntry : Type 0 where
  pub id : ℕ
  pub title : Text
  pub dirty : Bool
  pub closable : Bool

pub record TabWorkspace : Type 0 where
  pub tabs : List TabEntry
  pub selected : Option ℕ

abbrev pub tab_id : TabEntry → ℕ
tab_id t = t.id

abbrev pub empty : TabWorkspace
empty = record { tabs = []; selected = none }

-- `FindIndex`: the ID zero is never found.
unfoldable pub find_tab : TabWorkspace → ℕ → Option ℕ
find_tab w id = if id == 0 then none else index_of tab_id id w.tabs

-- `Add`: the first tab is selected.
unfoldable pub add : TabWorkspace → TabEntry → TabWorkspace × Bool
add w entry =
    if (entry.id == 0) || is_nil entry.title || is_some (find_tab w entry.id) then (w, false) else (
      record {
        tabs = w.tabs ++ entry ∷ [];
        selected = if is_some w.selected then w.selected else some entry.id;
      },
      true,
    )

-- The rest of `Remove`, with the position that was found.
unfoldable pub remove_at : TabWorkspace → ℕ → ℕ → TabWorkspace
remove_at w id i = record {
  tabs = erase_idx w.tabs i;
  selected =
      if opt_eq w.selected (some id) then id_at tab_id (erase_idx w.tabs i) i else w.selected;
}

unfoldable pub remove : TabWorkspace → ℕ → TabWorkspace × Bool
remove w id = elim (find_tab w id) [ none ↦ (w, false) | some i ↦ (remove_at w id i, true) ]

-- `Move`: the tab is erased first, and inserted into what is left.
unfoldable pub move_entry : TabWorkspace → ℕ → ℕ → Option TabEntry → TabWorkspace
move_entry w old_index new_index none = w
move_entry w old_index new_index (some moved) = record w {
  tabs = insert_at (erase_idx w.tabs old_index) new_index moved;
}

unfoldable pub move_from : TabWorkspace → ℕ → ℕ → TabWorkspace × Bool
move_from w new_index old_index =
    if leb (length w.tabs) new_index
    then (w, false)
    else if old_index == new_index
    then (w, true)
    else (move_entry w old_index new_index (get_elem? w.tabs old_index), true)

unfoldable pub move : TabWorkspace → ℕ → ℕ → TabWorkspace × Bool
move w id new_index = elim (find_tab w id) [
  | none ↦ (w, false)
  | some old_index ↦ move_from w new_index old_index
]

unfoldable pub select : TabWorkspace → ℕ → TabWorkspace × Bool
select w id =
    if is_some (find_tab w id) then (record w { selected = some id }, true) else (w, false)

-- `SetTitle` and `SetDirty` write through the pointer that `FindMutable` returns.
unfoldable pub set_title : TabWorkspace → ℕ → Text → TabWorkspace × Bool
set_title w id title = if is_nil title then (w, false) else elim (find_tab w id) [
  | none ↦ (w, false)
  | some i ↦ (record w { tabs = modify (λ t. record t { title = title }) w.tabs i }, true)
]

unfoldable pub set_dirty : TabWorkspace → ℕ → Bool → TabWorkspace × Bool
set_dirty w id dirty = elim (find_tab w id) [
  | none ↦ (w, false)
  | some i ↦ (record w { tabs = modify (λ t. record t { dirty = dirty }) w.tabs i }, true)
]

-- The calls that change a workspace.
pub data Call : Type 0 where
  adds : TabEntry → Call
  removes selects : ℕ → Call
  moves : ℕ → ℕ → Call
  titles : ℕ → Text → Call
  dirties : ℕ → Bool → Call

unfoldable pub step : TabWorkspace → Call → TabWorkspace × Bool
step w (adds entry) = add w entry
step w (removes id) = remove w id
step w (selects id) = select w id
step w (moves id i) = move w id i
step w (titles id title) = set_title w id title
step w (dirties id dirty) = set_dirty w id dirty

unfoldable pub run : TabWorkspace → List Call → TabWorkspace
run w [] = w
run w (c ∷ cs) = run (step w c).0 cs
