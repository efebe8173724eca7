-- ===== src/TabWorkspace/Order.antt =====
-- Where the tabs of src/tab_workspace.cpp stand after a call, and which tab is selected.
use mathlib.Core.Option
use mwfl.Prelude.Selection.{id_at-erase_idx}
use mwfl.Prelude.{
  ℕ, ◌<◌, ◌≡◌, refl, true, false, some, arith, if◌then◌else◌, opt_eq, length, get_elem?, erase_idx,
  length-erase_idx, get_elem?-insert_at_self, erase_idx-insert_at, lt-length_of_get_elem?, heir,
}
use mwfl.TabWorkspace.{
  TabWorkspace, tab_id, find_tab, add, remove_at, remove, move_entry, move_from, move, select,
  set_title, set_dirty, Call, adds, removes, selects, moves, titles, dirties, step,
}
use mwfl.TabWorkspace.Invariant.{find_tab_sound}

-- A move puts the tab at the new position and leaves the other tabs in their order, and the
-- selection where it was.
pub move_places :
    (w : TabWorkspace) (id i j : ℕ)
    → find_tab w id ≡ some i
    → j < length w.tabs
    → ((move w id j).1 ≡ true)
      × (get_elem? (move w id j).0.tabs j ≡ get_elem? w.tabs i)
      × (erase_idx (move w id j).0.tabs j ≡ erase_idx w.tabs i)
      × ((move w id j).0.selected ≡ w.selected)
unfolding move move_from move_entry
move_places w id i j hit h =
    let (t, at, same) = find_tab_sound w id hit in
    let size = length-erase_idx w.tabs i (lt-length_of_get_elem? w.tabs i at) in
    rw (hit, move)
      (ground (
        arith,
        at,
        get_elem?-insert_at_self (erase_idx w.tabs i) j t,
        erase_idx-insert_at (erase_idx w.tabs i) j t,
        size,
      ))

-- A removed tab is gone and the others keep their order. If it was selected, then the tab behind
-- it is selected, or else the one before it, or none; another selection stays.
pub remove_selects :
    (w : TabWorkspace) (id i : ℕ)
    → find_tab w id ≡ some i
    → ((remove w id).0.tabs ≡ erase_idx w.tabs i)
      × ((remove w id).0.selected
          ≡ (if opt_eq w.selected (some id) then Option.map tab_id (heir w.tabs i) else w.selected))
unfolding remove remove_at
remove_selects w id i hit =
    let (t, at, same) = find_tab_sound w id hit in
    rw (hit, remove)
      (refl, rw (id_at-erase_idx tab_id w.tabs i (lt-length_of_get_elem? w.tabs i at)) refl)

-- A call that reports failure changes nothing.
pub step_refused : (w : TabWorkspace) (c : Call) → (step w c).1 ≡ false → (step w c).0 ≡ w
unfolding step add remove move move_from select set_title set_dirty
step_refused w (adds entry) e = ground arith
step_refused w (removes id) e = ground arith
step_refused w (selects id) e = ground arith
step_refused w (moves id i) e = ground arith
step_refused w (titles id title) e = ground arith
step_refused w (dirties id dirty) e = ground arith
