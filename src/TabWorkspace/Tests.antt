-- ===== src/TabWorkspace/Tests.antt =====
-- Runs of src/tab_workspace.cpp at concrete inputs, and the theorems applied there.
use mwfl.Prelude.Keyed.{index_of}
use mwfl.Prelude.{
  ℕ, ◌≡◌, refl, true, false, some, [], ◌∷◌, arith, opt_eq, get_elem?, erase_idx, find_index, heir,
}
use mwfl.TabWorkspace.{
  TabEntry, TabWorkspace, empty, find_tab, add, remove, move, select, adds, removes, selects, step,
  run,
}
use mwfl.TabWorkspace.Invariant.{IsValid, empty-IsValid, run-IsValid}
use mwfl.TabWorkspace.Order.{move_places, remove_selects}

abbrev tab : ℕ → TabEntry
tab id = record { id = id; title = 65 ∷ []; dirty = false; closable = true }

abbrev three : TabWorkspace
three = record { tabs = tab 1 ∷ tab 2 ∷ tab 3 ∷ []; selected = some 2 }

opened : run empty (adds (tab 1) ∷ adds (tab 2) ∷ adds (tab 3) ∷ selects 2 ∷ []) ≡ three
unfolding run step add select find_tab index_of find_index
opened = refl

-- A second tab with the ID is refused.
add_twice : add three (tab 3) ≡ (three, false)
unfolding add find_tab index_of find_index
add_twice = refl

run-IsValid_example : IsValid (run empty (adds (tab 1) ∷ adds (tab 2) ∷ removes 1 ∷ []))
run-IsValid_example = run-IsValid empty (adds (tab 1) ∷ adds (tab 2) ∷ removes 1 ∷ []) empty-IsValid

move_places_example :
    ((move three 1 2).1 ≡ true)
    × (get_elem? (move three 1 2).0.tabs 2 ≡ some (tab 1))
    × (erase_idx (move three 1 2).0.tabs 2 ≡ tab 2 ∷ tab 3 ∷ [])
    × ((move three 1 2).0.selected ≡ some 2)
unfolding find_tab index_of find_index erase_idx
move_places_example = move_places three 1 0 2 refl (omega arith)

remove_selects_example :
    ((remove three 2).0.tabs ≡ tab 1 ∷ tab 3 ∷ []) × ((remove three 2).0.selected ≡ some 3)
unfolding find_tab index_of find_index erase_idx opt_eq heir
remove_selects_example = remove_selects three 2 1 refl
