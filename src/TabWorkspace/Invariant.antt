-- ===== src/TabWorkspace/Invariant.antt =====
-- What every call of `TabWorkspaceModel` keeps (src/tab_workspace.cpp).

use mathlib.Core.List.{Nodup-nil, perm_append_singleton, not-mem-nil}
use mathlib.Core.List.Perm
use mwfl.Prelude.Selection.{Selects, Selects-perm, Selects-cons, Selects-close}
use mwfl.Prelude.Keyed.{
  IsIds, IsIds-cons, IsIds-perm, IsIds-erase_idx, keys, index_of_sound, mem_of_index_of,
  not_mem_of_index_of, erase_idx-insert_at-perm,
}
use mwfl.Prelude.{
  ℕ, ◌≡◌, refl, ◌≢◌, inl, inr, Bool, ◌||◌, Option, none, some, List, [], ◌∷◌, ◌++◌, Mem, Perm,
  arith, Text, ◌==◌, Bool-cases, Option-cases, is_nil, is_some, get_elem?, erase_idx, modify,
  map-modify, All, All-append, All-insert_at, All-erase_idx, All-modify, All-get_elem?,
}
use mwfl.TabWorkspace.{
  TabEntry, TabWorkspace, tab_id, empty, find_tab, add, remove_at, remove, move_entry, move_from,
  move, select, set_title, set_dirty, Call, adds, removes, selects, moves, titles, dirties, step,
  run,
}

abbrev pub IsTitled : TabEntry → Type 0
IsTitled t = t.title ≢ []

-- The IDs are distinct and not zero, every title has text, and the selection is an open tab.
pub record IsValid (w : TabWorkspace) : Type 0 where
  pub ids : IsIds (keys tab_id w.tabs)
  pub titled : All IsTitled w.tabs
  pub selection : Selects w.selected (keys tab_id w.tabs)

-- A hit of `find_tab` is a position of a tab with the ID; a miss of an ID that is not zero says
-- that no tab has it.
pub find_tab_sound :
    (w : TabWorkspace) (id : ℕ) {i : ℕ}
    → find_tab w id ≡ some i
    → (t : TabEntry) × (get_elem? w.tabs i ≡ some t) × (t.id ≡ id)
unfolding find_tab
find_tab_sound w id h = index_of_sound tab_id id w.tabs (ground arith)

find_tab-mem :
    (w : TabWorkspace) (id : ℕ) {i : ℕ} → find_tab w id ≡ some i → Mem id (keys tab_id w.tabs)
unfolding find_tab
find_tab-mem w id {i = i} h = mem_of_index_of tab_id id w.tabs {i = i} (ground arith)

find_tab_miss :
    (w : TabWorkspace) (id : ℕ) → id ≢ 0 → find_tab w id ≡ none → ¬ Mem id (keys tab_id w.tabs)
unfolding find_tab
find_tab_miss w id n h = not_mem_of_index_of tab_id id w.tabs (ground arith)

add-IsValid : (w : TabWorkspace) (entry : TabEntry) → IsValid w → IsValid (add w entry).0
unfolding add
add-IsValid w entry v =
    elim (Bool-cases ((entry.id == 0) || is_nil entry.title || is_some (find_tab w entry.id))) [
      | inl refused ↦ rw refused v
      | inr accepted ↦ rw accepted (record {
        ids = IsIds-perm (Perm.symm (appended)) (
            IsIds-cons (ground arith) (find_tab_miss w entry.id (ground arith) (ground arith))
              v.ids);
        titled = All-append IsTitled w.tabs (entry ∷ []) v.titled (ground arith, tt);
        selection =
            Selects-perm _ (Perm.symm appended)
              (Selects-cons w.selected (keys tab_id w.tabs) entry.id v.selection);
      })
    ]
  where
    appended : Perm (keys tab_id (w.tabs ++ entry ∷ [])) (entry.id ∷ keys tab_id w.tabs)
    appended = Perm.map tab_id (perm_append_singleton entry w.tabs)

remove_at-IsValid :
    (w : TabWorkspace) (id i : ℕ) → find_tab w id ≡ some i → IsValid w → IsValid (remove_at w id i)
unfolding remove_at
remove_at-IsValid w id i h v =
    let (t, at, same) = find_tab_sound w id h in
    record {
      ids = (IsIds-erase_idx tab_id w.tabs i at v.ids).0;
      titled = All-erase_idx IsTitled w.tabs i v.titled;
      selection = Selects-close tab_id w.selected w.tabs i id t at same v.selection;
    }

remove-IsValid : (w : TabWorkspace) (id : ℕ) → IsValid w → IsValid (remove w id).0
unfolding remove
remove-IsValid w id v = elim (Option-cases (find_tab w id)) [
  | inl miss ↦ rw (miss, remove) v
  | inr (i, hit) ↦ rw (hit, remove) (remove_at-IsValid w id i hit v)
]

move_entry-IsValid :
    (w : TabWorkspace) (i j : ℕ) (o : Option TabEntry)
    → get_elem? w.tabs i ≡ o
    → IsValid w
    → IsValid (move_entry w i j o)
unfolding move_entry
move_entry-IsValid w i j none at v = v
move_entry-IsValid w i j (some t) at v =
    let moved = Perm.symm (Perm.map tab_id (erase_idx-insert_at-perm tab_id w.tabs i j at)) in
    record {
      ids = IsIds-perm moved v.ids;
      titled =
          All-insert_at IsTitled (erase_idx w.tabs i) j t
            (All-get_elem? IsTitled w.tabs i at v.titled)
            (All-erase_idx IsTitled w.tabs i v.titled);
      selection = Selects-perm w.selected moved v.selection;
    }

move-IsValid : (w : TabWorkspace) (id j : ℕ) → IsValid w → IsValid (move w id j).0
unfolding move move_from
move-IsValid w id j v = elim (Option-cases (find_tab w id)) [
  | inl miss ↦ rw (miss, move) v
  | inr (i, hit) ↦
      rw (hit, move) (ground (arith, move_entry-IsValid w i j (get_elem? w.tabs i) refl v))
]

select-IsValid : (w : TabWorkspace) (id : ℕ) → IsValid w → IsValid (select w id).0
unfolding select
select-IsValid w id v = elim (Option-cases (find_tab w id)) [
  | inl miss ↦ rw (miss, select) v
  | inr (i, hit) ↦
      rw (hit, select)
        (record { ids = v.ids; titled = v.titled; selection = find_tab-mem w id hit })
]

-- A write that keeps the ID of every tab, and titles with text.
modify-IsValid :
    (w : TabWorkspace) (f : TabEntry → TabEntry) (i : ℕ)
    → ((t : TabEntry) → (f t).id ≡ t.id)
    → ((t : TabEntry) → IsTitled t → IsTitled (f t))
    → IsValid w
    → IsValid (record w { tabs = modify f w.tabs i })
modify-IsValid w f i same titled v =
    let kept = map-modify tab_id f same w.tabs i in
    record {
      ids = rw kept v.ids;
      titled = All-modify IsTitled f titled w.tabs i v.titled;
      selection = rw kept v.selection;
    }

set_title-IsValid :
    (w : TabWorkspace) (id : ℕ) (title : Text) → IsValid w → IsValid (set_title w id title).0
unfolding set_title
set_title-IsValid w id [] v = v
set_title-IsValid w id (c ∷ title) v = elim (Option-cases (find_tab w id)) [
  | inl miss ↦ rw (miss, set_title) v
  | inr (i, hit) ↦
      rw (hit, set_title)
        (modify-IsValid w (λ t. record t { title = c ∷ title }) i (λ t. refl) (λ t h e. cc) v)
]

set_dirty-IsValid :
    (w : TabWorkspace) (id : ℕ) (dirty : Bool) → IsValid w → IsValid (set_dirty w id dirty).0
unfolding set_dirty
set_dirty-IsValid w id dirty v = elim (Option-cases (find_tab w id)) [
  | inl miss ↦ rw (miss, set_dirty) v
  | inr (i, hit) ↦
      rw (hit, set_dirty)
        (modify-IsValid w (λ t. record t { dirty = dirty }) i (λ t. refl) (λ t h. h) v)
]

-- One call keeps the IDs distinct and not zero, the titles with text, and the selection on an
-- open tab, with no selection only where no tab is open.
pub step-IsValid : (w : TabWorkspace) (c : Call) → IsValid w → IsValid (step w c).0
unfolding step
step-IsValid w (adds entry) v = add-IsValid w entry v
step-IsValid w (removes id) v = remove-IsValid w id v
step-IsValid w (selects id) v = select-IsValid w id v
step-IsValid w (moves id i) v = move-IsValid w id i v
step-IsValid w (titles id title) v = set_title-IsValid w id title v
step-IsValid w (dirties id dirty) v = set_dirty-IsValid w id dirty v

-- Every sequence of calls keeps the IDs distinct and not zero, the titles with text, and the
-- selection on an open tab, with no selection only where no tab is open.
pub run-IsValid : (w : TabWorkspace) (cs : List Call) → IsValid w → IsValid (run w cs)
unfolding run
run-IsValid w [] v = v
run-IsValid w (c ∷ cs) v = run-IsValid (step w c).0 cs (step-IsValid w c v)

pub empty-IsValid : IsValid empty
empty-IsValid = record {
  ids = record { nonzero = λ m. not-mem-nil m; distinct = Nodup-nil };
  titled = tt;
  selection = refl;
}
