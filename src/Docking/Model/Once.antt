-- ===== src/Docking/Model/Once.antt =====
-- Every sequence of calls on a `DockLayoutModel` of src/docking_workspace.cpp, refused ones and
-- forged transactions included, shows each panel exactly once.
use mathlib.Core.List.{perm_append_singleton, perm_middle}
use mathlib.Core.List.Perm
use mwfl.Prelude.{
  ℕ, zero, suc, ◌≡◌, sym, subst, ◌⊎◌, inl, inr, Option, some, List, [], ◌∷◌, map, Perm, arith,
  Bool-cases, Option-cases, length, get_elem?, modify, insert_at-perm,
}
use mwfl.Prelude.Keyed.{index_of, index_of_sound}
use mwfl.Prelude.Double.{Double}
use mwfl.Docking.{
  GroupRole, Edge, Panel, Group, Snapshot, success, is_success, panel_id, group_id, find_group,
}
use mwfl.Docking.Validate.{validate}
use mwfl.Docking.Validate.Once.{shown_in_groups, shown_panels, validate-once}
use mwfl.Docking.Mutation.{insert_panel, insertion_index, node_of_group, replace_node_reference}
use mwfl.Docking.Model.{
  Transaction, LayoutModel, commit, replace, add_panel, add_docked_group, insert_new_panel,
  dock_group, docked, create, with_group,
}
use mwfl.Docking.Model.Commit.{success_of}

-- The calls that may change the model.
pub data Call : Type 0 where
  committing : Transaction → Call
  replacing : Snapshot → Call
  adding_panel : Panel → ℕ → Option ℕ → Call
  adding_group : ℕ → ℕ → GroupRole → ℕ → ℕ → Edge → Double → Call

abbrev pub step : LayoutModel → Call → LayoutModel
step m (committing t) = (commit m t).0
step m (replacing s) = (replace m s).0
step m (adding_panel p group index) = (add_panel m p group index).0
step m (adding_group group node role target split edge ratio) =
    (add_docked_group m group node role target split edge ratio).0

abbrev pub steps : LayoutModel → List Call → LayoutModel
steps m [] = m
steps m (c ∷ cs) = steps (step m c) cs

-- The groups and the auto-hide entries show every panel exactly once.
abbrev pub IsOnce : Snapshot → Type 0
IsOnce s = Perm (shown_panels s) (map panel_id s.panels)

insert_panel-shown :
    (id : ℕ) (index : Option ℕ) (gs : List Group) (i : ℕ) {g : Group}
    → get_elem? gs i ≡ some g
    → Perm (shown_in_groups (modify (insert_panel id index) gs i)) (id ∷ shown_in_groups gs)
unfolding modify
insert_panel-shown id index [] i at = cc
insert_panel-shown id index (g ∷ gs) zero at =
    Perm.append (insert_at-perm g.panels (insertion_index index (length g.panels)) id) Perm.rfl
insert_panel-shown id index (g ∷ gs) (suc i) {g = a} at =
    Perm.trans (Perm.append (Perm.refl g.panels) (insert_panel-shown id index gs i {g = a} at))
      (perm_middle g.panels (shown_in_groups gs))

insert_new_panel-IsOnce :
    (s : Snapshot) (p : Panel) (i : ℕ) (index : Option ℕ) {g : Group}
    → get_elem? s.groups i ≡ some g
    → IsOnce s
    → IsOnce (insert_new_panel s p i index)
unfolding insert_new_panel
insert_new_panel-IsOnce s p i index {g = g} at h =
    Perm.trans (Perm.append (insert_panel-shown p.id index s.groups i {g = g} at) Perm.rfl) (
      Perm.trans (Perm.cons p.id h)
        (Perm.symm (Perm.map panel_id (perm_append_singleton p s.panels))))

-- Each call leaves the layout alone, or installs the one that the source builds.
add_panel-state :
    (m : LayoutModel) (p : Panel) (group : ℕ) (index : Option ℕ)
    → ((add_panel m p group index).0.state ≡ m.state)
      ⊎ ((i : ℕ) × (index_of group_id group m.state.groups ≡ some i)
          × ((add_panel m p group index).0.state ≡ insert_new_panel m.state p i index))
unfolding add_panel find_group
add_panel-state m p group index = elim (Option-cases (index_of group_id group m.state.groups)) [
  | inl miss ↦ inl (ground (arith, miss))
  | inr (i, hit) ↦ elim (Bool-cases (is_success (add_panel m p group index).1.status)) [
    | inl good ↦ inr (i, hit, ground (arith, hit, good))
    | inr bad ↦ inl (ground (arith, hit, bad))
  ]
]

add_panel-IsOnce :
    (m : LayoutModel) (p : Panel) (group : ℕ) (index : Option ℕ)
    → IsOnce m.state
    → IsOnce (add_panel m p group index).0.state
add_panel-IsOnce m p group index h = elim (add_panel-state m p group index) [
  | inl same ↦ subst IsOnce (sym same) h
  | inr (i, hit, new) ↦
      let (g, at, e) = index_of_sound group_id group m.state.groups hit in
      subst IsOnce (sym new) (insert_new_panel-IsOnce m.state p i index {g = g} at h)
]

add_docked_group-state :
    (m : LayoutModel) (group node : ℕ) (role : GroupRole) (target split : ℕ) (edge : Edge)
    (ratio : Double)
    → ((add_docked_group m group node role target split edge ratio).0.state ≡ m.state)
      ⊎ (validate (add_docked_group m group node role target split edge ratio).0.state ≡ success)
unfolding add_docked_group dock_group
add_docked_group-state m group node role target split edge ratio =
    elim (Option-cases (node_of_group m.state target)) [
      | inl miss ↦ inl (ground (arith, miss))
      | inr (n, hit) ↦
          elim (Option-cases
            (replace_node_reference (with_group m.state group node role) n.id split)) [
              | inl miss ↦ inl (ground (arith, hit, miss))
              | inr (r, replaced) ↦
                  elim (Bool-cases (
                    is_success
                      (add_docked_group m group node role target split edge ratio).1.status)) [
                        | inl good ↦ inr (
                            ground (
                              arith,
                              hit,
                              replaced,
                              good,
                              success_of (validate (docked r node n.id split edge ratio)),
                            ))
                        | inr bad ↦ inl (ground (arith, hit, replaced, bad))
                      ]
            ]
    ]

commit-state :
    (m : LayoutModel) (t : Transaction)
    → ((commit m t).0.state ≡ m.state) ⊎ (validate (commit m t).0.state ≡ success)
unfolding commit
commit-state m t = elim (Bool-cases (is_success (commit m t).1.status)) [
  | inl good ↦ inr (ground (arith, good, success_of (validate t.proposed)))
  | inr bad ↦ inl (ground (arith, bad))
]

replace-state :
    (m : LayoutModel) (s : Snapshot)
    → ((replace m s).0.state ≡ m.state) ⊎ (validate (replace m s).0.state ≡ success)
unfolding replace
replace-state m s = elim (Bool-cases (is_success (validate s))) [
  | inl good ↦ inr (ground (arith, good, success_of (validate s)))
  | inr bad ↦ inl (ground (arith, bad))
]

IsOnce-state :
    (s after : Snapshot) → (after ≡ s) ⊎ (validate after ≡ success) → IsOnce s → IsOnce after
IsOnce-state s after (inl same) h = subst IsOnce (sym same) h
IsOnce-state s after (inr valid) h = validate-once after valid

step-IsOnce : (m : LayoutModel) (c : Call) → IsOnce m.state → IsOnce (step m c).state
step-IsOnce m (committing t) h = IsOnce-state m.state _ (commit-state m t) h
step-IsOnce m (replacing s) h = IsOnce-state m.state _ (replace-state m s) h
step-IsOnce m (adding_panel p group index) h = add_panel-IsOnce m p group index h
step-IsOnce m (adding_group group node role target split edge ratio) h =
    IsOnce-state m.state _ (add_docked_group-state m group node role target split edge ratio) h

steps-IsOnce : (m : LayoutModel) (cs : List Call) → IsOnce m.state → IsOnce (steps m cs).state
steps-IsOnce m [] h = h
steps-IsOnce m (c ∷ cs) h = steps-IsOnce (step m c) cs (step-IsOnce m c h)

create-IsOnce :
    (group node : ℕ) (role : GroupRole) {m : LayoutModel}
    → create group node role ≡ some m
    → IsOnce m.state
unfolding create
create-IsOnce group node role {m = m} e =
    let panels : m.state.panels ≡ [] = ground arith in
    let groups : shown_in_groups m.state.groups ≡ [] = ground arith in
    let hidden : m.state.auto_hide ≡ [] = ground arith in rw (panels, groups, hidden) Perm.nil

-- Whatever calls are made on a new model, in any order and with any arguments, the groups and the
-- auto-hide entries of its layout show every panel exactly once, and nothing else.
pub steps-create :
    (group node : ℕ) (role : GroupRole) (cs : List Call) {m : LayoutModel}
    → create group node role ≡ some m
    → Perm (shown_panels (steps m cs).state) (map panel_id (steps m cs).state.panels)
steps-create group node role cs {m = m} e = steps-IsOnce m cs (create-IsOnce group node role e)
