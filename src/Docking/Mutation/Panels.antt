-- ===== src/Docking/Mutation/Panels.antt =====
-- What a mutation of src/docking_workspace.cpp leaves of the list of panels and of the active one.
use mwfl.Prelude.{
  ℕ, ◌≡◌, subst, inl, inr, Bool, true, false, some, arith, ◌==◌, if◌then◌else◌, ==_iff,
  Option-cases, opt_eq, erase_if,
}
use mwfl.Prelude.Searching.{find-some}
use mwfl.Docking.{Panel, Snapshot, success, find_panel}
use mwfl.Docking.Mutation.{
  MutationKind, activate, move_to_group, split_to_group, float_panel, auto_hide, close_panel,
  Mutation, detach_panel, replace_in_nodes, replace_node_reference, first_placed_panel,
  apply_activate, apply_close, apply_auto_hide, apply_move, regroup, apply_float, apply_split,
  apply_kind, apply_mutation, node_of_group,
}

abbrev pub is_close : MutationKind → Bool
is_close close_panel = true
is_close kind = false

-- The panels after a mutation that succeeds, and the active one.
abbrev pub Outcome : Snapshot → ℕ → MutationKind → Snapshot → Type 0
Outcome s id kind after =
    (after.panels ≡ (if is_close kind then erase_if (λ q. q.id == id) s.panels else s.panels))
    × (after.active_panel ≡ (
        if is_close kind
        then (if opt_eq s.active_panel (some id) then first_placed_panel after else s.active_panel)
        else some id))

replace_node_reference-panels :
    (s : Snapshot) (old replacement : ℕ) {after : Snapshot}
    → replace_node_reference s old replacement ≡ some after
    → after.panels ≡ s.panels
unfolding replace_node_reference replace_in_nodes
replace_node_reference-panels s old replacement e = ground arith

apply_split-Outcome :
    (s : Snapshot) (p : Panel) (m : Mutation) {after : Snapshot}
    → apply_split s p m ≡ (after, success)
    → Outcome s p.id split_to_group after
unfolding apply_split regroup detach_panel
apply_split-Outcome s p m {after = after} e =
    elim (Option-cases (node_of_group (regroup s p m) m.target_group)) [
      | inl miss ↦ ground (arith, miss)
      | inr (n, hit) ↦
          elim (Option-cases (replace_node_reference (regroup s p m) n.id m.new_split_node)) [
            | inl miss ↦ ground (arith, hit, miss)
            | inr (r, replaced) ↦ ground (
              arith,
              hit,
              replaced,
              replace_node_reference-panels (regroup s p m) n.id m.new_split_node {after = r}
                  replaced,
            )
          ]
    ]

apply_kind-Outcome :
    (s : Snapshot) (p : Panel) (m : Mutation) (kind : MutationKind) {after : Snapshot}
    → apply_kind s p m kind ≡ (after, success)
    → Outcome s p.id kind after
unfolding apply_kind apply_activate apply_close apply_auto_hide apply_move apply_float regroup
    detach_panel first_placed_panel
apply_kind-Outcome s p m activate e = ground arith
apply_kind-Outcome s p m close_panel e = ground arith
apply_kind-Outcome s p m auto_hide e = ground arith
apply_kind-Outcome s p m move_to_group e = ground arith
apply_kind-Outcome s p m float_panel e = ground arith
apply_kind-Outcome s p m split_to_group {after = after} e =
    apply_split-Outcome s p m {after = after} (ground arith)

pub apply_mutation-Outcome :
    (s : Snapshot) (m : Mutation) {after : Snapshot}
    → apply_mutation s m ≡ (after, success)
    → Outcome s m.panel m.kind after
unfolding apply_mutation find_panel
apply_mutation-Outcome s m {after = after} e = elim (Option-cases (find_panel s m.panel)) [
  | inl miss ↦ absurd (ground (arith, miss))
  | inr (p, hit) ↦
      subst (λ id. Outcome s id m.kind after)
        ((==_iff p.id m.panel).0 (find-some (λ q. q.id == m.panel) s.panels hit).1)
        (apply_kind-Outcome s p m m.kind (ground (arith, hit)))
]
