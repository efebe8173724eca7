-- ===== src/Docking/Mutation.antt =====
-- `ApplyMutation` of src/docking_workspace.cpp and the helpers above it. It works on a copy of the
-- layout, which its caller drops where the status is not success.
pub mod Panels
use mwfl.Prelude.{
  ℕ, zero, suc, ◌+◌, ◌-◌, ◌*◌, ◌/◌, ◌%◌, ◌^◌, ◌≤◌, ◌<◌, min, max, ◌≡◌, refl, sym, ap, subst, ◌∙◌,
  ◌≢◌, ◌↔◌, ◌⊎◌, inl, inr, Bool, true, false, not, ◌&&◌, ◌||◌, Option, none, some, List, [], ◌∷◌,
  ◌++◌, map, Mem, Nodup, Perm, arith, Text, u64_mod, next_u64, ltb, leb, ◌==◌, if◌then◌else◌,
  ltb→lt, lt→ltb, leb→le, ==_iff, ==_refl, Bool-cases, Option-cases, text_eq, text_eq_iff, opt_eq,
  ◌>>=◌, codes, is_nil, is_some, length, get_elem?, take, drop, insert_at, erase_idx, modify,
  find_index, find, any, erase_if, length-append, length-take, length-drop, length-insert_at,
  length-erase_idx, length-modify, get_elem?-insert_at_self, erase_idx-insert_at, get_elem?_of_lt,
  lt-length_of_get_elem?, mem_of_get_elem?, insert_at-perm, erase_idx-perm, find_index_sound,
  find_index-any, length-map, get_elem?-map, map-insert_at, map-erase_idx, map-modify, shift, All,
  All-append, All-insert_at, All-erase_idx, All-modify, All-take, All-erase_if, All-get_elem?,
  get_elem?-erase_idx_lt, get_elem?-erase_idx_le, heir, get_elem?-min-erase_idx,
}
use mwfl.Prelude.Double.{Double, half}
use mwfl.Prelude.Keyed.{contains, index_of}
use mwfl.Docking.{
  PanelRole, GroupRole, NodeKind, group, split, vertical, Edge, Panel, Group, Node, Placement,
  FloatingHost, AutoHideEntry, Snapshot, LayoutStatus, success, invalid_argument, duplicate_id,
  not_found, role_mismatch, invalid_graph, group_id, role_for, group_role_eq, is_tool, is_split,
  edge_eq, is_first_edge, orientation_of, find_panel, find_group, find_node, find_host,
  ratio_is_valid, placement_is_valid,
}

pub data MutationKind : Type 0 where
  activate move_to_group split_to_group float_panel auto_hide close_panel : MutationKind

pub record Mutation : Type 0 where
  pub kind : MutationKind
  pub panel : ℕ
  pub target_group : ℕ
  pub target_index : Option ℕ
  pub edge : Edge
  pub new_group : ℕ
  pub new_group_node : ℕ
  pub new_split_node : ℕ
  pub new_floating_host : ℕ
  pub floating_placement : Placement
  pub split_ratio : Double

abbrev pub front : List ℕ → Option ℕ
front [] = none
front (x ∷ xs) = some x

-- `group.active && Contains(group.panels, *group.active)`
abbrev pub holds_active : List ℕ → Option ℕ → Bool
holds_active panels none = false
holds_active panels (some id) = contains panels id

unfoldable pub select_fallback : Group → Group
select_fallback g =
    if holds_active g.panels g.active then g else record g { active = front g.panels }

unfoldable pub detach_group : ℕ → Group → Group
detach_group id g =
    let rest = erase_if (λ p. p == id) g.panels in
    if length rest == length g.panels
    then record g { panels = rest }
    else select_fallback (record g { panels = rest })

unfoldable pub detach_panel : Snapshot → ℕ → Snapshot
detach_panel s id = record s {
  groups = map (detach_group id) s.groups;
  auto_hide = erase_if (λ e. e.panel == id) s.auto_hide;
}

abbrev pub refers_to : ℕ → Node → Bool
refers_to old n = is_split n.kind && ((n.first == old) || (n.second == old))

abbrev pub redirect : ℕ → ℕ → Node → Node
redirect old replacement n =
    if n.first == old then record n { first = replacement } else record n { second = replacement }

-- The loop over the nodes.
unfoldable pub replace_in_nodes : Snapshot → ℕ → ℕ → Option Snapshot
replace_in_nodes s old replacement = elim (find_index (refers_to old) s.nodes) [
  | none ↦ none
  | some i ↦ some (record s { nodes = modify (redirect old replacement) s.nodes i })
]

-- `ReplaceNodeReference`; `none` where it returns false.
unfoldable pub replace_node_reference : Snapshot → ℕ → ℕ → Option Snapshot
replace_node_reference s old replacement =
    if s.main_root == old
    then some (record s { main_root = replacement })
    else elim (find_index (λ h. h.root == old) s.floating_hosts) [
      | some i ↦ some (record s {
        floating_hosts = modify (λ h. record h { root = replacement }) s.floating_hosts i;
      })
      | none ↦ replace_in_nodes s old replacement
    ]

unfoldable pub first_in_groups : List Group → Option ℕ
first_in_groups [] = none
first_in_groups (g ∷ gs) =
    let rest = first_in_groups gs in
    if is_some g.active then g.active else if is_nil g.panels then rest else front g.panels

abbrev pub first_hidden : List AutoHideEntry → Option ℕ
first_hidden [] = none
first_hidden (e ∷ es) = some e.panel

unfoldable pub first_placed_panel : Snapshot → Option ℕ
first_placed_panel s = elim (first_in_groups s.groups) [
  | some id ↦ some id
  | none ↦ first_hidden s.auto_hide
]

-- The order behind the entries of an edge.
unfoldable pub next_order : Edge → List AutoHideEntry → ℕ → ℕ
next_order edge [] order = order
next_order edge (e ∷ es) order =
    next_order edge es (if edge_eq e.edge edge then max order (next_u64 e.order) else order)

abbrev pub fail : Snapshot → LayoutStatus → Snapshot × LayoutStatus
fail s status = (s, status)

unfoldable pub apply_activate : Snapshot → ℕ → Snapshot × LayoutStatus
apply_activate s id = (
  record s {
    active_panel = some id;
    groups = map (λ g. if contains g.panels id then record g { active = some id } else g) s.groups;
  },
  success,
)

unfoldable pub apply_close : Snapshot → Panel → Snapshot × LayoutStatus
apply_close s p =
    if not p.closable
    then fail s invalid_argument
    else (let detached = detach_panel s p.id in
        let closed = record detached { panels = erase_if (λ q. q.id == p.id) detached.panels } in
        (
          record closed {
            active_panel =
                if opt_eq closed.active_panel (some p.id)
                then first_placed_panel closed
                else closed.active_panel;
          },
          success,
        ))

unfoldable pub apply_auto_hide : Snapshot → Panel → Edge → Snapshot × LayoutStatus
apply_auto_hide s p edge =
    if not (is_tool p.role)
    then fail s role_mismatch
    else (let detached = detach_panel s p.id in
        (
          record detached {
            auto_hide =
                detached.auto_hide
                ++ record {
                  panel = p.id;
                  edge = edge;
                  order = next_order edge detached.auto_hide 0;
                }
                  ∷ [];
            active_panel = some p.id;
          },
          success,
        ))

-- `target_index ? min(*target_index, size) : size`
abbrev pub insertion_index : Option ℕ → ℕ → ℕ
insertion_index none size = size
insertion_index (some i) size = min i size

abbrev pub insert_panel : ℕ → Option ℕ → Group → Group
insert_panel id index g = record g {
  panels = insert_at g.panels (insertion_index index (length g.panels)) id;
  active = some id;
}

abbrev pub group_role_at : Option Group → GroupRole → Bool
group_role_at none role = false
group_role_at (some g) role = group_role_eq g.role role

unfoldable pub apply_move : Snapshot → Panel → Mutation → Snapshot × LayoutStatus
apply_move s p m = elim (find_group s m.target_group) [
  | none ↦ fail s not_found
  | some i ↦
      if not (group_role_at (get_elem? s.groups i) (role_for p.role))
      then fail s role_mismatch
      else let detached = detach_panel s p.id in
        (
          record detached {
            groups = modify (insert_panel p.id m.target_index) detached.groups i;
            active_panel = some p.id;
          },
          success,
        )
]

abbrev pub group_node : ℕ → ℕ → Node
group_node id group_id = record {
  id = id;
  kind = group;
  group = group_id;
  orientation = vertical;
  first = 0;
  second = 0;
  ratio = half;
}

-- The node of the split that a new group and its target share.
abbrev pub split_node : ℕ → Edge → ℕ → ℕ → Double → Node
split_node id edge new_node target_node ratio = record {
  id = id;
  kind = split;
  group = 0;
  orientation = orientation_of edge;
  first = if is_first_edge edge then new_node else target_node;
  second = if is_first_edge edge then target_node else new_node;
  ratio = ratio;
}

-- The panel alone in a new group with a node of its own.
unfoldable pub regroup : Snapshot → Panel → Mutation → Snapshot
regroup s p m =
    let detached = detach_panel s p.id in
    record detached {
      groups =
          detached.groups
          ++ record {
            id = m.new_group;
            role = role_for p.role;
            panels = p.id ∷ [];
            active = some p.id;
          }
            ∷ [];
      nodes = detached.nodes ++ group_node m.new_group_node m.new_group ∷ [];
    }

unfoldable pub apply_float : Snapshot → Panel → Mutation → Snapshot × LayoutStatus
apply_float s p m =
    let grouped = regroup s p m in
    if (m.new_floating_host == 0)
      || is_some (find_host grouped m.new_floating_host)
      || not (placement_is_valid m.floating_placement)
    then fail grouped duplicate_id
    else (
      record grouped {
        floating_hosts =
            grouped.floating_hosts
            ++ record {
              id = m.new_floating_host;
              root = m.new_group_node;
              placement = m.floating_placement;
            }
              ∷ [];
        active_panel = some p.id;
      },
      success,
    )

-- The first node that shows a group.
unfoldable pub node_of_group : Snapshot → ℕ → Option Node
node_of_group s id = find (λ n. not (is_split n.kind) && (n.group == id)) s.nodes

abbrev pub place_split : Panel → Mutation → ℕ → Snapshot → Option Snapshot → Snapshot × LayoutStatus
place_split p m target s none = fail s invalid_graph
place_split p m target s (some replaced) = (
  record replaced {
    nodes =
        replaced.nodes
        ++ split_node m.new_split_node m.edge m.new_group_node target m.split_ratio ∷ [];
    active_panel = some p.id;
  },
  success,
)

unfoldable pub apply_split : Snapshot → Panel → Mutation → Snapshot × LayoutStatus
apply_split s p m =
    let grouped = regroup s p m in
    if not (is_some (find_group grouped m.target_group))
    then fail grouped not_found
    else if (m.new_split_node == 0)
        || is_some (find_node grouped m.new_split_node)
        || not (ratio_is_valid m.split_ratio)
    then fail grouped duplicate_id
    else elim (node_of_group grouped m.target_group) [
      | none ↦ fail grouped invalid_graph
      | some target ↦
          place_split p m target.id grouped
            (replace_node_reference grouped target.id m.new_split_node)
    ]

-- The IDs of a new group are taken.
unfoldable pub taken : Snapshot → Mutation → Bool
taken s m =
    (m.new_group == 0)
    || (m.new_group_node == 0)
    || is_some (find_group s m.new_group)
    || is_some (find_node s m.new_group_node)

unfoldable pub apply_kind : Snapshot → Panel → Mutation → MutationKind → Snapshot × LayoutStatus
apply_kind s p m activate = apply_activate s p.id
apply_kind s p m close_panel = apply_close s p
apply_kind s p m auto_hide = apply_auto_hide s p m.edge
apply_kind s p m move_to_group = apply_move s p m
apply_kind s p m float_panel = if taken s m then fail s duplicate_id else apply_float s p m
apply_kind s p m split_to_group = if taken s m then fail s duplicate_id else apply_split s p m

unfoldable pub apply_mutation : Snapshot → Mutation → Snapshot × LayoutStatus
apply_mutation s m = elim (find_panel s m.panel) [
  | none ↦ fail s not_found
  | some p ↦ apply_kind s p m m.kind
]
