-- ===== src/Docking/Validate.antt =====
-- `DockLayoutModel::Validate` of src/docking_workspace.cpp, loop by loop. The counters are lists
-- beside the panels, groups and nodes that they count. The walk over the nodes has fuel; the child
-- Fuel shows that it never runs out.
pub mod Fuel
pub mod Once
use mwfl.Prelude.{
  ℕ, zero, suc, ◌+◌, ◌-◌, ◌*◌, ◌/◌, ◌%◌, ◌^◌, ◌≤◌, ◌<◌, min, max, ◌≡◌, refl, sym, ap, subst, ◌∙◌,
  ◌≢◌, ◌↔◌, ◌⊎◌, inl, inr, Bool, true, false, not, ◌&&◌, ◌||◌, Option, none, some, List, [], ◌∷◌,
  ◌++◌, map, Mem, Nodup, Perm, arith, Text, u64_mod, next_u64, ltb, leb, ◌==◌, if◌then◌else◌,
  ltb→lt, lt→ltb, leb→le, ==_iff, ==_refl, Bool-cases, Option-cases, text_eq, text_eq_iff, opt_eq,
  ◌>>=◌, codes, is_nil, is_some, length, get_elem?, take, drop, insert_at, erase_idx, modify,
  find_index, find, any, erase_if, length-append, length-take, length-drop, length-insert_at,
  length-erase_idx, length-modify, get_elem?-insert_at_self, erase_idx-insert_at, get_elem?_of_lt,
  lt-length_of_get_elem?, mem_of_get_elem?, insert_at-perm, erase_idx-perm, find_index_sound,
  find_index-any, length-map, get_elem?-map, map-insert_at, map-erase_idx, map-modify, shift, All,
  All-append, All-insert_at, All-erase_idx, All-modify, All-take, All-erase_if, All-get_elem?,
  get_elem?-erase_idx_lt, get_elem?-erase_idx_le, heir, get_elem?-min-erase_idx,
}
use mathlib.Core.List.{reverse}
use mwfl.Prelude.Keyed.{contains, index_of}
use mwfl.Docking.{
  PanelRole, GroupRole, Panel, Group, Node, FloatingHost, AutoHideEntry, Snapshot, LayoutStatus,
  success, invalid_argument, duplicate_id, invalid_graph, panel_id, group_id, node_id, host_id,
  role_for, group_role_eq, is_tool, is_split, find_group, find_node, ratio_is_valid,
  placement_is_valid,
}

unfoldable pub sizes_are_valid : Snapshot → Bool
sizes_are_valid s =
    not (s.main_root == 0)
    && leb (length s.panels) 4096
    && leb (length s.groups) 4096
    && leb (length s.nodes) 8192
    && leb (length s.floating_hosts) 1024
    && leb (length s.auto_hide) 4096

-- The lambda `duplicate`: an ID is zero, or stands twice.
unfoldable pub duplicate : List ℕ → Bool
duplicate [] = false
duplicate (x ∷ xs) = (x == 0) || any (λ y. x == y) xs || duplicate xs

unfoldable pub has_duplicates : Snapshot → Bool
has_duplicates s =
    duplicate (map panel_id s.panels)
    || duplicate (map group_id s.groups)
    || duplicate (map node_id s.nodes)
    || duplicate (map host_id s.floating_hosts)

unfoldable pub title_is_valid : Panel → Bool
title_is_valid p = not (is_nil p.title) && leb (length p.title) 4096

-- `std::vector<std::size_t>(n)`.
unfoldable pub zeros : {A : Type 0} → List A → List ℕ
zeros xs = map (λ _. 0) xs

abbrev pub is_one : Option ℕ → Bool
is_one none = false
is_one (some n) = n == 1

-- `++uses[i] != 1` fails, or the new counters.
unfoldable pub use_once : List ℕ → ℕ → Option (List ℕ)
use_once uses i =
    let bumped = modify suc uses i in if is_one (get_elem? bumped i) then some bumped else none

abbrev pub has_group_role : Option Panel → GroupRole → Bool
has_group_role none role = false
has_group_role (some p) role = group_role_eq (role_for p.role) role

-- One panel of a group.
unfoldable pub place_one : List Panel → GroupRole → List ℕ → ℕ → Option (List ℕ)
place_one panels role uses id = elim (index_of panel_id id panels) [
  | none ↦ none
  | some i ↦ if not (has_group_role (get_elem? panels i) role) then none else use_once uses i
]

-- The loop over the panels of a group.
unfoldable pub place_panels : List Panel → GroupRole → List ℕ → List ℕ → LayoutStatus ⊎ List ℕ
place_panels panels role uses [] = inr uses
place_panels panels role uses (id ∷ ids) = elim (place_one panels role uses id) [
  | none ↦ inl invalid_graph
  | some bumped ↦
      if any (λ other. id == other) ids
      then inl duplicate_id
      else place_panels panels role bumped ids
]

abbrev pub active_is_held : List ℕ → Option ℕ → Bool
active_is_held panels none = is_nil panels
active_is_held panels (some id) = not (is_nil panels) && contains panels id

-- The loop over the groups.
unfoldable pub place_groups : List Panel → List ℕ → List Group → LayoutStatus ⊎ List ℕ
place_groups panels uses [] = inr uses
place_groups panels uses (g ∷ gs) = elim (place_panels panels g.role uses g.panels) [
  | inl s ↦ inl s
  | inr bumped ↦
      if not (active_is_held g.panels g.active)
      then inl invalid_graph
      else place_groups panels bumped gs
]

abbrev pub has_tool_role : Option Panel → Bool
has_tool_role none = false
has_tool_role (some p) = is_tool p.role

unfoldable pub hide_one : List Panel → List ℕ → ℕ → Option (List ℕ)
hide_one panels uses id = elim (index_of panel_id id panels) [
  | none ↦ none
  | some i ↦ if not (has_tool_role (get_elem? panels i)) then none else use_once uses i
]

-- The loop over the auto-hide entries.
unfoldable pub place_hidden : List Panel → List ℕ → List AutoHideEntry → Option (List ℕ)
place_hidden panels uses [] = some uses
place_hidden panels uses (e ∷ es) = elim (hide_one panels uses e.panel) [
  | none ↦ none
  | some bumped ↦ place_hidden panels bumped es
]

unfoldable pub all_one : List ℕ → Bool
all_one uses = not (any (λ count. not (count == 1)) uses)

abbrev pub active_exists : List Panel → Option ℕ → Bool
active_exists panels none = true
active_exists panels (some id) = is_some (index_of panel_id id panels)

-- A node that shows a group.
unfoldable pub check_group_node : Snapshot → List ℕ → Node → Option (List ℕ)
check_group_node s uses n = elim (find_group s n.group) [
  | none ↦ none
  | some i ↦ if not (n.first == 0) || not (n.second == 0) then none else use_once uses i
]

-- A split gives each of its two nodes a parent.
unfoldable pub check_split : Snapshot → List ℕ → Node → Option (List ℕ)
check_split s parents n = do
  first ← find_node s n.first
  second ← find_node s n.second
  if (first == second) || not (n.group == 0) || not (ratio_is_valid n.ratio)
      then none
      else some (modify suc (modify suc parents first) second)

-- The loop over the nodes: the counters of the groups, and those of the parents.
unfoldable pub check_nodes : Snapshot → List ℕ → List ℕ → List Node → Option (List ℕ × List ℕ)
check_nodes s uses parents [] = some (uses, parents)
check_nodes s uses parents (n ∷ ns) = elim (is_split n.kind) [
  | true ↦ elim (check_split s parents n) [
    | none ↦ none
    | some counted ↦ check_nodes s uses counted ns
  ]
  | false ↦ elim (check_group_node s uses n) [
    | none ↦ none
    | some counted ↦ check_nodes s counted parents ns
  ]
]

-- The loop over the floating hosts.
unfoldable pub collect_roots : Snapshot → List ℕ → List FloatingHost → Option (List ℕ)
collect_roots s roots [] = some roots
collect_roots s roots (h ∷ hs) =
    if not (placement_is_valid h.placement)
      || not (is_some (find_node s h.root))
      || contains roots h.root
    then none
    else collect_roots s (roots ++ h.root ∷ []) hs

unfoldable pub own_roots : Snapshot → List ℕ → List ℕ → Option (List ℕ)
own_roots s parents [] = some parents
own_roots s parents (root ∷ roots) = elim (find_node s root) [
  | none ↦ none
  | some i ↦ own_roots s (modify suc parents i) roots
]

pub data Walk : Type 0 where
  walked : List Bool → Walk
  broken out_of_fuel : Walk

abbrev pub is_visited : Option Bool → Bool
is_visited none = true
is_visited (some b) = b

-- What a node adds to the pending ones; the back of the vector is the head of the list.
abbrev pub push_children : Option Node → List ℕ → List ℕ
push_children none pending = pending
push_children (some n) pending = if is_split n.kind then n.second ∷ n.first ∷ pending else pending

unfoldable pub walk : Snapshot → ℕ → List Bool → List ℕ → Walk
walk s zero visited pending = out_of_fuel
walk s (suc fuel) visited [] = walked visited
walk s (suc fuel) visited (id ∷ pending) = elim (find_node s id) [
  | none ↦ broken
  | some i ↦ elim (is_visited (get_elem? visited i)) [
    | true ↦ broken
    | false ↦
        walk s fuel (modify (λ _. true) visited i) (push_children (get_elem? s.nodes i) pending)
  ]
]

abbrev pub all_visited : Walk → LayoutStatus
all_visited (walked visited) = if any not visited then invalid_graph else success
all_visited broken = invalid_graph
all_visited out_of_fuel = invalid_graph

unfoldable pub unvisited : List Node → List Bool
unvisited ns = map (λ _. false) ns

unfoldable pub validate_walk : Snapshot → List ℕ → LayoutStatus
validate_walk s roots =
    all_visited (walk s (suc (length s.nodes)) (unvisited s.nodes) (reverse roots))

abbrev pub own_and_walk : Snapshot → List ℕ → Option (List ℕ) → LayoutStatus
own_and_walk s parents none = invalid_graph
own_and_walk s parents (some roots) = elim (own_roots s parents roots) [
  | none ↦ invalid_graph
  | some owned ↦ if not (all_one owned) then invalid_graph else validate_walk s roots
]

unfoldable pub validate_nodes : Snapshot → LayoutStatus
validate_nodes s = elim (check_nodes s (zeros s.groups) (zeros s.nodes) s.nodes) [
  | none ↦ invalid_graph
  | some counted ↦
      if not (all_one counted.0)
      then invalid_graph
      else own_and_walk s counted.1 (collect_roots s (s.main_root ∷ []) s.floating_hosts)
]

-- What follows the loops over the groups and the auto-hide entries.
abbrev pub validate_uses : Snapshot → Option (List ℕ) → LayoutStatus
validate_uses s none = invalid_graph
validate_uses s (some uses) =
    if not (all_one uses) || not (active_exists s.panels s.active_panel)
    then invalid_graph
    else validate_nodes s

unfoldable pub validate : Snapshot → LayoutStatus
validate s =
    if not (sizes_are_valid s)
    then invalid_graph
    else if has_duplicates s
    then duplicate_id
    else if any (λ p. not (title_is_valid p)) s.panels
    then invalid_argument
    else elim (place_groups s.panels (zeros s.panels) s.groups) [
      | inl status ↦ status
      | inr uses ↦ validate_uses s (place_hidden s.panels uses s.auto_hide)
    ]
