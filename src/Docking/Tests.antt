-- ===== src/Docking/Tests.antt =====
-- Runs of src/docking_workspace.cpp at concrete layouts, and the theorems applied there.
use mwfl.Prelude.{
  ℕ, zero, suc, ◌≡◌, refl, ap, ◌≢◌, true, false, none, some, is_some, false, List, [], ◌∷◌, map,
  Perm, arith, Text, codes, length, insert_at, modify, find_index, find, any, erase_if,
}
use mwfl.Prelude.Keyed.{contains, index_of}
use mwfl.Prelude.Double.{half, le_double, tenth, nine_tenths}
use mwfl.Docking.{
  PanelRole, GroupRole, right, left, Panel, Snapshot, success, find_group, find_node, find_panel,
  find_host, placement_is_valid, ratio_is_valid, panel_id,
}
use mwfl.Docking.Validate.{
  out_of_fuel, sizes_are_valid, duplicate, has_duplicates, title_is_valid, zeros, use_once,
  place_one, place_panels, place_groups, hide_one, place_hidden, all_one, check_group_node,
  check_split, check_nodes, collect_roots, own_roots, walk, unvisited, validate_walk,
  validate_nodes, validate,
}
use mwfl.Docking.Validate.Fuel.{walk_total}
use mwfl.Docking.Validate.Once.{shown_panels, validate-once}
use mwfl.Docking.Mutation.{
  apply_mutation, apply_kind, taken, apply_float, regroup, detach_panel, detach_group,
  select_fallback, group_node, split_node, node_of_group, replace_node_reference, replace_in_nodes,
  float_panel, Mutation,
}
use mwfl.Docking.Mutation.Panels.{Outcome}
use mwfl.Docking.Model.{
  proposal_status, docked, dock_group, with_group, insert_new_panel, Transaction, LayoutModel,
  create, add_panel, add_docked_group, propose, commit,
}
use mwfl.Docking.Model.Commit.{commit-propose}
use mwfl.Docking.Model.Once.{Call, adding_panel, adding_group, steps, steps-create}
use mwfl.Docking.Model.Titles.{add_panel-long_title}
use mwfl.Prelude.Double.{of_ℕ}

abbrev empty_layout : Snapshot
empty_layout = record {
  main_root = 10;
  panels = [];
  groups = record { id = 1; role = GroupRole.document; panels = []; active = none } ∷ [];
  nodes = group_node 10 1 ∷ [];
  floating_hosts = [];
  auto_hide = [];
  active_panel = none;
}

abbrev new_model : LayoutModel
new_model = record { state = empty_layout; revision = 1 }

new_model_lem : create 1 10 GroupRole.document ≡ some new_model
unfolding create
new_model_lem = refl

abbrev editor : Panel
editor = record { id = 5; title = codes "Editor"; role = PanelRole.document; closable = true }

abbrev files : Panel
files = record { id = 6; title = codes "Files"; role = PanelRole.tool; closable = false }

-- A document panel, a tool group to its left, and a panel in that.
abbrev calls : List Call
calls =
    adding_panel editor 1 none
    ∷ adding_group 2 20 GroupRole.tool 1 30 left half
    ∷ adding_panel files 2 (some 4)
    ∷ []

abbrev built : LayoutModel
built = record {
  state = record {
    main_root = 30;
    panels = editor ∷ files ∷ [];
    groups =
        record { id = 1; role = GroupRole.document; panels = 5 ∷ []; active = some 5 }
        ∷ record { id = 2; role = GroupRole.tool; panels = 6 ∷ []; active = some 6 }
        ∷ [];
    nodes = group_node 10 1 ∷ group_node 20 2 ∷ split_node 30 left 20 10 half ∷ [];
    floating_hosts = [];
    auto_hide = [];
    active_panel = some 6;
  };
  revision = 4;
}

steps-calls : steps new_model calls ≡ built
unfolding add_panel add_docked_group docked dock_group with_group insert_new_panel find_panel
    find_group find_node find find_index index_of modify insert_at ratio_is_valid le_double half
    tenth nine_tenths node_of_group replace_node_reference replace_in_nodes validate sizes_are_valid
    has_duplicates duplicate any title_is_valid zeros place_groups place_panels place_one contains
    use_once place_hidden hide_one all_one validate_nodes check_nodes check_group_node check_split
    collect_roots own_roots validate_walk walk unvisited
steps-calls = refl

built-valid : validate built.state ≡ success
unfolding ratio_is_valid le_double half tenth nine_tenths find_group find_node find_index index_of
    modify validate sizes_are_valid has_duplicates duplicate any title_is_valid zeros place_groups
    place_panels place_one contains use_once place_hidden all_one validate_nodes check_nodes
    check_group_node check_split collect_roots own_roots validate_walk walk unvisited
built-valid = refl

validate-once_example : Perm (shown_panels built.state) (map panel_id built.state.panels)
validate-once_example = validate-once built.state built-valid

walk_total_example : walk built.state 4 (unvisited built.state.nodes) (30 ∷ []) ≢ out_of_fuel
walk_total_example = walk_total built.state (30 ∷ [])

steps-create_example :
    Perm
      (shown_panels (steps new_model calls).state)
      (map panel_id (steps new_model calls).state.panels)
steps-create_example = steps-create 1 10 GroupRole.document calls {m = new_model} new_model_lem

-- The tool panel on its own in a floating host.
abbrev floating : Mutation
floating = record {
  kind = float_panel;
  panel = 6;
  target_group = 0;
  target_index = none;
  edge = right;
  new_group = 3;
  new_group_node = 40;
  new_split_node = 0;
  new_floating_host = 50;
  floating_placement = record {
    x = of_ℕ 0;
    y = of_ℕ 0;
    width = of_ℕ 640;
    height = of_ℕ 480;
    monitor_key = [];
  };
  split_ratio = half;
}

abbrev floated : Snapshot
floated = record {
  main_root = 30;
  panels = editor ∷ files ∷ [];
  groups =
      record { id = 1; role = GroupRole.document; panels = 5 ∷ []; active = some 5 }
      ∷ record { id = 2; role = GroupRole.tool; panels = []; active = none }
      ∷ record { id = 3; role = GroupRole.tool; panels = 6 ∷ []; active = some 6 }
      ∷ [];
  nodes = group_node 10 1 ∷ group_node 20 2 ∷ split_node 30 left 20 10 half ∷ group_node 40 3 ∷ [];
  floating_hosts = record { id = 50; root = 40; placement = floating.floating_placement } ∷ [];
  auto_hide = [];
  active_panel = some 6;
}

abbrev transaction : Transaction
transaction = record { source_revision = 4; mutation = floating; proposed = floated }

propose-floating : (propose built floating).0 ≡ some transaction
unfolding propose proposal_status apply_mutation apply_kind taken apply_float regroup detach_panel
    detach_group select_fallback erase_if find_host find_panel find placement_is_valid
    ratio_is_valid le_double half tenth nine_tenths find_group find_node find_index index_of modify
    contains validate sizes_are_valid has_duplicates duplicate any title_is_valid zeros place_groups
    place_panels place_one use_once place_hidden all_one validate_nodes check_nodes check_group_node
    check_split collect_roots own_roots validate_walk walk unvisited
propose-floating = refl

commit-propose_example :
    (commit built transaction
      ≡ (record { state = floated; revision = 5 }, record { status = success; active = some 6 }))
    × Outcome built.state 6 float_panel floated
    × Perm (shown_panels floated) (5 ∷ 6 ∷ [])
commit-propose_example = commit-propose built floating {t = transaction} propose-floating

-- A title of some length.
unfoldable letters : ℕ → Text
letters zero = []
letters (suc n) = 65 ∷ letters n

length-letters : (n : ℕ) → length (letters n) ≡ n
unfolding letters
length-letters zero = refl
length-letters (suc n) = ap suc (length-letters n)

abbrev wordy : Panel
wordy = record { id = 7; title = 65 ∷ letters 4096; role = PanelRole.document; closable = true }

wordy_is_new : is_some (find_panel built.state 7) ≡ false
unfolding find_panel find
wordy_is_new = refl

first_group : find_group built.state 1 ≡ some 0
unfolding find_group find_index index_of
first_group = refl

add_panel-long_title_example :
    ((add_panel built wordy 1 none).1.status ≡ success)
    × (validate (add_panel built wordy 1 none).0.state ≢ success)
add_panel-long_title_example =
    add_panel-long_title built wordy 1 0 none (omega arith) wordy_is_new first_group refl
      (omega (arith, length-letters 4096))
