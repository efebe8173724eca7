-- ===== src/DockingDrag/Tests.antt =====
-- A drag of src/docking_drag.cpp from its start to its commit, and the theorems applied there.
use mwfl.Prelude.{
  ◌+◌, ◌*◌, ℕ, List, ◌≡◌, refl, true, none, some, [], ◌∷◌, codes, modify, find_index, find, any,
  Option,
}
use mwfl.Prelude.Keyed.{contains, index_of}
use mwfl.Prelude.Double.{half, le_double, tenth, nine_tenths, of_ℕ}
use mwfl.Docking.{
  PanelRole, GroupRole, right, Panel, Snapshot, find_group, find_node, find_panel, ratio_is_valid,
}
use mwfl.Docking.Validate.{
  sizes_are_valid, duplicate, has_duplicates, title_is_valid, zeros, use_once, place_one,
  place_panels, place_groups, hide_one, place_hidden, all_one, check_group_node, check_split,
  check_nodes, collect_roots, own_roots, walk, unvisited, validate_walk, validate_nodes, validate,
}
use mwfl.Docking.Mutation.{Mutation, close_panel, group_node}
use mwfl.Docking.Model.{Transaction, LayoutModel, transaction_is_valid, commit}
use mwfl.DockingDrag.Session.{DragSession, Handlers, fresh, begin, set_proposal, commit_drag}
use mwfl.DockingDrag.{
  Arithmetic, Point, DropTarget, tab_group, above, contains_point, rect_is_valid, is_candidate,
  is_better, hit_from, hit_test,
}
use mwfl.DockingDrag.Best.{Best, hit_test-Best}
use mwfl.Prelude.Double.{Double, plus, nan}

abbrev editor : Panel
editor = record { id = 5; title = codes "Editor"; role = PanelRole.document; closable = true }

abbrev shown : Snapshot
shown = record {
  main_root = 10;
  panels = editor ∷ [];
  groups = record { id = 1; role = GroupRole.document; panels = 5 ∷ []; active = some 5 } ∷ [];
  nodes = group_node 10 1 ∷ [];
  floating_hosts = [];
  auto_hide = [];
  active_panel = some 5;
}

-- The same group without its panel.
abbrev emptied : Snapshot
emptied = record {
  main_root = 10;
  panels = [];
  groups = record { id = 1; role = GroupRole.document; panels = []; active = none } ∷ [];
  nodes = group_node 10 1 ∷ [];
  floating_hosts = [];
  auto_hide = [];
  active_panel = none;
}

abbrev model : LayoutModel
model = record { state = shown; revision = 3 }

abbrev closing : Mutation
closing = record {
  kind = close_panel;
  panel = 5;
  target_group = 0;
  target_index = none;
  edge = right;
  new_group = 0;
  new_group_node = 0;
  new_split_node = 0;
  new_floating_host = 0;
  floating_placement = record {
    x = of_ℕ 0;
    y = of_ℕ 0;
    width = of_ℕ 640;
    height = of_ℕ 480;
    monitor_key = [];
  };
  split_ratio = half;
}

abbrev transaction : Transaction
transaction = record { source_revision = 3; mutation = closing; proposed = emptied }

abbrev dragged : DragSession
dragged = (set_proposal (begin fresh model 5).0 transaction).0

-- The native world is the layout that its windows show.
abbrev windows : Handlers (Option Snapshot)
windows = record { adopt_native = λ s w. (some true, some s); rollback = λ s w. (true, s) }

abbrev stubborn : Handlers (Option Snapshot)
stubborn = record { adopt_native = λ s w. (none, none); rollback = λ s w. (true, s) }

dragged_is_committed : (commit_drag dragged model (some shown) (some windows)).native ≡ some emptied
unfolding commit_drag set_proposal begin commit transaction_is_valid ratio_is_valid le_double half
    tenth nine_tenths find_panel find_group find_node find find_index index_of modify validate
    sizes_are_valid has_duplicates duplicate any title_is_valid zeros place_groups place_panels
    place_one contains use_once place_hidden hide_one all_one validate_nodes check_nodes
    check_group_node check_split collect_roots own_roots validate_walk walk unvisited
dragged_is_committed = refl

-- A handler that throws in the middle of its work.
thrown_is_rolled_back : (commit_drag dragged model (some shown) (some stubborn)).native ≡ some shown
unfolding commit_drag set_proposal begin commit transaction_is_valid ratio_is_valid le_double half
    tenth nine_tenths find_panel find_group find_node find find_index index_of modify validate
    sizes_are_valid has_duplicates duplicate any title_is_valid zeros place_groups place_panels
    place_one contains use_once place_hidden hide_one all_one validate_nodes check_nodes
    check_group_node check_split collect_roots own_roots validate_walk walk unvisited
thrown_is_rolled_back = refl

-- Exact on the values of these tests.
abbrev add_exact : Double → Double → Double
add_exact (plus n) (plus m) = plus (n + m)
add_exact a b = nan

abbrev multiply_exact : Double → Double → Double
multiply_exact (plus n) (plus m) = plus (n * m)
multiply_exact a b = nan

instance abbrev exact : Arithmetic
exact = record { add_double = add_exact; multiply = multiply_exact }

abbrev target : ℕ → ℕ → ℕ → DropTarget
target id size priority = record {
  id = id;
  kind = tab_group;
  bounds = record { x = of_ℕ 0; y = of_ℕ 0; width = of_ℕ size; height = of_ℕ size };
  group = 1;
  edge = right;
  priority = above priority;
  enabled = true;
}

-- A large target, two smaller ones of the same area, and one that the point is not in.
abbrev targets : List DropTarget
targets = target 4 200 0 ∷ target 3 100 0 ∷ target 2 100 0 ∷ target 1 10 5 ∷ []

abbrev point : Point
point = record { x = of_ℕ 50; y = of_ℕ 50 }

hit_test-Best_example : Best point targets (hit_test point targets)
hit_test-Best_example = hit_test-Best point targets

smallest_is_hit : hit_test point targets ≡ some (target 2 100 0)
unfolding hit_test hit_from is_candidate is_better contains_point rect_is_valid le_double
smallest_is_hit = refl
