-- ===== src/Docking/Model.antt =====
-- The class `DockLayoutModel` of src/docking_workspace.cpp. A call gives back the model after it and
-- the result that it returns; where the source returns early, the model is the one before.
pub mod Commit
pub mod Once
pub mod Titles
use mwfl.Prelude.{
  ℕ, zero, suc, ◌+◌, ◌-◌, ◌*◌, ◌/◌, ◌%◌, ◌^◌, ◌≤◌, ◌<◌, min, max, ◌≡◌, refl, sym, ap, subst, ◌∙◌,
  ◌≢◌, ◌↔◌, ◌⊎◌, inl, inr, Bool, true, false, not, ◌&&◌, ◌||◌, Option, none, some, List, [], ◌∷◌,
  ◌++◌, map, Mem, Nodup, Perm, arith, Text, u64_mod, next_u64, ltb, leb, ◌==◌, if◌then◌else◌,
  ltb→lt, lt→ltb, leb→le, ==_iff, ==_refl, Bool-cases, Option-cases, text_eq, text_eq_iff, opt_eq,
  ◌>>=◌, codes, is_nil, is_some, length, get_elem?, take, drop, insert_at, erase_idx, modify,
  find_index, find, any, erase_if, length-append, length-take, length-drop, length-insert_at,
  length-erase_idx, length-modify, get_elem?-insert_at_self, erase_idx-insert_at, get_elem?_of_lt,
  lt-length_of_get_elem?, mem_of_get_elem?, insert_at-perm, erase_idx-perm, find_index_sound,
  find_index-any, length-map, get_elem?-map, map-insert_at, map-erase_idx, map-modify, shift, All,
  All-append, All-insert_at, All-erase_idx, All-modify, All-take, All-erase_if, All-get_elem?,
  get_elem?-erase_idx_lt, get_elem?-erase_idx_le, heir, get_elem?-min-erase_idx,
}
use mwfl.Prelude.Double.{Double, half}
use mwfl.Docking.{
  GroupRole, Edge, Panel, Group, Snapshot, LayoutStatus, success, invalid_argument, duplicate_id,
  not_found, role_mismatch, invalid_graph, stale_transaction, is_success, role_for, find_panel,
  find_group, find_node, ratio_is_valid,
}
use mwfl.Docking.Validate.{validate}
use mwfl.Docking.Mutation.{
  Mutation, apply_mutation, group_node, split_node, node_of_group, replace_node_reference,
  insert_panel, group_role_at,
}

pub record Transaction : Type 0 where
  pub source_revision : ℕ
  pub mutation : Mutation
  pub proposed : Snapshot

pub record LayoutResult : Type 0 where
  pub status : LayoutStatus
  pub active : Option ℕ

pub record LayoutModel : Type 0 where
  pub state : Snapshot
  pub revision : ℕ

-- `DockLayoutTransaction::IsValid`.
unfoldable pub transaction_is_valid : Transaction → Bool
transaction_is_valid t =
    not (t.source_revision == 0)
    && not (t.mutation.panel == 0)
    && not (t.proposed.main_root == 0)
    && is_success (validate t.proposed)

-- The constructor; `none` where it throws.
unfoldable pub create : ℕ → ℕ → GroupRole → Option LayoutModel
create root_group root_node role =
    if (root_group == 0) || (root_node == 0)
    then none
    else some (record {
      state = record {
        main_root = root_node;
        panels = [];
        groups = record { id = root_group; role = role; panels = []; active = none } ∷ [];
        nodes = group_node root_node root_group ∷ [];
        floating_hosts = [];
        auto_hide = [];
        active_panel = none;
      };
      revision = 1;
    })

-- A return that leaves the model alone.
abbrev pub refuse : LayoutModel → LayoutStatus → LayoutModel × LayoutResult
refuse m status = (m, record { status = status; active = m.state.active_panel })

-- The new layout under the next revision, and `Success()`.
abbrev pub adopt : LayoutModel → Snapshot → LayoutModel × LayoutResult
adopt m proposed = (
  record { state = proposed; revision = next_u64 m.revision },
  record { status = success; active = proposed.active_panel },
)

-- The new layout where `Validate` accepts it.
abbrev pub adopt_if : LayoutModel → Snapshot → LayoutStatus → LayoutModel × LayoutResult
adopt_if m proposed status = if is_success status then adopt m proposed else refuse m status

unfoldable pub commit : LayoutModel → Transaction → LayoutModel × LayoutResult
commit m t =
    if not (t.source_revision == m.revision)
    then refuse m stale_transaction
    else adopt_if m t.proposed (validate t.proposed)

unfoldable pub replace : LayoutModel → Snapshot → LayoutModel × LayoutResult
replace m snapshot = adopt_if m snapshot (validate snapshot)

abbrev pub proposal : LayoutModel → Mutation → Snapshot → LayoutStatus → Option Transaction
proposal m mutation proposed status =
    if is_success status
    then some (record { source_revision = m.revision; mutation = mutation; proposed = proposed })
    else none

-- The status that `Propose` stores, after the mutation and then after `Validate`.
unfoldable pub proposal_status : Snapshot × LayoutStatus → LayoutStatus
proposal_status applied = if is_success applied.1 then validate applied.0 else applied.1

-- `Propose`, with what it stores in `failure`.
unfoldable pub propose : LayoutModel → Mutation → Option Transaction × LayoutStatus
propose m mutation =
    let applied = apply_mutation m.state mutation in
    let status = proposal_status applied in (proposal m mutation applied.0 status, status)

-- The panel at its place in the group, and active there and in the layout.
unfoldable pub insert_new_panel : Snapshot → Panel → ℕ → Option ℕ → Snapshot
insert_new_panel s p i index = record s {
  panels = s.panels ++ p ∷ [];
  groups = modify (insert_panel p.id index) s.groups i;
  active_panel = some p.id;
}

unfoldable pub add_panel : LayoutModel → Panel → ℕ → Option ℕ → LayoutModel × LayoutResult
add_panel m p group index =
    if (p.id == 0) || is_nil p.title
    then refuse m invalid_argument
    else if is_some (find_panel m.state p.id)
    then refuse m duplicate_id
    else elim (find_group m.state group) [
      | none ↦ refuse m not_found
      | some i ↦
          if not (group_role_at (get_elem? m.state.groups i) (role_for p.role))
          then refuse m role_mismatch
          else adopt m (insert_new_panel m.state p i index)
    ]

-- The copy with the new group and the node that shows it.
unfoldable pub with_group : Snapshot → ℕ → ℕ → GroupRole → Snapshot
with_group s group node role = record s {
  groups = s.groups ++ record { id = group; role = role; panels = []; active = none } ∷ [];
  nodes = s.nodes ++ group_node node group ∷ [];
}

-- The copy with the new split, behind the reference to it.
unfoldable pub docked : Snapshot → ℕ → ℕ → ℕ → Edge → Double → Snapshot
docked replaced node target_node split edge ratio = record replaced {
  nodes = replaced.nodes ++ split_node split edge node target_node ratio ∷ [];
}

-- The new split over the node of the target.
unfoldable pub dock_group :
    LayoutModel → Snapshot → ℕ → ℕ → ℕ → Edge → Double → LayoutModel × LayoutResult
dock_group m proposed node target_node split edge ratio =
    elim (replace_node_reference proposed target_node split) [
      | none ↦ refuse m invalid_graph
      | some replaced ↦
          let after = docked replaced node target_node split edge ratio in
          adopt_if m after (validate after)
    ]

unfoldable pub add_docked_group :
    LayoutModel → ℕ → ℕ → GroupRole → ℕ → ℕ → Edge → Double → LayoutModel × LayoutResult
add_docked_group m group node role target split edge ratio =
    if (group == 0)
      || (node == 0)
      || (split == 0)
      || is_some (find_group m.state group)
      || is_some (find_node m.state node)
      || is_some (find_node m.state split)
    then refuse m duplicate_id
    else if not (ratio_is_valid ratio)
    then refuse m invalid_argument
    else if not (is_some (find_group m.state target))
    then refuse m not_found
    else elim (node_of_group m.state target) [
      | none ↦ refuse m invalid_graph
      | some n ↦ dock_group m (with_group m.state group node role) node n.id split edge ratio
    ]
