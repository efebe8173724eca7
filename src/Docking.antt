-- ===== src/Docking.antt =====
-- The logical docking layout: src/docking_workspace.cpp and include/mwfl/docking_workspace.h. This
-- file has the data and the lookups. The children Mutation and Validate have `ApplyMutation` and
-- `Validate`, and Model has the class, whose calls give back the new model beside their result.
pub mod Mutation
pub mod Validate
pub mod Model
mod Tests
use mwfl.Prelude.{
  ℕ, zero, suc, ◌+◌, ◌-◌, ◌*◌, ◌/◌, ◌%◌, ◌^◌, ◌≤◌, ◌<◌, min, max, ◌≡◌, refl, sym, ap, subst, ◌∙◌,
  ◌≢◌, ◌↔◌, ◌⊎◌, inl, inr, Bool, true, false, not, ◌&&◌, ◌||◌, Option, none, some, List, [], ◌∷◌,
  ◌++◌, map, Mem, Nodup, Perm, arith, Text, u64_mod, next_u64, ltb, leb, ◌==◌, if◌then◌else◌,
  ltb→lt, lt→ltb, leb→le, ==_iff, ==_refl, Bool-cases, Option-cases, text_eq, text_eq_iff, opt_eq,
  ◌>>=◌, codes, is_nil, is_some, length, get_elem?, take, drop, insert_at, erase_idx, modify,
  find_index, find, any, erase_if, length-append, length-take, length-drop, length-insert_at,
  length-erase_idx, length-modify, get_elem?-insert_at_self, erase_idx-insert_at, get_elem?_of_lt,
  lt-length_of_get_elem?, mem_of_get_elem?, insert_at-perm, erase_idx-perm, find_index_sound,
  find_index-any, length-map, get_elem?-map, map-insert_at, map-erase_idx, map-modify, shift, All,
  All-append, All-insert_at, All-erase_idx, All-modify, All-take, All-erase_if, All-get_elem?,
  get_elem?-erase_idx_lt, get_elem?-erase_idx_le, heir, get_elem?-min-erase_idx,
}
use mwfl.Prelude.Double.{Double, is_finite, le_double, tenth, nine_tenths, of_ℕ}
use mwfl.Prelude.Keyed.{contains, index_of}

pub data PanelRole : Type 0 where
  document tool : PanelRole

pub data GroupRole : Type 0 where
  document tool : GroupRole

pub data NodeKind : Type 0 where
  group split : NodeKind

pub data Orientation : Type 0 where
  vertical horizontal : Orientation

pub data Edge : Type 0 where
  left top right bottom : Edge

pub record Panel : Type 0 where
  pub id : ℕ
  pub title : Text
  pub role : PanelRole
  pub closable : Bool

pub record Group : Type 0 where
  pub id : ℕ
  pub role : GroupRole
  pub panels : List ℕ
  pub active : Option ℕ

pub record Node : Type 0 where
  pub id : ℕ
  pub kind : NodeKind
  pub group : ℕ
  pub orientation : Orientation
  pub first : ℕ
  pub second : ℕ
  pub ratio : Double

pub record Placement : Type 0 where
  pub x : Double
  pub y : Double
  pub width : Double
  pub height : Double
  pub monitor_key : Text

pub record FloatingHost : Type 0 where
  pub id : ℕ
  pub root : ℕ
  pub placement : Placement

pub record AutoHideEntry : Type 0 where
  pub panel : ℕ
  pub edge : Edge
  pub order : ℕ

pub record Snapshot : Type 0 where
  pub main_root : ℕ
  pub panels : List Panel
  pub groups : List Group
  pub nodes : List Node
  pub floating_hosts : List FloatingHost
  pub auto_hide : List AutoHideEntry
  pub active_panel : Option ℕ

pub data LayoutStatus : Type 0 where
  success invalid_argument duplicate_id not_found role_mismatch invalid_graph : LayoutStatus
  stale_transaction : LayoutStatus

abbrev pub is_success : LayoutStatus → Bool
is_success success = true
is_success s = false

abbrev pub panel_id : Panel → ℕ
panel_id p = p.id

abbrev pub group_id : Group → ℕ
group_id g = g.id

abbrev pub node_id : Node → ℕ
node_id n = n.id

abbrev pub host_id : FloatingHost → ℕ
host_id h = h.id

-- `RoleFor`.
abbrev pub role_for : PanelRole → GroupRole
role_for PanelRole.document = GroupRole.document
role_for PanelRole.tool = GroupRole.tool

abbrev pub group_role_eq : GroupRole → GroupRole → Bool
group_role_eq GroupRole.document GroupRole.document = true
group_role_eq GroupRole.tool GroupRole.tool = true
group_role_eq a b = false

abbrev pub is_tool : PanelRole → Bool
is_tool PanelRole.tool = true
is_tool PanelRole.document = false

abbrev pub is_split : NodeKind → Bool
is_split split = true
is_split group = false

abbrev pub edge_eq : Edge → Edge → Bool
edge_eq left left = true
edge_eq top top = true
edge_eq right right = true
edge_eq bottom bottom = true
edge_eq a b = false

-- `edge == left || edge == top`
abbrev pub is_first_edge : Edge → Bool
is_first_edge left = true
is_first_edge top = true
is_first_edge e = false

abbrev pub orientation_of : Edge → Orientation
orientation_of left = vertical
orientation_of right = vertical
orientation_of e = horizontal

-- `FindById`, as the entry or as its position.
unfoldable pub find_panel : Snapshot → ℕ → Option Panel
find_panel s id = find (λ p. p.id == id) s.panels

unfoldable pub find_group : Snapshot → ℕ → Option ℕ
find_group s id = index_of group_id id s.groups

unfoldable pub find_node : Snapshot → ℕ → Option ℕ
find_node s id = index_of node_id id s.nodes

unfoldable pub find_host : Snapshot → ℕ → Option ℕ
find_host s id = index_of host_id id s.floating_hosts

-- `FindPanelGroup`.
unfoldable find_panel_group : Snapshot → ℕ → Option ℕ
find_panel_group s id = elim (find (λ g. contains g.panels id) s.groups) [
  | none ↦ none
  | some g ↦ some g.id
]

unfoldable is_auto_hidden : Snapshot → ℕ → Bool
is_auto_hidden s id = any (λ e. e.panel == id) s.auto_hide

-- `!std::isfinite(ratio) || ratio < 0.1 || ratio > 0.9`, negated.
unfoldable pub ratio_is_valid : Double → Bool
ratio_is_valid r = is_finite r && le_double tenth r && le_double r nine_tenths

unfoldable pub placement_is_valid : Placement → Bool
placement_is_valid p =
    is_finite p.x
    && is_finite p.y
    && is_finite p.width
    && is_finite p.height
    && le_double (of_ℕ 80) p.width
    && le_double (of_ℕ 60) p.height
    && le_double p.width (of_ℕ 100000)
    && le_double p.height (of_ℕ 100000)
    && leb (length p.monitor_key) 256
