-- ===== src/DockingSession.antt =====
-- The text format of docking layouts: src/docking_session.cpp and include/mwfl/docking_session.h.
-- This file has the types and the lines of the records, printed and parsed. Read has
-- `ParseDockingSession`, Store has the calls that use files, and the others have proofs.
pub mod Fields
pub mod Read
pub mod OneLine
pub mod RoundTrip
pub mod Extensions
pub mod Accepted
pub mod Sized
pub mod Store
pub mod Saved
mod Tests
use mwfl.Prelude.{
  ℕ, zero, suc, ◌+◌, ◌-◌, ◌*◌, ◌/◌, ◌%◌, ◌^◌, ◌≤◌, ◌<◌, min, max, ◌≡◌, refl, sym, ap, subst, ◌∙◌,
  ◌≢◌, ◌↔◌, ◌⊎◌, inl, inr, Bool, true, false, not, ◌&&◌, ◌||◌, Option, none, some, List, [], ◌∷◌,
  ◌++◌, map, Mem, Nodup, Perm, arith, Text, u64_mod, next_u64, ltb, leb, ◌==◌, if◌then◌else◌,
  ltb→lt, lt→ltb, leb→le, ==_iff, ==_refl, Bool-cases, Option-cases, Either-cases, text_eq,
  text_eq_iff, opt_eq, codes, is_nil, is_some, length, get_elem?, take, drop, insert_at, erase_idx,
  modify, find_index, find, any, erase_if, length-append, length-take, length-drop,
  length-insert_at, length-erase_idx, length-modify, get_elem?-insert_at_self, erase_idx-insert_at,
  get_elem?_of_lt, lt-length_of_get_elem?, mem_of_get_elem?, insert_at-perm, erase_idx-perm,
  find_index_sound, find_index-any, length-map, get_elem?-map, map-insert_at, map-erase_idx,
  map-modify, shift, All, All-append, All-insert_at, All-erase_idx, All-modify, All-take,
  All-erase_if, All-get_elem?, get_elem?-erase_idx_lt, get_elem?-erase_idx_le, heir,
  get_elem?-min-erase_idx,
}
use mwfl.Docking.{
  PanelRole, document, tool, GroupRole, NodeKind, group, split, Orientation, vertical, horizontal,
  Edge, left, top, right, bottom, Panel, Group, Node, Placement, FloatingHost, AutoHideEntry,
  Snapshot,
}
use mwfl.Stream.{
  value_of, done_if, optional_code, optional_of, Parser, ◌>>=◌, pure_if, finish, read_unsigned,
  read_bool, read_char, read_word, read_quoted, show, show_bool, show_quoted, put,
}
use mwfl.Stream.Doubles.{DoubleFormat}

pub record Limits : Type 0 where
  pub maximum_bytes : ℕ
  pub maximum_panels : ℕ
  pub maximum_groups : ℕ
  pub maximum_nodes : ℕ
  pub maximum_floating_hosts : ℕ
  pub maximum_auto_hide : ℕ
  pub maximum_string_units : ℕ

abbrev pub default_limits : Limits
default_limits = record {
  maximum_bytes = 4 * 1024 * 1024;
  maximum_panels = 4096;
  maximum_groups = 4096;
  maximum_nodes = 8192;
  maximum_floating_hosts = 1024;
  maximum_auto_hide = 4096;
  maximum_string_units = 32 * 1024;
}

pub data SessionStatus : Type 0 where
  success not_found unsupported_version malformed oversized duplicate_identity : SessionStatus
  invalid_graph io_error : SessionStatus

-- `static_cast` of the enumerations to `unsigned` and back.
abbrev pub panel_role_code : PanelRole → ℕ
panel_role_code PanelRole.document = 0
panel_role_code PanelRole.tool = 1

abbrev pub panel_role_of : ℕ → PanelRole
panel_role_of zero = PanelRole.document
panel_role_of (suc n) = PanelRole.tool

abbrev pub group_role_code : GroupRole → ℕ
group_role_code GroupRole.document = 0
group_role_code GroupRole.tool = 1

abbrev pub group_role_of : ℕ → GroupRole
group_role_of zero = GroupRole.document
group_role_of (suc n) = GroupRole.tool

abbrev pub kind_code : NodeKind → ℕ
kind_code group = 0
kind_code split = 1

abbrev pub kind_of : ℕ → NodeKind
kind_of zero = group
kind_of (suc n) = split

abbrev pub orientation_code : Orientation → ℕ
orientation_code vertical = 0
orientation_code horizontal = 1

abbrev pub orientation_of_code : ℕ → Orientation
orientation_of_code zero = vertical
orientation_of_code (suc n) = horizontal

abbrev pub edge_code : Edge → ℕ
edge_code left = 0
edge_code top = 1
edge_code right = 2
edge_code bottom = 3

abbrev pub edge_of : ℕ → Edge
edge_of zero = left
edge_of (suc zero) = top
edge_of (suc (suc zero)) = right
edge_of (suc (suc (suc n))) = bottom

unfoldable pub panel_line : Panel → Text
panel_line p =
    b'P'
    ∷ put (show p.id) (
        put (show (panel_role_code p.role))
          (put (show_bool p.closable) (put (show_quoted p.title) [])))

unfoldable pub parse_panel : Limits → Text → Option Panel
parse_panel limits line =
    let parser : Parser Panel = do
      tag ← read_char
      id ← read_unsigned 64
      role ← read_unsigned 32
      closable ← read_bool
      title ← read_quoted
      done_if ((tag == b'P') && leb role 1 && leb (length title) limits.maximum_string_units)
          record { id = id; title = title; role = panel_role_of role; closable = closable }
    in value_of (parser line)

-- `for (DockPanelId panel : group.panels) out << L' ' << panel.value;`
unfoldable pub put_ids : List ℕ → Text → Text
put_ids [] rest = rest
put_ids (id ∷ ids) rest = put (show id) (put_ids ids rest)

unfoldable pub group_line : Group → Text
group_line g =
    b'G'
    ∷ put (show g.id) (
        put (show (group_role_code g.role)) (
          put (show (optional_code g.active)) (put (show (length g.panels)) (put_ids g.panels []))))

unfoldable pub read_ids : ℕ → Parser (List ℕ)
read_ids zero t = some ([], t)
read_ids (suc n) t = elim (read_unsigned 64 t) [
  | none ↦ none
  | some (id, rest) ↦ elim (read_ids n rest) [
    | none ↦ none
    | some (ids, others) ↦ some (id ∷ ids, others)
  ]
]

unfoldable pub parse_group : Limits → Text → Option Group
parse_group limits line =
    let parser : Parser Group = do
      tag ← read_char
      id ← read_unsigned 64
      role ← read_unsigned 32
      active ← read_unsigned 64
      count ← read_unsigned 64
      checked ← pure_if ((tag == b'G') && leb role 1 && leb count limits.maximum_panels) count
      ids ← read_ids checked
      done_if true
          record { id = id; role = group_role_of role; panels = ids; active = optional_of active }
    in value_of (parser line)

unfoldable pub host_line : DoubleFormat → FloatingHost → Text
host_line f h =
    b'F'
    ∷ put (show h.id) (
        put (show h.root) (
          put (f.print h.placement.x) (
            put (f.print h.placement.y) (
              put (f.print h.placement.width) (
                put (f.print h.placement.height) (put (show_quoted h.placement.monitor_key) []))))))

unfoldable pub parse_host : DoubleFormat → Limits → Text → Option FloatingHost
parse_host f limits line =
    let parser : Parser FloatingHost = do
      tag ← read_char
      id ← read_unsigned 64
      root ← read_unsigned 64
      x ← f.read
      y ← f.read
      width ← f.read
      height ← f.read
      key ← read_quoted
      done_if ((tag == b'F') && leb (length key) limits.maximum_string_units) record {
        id = id;
        root = root;
        placement = record { x = x; y = y; width = width; height = height; monitor_key = key };
      }
    in value_of (parser line)

unfoldable pub node_line : DoubleFormat → Node → Text
node_line f n =
    b'N'
    ∷ put (show n.id) (
        put (show (kind_code n.kind)) (
          put (show n.group) (
            put (show (orientation_code n.orientation))
              (put (show n.first) (put (show n.second) (put (f.print n.ratio) []))))))

unfoldable pub parse_node : DoubleFormat → Text → Option Node
parse_node f line =
    let parser : Parser Node = do
      tag ← read_char
      id ← read_unsigned 64
      kind ← read_unsigned 32
      shown ← read_unsigned 64
      orientation ← read_unsigned 32
      first ← read_unsigned 64
      second ← read_unsigned 64
      ratio ← f.read
      done_if ((tag == b'N') && leb kind 1 && leb orientation 1) record {
        id = id;
        kind = kind_of kind;
        group = shown;
        orientation = orientation_of_code orientation;
        first = first;
        second = second;
        ratio = ratio;
      }
    in value_of (parser line)

unfoldable pub entry_line : AutoHideEntry → Text
entry_line e = b'A' ∷ put (show e.panel) (put (show (edge_code e.edge)) (put (show e.order) []))

unfoldable pub parse_entry : Text → Option AutoHideEntry
parse_entry line =
    let parser : Parser AutoHideEntry = do
      tag ← read_char
      panel ← read_unsigned 64
      edge ← read_unsigned 32
      order ← read_unsigned 64
      done_if ((tag == b'A') && leb edge 3)
          record { panel = panel; edge = edge_of edge; order = order }
    in value_of (parser line)

abbrev pub magic : Text
magic = codes "MWFL_DOCK_LAYOUT"

abbrev pub schema_version : ℕ
schema_version = 1

unfoldable pub header_line : Text
header_line = magic ++ put (show schema_version) []

-- The version, where the line is a header.
unfoldable pub parse_header : Text → Option ℕ
parse_header line =
    let parser : Parser ℕ = do
      word ← read_word
      version ← read_unsigned 32
      done_if (text_eq word magic) version
    in value_of (parser line)

unfoldable pub root_line : Snapshot → Text
root_line s = b'R' ∷ put (show s.main_root) (put (show (optional_code s.active_panel)) [])

-- The main root and the active panel.
unfoldable pub parse_root : Text → Option (ℕ × Option ℕ)
parse_root line =
    let parser : Parser (ℕ × Option ℕ) = do
      tag ← read_char
      root ← read_unsigned 64
      active ← read_unsigned 64
      done_if (tag == b'R') (root, optional_of active)
    in value_of (parser line)

unfoldable pub count_line : Text → ℕ → Text
count_line tag n = tag ++ put (show n) []

unfoldable pub parse_count : Text → Text → Option ℕ
parse_count tag line =
    let parser : Parser ℕ = do
      word ← read_word
      count ← read_unsigned 64
      done_if (text_eq word tag) count
    in value_of (parser line)
