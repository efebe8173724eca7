-- ===== src/DockingSession/Tests.antt =====
-- Layouts written and read as src/docking_session.cpp does, and the theorems applied there.
use mwfl.Prelude.{
  none, ◌≡◌, refl, inl, inr, true, false, some, List, [], ◌∷◌, arith, Text, text_eq, codes, length,
  modify, find_index, find, any,
}
use mwfl.TextFile.{Utf8Api, int_max, starts_with}
use mwfl.Prelude.Keyed.{contains, index_of}
use mwfl.Prelude.Double.{plus, half, le_double, tenth, nine_tenths}
use mwfl.Docking.{
  PanelRole, GroupRole, group, vertical, right, Panel, Snapshot, LayoutStatus, find_group,
  find_node, ratio_is_valid,
}
use mwfl.Docking.Validate.{
  sizes_are_valid, duplicate, has_duplicates, title_is_valid, zeros, use_once, place_one,
  place_panels, place_groups, hide_one, place_hidden, all_one, check_group_node, check_split,
  check_nodes, collect_roots, own_roots, walk, unvisited, validate_walk, validate_nodes, validate,
}
use mwfl.Stream
use mwfl.Stream.{
  is_space, is_digit, skip_space, finish, scan_digits, read_magnitude, read_sign, read_integer,
  read_unsigned, read_bool, first_unit, read_char, split_word, read_word, unquote, read_quoted,
  show_fuel, show, show_bool, escape, show_quoted,
}
use mwfl.Stream.Plain.{plain, plain-IsExact, show_plain}
use mwfl.Stream.Lines.{lines, unlines, is_extension, read_required, utf8_size}
use mwfl.Stream.Lines.Trim.{trim}
use mwfl.DockingSession.{
  default_limits, malformed, unsupported_version, oversized, header_line, parse_header, root_line,
  parse_root, count_line, parse_count, panel_line, put_ids, group_line, node_line, entry_line,
}
use mwfl.Stream.Steps.{◌>>=◌, read_line}
use mwfl.DockingSession.Read.{
  read_section, read_snapshot, read_session, parse_session, section_lines, record_lines, serialize,
}
use mwfl.TextFile.Write.Disk.{Disk, disk, stored, disk-IsFileSystem}
use mwfl.DockingSession.Store.{save}
use mwfl.DockingSession.Saved.{Saves, save_lem}
use mwfl.DockingSession.RoundTrip.{IsPrintable, parse_session-serialize}
use mwfl.DockingSession.Extensions.{read_session-trim}
use mwfl.DockingSession.Accepted.{Fits, IsWithin, parse_session-IsAccepted}

-- Every unit of these texts is one byte in UTF-8.
instance abbrev ascii_api : Utf8Api
ascii_api = record { to_wide = λ bytes. some bytes; to_multi_byte = λ text. some text }

abbrev editor : Panel
editor = record {
  id = 5;
  title = codes "The \"Editor\"";
  role = PanelRole.document;
  closable = true;
}

abbrev files : Panel
files = record { id = 6; title = codes "Files"; role = PanelRole.tool; closable = false }

-- A document panel in the main window, and a tool panel that is hidden at its right edge.
abbrev layout : Snapshot
layout = record {
  main_root = 10;
  panels = editor ∷ files ∷ [];
  groups = record { id = 1; role = GroupRole.document; panels = 5 ∷ []; active = some 5 } ∷ [];
  nodes =
      record {
        id = 10;
        kind = group;
        group = 1;
        orientation = vertical;
        first = 0;
        second = 0;
        ratio = plus 7;
      }
      ∷ [];
  floating_hosts = [];
  auto_hide = record { panel = 6; edge = right; order = 3 } ∷ [];
  active_panel = some 5;
}

layout_is_valid : validate layout ≡ LayoutStatus.success
unfolding find_group find_node find find_index index_of modify ratio_is_valid le_double half tenth
    nine_tenths validate sizes_are_valid has_duplicates duplicate any title_is_valid zeros
    place_groups place_panels place_one contains use_once place_hidden hide_one all_one
    validate_nodes check_nodes check_group_node check_split collect_roots own_roots validate_walk
    walk unvisited
layout_is_valid = refl

abbrev layout_text : Text
layout_text =
    codes
      "MWFL_DOCK_LAYOUT 1\nR 10 5\nPC 2\nP 5 0 1 \"The \\\"Editor\\\"\"\nP 6 1 0 \"Files\"\nGC 1\nG 1 0 5 1 5\nNC 1\nN 10 0 1 0 0 0 7\nFC 0\nAC 1\nA 6 2 3\nE\n"

serialize-layout : serialize plain layout ≡ layout_text
unfolding serialize unlines header_line record_lines root_line section_lines count_line panel_line
    group_line node_line entry_line put_ids show_plain show show_fuel show_bool show_quoted escape
serialize-layout = refl

size-layout : utf8_size (serialize plain layout) ≡ some (length layout_text)
unfolding utf8_size int_max
size-layout = rw serialize-layout refl

layout-IsPrintable : IsPrintable default_limits layout
layout-IsPrintable = record {
  root_fits = omega arith;
  active_fits = omega arith;
  panels_printable = (
    record { id_fits = omega arith; title_fits = omega arith; title_is_one_line = ground arith },
    (
      record { id_fits = omega arith; title_fits = omega arith; title_is_one_line = ground arith },
      tt,
    ),
  );
  groups_printable = (
    record {
      id_fits = omega arith;
      active_fits = omega arith;
      count_fits = omega arith;
      size_fits = omega arith;
      panels_fit = omega arith;
    },
    tt,
  );
  nodes_printable = (
    record {
      id_fits = omega arith;
      group_fits = omega arith;
      first_fits = omega arith;
      second_fits = omega arith;
      ratio_is_finite = refl;
    },
    tt,
  );
  hosts_printable = tt;
  entries_printable = omega arith;
  panels_fit = omega arith;
  groups_fit = omega arith;
  nodes_fit = omega arith;
  hosts_fit = omega arith;
  entries_fit = omega arith;
}

parse_session-serialize_example :
    parse_session plain default_limits (serialize plain layout) ≡ inr layout
parse_session-serialize_example =
    parse_session-serialize plain plain-IsExact default_limits layout layout-IsPrintable
      layout_is_valid size-layout (omega arith)

parse_session-IsAccepted_example :
    Fits default_limits (serialize plain layout)
    × IsWithin default_limits layout
    × (validate layout ≡ LayoutStatus.success)
parse_session-IsAccepted_example =
    parse_session-IsAccepted plain default_limits (serialize plain layout) (
      parse_session-serialize plain plain-IsExact default_limits layout layout-IsPrintable
        layout_is_valid size-layout (omega arith))

-- The lines of the layout with two lines of a later version among them.
abbrev extended : List Text
extended =
    codes "X colour 3"
    ∷ codes "R 10 5"
    ∷ codes "PC 2"
    ∷ codes "P 5 0 1 \"The \\\"Editor\\\"\""
    ∷ codes "X pinned 5"
    ∷ codes "P 6 1 0 \"Files\""
    ∷ codes "GC 1"
    ∷ codes "G 1 0 5 1 5"
    ∷ codes "NC 1"
    ∷ codes "N 10 0 1 0 0 0 7"
    ∷ codes "FC 0"
    ∷ codes "AC 1"
    ∷ codes "A 6 2 3"
    ∷ codes "E"
    ∷ []

read_session-trim_example :
    read_session plain default_limits (header_line ∷ trim extended)
    ≡ read_session plain default_limits (header_line ∷ extended)
read_session-trim_example = read_session-trim plain default_limits header_line extended

-- A later version, an unknown tag, a number that is too large and a layout that uses an ID twice.
refusals :
    (parse_session plain default_limits (codes "MWFL_DOCK_LAYOUT 2\nR 10 5\n")
      ≡ inl unsupported_version)
    × (parse_session plain default_limits (codes "MWFL_DOCK_LAYOUT 1\nQ 10 5\n") ≡ inl malformed)
    × (parse_session plain default_limits (codes "MWFL_DOCK_LAYOUT 1\nR 18446744073709551616 5\n")
        ≡ inl malformed)
    × (parse_session plain default_limits (codes "MWFL_DOCK_LAYOUT 1\nR 10 5\nPC 4097\n")
        ≡ inl oversized)
unfolding parse_session utf8_size int_max lines read_session read_snapshot read_section read_line
    read_required is_extension starts_with parse_header parse_root parse_count Stream.◌>>=◌ ◌>>=◌
    read_char read_word read_unsigned read_integer read_magnitude read_sign scan_digits split_word
    skip_space first_unit is_space is_digit finish text_eq
refusals = (refl, refl, refl, refl)

abbrev blank : Disk
blank = record { files = λ q. none; writer = []; sequence = 0 }

save_lem_example :
    Saves stored
      (λ d h. d.writer)
      disk-IsFileSystem
      plain
      (codes "a.dock")
      layout
      default_limits
      blank
      (save plain (codes "a.dock") layout default_limits blank)
save_lem_example =
    save_lem stored (λ d h. d.writer) disk-IsFileSystem plain (codes "a.dock") layout default_limits
      blank
