-- ===== src/DockingSession/Read.antt =====
-- `SerializeDockingSession` and `ParseDockingSession` of src/docking_session.cpp. The result of the
-- parser is a status or a snapshot. The child Extensions is about lines of later versions.
use mwfl.Prelude.{
  ℕ, ◌⊎◌, inl, inr, not, Option, none, some, List, [], ◌∷◌, ◌++◌, map, Text, ltb, if◌then◌else◌,
  text_eq, codes, length,
}
use mwfl.TextFile.{Utf8Api}
use mwfl.Docking.{Snapshot, LayoutStatus, duplicate_id, is_success}
use mwfl.Docking.Validate.{validate}
use mwfl.Stream.Doubles.{DoubleFormat}
use mwfl.Stream.Lines.{lines, unlines, read_records, ends_cleanly, utf8_size}
use mwfl.Stream.Steps.{◌>>=◌, or_fail, read_line}
use mwfl.DockingSession.{
  Limits, SessionStatus, unsupported_version, malformed, oversized, duplicate_identity,
  schema_version, header_line, parse_header, root_line, parse_root, count_line, parse_count,
  panel_line, parse_panel, group_line, parse_group, node_line, parse_node, host_line, parse_host,
  entry_line, parse_entry,
}

-- A count, and as many records.
unfoldable pub read_section :
    {A : Type 0} → Text → ℕ → (Text → Option A) → List Text → SessionStatus ⊎ (List A × List Text)
read_section tag maximum p ls = do
  (count, rest) ← read_line malformed (parse_count tag) ls
  if ltb maximum count then inl oversized else or_fail malformed (read_records p count rest)

-- The line `E`.
abbrev pub parse_end : Text → Option (Unit {0})
parse_end l = if text_eq l (codes "E") then some tt else none

unfoldable pub read_snapshot : DoubleFormat → Limits → List Text → SessionStatus ⊎ Snapshot
read_snapshot f limits ls0 = do
  ((root, active), ls1) ← read_line malformed parse_root ls0
  (panels, ls2) ← read_section (codes "PC") limits.maximum_panels (parse_panel limits) ls1
  (groups, ls3) ← read_section (codes "GC") limits.maximum_groups (parse_group limits) ls2
  (nodes, ls4) ← read_section (codes "NC") limits.maximum_nodes (parse_node f) ls3
  (hosts, ls5) ← read_section (codes "FC") limits.maximum_floating_hosts (parse_host f limits) ls4
  (entries, ls6) ← read_section (codes "AC") limits.maximum_auto_hide parse_entry ls5
  (end, ls7) ← read_line malformed parse_end ls6
  if not (ends_cleanly ls7)
      then inl malformed
      else inr record {
        main_root = root;
        panels = panels;
        groups = groups;
        nodes = nodes;
        floating_hosts = hosts;
        auto_hide = entries;
        active_panel = active;
      }

-- `GraphStatus`, for what is not a success.
abbrev pub graph_status : LayoutStatus → SessionStatus
graph_status LayoutStatus.success = SessionStatus.success
graph_status duplicate_id = duplicate_identity
graph_status other = SessionStatus.invalid_graph

unfoldable pub check_graph : Snapshot → SessionStatus ⊎ Snapshot
check_graph s = if is_success (validate s) then inr s else inl (graph_status (validate s))

-- The lines of a text.
unfoldable pub read_session : DoubleFormat → Limits → List Text → SessionStatus ⊎ Snapshot
read_session f limits [] = inl malformed
read_session f limits (header ∷ ls) = do
  version ← or_fail malformed (parse_header header)
  if ltb schema_version version
      then inl unsupported_version
      else (read_snapshot f limits ls >>= check_graph)

module _ ⦃os : Utf8Api⦄ where
  unfoldable pub parse_session : DoubleFormat → Limits → Text → SessionStatus ⊎ Snapshot
  parse_session f limits text = do
    bytes ← or_fail malformed (utf8_size text)
    if ltb limits.maximum_bytes bytes then inl oversized else read_session f limits (lines text)

-- The lines that the serializer writes.
unfoldable pub section_lines : {A : Type 0} → Text → (A → Text) → List A → List Text → List Text
section_lines tag print xs rest = count_line tag (length xs) ∷ map print xs ++ rest

unfoldable pub record_lines : DoubleFormat → Snapshot → List Text
record_lines f s =
    root_line s
    ∷ section_lines (codes "PC") panel_line s.panels (
        section_lines (codes "GC") group_line s.groups (
          section_lines (codes "NC") (node_line f) s.nodes (
            section_lines (codes "FC") (host_line f) s.floating_hosts
              (section_lines (codes "AC") entry_line s.auto_hide (codes "E" ∷ [])))))

unfoldable pub serialize : DoubleFormat → Snapshot → Text
serialize f s = unlines (header_line ∷ record_lines f s)
