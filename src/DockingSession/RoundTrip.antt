-- ===== src/DockingSession/RoundTrip.antt =====
-- `ParseDockingSession` after `SerializeDockingSession`, both of src/docking_session.cpp.
use mwfl.Prelude.{
  ℕ, ◌≤◌, ◌<◌, ◌≡◌, refl, ap, inr, true, false, not, ◌&&◌, Option, some, List, [], ◌∷◌, arith, Text,
  u64_mod, ltb, ◌==◌, text_eq, text_eq_iff, codes, length, any, All, All-mono,
}
use mwfl.TextFile.{Utf8Api, starts_with}
use mwfl.Docking.{Snapshot, LayoutStatus}
use mwfl.Docking.Validate.{validate}
use mwfl.Stream.{value_of, optional_code, put, show, show_quoted, show_bool, is_space}
use mwfl.Stream
use mwfl.Stream.Fields.{
  ×_path, done_lem, IsProper, tag_lem, optional_back, read_unsigned-put, read_word-append, IsWord,
  any-IsWord,
}
use mwfl.Stream.Doubles.{DoubleFormat, IsExact}
use mwfl.Stream.Lines.{
  ends_cleanly, utf8_size, OneLine, lines-unlines, is_extension, ReadsBack, read_records-append,
}
use mwfl.DockingSession.{
  malformed, Limits, magic, header_line, parse_header, root_line, parse_root, count_line,
  parse_count, panel_line, group_line, node_line, host_line, entry_line,
}
use mwfl.DockingSession.Fields.{
  PanelIsPrintable, GroupIsPrintable, NodeIsPrintable, HostIsPrintable, EntryIsPrintable,
  parse_panel-panel_line, parse_group-group_line, parse_node-node_line, parse_host-host_line,
  parse_entry-entry_line,
}
use mwfl.DockingSession.OneLine.{
  panel_one_line, group_one_line, node_one_line, host_one_line, entry_one_line, section_one_line,
  header_one_line, root_one_line,
}
use mwfl.Stream.Steps.{bind_inr, or_fail, read_line_lem}
use mwfl.DockingSession.Read.{
  read_section, parse_end, read_snapshot, check_graph, read_session, parse_session, section_lines,
  record_lines, serialize,
}

-- What a layout can hold for its text to be read back, within the limits.
pub record IsPrintable (limits : Limits) (s : Snapshot) : Type 0 where
  pub root_fits : s.main_root < u64_mod
  pub active_fits : IsProper s.active_panel
  pub panels_printable : All (PanelIsPrintable limits) s.panels
  pub groups_printable : All (GroupIsPrintable limits) s.groups
  pub nodes_printable : All NodeIsPrintable s.nodes
  pub hosts_printable : All (HostIsPrintable limits) s.floating_hosts
  pub entries_printable : All EntryIsPrintable s.auto_hide
  pub panels_fit : (length s.panels ≤ limits.maximum_panels) × (length s.panels < u64_mod)
  pub groups_fit : (length s.groups ≤ limits.maximum_groups) × (length s.groups < u64_mod)
  pub nodes_fit : (length s.nodes ≤ limits.maximum_nodes) × (length s.nodes < u64_mod)
  pub hosts_fit :
      (length s.floating_hosts ≤ limits.maximum_floating_hosts)
      × (length s.floating_hosts < u64_mod)
  pub entries_fit : (length s.auto_hide ≤ limits.maximum_auto_hide) × (length s.auto_hide < u64_mod)

parse_count-count_line :
    (c : ℕ) (w : Text) (n : ℕ)
    → IsWord (c ∷ w)
    → n < u64_mod
    → parse_count (c ∷ w) (count_line (c ∷ w) n) ≡ some n
unfolding parse_count count_line
parse_count-count_line c w n h k = ap value_of (
    Stream.bind_step _ _ _ (read_word-append c w (put (show n) []) h refl) (
      Stream.bind_step _ _ _ (read_unsigned-put 64 n [] k tt)
        (done_lem _ ((text_eq_iff (c ∷ w) (c ∷ w)).1 refl) refl)))

parse_header-header_line : parse_header header_line ≡ some 1
unfolding parse_header header_line is_space any
parse_header-header_line = ap value_of (
    Stream.bind_step _ _ _ (read_word-append 77 _ (put (show 1) []) (any-IsWord magic refl) refl) (
      Stream.bind_step _ _ _ (read_unsigned-put 32 1 [] (omega arith) tt)
        (done_lem _ ((text_eq_iff magic magic).1 refl) refl)))

parse_root-root_line :
    (s : Snapshot)
    → s.main_root < u64_mod
    → IsProper s.active_panel
    → parse_root (root_line s) ≡ some (s.main_root, s.active_panel)
unfolding parse_root root_line
parse_root-root_line s h k =
    let (small, back) = optional_back s.active_panel k in
    ap value_of (
      Stream.bind_step _ _ _ (tag_lem 82 _ refl) (
        Stream.bind_step _ _ _ (read_unsigned-put 64 s.main_root _ h refl) (
          Stream.bind_step _ _ _ (read_unsigned-put 64 (optional_code s.active_panel) [] small tt)
            (done_lem _ refl (×_path refl back)))))

-- A section gives back the list that it was written for.
read_section-section_lines :
    {A : Type 0} (c : ℕ) (w : Text) (maximum : ℕ) (p : Text → Option A) (print : A → Text)
    (xs : List A) (ls : List Text)
    → IsWord (c ∷ w) × ((c == 88) ≡ false)
    → (length xs ≤ maximum) × (length xs < u64_mod)
    → All (ReadsBack p print) xs
    → read_section (c ∷ w) maximum p (section_lines (c ∷ w) print xs ls) ≡ inr (xs, ls)
unfolding read_section section_lines count_line is_extension starts_with
read_section-section_lines c w maximum p print xs ls h k b =
    bind_inr _ _
      (read_line_lem _ _ _ _ (parse_count-count_line c w (length xs) h.0 k.1) (ground (arith, h.1)))
      (ground (arith, k.0, read_records-append p print xs ls b))

tagged : (c : ℕ) (rest : Text) → (c == 88) ≡ false → is_extension (c ∷ rest) ≡ false
unfolding is_extension starts_with
tagged c rest h = ground arith

is_tag :
    (c d : ℕ)
    → ltb 32 c && ltb c 128 && ltb 32 d && ltb d 128 && not (c == 88) ≡ true
    → IsWord (c ∷ d ∷ []) × ((c == 88) ≡ false)
unfolding is_space
is_tag c d h = ground arith

parse_end_lem : parse_end (codes "E") ≡ some tt
unfolding text_eq
parse_end_lem = refl

-- The records of a layout are read back from their lines.
module _ (f : DoubleFormat) (exact : IsExact f) (limits : Limits) where
  read_snapshot-record_lines :
      (s : Snapshot) → IsPrintable limits s → read_snapshot f limits (record_lines f s) ≡ inr s
  unfolding read_snapshot record_lines panel_line group_line node_line host_line entry_line
      root_line any ends_cleanly
  read_snapshot-record_lines s h =
      bind_inr _ _
        (read_line_lem _ _ _ _ (parse_root-root_line s h.root_fits h.active_fits)
          (tagged 82 _ refl))
        (bind_inr _ _
          (read_section-section_lines 80 _ _ _ panel_line s.panels _ (is_tag 80 67 refl)
            h.panels_fit
            (All-mono (λ p k. (parse_panel-panel_line limits p k, tagged 80 _ refl)) s.panels
              h.panels_printable))
          (bind_inr _ _
            (read_section-section_lines 71 _ _ _ group_line s.groups _ (is_tag 71 67 refl)
              h.groups_fit
              (All-mono (λ p k. (parse_group-group_line limits p k, tagged 71 _ refl)) s.groups
                h.groups_printable))
            (bind_inr _ _
              (read_section-section_lines 78 _ _ _ (node_line f) s.nodes _ (is_tag 78 67 refl)
                h.nodes_fit
                (All-mono (λ p k. (parse_node-node_line f p exact k, tagged 78 _ refl)) s.nodes
                  h.nodes_printable))
              (bind_inr _ _
                (read_section-section_lines 70 _ _ _ (host_line f) s.floating_hosts _
                  (is_tag 70 67 refl) h.hosts_fit
                  (All-mono (λ p k. (parse_host-host_line f limits p exact k, tagged 70 _ refl))
                    s.floating_hosts h.hosts_printable))
                (bind_inr _ _
                  (read_section-section_lines 65 _ _ _ entry_line s.auto_hide _ (is_tag 65 67 refl)
                    h.entries_fit
                    (All-mono (λ p k. (parse_entry-entry_line p k, tagged 65 _ refl)) s.auto_hide
                      h.entries_printable))
                  (bind_inr _ _
                    (read_line_lem malformed parse_end (codes "E") [] parse_end_lem
                      (tagged 69 _ refl))
                    refl))))))

module _ (f : DoubleFormat) (exact : IsExact f) (limits : Limits) where
  record_lines_one_line : (s : Snapshot) → IsPrintable limits s → All OneLine (record_lines f s)
  unfolding record_lines
  record_lines_one_line s h = (
    root_one_line s,
    section_one_line 80 67 panel_line s.panels _ refl
        (All-mono (panel_one_line limits) s.panels h.panels_printable)
        (section_one_line 71 67 group_line s.groups _ refl
          (All-mono (λ g k. group_one_line g) s.groups h.groups_printable)
          (section_one_line 78 67 (node_line f) s.nodes _ refl
            (All-mono (λ n k. node_one_line f n exact) s.nodes h.nodes_printable)
            (section_one_line 70 67 (host_line f) s.floating_hosts _ refl
              (All-mono (λ n k. host_one_line f limits n exact k) s.floating_hosts
                h.hosts_printable)
              (section_one_line 65 67 entry_line s.auto_hide _ refl
                (All-mono (λ e k. entry_one_line e) s.auto_hide h.entries_printable)
                ((refl, tt), tt))))),
  )

  read_session_lines :
      (s : Snapshot)
      → IsPrintable limits s
      → validate s ≡ LayoutStatus.success
      → read_session f limits (header_line ∷ record_lines f s) ≡ inr s
  unfolding read_session check_graph
  read_session_lines s h v =
      bind_inr _ _ (ap (or_fail malformed) parse_header-header_line)
        (bind_inr _ _ (read_snapshot-record_lines f exact limits s h) (rw v refl))

  module _ ⦃os : Utf8Api⦄ where
    -- A valid layout whose values can be printed, and whose text is within the size limit, is given
    -- back by the parser of its text.
    pub parse_session-serialize :
        (s : Snapshot) {bytes : ℕ}
        → IsPrintable limits s
        → validate s ≡ LayoutStatus.success
        → utf8_size (serialize f s) ≡ some bytes
        → bytes ≤ limits.maximum_bytes
        → parse_session f limits (serialize f s) ≡ inr s
    unfolding parse_session serialize
    parse_session-serialize s {bytes} h v u k = bind_inr _ _ (ap (or_fail malformed) u) (
        ground (
          arith,
          k,
          ap (read_session f limits) (
              lines-unlines (header_line ∷ record_lines f s)
                (header_one_line, record_lines_one_line s h)),
          read_session_lines s h v,
        ))
