-- ===== src/DockingSession/OneLine.antt =====
-- Every line that src/docking_session.cpp writes for a printable layout is one line.
use mwfl.Prelude.{
  ◌||◌, ℕ, ◌≡◌, refl, true, false, ◌&&◌, List, [], ◌∷◌, map, arith, Text, ltb, ◌==◌, length, All,
  All-append,
}
use mwfl.Docking.{Panel, Group, Node, FloatingHost, AutoHideEntry, Snapshot}
use mwfl.Stream.{optional_code, put, show}
use mwfl.Stream.Doubles.{DoubleFormat, IsExact}
use mwfl.Stream.Printed.{show_one_line, show_bool_one_line, put_one_line, show_quoted_one_line}
use mwfl.Stream.Lines.{OneLine}
use mwfl.DockingSession.{
  Limits, panel_role_code, group_role_code, kind_code, orientation_code, edge_code, put_ids, magic,
  header_line, root_line, count_line, panel_line, group_line, node_line, host_line, entry_line,
}
use mwfl.DockingSession.Fields.{PanelIsPrintable, HostIsPrintable}
use mwfl.DockingSession.Read.{section_lines}

-- No line of a layout has a line feed or U+FFFF.
one : (t : Text) → OneLine t → OneLine (put t [])
one t h = put_one_line t [] h tt

pub panel_one_line :
    (limits : Limits) (p : Panel) → PanelIsPrintable limits p → OneLine (panel_line p)
unfolding panel_line
panel_one_line limits p h = (
  refl,
  put_one_line _ _ (show_one_line p.id) (
      put_one_line _ _ (show_one_line (panel_role_code p.role)) (
        put_one_line _ _ (show_bool_one_line p.closable)
          (one _ (show_quoted_one_line p.title h.title_is_one_line)))),
)

put_ids_one_line : (ids : List ℕ) → OneLine (put_ids ids [])
unfolding put_ids
put_ids_one_line [] = tt
put_ids_one_line (id ∷ ids) = put_one_line _ _ (show_one_line id) (put_ids_one_line ids)

pub group_one_line : (g : Group) → OneLine (group_line g)
unfolding group_line
group_one_line g = (
  refl,
  put_one_line _ _ (show_one_line g.id) (
      put_one_line _ _ (show_one_line (group_role_code g.role)) (
        put_one_line _ _ (show_one_line (optional_code g.active))
          (put_one_line _ _ (show_one_line (length g.panels)) (put_ids_one_line g.panels)))),
)

pub node_one_line : (f : DoubleFormat) (n : Node) → IsExact f → OneLine (node_line f n)
unfolding node_line
node_one_line f n exact = (
  refl,
  put_one_line _ _ (show_one_line n.id) (
      put_one_line _ _ (show_one_line (kind_code n.kind)) (
        put_one_line _ _ (show_one_line n.group) (
          put_one_line _ _ (show_one_line (orientation_code n.orientation)) (
            put_one_line _ _ (show_one_line n.first)
              (put_one_line _ _ (show_one_line n.second) (one _ (exact.one_line n.ratio))))))),
)

pub host_one_line :
    (f : DoubleFormat) (limits : Limits) (h : FloatingHost)
    → IsExact f
    → HostIsPrintable limits h
    → OneLine (host_line f h)
unfolding host_line
host_one_line f limits h exact k = (
  refl,
  put_one_line _ _ (show_one_line h.id) (
      put_one_line _ _ (show_one_line h.root) (
        put_one_line _ _ (exact.one_line h.placement.x) (
          put_one_line _ _ (exact.one_line h.placement.y) (
            put_one_line _ _ (exact.one_line h.placement.width) (
              put_one_line _ _ (exact.one_line h.placement.height)
                (one _ (show_quoted_one_line h.placement.monitor_key k.key_is_one_line))))))),
)

pub entry_one_line : (e : AutoHideEntry) → OneLine (entry_line e)
unfolding entry_line
entry_one_line e = (
  refl,
  put_one_line _ _ (show_one_line e.panel)
      (put_one_line _ _ (show_one_line (edge_code e.edge)) (one _ (show_one_line e.order))),
)

All-map :
    {A B : Type 0} (P : B → Type 0) (g : A → B) (xs : List A)
    → All (λ a. P (g a)) xs
    → All P (map g xs)
All-map P g [] h = tt
All-map P g (x ∷ xs) h = (h.0, All-map P g xs h.1)

pub section_one_line :
    {A : Type 0} (c d : ℕ) (print : A → Text) (xs : List A) (ls : List Text)
    → ltb 32 c && ltb c 128 && ltb 32 d && ltb d 128 ≡ true
    → All (λ a. OneLine (print a)) xs
    → All OneLine ls
    → All OneLine (section_lines (c ∷ d ∷ []) print xs ls)
unfolding section_lines count_line
section_one_line c d print xs ls t h k = (
  (ground arith, (ground arith, one _ (show_one_line (length xs)))),
  All-append OneLine (map print xs) ls (All-map OneLine print xs h) k,
)

pub header_one_line : OneLine header_line
unfolding header_line
header_one_line =
    All-append (λ c. ((c == 10) || (c == 65535)) ≡ false) magic (put (show 1) []) (ground arith)
      (one _ (show_one_line 1))

pub root_one_line : (s : Snapshot) → OneLine (root_line s)
unfolding root_line
root_one_line s = (
  refl,
  put_one_line _ _ (show_one_line s.main_root)
      (one _ (show_one_line (optional_code s.active_panel))),
)
