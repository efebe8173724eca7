-- ===== src/DockingSession/Fields.antt =====
-- Each line of src/docking_session.cpp that stands for a record, read back: the record that its
-- parser gives is the one that was printed.
use mwfl.Prelude.{
  ℕ, ◌≤◌, ◌<◌, ◌≡◌, refl, ap, true, some, List, [], ◌∷◌, arith, u64_mod, length, All,
}
use mwfl.Docking.{
  PanelRole, GroupRole, NodeKind, group, split, Orientation, vertical, horizontal, Edge, left, top,
  right, bottom, Panel, Group, Node, FloatingHost, AutoHideEntry,
}
use mwfl.Prelude.Double.{is_finite}
use mwfl.Stream.{value_of, optional_code, bind_step}
use mwfl.Stream.Fields.{
  ×_path, done_lem, IsProper, tag_lem, pure_if_lem, optional_back, Ends, read_unsigned-put,
  read_bool-put, read_quoted-put,
}
use mwfl.Stream.Doubles.{DoubleFormat, IsExact}
use mwfl.Stream.Lines.{OneLine}
use mwfl.DockingSession.{
  Limits, panel_role_code, panel_role_of, group_role_code, group_role_of, kind_code, kind_of,
  orientation_code, orientation_of_code, edge_code, edge_of, panel_line, parse_panel, put_ids,
  group_line, read_ids, parse_group, host_line, parse_host, node_line, parse_node, entry_line,
  parse_entry,
}

-- What a record can hold for its line to be read back.
pub record PanelIsPrintable (limits : Limits) (p : Panel) : Type 0 where
  pub id_fits : p.id < u64_mod
  pub title_fits : length p.title ≤ limits.maximum_string_units
  pub title_is_one_line : OneLine p.title

pub record GroupIsPrintable (limits : Limits) (g : Group) : Type 0 where
  pub id_fits : g.id < u64_mod
  pub active_fits : IsProper g.active
  pub count_fits : length g.panels ≤ limits.maximum_panels
  pub size_fits : length g.panels < u64_mod
  pub panels_fit : All (λ id. id < u64_mod) g.panels

pub record NodeIsPrintable (n : Node) : Type 0 where
  pub id_fits : n.id < u64_mod
  pub group_fits : n.group < u64_mod
  pub first_fits : n.first < u64_mod
  pub second_fits : n.second < u64_mod
  pub ratio_is_finite : is_finite n.ratio ≡ true

pub record HostIsPrintable (limits : Limits) (h : FloatingHost) : Type 0 where
  pub id_fits : h.id < u64_mod
  pub root_fits : h.root < u64_mod
  pub x_is_finite : is_finite h.placement.x ≡ true
  pub y_is_finite : is_finite h.placement.y ≡ true
  pub width_is_finite : is_finite h.placement.width ≡ true
  pub height_is_finite : is_finite h.placement.height ≡ true
  pub key_fits : length h.placement.monitor_key ≤ limits.maximum_string_units
  pub key_is_one_line : OneLine h.placement.monitor_key

pub record EntryIsPrintable (e : AutoHideEntry) : Type 0 where
  pub panel_fits : e.panel < u64_mod
  pub order_fits : e.order < u64_mod

panel_role_back :
    (r : PanelRole) → (panel_role_code r < 2) × (panel_role_of (panel_role_code r) ≡ r)
panel_role_back PanelRole.document = (omega arith, refl)
panel_role_back PanelRole.tool = (omega arith, refl)

group_role_back :
    (r : GroupRole) → (group_role_code r < 2) × (group_role_of (group_role_code r) ≡ r)
group_role_back GroupRole.document = (omega arith, refl)
group_role_back GroupRole.tool = (omega arith, refl)

kind_back : (k : NodeKind) → (kind_code k < 2) × (kind_of (kind_code k) ≡ k)
kind_back group = (omega arith, refl)
kind_back split = (omega arith, refl)

orientation_back :
    (o : Orientation) → (orientation_code o < 2) × (orientation_of_code (orientation_code o) ≡ o)
orientation_back vertical = (omega arith, refl)
orientation_back horizontal = (omega arith, refl)

edge_back : (e : Edge) → (edge_code e < 4) × (edge_of (edge_code e) ≡ e)
edge_back left = (omega arith, refl)
edge_back top = (omega arith, refl)
edge_back right = (omega arith, refl)
edge_back bottom = (omega arith, refl)

pub parse_panel-panel_line :
    (limits : Limits) (p : Panel)
    → PanelIsPrintable limits p
    → parse_panel limits (panel_line p) ≡ some p
unfolding parse_panel panel_line
parse_panel-panel_line limits p h =
    let (small, back) = panel_role_back p.role in
    ap value_of (
      bind_step _ _ _ (tag_lem 80 _ refl) (
        bind_step _ _ _ (read_unsigned-put 64 p.id _ h.id_fits refl) (
          bind_step _ _ _ (read_unsigned-put 32 (panel_role_code p.role) _ (omega arith) refl) (
            bind_step _ _ _ (read_bool-put p.closable _ refl) (
              bind_step _ _ _ (read_quoted-put p.title _) (
                done_lem _ (ground (arith, h.title_fits))
                  (ap (λ r. record p { role = r }) back)))))))

Ends-put_ids : (ids : List ℕ) → Ends (put_ids ids [])
unfolding put_ids
Ends-put_ids [] = tt
Ends-put_ids (id ∷ ids) = refl

read_ids-put_ids :
    (ids : List ℕ)
    → All (λ id. id < u64_mod) ids
    → read_ids (length ids) (put_ids ids []) ≡ some (ids, [])
unfolding read_ids put_ids
read_ids-put_ids [] h = refl
read_ids-put_ids (id ∷ ids) h =
    rw
      (
        read_unsigned-put 64 id (put_ids ids []) h.0 (Ends-put_ids ids),
        read_ids,
        read_ids-put_ids ids h.1,
      )
      refl

pub parse_group-group_line :
    (limits : Limits) (g : Group)
    → GroupIsPrintable limits g
    → parse_group limits (group_line g) ≡ some g
unfolding parse_group group_line
parse_group-group_line limits g h =
    let (small, back) = group_role_back g.role in
    let (active_small, active_back) = optional_back g.active h.active_fits in
    ap value_of (
      bind_step _ _ _ (tag_lem 71 _ refl) (
        bind_step _ _ _ (read_unsigned-put 64 g.id _ h.id_fits refl) (
          bind_step _ _ _ (read_unsigned-put 32 (group_role_code g.role) _ (omega arith) refl) (
            bind_step _ _ _ (read_unsigned-put 64 (optional_code g.active) _ active_small refl) (
              bind_step _ _ _
                (read_unsigned-put 64 (length g.panels) _ h.size_fits (Ends-put_ids g.panels))
                (bind_step _ _ _
                  (pure_if_lem _ (length g.panels) (put_ids g.panels [])
                    (ground (arith, h.count_fits)))
                  (bind_step _ _ _ (read_ids-put_ids g.panels h.panels_fit) (
                    done_lem true refl (
                      ap (λ r. record g { role = r.0; active = r.1 })
                        (×_path back active_back))))))))))

pub parse_node-node_line :
    (f : DoubleFormat) (n : Node)
    → IsExact f
    → NodeIsPrintable n
    → parse_node f (node_line f n) ≡ some n
unfolding parse_node node_line
parse_node-node_line f n exact h =
    let (small, back) = kind_back n.kind in
    let (small', back') = orientation_back n.orientation in
    ap value_of (
      bind_step _ _ _ (tag_lem 78 _ refl) (
        bind_step _ _ _ (read_unsigned-put 64 n.id _ h.id_fits refl) (
          bind_step _ _ _ (read_unsigned-put 32 (kind_code n.kind) _ (omega arith) refl) (
            bind_step _ _ _ (read_unsigned-put 64 n.group _ h.group_fits refl) (
              bind_step _ _ _
                (read_unsigned-put 32 (orientation_code n.orientation) _ (omega arith) refl)
                (bind_step _ _ _ (read_unsigned-put 64 n.first _ h.first_fits refl) (
                  bind_step _ _ _ (read_unsigned-put 64 n.second _ h.second_fits refl) (
                    bind_step _ _ _ (exact.reads n.ratio _ h.ratio_is_finite tt)
                      (done_lem _ (ground arith) (rw (back, back') refl))))))))))

pub parse_host-host_line :
    (f : DoubleFormat) (limits : Limits) (h : FloatingHost)
    → IsExact f
    → HostIsPrintable limits h
    → parse_host f limits (host_line f h) ≡ some h
unfolding parse_host host_line
parse_host-host_line f limits h exact k = ap value_of (
    bind_step _ _ _ (tag_lem 70 _ refl) (
      bind_step _ _ _ (read_unsigned-put 64 h.id _ k.id_fits refl) (
        bind_step _ _ _ (read_unsigned-put 64 h.root _ k.root_fits refl) (
          bind_step _ _ _ (exact.reads h.placement.x _ k.x_is_finite refl) (
            bind_step _ _ _ (exact.reads h.placement.y _ k.y_is_finite refl) (
              bind_step _ _ _ (exact.reads h.placement.width _ k.width_is_finite refl) (
                bind_step _ _ _ (exact.reads h.placement.height _ k.height_is_finite refl) (
                  bind_step _ _ _ (read_quoted-put h.placement.monitor_key _)
                    (done_lem _ (ground (arith, k.key_fits)) refl)))))))))

pub parse_entry-entry_line :
    (e : AutoHideEntry) → EntryIsPrintable e → parse_entry (entry_line e) ≡ some e
unfolding parse_entry entry_line
parse_entry-entry_line e h =
    let (small, back) = edge_back e.edge in
    ap value_of (
      bind_step _ _ _ (tag_lem 65 _ refl) (
        bind_step _ _ _ (read_unsigned-put 64 e.panel _ h.panel_fits refl) (
          bind_step _ _ _ (read_unsigned-put 32 (edge_code e.edge) _ (omega arith) refl) (
            bind_step _ _ _ (read_unsigned-put 64 e.order _ h.order_fits tt)
              (done_lem _ (ground arith) (ap (λ r. record e { edge = r }) back))))))
