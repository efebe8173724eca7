-- ===== src/DockingSession/Accepted.antt =====
-- What src/docking_session.cpp accepts.
use mwfl.Prelude.{
  ℕ, zero, suc, ◌≤◌, ◌≡◌, refl, subst, inl, inr, true, Option, none, some, List, [], ◌∷◌, arith,
  Text, ltb, Bool-cases, Option-cases, length, All,
}
use mwfl.TextFile.{Utf8Api}
use mwfl.Docking.{Snapshot, LayoutStatus, is_success}
use mwfl.Docking.Validate.{validate}
use mwfl.Stream.Doubles.{DoubleFormat}
use mwfl.Stream.Lines.{utf8_size, lines, read_required, record_of, cons_record, read_records}
use mwfl.DockingSession.{Limits, schema_version}
use mwfl.Stream.Steps.{bind_split, or_fail}
use mwfl.Stream.Yields.{read_records-All}
use mwfl.DockingSession.Sized.{
  IsTitled, IsShown, IsPlaced, parse_panel-IsTitled, parse_group-IsShown, parse_host-IsPlaced,
}
use mwfl.DockingSession.Read.{read_section, read_snapshot, check_graph, read_session, parse_session}

-- The counts of a layout, and the sizes of its titles, its groups and its monitor keys.
pub record IsWithin (limits : Limits) (s : Snapshot) : Type 0 where
  pub panels : length s.panels ≤ limits.maximum_panels
  pub groups : length s.groups ≤ limits.maximum_groups
  pub nodes : length s.nodes ≤ limits.maximum_nodes
  pub hosts : length s.floating_hosts ≤ limits.maximum_floating_hosts
  pub entries : length s.auto_hide ≤ limits.maximum_auto_hide
  pub titles : All (IsTitled limits) s.panels
  pub shown : All (IsShown limits) s.groups
  pub keys : All (IsPlaced limits) s.floating_hosts

module _ {A : Type 0} (p : Text → Option A) where
  cons_length :
      (n : ℕ) (a : Option A) (r : Option (List A × List Text)) {xs : List A} {rest : List Text}
      → ((ys : List A) (others : List Text) → r ≡ some (ys, others) → length ys ≡ n)
      → cons_record a r ≡ some (xs, rest)
      → length xs ≡ suc n
  cons_length n none r k h = cc
  cons_length n (some a) none k h = cc
  cons_length n (some a) (some (ys, others)) k h = ground (arith, k ys others refl)

  record_length :
      (n : ℕ) (others : List Text → Option (List A × List Text)) (r : Option (Text × List Text))
      {xs : List A} {rest : List Text}
      → ((ls : List Text) (ys : List A) (left : List Text)
          → others ls ≡ some (ys, left)
          → length ys ≡ n)
      → record_of p others r ≡ some (xs, rest)
      → length xs ≡ suc n
  record_length n others none k h = cc
  record_length n others (some (l, ls)) k h = cons_length n (p l) (others ls) (k ls) h

  length-read_records :
      (n : ℕ) (ls : List Text) (xs : List A) (rest : List Text)
      → read_records p n ls ≡ some (xs, rest)
      → length xs ≡ n
  unfolding read_records
  length-read_records zero ls xs rest h = ground arith
  length-read_records (suc n) ls xs rest h =
      record_length n (read_records p n) (read_required ls) (length-read_records n) h

  section_within :
      (tag : Text) (maximum : ℕ) (ls : List Text) (r : List A × List Text)
      → read_section tag maximum p ls ≡ inr r
      → length r.0 ≤ maximum
  unfolding read_section
  section_within tag maximum ls r h =
      let (count, e, k) = bind_split _ _ h in
      elim (Option-cases (read_records p count.0 count.1)) [
        | inl none_left ↦ absurd (ground (arith, k, none_left))
        | inr (xs, found) ↦
            ground (arith, k, found, length-read_records count.0 count.1 xs.0 xs.1 found)
      ]

  section_all :
      (P : A → Type 0) (tag : Text) (maximum : ℕ) (ls : List Text) (r : List A × List Text)
      → ((l : Text) (a : A) → p l ≡ some a → P a)
      → read_section tag maximum p ls ≡ inr r
      → All P r.0
  unfolding read_section
  section_all P tag maximum ls r each h =
      let (count, e, k) = bind_split _ _ h in
      elim (Option-cases (read_records p count.0 count.1)) [
        | inl none_left ↦ absurd (ground (arith, k, none_left))
        | inr (xs, found) ↦
            subst (All P) {x = xs.0} (ground (arith, k, found))
              (read_records-All P p each count.0 count.1 xs.0 xs.1 found)
      ]

read_snapshot-IsWithin :
    (f : DoubleFormat) (limits : Limits) (ls : List Text) {s : Snapshot}
    → read_snapshot f limits ls ≡ inr s
    → IsWithin limits s
unfolding read_snapshot
read_snapshot-IsWithin f limits ls0 h =
    let (root, e0, k0) = bind_split _ _ h in
    let (panels, e1, k1) = bind_split _ _ k0 in
    let (groups, e2, k2) = bind_split _ _ k1 in
    let (nodes, e3, k3) = bind_split _ _ k2 in
    let (hosts, e4, k4) = bind_split _ _ k3 in
    let (entries, e5, k5) = bind_split _ _ k4 in
    let (end, e6, k6) = bind_split _ _ k5 in
    subst (IsWithin limits)
      {x = record {
        main_root = root.0.0;
        panels = panels.0;
        groups = groups.0;
        nodes = nodes.0;
        floating_hosts = hosts.0;
        auto_hide = entries.0;
        active_panel = root.0.1;
      }}
      (ground (arith, k6))
      record {
        panels = section_within _ _ _ _ panels e1;
        groups = section_within _ _ _ _ groups e2;
        nodes = section_within _ _ _ _ nodes e3;
        hosts = section_within _ _ _ _ hosts e4;
        entries = section_within _ _ _ _ entries e5;
        titles = section_all _ _ _ _ _ panels (parse_panel-IsTitled limits) e1;
        shown = section_all _ _ _ _ _ groups (parse_group-IsShown limits) e2;
        keys = section_all _ _ _ _ _ hosts (parse_host-IsPlaced f limits) e4;
      }

success_only : (status : LayoutStatus) → is_success status ≡ true → status ≡ LayoutStatus.success
success_only LayoutStatus.success h = refl
success_only LayoutStatus.invalid_argument h = cc
success_only LayoutStatus.duplicate_id h = cc
success_only LayoutStatus.not_found h = cc
success_only LayoutStatus.role_mismatch h = cc
success_only LayoutStatus.invalid_graph h = cc
success_only LayoutStatus.stale_transaction h = cc

or_fail-some :
    {A E : Type 0} (status : E) (o : Option A) {a : A} → or_fail status o ≡ inr a → o ≡ some a
or_fail-some status none h = cc
or_fail-some status (some b) h = ground (arith, h)

check_graph-success :
    (r : Snapshot) {s : Snapshot}
    → check_graph r ≡ inr s
    → (r ≡ s) × (validate r ≡ LayoutStatus.success)
unfolding check_graph
check_graph-success r h = elim (Bool-cases (is_success (validate r))) [
  | inl e ↦ (ground (arith, h, e), success_only (validate r) e)
  | inr e ↦ absurd (ground (arith, h, e))
]

read_session-IsAccepted :
    (f : DoubleFormat) (limits : Limits) (ls : List Text) {s : Snapshot}
    → read_session f limits ls ≡ inr s
    → IsWithin limits s × (validate s ≡ LayoutStatus.success)
unfolding read_session
read_session-IsAccepted f limits [] h = cc
read_session-IsAccepted f limits (header ∷ ls) {s} h =
    let (version, e0, k0) = bind_split _ _ h in
    elim (Bool-cases (ltb schema_version version)) [
      | inl newer ↦ absurd (ground (arith, k0, newer))
      | inr known ↦
          let (r, e1, k1) =
            bind_split (read_snapshot f limits ls) check_graph (ground (arith, k0, known)) in
          let (same, valid) = check_graph-success r k1 in
          subst (λ t. IsWithin limits t × (validate t ≡ LayoutStatus.success)) same
            (read_snapshot-IsWithin f limits ls e1, valid)
    ]

module _ ⦃os : Utf8Api⦄ where
  -- The text has a size in UTF-8, which is within the limit.
  abbrev pub Fits : Limits → Text → Type 0
  Fits limits text = (n : ℕ) × (utf8_size text ≡ some n) × (n ≤ limits.maximum_bytes)

  -- Where the parser returns a layout, the size of the text in UTF-8 is within its limit. In the
  -- layout the five lists of records, the lists of panels in the groups, the titles of the panels
  -- and the monitor keys of the floating hosts are within theirs, and `Validate` finds it right.
  pub parse_session-IsAccepted :
      (f : DoubleFormat) (limits : Limits) (text : Text) {s : Snapshot}
      → parse_session f limits text ≡ inr s
      → Fits limits text × IsWithin limits s × (validate s ≡ LayoutStatus.success)
  unfolding parse_session
  parse_session-IsAccepted f limits text h =
      let (bytes, e0, k0) = bind_split _ _ h in
      elim (Bool-cases (ltb limits.maximum_bytes bytes)) [
        | inl large ↦ absurd (ground (arith, k0, large))
        | inr fits ↦
            let size : Fits limits text =
              (bytes, or_fail-some _ (utf8_size text) e0, ground (arith, fits)) in
            let (within, valid) =
              read_session-IsAccepted f limits (lines text) (ground (arith, k0, fits)) in
            (size, within, valid)
      ]
